-- ===== src/Fallback/Order.antt =====
-- The order in which `retry_with_fallback_models` asks the models, and where it stops.
use achord_review.Prelude.{
  ℕ, suc, ◌+◌, ◌≤◌, ◌≡◌, refl, Bool, true, false, Option, some, List, [], ◌∷◌, ◌++◌, length, map,
  ltb, arith, ap, ◌∙◌, append_assoc, All, ◌==◌,
}
use achord_review.Text.{Text}
use achord_review.Fallback.{
  Outcome, success, failure, returned, raised, Session, after_attempt, retry_loop,
}
use achord_review.Fallback.Message.{Failure, format_all_models_failed, bounded_failure_reason}

-- A state that keeps the deployment that is set, the attempts made and the model recorded as used.
pub record Trace : Type 0 where
  pub deployment : Option Text
  pub tried : List (Text × Option Text)
  pub used : Option (Text × Bool)

-- Predictions `g` whose outcome depends on the model only.
abbrev pub traced {ℓ} : {A : Type ℓ} → (Text → Outcome A) → Session A Trace
traced g = record {
  set_deployment = λ d t. record { deployment = d; tried = t.tried; used = t.used };
  record_model_used = λ m is_fallback t. record {
    deployment = t.deployment;
    tried = t.tried;
    used = some (m, is_fallback);
  };
  predict = λ m t. (
    g m,
    record { deployment = t.deployment; tried = t.tried ++ (m, t.deployment) ∷ []; used = t.used },
  );
}

abbrev pub zip : List Text → List (Option Text) → List (Text × Option Text)
zip [] _ = []
zip (_ ∷ _) [] = []
zip (m ∷ ms) (d ∷ ds) = (m, d) ∷ zip ms ds

some_left : (xs : List Text) (m : Text) (rest : List Text) → 1 ≤ length (xs ++ m ∷ rest)
some_left [] m rest = omega arith
some_left (x ∷ xs) m rest = omega arith

not_last : (i count n : ℕ) → i + suc n ≡ count → 1 ≤ n → (suc i == count) ≡ false
not_last i count n e h = ground arith

module _ {ℓ} {A : Type ℓ} (g : Text → Outcome A) where
  abbrev pub Fails : Text → Type ℓ
  Fails m = (e : Failure) × (g m ≡ failure e)

  -- The models `failing` fail and `m` is the first that succeeds, with `r`.
  loop-success :
      (failing : List Text) (m : Text) (r : A) (rest : List Text) (i count : ℕ)
      (reasons : List (Text × Text)) (ds : List (Option Text)) (t : Trace)
      → All Fails failing
      → g m ≡ success r
      → i + length (failing ++ m ∷ rest) ≡ count
      → suc (length failing) ≤ length ds
      → let (result, after) = retry_loop (traced g) i count reasons (failing ++ m ∷ rest) ds t in
        (result ≡ returned r)
        × (after.used ≡ some (m, ltb 0 (i + length failing)))
        × (after.tried ≡ t.tried ++ zip (failing ++ m ∷ []) ds)
  unfolding retry_loop after_attempt
  loop-success failing m r rest i count reasons [] t f e c h = absurd (omega arith)
  loop-success [] m r rest i count reasons (d ∷ ds) t f e c h = rw e (refl, ground arith, refl)
  loop-success (x ∷ failing) m r rest i count reasons (d ∷ ds) t ((err, fx), f) e c h =
      let failed = reasons ++ (x, bounded_failure_reason err) ∷ [] in
      let after : Trace = record {
        deployment = d;
        tried = t.tried ++ (x, d) ∷ [];
        used = t.used;
      } in
      let (result, used, tried) =
        loop-success failing m r rest (suc i) count failed ds after f e (omega arith)
          (omega arith) in
      let more = not_last i count (length (failing ++ m ∷ rest)) c (some_left failing m rest) in
      rw (fx, more)
        (
          result,
          used ∙ ap (λ n. some (m, ltb 0 n)) (omega arith),
          tried ∙ append_assoc t.tried ((x, d) ∷ []) (zip (failing ++ m ∷ []) ds),
        )

  -- When the models `failing` fail and the model behind them is the first that succeeds, the call returns
  -- the result of this model, has asked just these models, in order and each with its deployment, and
  -- records the model as used, as a fallback unless it was the first.
  pub retry_loop-first_success :
      (failing : List Text) (m : Text) (r : A) (rest : List Text) (ds : List (Option Text))
      (t : Trace)
      → All Fails failing
      → g m ≡ success r
      → suc (length failing) ≤ length ds
      → let (result, after) =
          retry_loop (traced g) 0 (length (failing ++ m ∷ rest)) [] (failing ++ m ∷ rest) ds t in
        (result ≡ returned r)
        × (after.used ≡ some (m, ltb 0 (length failing)))
        × (after.tried ≡ t.tried ++ zip (failing ++ m ∷ []) ds)
  retry_loop-first_success failing m r rest ds t f e h =
      let (result, used, tried) =
        loop-success failing m r rest 0 (length (failing ++ m ∷ rest)) [] ds t f e (omega arith)
          h in
      (result, used ∙ ap (λ n. some (m, ltb 0 n)) (omega arith), tried)

  -- All of the models fail, with the errors of `error`.
  loop-failure :
      (error : Text → Failure) (m : Text) (models : List Text) (i count : ℕ)
      (reasons : List (Text × Text)) (ds : List (Option Text)) (t : Trace)
      → ((x : Text) → g x ≡ failure (error x))
      → i + suc (length models) ≡ count
      → suc (length models) ≤ length ds
      → let (result, after) = retry_loop (traced g) i count reasons (m ∷ models) ds t in
        (result
          ≡ raised (
              format_all_models_failed
                (reasons ++ map (λ x. (x, bounded_failure_reason (error x))) (m ∷ models))))
        × (after.used ≡ t.used)
        × (after.tried ≡ t.tried ++ zip (m ∷ models) ds)
  unfolding retry_loop after_attempt
  loop-failure error m models i count reasons [] t f c h = absurd (omega arith)
  loop-failure error m [] i count reasons (d ∷ ds) t f c h =
      let last : (suc i == count) ≡ true = ground arith in rw (f m, last) (refl, refl, refl)
  loop-failure error m (x ∷ models) i count reasons (d ∷ ds) t f c h =
      let failed = reasons ++ (m, bounded_failure_reason (error m)) ∷ [] in
      let after : Trace = record {
        deployment = d;
        tried = t.tried ++ (m, d) ∷ [];
        used = t.used;
      } in
      let (result, used, tried) =
        loop-failure error x models (suc i) count failed ds after f (omega arith) (omega arith) in
      let more : (suc i == count) ≡ false = ground arith in
      rw (f m, more)
        (
          result ∙ ap (λ l. raised (format_all_models_failed l)) (append_assoc reasons _ _),
          used,
          tried ∙ append_assoc t.tried ((m, d) ∷ []) (zip (x ∷ models) ds),
        )

  -- When every model fails, the call has asked all of them, in order and each with its deployment, records
  -- none as used, and raises the message that is made of every model and its reason.
  pub retry_loop-all_fail :
      (error : Text → Failure) (m : Text) (models : List Text) (ds : List (Option Text)) (t : Trace)
      → ((x : Text) → g x ≡ failure (error x))
      → suc (length models) ≤ length ds
      → let (result, after) = retry_loop (traced g) 0 (suc (length models)) [] (m ∷ models) ds t in
        (result
          ≡ raised (
              format_all_models_failed
                (map (λ x. (x, bounded_failure_reason (error x))) (m ∷ models))))
        × (after.used ≡ t.used)
        × (after.tried ≡ t.tried ++ zip (m ∷ models) ds)
  retry_loop-all_fail error m models ds t f h =
      loop-failure error m models 0 _ [] ds t f (omega arith) h

-- ===== src/Fallback/Laws.antt =====
-- How `retry_with_fallback_models` ends, and which models it asks.
use achord_review.Prelude.{
  ℕ, suc, ◌+◌, ◌≤◌, ◌≡◌, refl, false, Option, none, some, List, [], ◌∷◌, ◌++◌, length, take, map,
  ltb, arith, ap, length-append, length-take, Bool-cases, inl, inr, ltb_false→le, ltb→lt, ◌==◌,
}
use achord_review.Text.{Text}
use achord_review.Fallback.{
  Outcome, success, failure, Retried, returned, raised, nothing, too_few_deployments, Session,
  after_attempt, retry_loop, retry_with_fallback_models, ModelSettings, ModelType,
  assign_deployments, try_deployments, repeat, get_model, list_of, get_all_deployments,
  deployments_of, get_all_models,
}
use achord_review.Fallback.Message.{
  cut_message, format_all_models_failed, bounded_failure_reason, max_aggregate_error_chars,
}

length-cut_message : (m : Text) → length (cut_message m) ≤ 2000
unfolding cut_message
length-cut_message m = elim (Bool-cases (ltb max_aggregate_error_chars (length m))) [
  | inl h ↦
      rw h
        (omega (arith, ltb→lt _ _ h, length-append (take 1999 m) (0x2026 ∷ []), length-take 1999 m))
  | inr h ↦ rw h (ltb_false→le _ _ h)
]

-- The message about all models is never longer than 2000 code points.
length-format_all_models_failed :
    (reasons : List (Text × Text)) → length (format_all_models_failed reasons) ≤ 2000
unfolding format_all_models_failed
length-format_all_models_failed reasons = search length-cut_message

-- A result or an exception that says what failed, in at most 2000 code points, and not the `None` behind the loop.
abbrev pub IsReported {ℓ} : {A : Type ℓ} → Retried A → Type 0
IsReported (returned _) = Unit
IsReported (raised message) = length message ≤ 2000
IsReported too_few_deployments = Unit
IsReported nothing = ⊥

length-repeat : (d : Option Text) (models : List Text) → length (repeat d models) ≡ length models
length-repeat d [] = refl
length-repeat d (m ∷ models) = ap suc (length-repeat d models)

length-map-some : (ds : List Text) → length (map some ds) ≡ length ds
length-map-some [] = refl
length-map-some (d ∷ ds) = ap suc (length-map-some ds)

length-assign_deployments :
    (d : Option Text) (fallbacks models : List Text) (ds : List (Option Text))
    → assign_deployments d fallbacks models ≡ some ds
    → length models ≤ length ds
unfolding assign_deployments
length-assign_deployments d [] models ds h =
    omega (arith, length-repeat d models, ap length (some-injective h))
  where
    some-injective : {x y : List (Option Text)} → some x ≡ some y → x ≡ y
    some-injective {x} p = ap (λ o. elim o [ none ↦ x | some z ↦ z ]) p
length-assign_deployments d (e ∷ es) models ds h = ground (arith, length-map-some es)

module _ {ℓ κ} {A : Type ℓ} {S : Type κ} (session : Session A S) where
  after_attempt-IsReported :
      (i count : ℕ) (reasons : List (Text × Text)) (model : Text)
      (again : List (Text × Text) → S → Retried A × S) (attempt : Outcome A × S)
      → ((failed : List (Text × Text)) (s : S)
          → (suc i == count) ≡ false
          → IsReported (again failed s).0)
      → IsReported (after_attempt session i count reasons model again attempt).0
  unfolding after_attempt
  after_attempt-IsReported i count reasons model again (success r, s) h = tt
  after_attempt-IsReported i count reasons model again (failure e, s) h =
      let failed = reasons ++ (model, bounded_failure_reason e) ∷ [] in
      elim (Bool-cases (suc i == count)) [
        | inl last ↦ rw last (length-format_all_models_failed failed)
        | inr more ↦ rw more (h failed s more)
      ]

  retry_loop-IsReported :
      (i count : ℕ) (reasons : List (Text × Text)) (model : Text) (models : List Text)
      (ds : List (Option Text)) (s : S)
      → suc i + length models ≡ count
      → suc (length models) ≤ length ds
      → IsReported (retry_loop session i count reasons (model ∷ models) ds s).0
  unfolding retry_loop
  retry_loop-IsReported i count reasons model models [] s e h = absurd (omega arith)
  retry_loop-IsReported i count reasons model [] (d ∷ ds) s e h =
      after_attempt-IsReported i count reasons model
        (λ failed t. retry_loop session (suc i) count failed [] ds t)
        (session.predict model (session.set_deployment d s))
        (λ failed t more. absurd (ground arith))
  retry_loop-IsReported i count reasons model (m ∷ models) (d ∷ ds) s e h =
      after_attempt-IsReported i count reasons model
        (λ failed t. retry_loop session (suc i) count failed (m ∷ models) ds t)
        (session.predict model (session.set_deployment d s))
        (λ failed t more.
          retry_loop-IsReported (suc i) count failed m models ds t (omega arith) (omega arith))

  -- Whatever the settings, the state and the predictions, the call returns a result, raises the message
  -- about all models, of at most 2000 code points, or raises the error about the deployments; it never
  -- falls out of the loop.
  pub retry_with_fallback_models-IsReported :
      (st : ModelSettings) (model_type : ModelType) (s : S)
      → IsReported (retry_with_fallback_models session st model_type s).0
  unfolding retry_with_fallback_models get_all_models get_all_deployments try_deployments
  retry_with_fallback_models-IsReported st model_type s =
      started (list_of st.fallback_models) (get_all_deployments st (get_all_models st model_type))
        (λ ds.
          length-assign_deployments st.deployment_id (deployments_of st.fallback_deployments)
            (get_all_models st model_type) ds)
    where
      started :
          (models : List Text) (o : Option (List (Option Text)))
          → ((ds : List (Option Text)) → o ≡ some ds → suc (length models) ≤ length ds)
          → IsReported (try_deployments session (get_model st model_type ∷ models) o s).0
      started models none h = tt
      started models (some ds) h =
          retry_loop-IsReported 0 _ [] _ models ds s (omega arith) (h ds refl)

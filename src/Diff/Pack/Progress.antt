-- ===== src/Diff/Pack/Progress.antt =====
-- A pass shows at least one file whenever one of them fits on its own, so that repeated passes end.
use achord_review.Prelude.{
  ℕ, ◌+◌, ◌≡◌, refl, Bool, true, false, ◌&&◌, not, List, [], ◌∷◌, ◌++◌, arith, null, any, leb, inl,
  inr, Bool-cases,
}
use achord_review.Text.{Text}
use achord_review.Types.{TokenHandler, mem_text}
use achord_review.Diff.Pack.{
  Entry, FileDict, Pack, pack_step, pack_loop, pack_start, generate_full_patch, soft_threshold,
}

null-append_one {ℓ} : {A : Type ℓ} (xs : List A) (a : A) → null (xs ++ a ∷ []) ≡ false
null-append_one [] a = refl
null-append_one (x ∷ xs) a = refl

module _ (convert : Bool) (handler : TokenHandler) (max_tokens_model : ℕ) (prev : List Text) where
  -- An entry that is asked for, has a patch, and fits when nothing else is shown.
  abbrev pub fits_alone : Text × Entry → Bool
  fits_alone (filename, entry) =
      mem_text filename prev
      && not (null entry.patch)
      && leb (handler.prompt_tokens + entry.tokens + soft_threshold) max_tokens_model

  abbrev step : Pack → Text × Entry → Pack
  step = pack_step convert handler max_tokens_model prev

  abbrev loop : Pack → FileDict → Pack
  loop = pack_loop convert handler max_tokens_model prev

  step-shown :
      (s : Pack) (item : Text × Entry)
      → null s.files_in_patch ≡ false
      → null (step s item).files_in_patch ≡ false
  unfolding pack_step
  step-shown s (f, e) h = ground (arith, null-append_one s.files_in_patch f)

  step-first :
      (s : Pack) (item : Text × Entry)
      → s.total_tokens ≡ handler.prompt_tokens
      → fits_alone item ≡ true
      → null (step s item).files_in_patch ≡ false
  unfolding pack_step
  step-first s (f, e) t h = ground (arith, null-append_one s.files_in_patch f)

  -- As long as nothing is shown, nothing is counted.
  step-none :
      (s : Pack) (item : Text × Entry)
      → s.total_tokens ≡ handler.prompt_tokens
      → null (step s item).files_in_patch ≡ true
      → (step s item).total_tokens ≡ handler.prompt_tokens
  unfolding pack_step
  step-none s (f, e) t h = ground (arith, null-append_one s.files_in_patch f)

  loop-shown :
      (s : Pack) (dict : FileDict)
      → null s.files_in_patch ≡ false
      → null (loop s dict).files_in_patch ≡ false
  unfolding pack_loop
  loop-shown s [] h = h
  loop-shown s (item ∷ dict) h = loop-shown (step s item) dict (step-shown s item h)

  loop-first :
      (s : Pack) (dict : FileDict)
      → s.total_tokens ≡ handler.prompt_tokens
      → any fits_alone dict ≡ true
      → null (loop s dict).files_in_patch ≡ false
  unfolding pack_loop
  loop-first s [] t h = cc
  loop-first s (item ∷ dict) t h = elim (Bool-cases (null (step s item).files_in_patch)) [
    | inr shown ↦ loop-shown (step s item) dict shown
    | inl unshown ↦ elim (Bool-cases (fits_alone item)) [
      | inl fits ↦ cc (step-first s item t fits)
      | inr wide ↦ loop-first (step s item) dict (step-none s item t unshown) (rw wide at h)
    ]
  ]

  -- If some file that is asked for has a patch that fits the budget on its own, then the pass shows
  -- at least one file.
  pub generate_full_patch-progress :
      (file_dict : FileDict)
      → any fits_alone file_dict ≡ true
      → null (generate_full_patch convert handler max_tokens_model prev file_dict).files_in_patch
        ≡ false
  unfolding generate_full_patch
  generate_full_patch-progress file_dict h = loop-first (pack_start handler) file_dict refl h

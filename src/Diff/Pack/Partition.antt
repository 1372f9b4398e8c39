-- ===== src/Diff/Pack/Partition.antt =====
-- What becomes of the files of one pass: each is shown or is left for later.
use mathlib.Core.List.{Perm, perm_middle}
use mathlib.Core.List.Perm
use achord_review.Prelude.{
  ℕ, ◌+◌, ◌≡◌, Bool, true, false, List, [], ◌∷◌, ◌++◌, All, append_assoc, append-nil, null,
  Bool-cases, inl, inr, ltb, if◌then◌else◌, sym, subst,
}
use achord_review.Text.{Text}
use achord_review.Types.{TokenHandler, mem_text}
use achord_review.Diff.Pack.{
  Entry, FileDict, Pack, pack_step, pack_loop, pack_start, generate_full_patch, soft_threshold,
  hard_threshold,
}

shuffle {ℓ} :
    {A : Type ℓ} (xs ys zs : List A) (a : A)
    → Perm (((xs ++ a ∷ []) ++ ys) ++ zs) ((xs ++ ys) ++ a ∷ zs)
shuffle xs ys zs a =
    rw (append_assoc, append_assoc)
      (Perm.trans (perm_middle xs (ys ++ zs))
        (rw (← append_assoc xs ys zs) (Perm.symm (perm_middle (xs ++ ys) zs))))

-- The files that a pass has dealt with.
abbrev handled : Pack → List Text
handled s = s.files_in_patch ++ s.remaining_files

abbrev pub HasPatch : Text × Entry → Type 0
HasPatch item = null item.1.patch ≡ false

-- The names in `file_dict` that the pass is asked for.
pub names_asked : List Text → FileDict → List Text
names_asked prev [] = []
names_asked prev (item ∷ dict) =
    if mem_text item.0 prev then item.0 ∷ names_asked prev dict else names_asked prev dict

module _ (convert : Bool) (handler : TokenHandler) (max_tokens_model : ℕ) (prev : List Text) where
  abbrev step : Pack → Text × Entry → Pack
  step = pack_step convert handler max_tokens_model prev

  step-outside : (s : Pack) (item : Text × Entry) → mem_text item.0 prev ≡ false → step s item ≡ s
  unfolding pack_step
  step-outside s item m = rw m

  step-handled :
      (s : Pack) (item : Text × Entry) (rest : List Text)
      → mem_text item.0 prev ≡ true
      → null item.1.patch ≡ false
      → Perm (handled (step s item) ++ rest) (handled s ++ item.0 ∷ rest)
  unfolding pack_step
  step-handled s (f, e) rest m p =
      elim (Bool-cases (ltb max_tokens_model (s.total_tokens + hard_threshold))) [
        | inl hard ↦ rw (m, hard) (later s f rest)
        | inr room ↦
            elim (Bool-cases (ltb max_tokens_model (s.total_tokens + e.tokens + soft_threshold))) [
              | inl soft ↦ rw (m, room, soft) (later s f rest)
              | inr fits ↦ rw (m, room, fits, p) (shuffle s.files_in_patch s.remaining_files rest f)
            ]
      ]
    where
      later :
          (s : Pack) (f : Text) (rest : List Text)
          → Perm
              ((s.files_in_patch ++ (s.remaining_files ++ f ∷ [])) ++ rest)
              (handled s ++ f ∷ rest)
      later s f rest = rw (append_assoc, append_assoc, append_assoc) (Perm.refl _)

  loop-handled :
      (s : Pack) (dict : FileDict)
      → All HasPatch dict
      → Perm
          (handled (pack_loop convert handler max_tokens_model prev s dict))
          (handled s ++ names_asked prev dict)
  unfolding pack_loop names_asked
  loop-handled s [] h = rw append-nil (Perm.refl _)
  loop-handled s (item ∷ dict) h = elim (Bool-cases (mem_text item.0 prev)) [
    | inl m ↦ rw m (
        Perm.trans (loop-handled (step s item) dict h.1)
          (step-handled s item (names_asked prev dict) m h.0))
    | inr m ↦ rw m (
        subst
          (λ t.
            Perm (handled (pack_loop convert handler max_tokens_model prev t dict))
              (handled s ++ names_asked prev dict))
          (sym (step-outside s item m)) (loop-handled s dict h.1))
  ]

  -- If every entry has a patch, then the files shown and the files left over are, together, the
  -- files of `file_dict` that the pass is asked for, up to order: none is lost, doubled or added.
  pub generate_full_patch-partition :
      (file_dict : FileDict)
      → All HasPatch file_dict
      → Perm
          ((generate_full_patch convert handler max_tokens_model prev file_dict).files_in_patch
            ++ (generate_full_patch convert handler max_tokens_model prev
                file_dict).remaining_files)
          (names_asked prev file_dict)
  unfolding generate_full_patch
  generate_full_patch-partition file_dict h = loop-handled (pack_start handler) file_dict h

-- ===== src/Diff/Compress/Rounds.antt =====
-- The groups of patches that the iterations of `pr_generate_compressed_diff` make.
use achord_review.Prelude.{
  ℕ, zero, suc, ◌+◌, ◌≤◌, ◌-◌, max, ◌≡◌, ◌⊎◌, inl, inr, Bool, List, [], ◌∷◌, arith, All, All-append,
  null, false, ◌++◌, ap, sym, ◌∙◌, length, length-append, Bool-cases,
}
use achord_review.Text.{Text}
use achord_review.Types.{TokenHandler}
use achord_review.Diff.Pack.{FileDict, Pack, generate_full_patch, soft_threshold}
use achord_review.Diff.Pack.Budget.{
  sum_tokens, HasSlack, total_tokens-generate_full_patch, generate_full_patch-FitsBudget,
}
use achord_review.Diff.Compress.{Groups, first_group, add_group, more_groups, group_patches}

module _ (convert : Bool) (handler : TokenHandler) (max_tokens_model : ℕ)
    (file_dict : FileDict) where
  abbrev pass : List Text → Pack
  pass names = generate_full_patch convert handler max_tokens_model names file_dict

  abbrev more : ℕ → Groups → Groups
  more = more_groups convert handler max_tokens_model file_dict

  add_group-length :
      (g : Groups) (p : Pack) → length (add_group g p).patches_list ≤ length g.patches_list + 1
  add_group-length g p = ground (arith, length-append g.patches_list (p.patches ∷ []))

  length-more :
      (rounds : ℕ) (g : Groups)
      → length (more rounds g).patches_list ≤ length g.patches_list + rounds
  unfolding more_groups
  length-more zero g = omega arith
  length-more (suc rounds) g =
      let next = add_group g (pass g.remaining_files_list) in
      let l = add_group-length g (pass g.remaining_files_list) in
      let m = length-more rounds next in
      elim (Bool-cases (null g.remaining_files_list)) [
        | inl done ↦ rw done (omega arith)
        | inr open_files ↦ rw open_files (omega (arith, l, m))
      ]

  -- There is one group, or at most one for each call to the model but the one that is kept for the
  -- summary.
  length-group_patches :
      (large_pr_handling : Bool) (max_ai_calls : ℕ) (names : List Text)
      → length
          (group_patches convert handler max_tokens_model file_dict large_pr_handling max_ai_calls
            names).patches_list
        ≤ max 1 (max_ai_calls - 1)
  unfolding group_patches
  length-group_patches large_pr_handling max_ai_calls names =
      let m = length-more (max_ai_calls - 2) (first_group (pass names)) in
      elim (Bool-cases large_pr_handling) [
        | inl large ↦ rw large (omega (arith, m))
        | inr small ↦ rw small (omega arith)
      ]

  module _ (slack : ℕ) (slack_holds : All (HasSlack convert handler slack) file_dict) where
    -- The prompt and the patches keep the distance from the limit.
    abbrev pub KeepsFree : List Text → Type 0
    KeepsFree patches =
        handler.prompt_tokens + sum_tokens handler patches + soft_threshold
        ≤ max_tokens_model + slack

    abbrev pub IsFilled : List Text → Type 0
    IsFilled patches = (null patches ≡ false) × KeepsFree patches

    -- The groups of patches: a first one, which may be empty, and filled ones.
    abbrev pub IsWithin : List (List Text) → Type 0
    IsWithin [] = ⊥
    IsWithin (first ∷ others) = ((first ≡ []) ⊎ KeepsFree first) × All IsFilled others

    append-IsWithin :
        (groups : List (List Text)) (patches : List Text)
        → IsWithin groups
        → IsFilled patches
        → IsWithin (groups ++ patches ∷ [])
    append-IsWithin [] patches h filled = absurd h
    append-IsWithin (first ∷ others) patches (h, rest) filled =
        (h, All-append IsFilled others (patches ∷ []) rest (filled, tt))

    pass-KeepsFree :
        (names : List Text) → ((pass names).patches ≡ []) ⊎ KeepsFree (pass names).patches
    pass-KeepsFree names =
        within (pass names)
          (total_tokens-generate_full_patch convert handler max_tokens_model names file_dict)
          (generate_full_patch-FitsBudget convert handler max_tokens_model names slack file_dict
            slack_holds)
      where
        within :
            (p : Pack)
            → p.total_tokens ≡ handler.prompt_tokens + sum_tokens handler p.patches
            → (p.patches ≡ []) ⊎ (p.total_tokens + soft_threshold ≤ max_tokens_model + slack)
            → (p.patches ≡ []) ⊎ KeepsFree p.patches
        within p e (inl none) = inl none
        within p e (inr fits) = inr (omega arith)

    IsFilled-of :
        (patches : List Text)
        → (patches ≡ []) ⊎ KeepsFree patches
        → null patches ≡ false
        → IsFilled patches
    IsFilled-of patches (inl empty) shown = absurd (cc (sym shown ∙ ap null empty))
    IsFilled-of patches (inr fits) shown = (shown, fits)

    more-IsWithin :
        (rounds : ℕ) (g : Groups) → IsWithin g.patches_list → IsWithin (more rounds g).patches_list
    unfolding more_groups
    more-IsWithin zero g h = h
    more-IsWithin (suc rounds) g h = elim (Bool-cases (null g.remaining_files_list)) [
      | inl done ↦ rw done h
      | inr open_files ↦
          rw open_files
            (more-IsWithin rounds (add_group g (pass g.remaining_files_list)) (add-IsWithin g h))
    ]
      where
        add-IsWithin :
            (g : Groups)
            → IsWithin g.patches_list
            → IsWithin (add_group g (pass g.remaining_files_list)).patches_list
        add-IsWithin g h = elim (Bool-cases (null (pass g.remaining_files_list).patches)) [
          | inl nothing ↦ rw nothing h
          | inr shown ↦ rw shown (
              append-IsWithin g.patches_list _ h
                (IsFilled-of _ (pass-KeepsFree g.remaining_files_list) shown))
        ]

    -- If a heading costs at most `slack` tokens, then there is a first group of patches, which may be empty,
    -- and all groups behind it have patches; each group with patches, together with the prompt, keeps
    -- `soft_threshold - slack` tokens free. An empty first group, when nothing fits, is all that is exempt.
    pub group_patches-IsWithin :
        (large_pr_handling : Bool) (max_ai_calls : ℕ) (names : List Text)
        → IsWithin
            (group_patches convert handler max_tokens_model file_dict large_pr_handling max_ai_calls
              names).patches_list
    unfolding group_patches
    group_patches-IsWithin large_pr_handling max_ai_calls names =
        let first = first_group (pass names) in
        let h : IsWithin first.patches_list = (pass-KeepsFree names, tt) in
        elim (Bool-cases large_pr_handling) [
          | inl large ↦ rw large (more-IsWithin (max_ai_calls - 2) first h)
          | inr small ↦ rw small h
        ]

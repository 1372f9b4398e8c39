-- ===== src/Diff/Multi/Laws.antt =====
-- The diffs that `get_pr_multi_diffs` cuts a pull request into: their number and their size.
use achord_review.Prelude.{
  ℕ, suc, ◌+◌, ◌≤◌, ◌≡◌, refl, ◌⊎◌, inl, inr, Bool, true, false, Option, none, some, List, [], ◌∷◌,
  arith, All, All-append, length, length-append, null, ltb, Bool-cases, ap, subst, sym,
}
use achord_review.Text.{Text, join, newline, strip}
use achord_review.Types.{FilePatchInfo, TokenHandler}
use achord_review.Patch.Deletions.{handle_patch_deletions}
use achord_review.Diff.Pack.{soft_threshold}
use achord_review.Diff.Pack.Budget.{sum_tokens, sum_tokens-append}
use achord_review.Diff.Clip.{Tokenizer}
use achord_review.Diff.Extended.{DiffSettings, LargePatchPolicy, skip, clip, other}
use achord_review.Diff.Multi.{
  Chunks, is_over, too_large, keep_clipped, fit_large, fit_patch, show_kept, shown_patch,
  prepare_patch, add_patch, close_chunk, place_patch, place_prepared, chunk_step, chunk_loop,
  last_chunk, chunk_files,
}

-- A text that is made of patches which, with the prompt, leave the soft threshold free.
abbrev pub IsInBudget : TokenHandler → ℕ → Text → Type 0
IsInBudget handler max_tokens text =
    (ps : List Text) × ((text ≡ join newline ps) ⊎ (text ≡ strip (join newline ps)))
    × (handler.prompt_tokens + sum_tokens handler ps + soft_threshold ≤ max_tokens)

of_held {ℓ κ} : {A : Type ℓ} {P : Type κ} (xs : List A) → null xs ≡ false → (xs ≡ []) ⊎ P → P
of_held xs held (inl empty) = ground arith
of_held xs held (inr p) = p

module _ (st : DiffSettings) (handler : TokenHandler) (tokenizer : Tokenizer) (max_tokens : ℕ) where
  -- A prepared patch is counted, and fits with the prompt if there is anything of it.
  abbrev Fits : Option (Text × ℕ) → Type 0
  Fits none = Unit
  Fits (some (patch, tokens)) =
      (tokens ≡ handler.count_tokens patch)
      × ((null patch ≡ true) ⊎ (handler.prompt_tokens + tokens + soft_threshold ≤ max_tokens))

  small-fits :
      (patch : Text) (tokens : ℕ)
      → too_large st handler tokenizer max_tokens patch tokens ≡ false
      → (null patch ≡ true) ⊎ (handler.prompt_tokens + tokens + soft_threshold ≤ max_tokens)
  small-fits [] tokens h = inl refl
  small-fits (c ∷ patch) tokens h = inr (ground arith)

  keep_clipped-Fits : (patch : Text) → Fits (keep_clipped st handler tokenizer max_tokens patch)
  keep_clipped-Fits patch =
      elim (Bool-cases
        (too_large st handler tokenizer max_tokens patch (handler.count_tokens patch))) [
          | inl large ↦ rw large tt
          | inr small ↦ rw small (refl, small-fits patch (handler.count_tokens patch) small)
        ]

  fit_large-Fits :
      (policy : LargePatchPolicy) (patch : Text) (tokens : ℕ)
      → Fits (fit_large st handler tokenizer max_tokens policy patch tokens)
  unfolding fit_large
  fit_large-Fits clip patch tokens = keep_clipped-Fits _
  fit_large-Fits skip patch tokens = tt
  fit_large-Fits other patch tokens = tt

  fit_patch-Fits : (patch : Text) → Fits (fit_patch st handler tokenizer max_tokens patch)
  fit_patch-Fits patch =
      elim (Bool-cases
        (too_large st handler tokenizer max_tokens patch (handler.count_tokens patch))) [
          | inl large ↦
              rw large (fit_large-Fits st.large_patch_policy patch (handler.count_tokens patch))
          | inr small ↦ rw small (refl, small-fits patch (handler.count_tokens patch) small)
        ]

  show_kept-Fits :
      (n : Bool) (file : FilePatchInfo) (patch : Option Text)
      → Fits (show_kept st handler tokenizer max_tokens n file patch)
  show_kept-Fits n file none = tt
  show_kept-Fits n file (some patch) =
      fit_patch-Fits (shown_patch st handler tokenizer max_tokens n file patch)

  prepare_patch-Fits :
      (n : Bool) (file : FilePatchInfo)
      → Fits (prepare_patch st handler tokenizer max_tokens n file)
  unfolding prepare_patch
  prepare_patch-Fits n file = elim (Bool-cases (null file.patch)) [
    | inl p ↦ rw p tt
    | inr p ↦
        rw p
          (show_kept-Fits n file (handle_patch_deletions file.patch file.head_file file.edit_type))
  ]

  module _ (max_calls : ℕ) where
    record IsSound (s : Chunks) : Type 0 where
      counted : s.total_tokens ≡ handler.prompt_tokens + sum_tokens handler s.patches
      fitting : (s.patches ≡ []) ⊎ (s.total_tokens + soft_threshold ≤ max_tokens)
      numbered : length s.final_diff_list + 1 ≡ s.call_number
      called : s.call_number ≤ max_calls + 1
      finished : (s.patches ≡ []) ⊎ (s.call_number ≤ max_calls)
      within : All (IsInBudget handler max_tokens) s.final_diff_list

    abbrev place : Chunks → Text → ℕ → Chunks
    place = place_patch st handler tokenizer max_tokens max_calls

    close-IsSound :
        (s : Chunks)
        → IsSound s
        → s.total_tokens + soft_threshold ≤ max_tokens
        → s.call_number ≤ max_calls
        → IsSound (close_chunk st handler tokenizer max_tokens max_calls s)
    close-IsSound s h fits room = record {
      counted = omega arith;
      fitting = inl refl;
      numbered =
          omega (arith, length-append s.final_diff_list (join newline s.patches ∷ []), h.numbered);
      called = omega arith;
      finished = inl refl;
      within =
          All-append (IsInBudget handler max_tokens) s.final_diff_list _ h.within
            ((s.patches, inl refl, omega (arith, h.counted)), tt);
    }

    add-IsSound :
        (s : Chunks) (patch : Text)
        → IsSound s
        → s.total_tokens + handler.count_tokens patch + soft_threshold ≤ max_tokens
        → s.call_number ≤ max_calls
        → IsSound (
            add_patch st handler tokenizer max_tokens max_calls s patch
              (handler.count_tokens patch))
    add-IsSound s patch h fits room = record {
      counted = omega (arith, sum_tokens-append handler s.patches (patch ∷ []), h.counted);
      fitting = inr fits;
      numbered = h.numbered;
      called = h.called;
      finished = inr room;
      within = h.within;
    }

    -- A chunk that a patch does not fit into holds a patch already.
    full-fits :
        (s : Chunks) (tokens : ℕ)
        → IsSound s
        → is_over st handler tokenizer max_tokens (s.total_tokens + tokens) ≡ true
        → handler.prompt_tokens + tokens + soft_threshold ≤ max_tokens
        → s.total_tokens + soft_threshold ≤ max_tokens
    full-fits s tokens h over fits = elim h.fitting [
      | inl empty ↦
          let e : sum_tokens handler s.patches ≡ 0 = ap (sum_tokens handler) empty in
          absurd (ground (arith, h.counted, e))
      | inr held ↦ held
    ]

    place-IsSound :
        (s : Chunks) (patch : Text)
        → IsSound s
        → s.call_number ≤ max_calls
        → (null patch ≡ true)
          ⊎ (handler.prompt_tokens + handler.count_tokens patch + soft_threshold ≤ max_tokens)
        → IsSound (place s patch (handler.count_tokens patch))
    place-IsSound s patch h room (inl gone) = rw gone h
    place-IsSound s patch h room (inr fits) =
        let tokens = handler.count_tokens patch in
        elim (Bool-cases (null patch)) [
          | inl gone ↦ rw gone h
          | inr there ↦
              elim (Bool-cases
                (is_over st handler tokenizer max_tokens (s.total_tokens + tokens))) [
                  | inr small ↦ rw (there, small) (add-IsSound s patch h (ground arith) room)
                  | inl over ↦
                      let closed = close-IsSound s h (full-fits s tokens h over fits) room in
                      elim (Bool-cases (ltb max_calls (suc s.call_number))) [
                        | inl last ↦ rw (there, over, last) (rw last at closed)
                        | inr more ↦
                            rw (there, over, more)
                              (rw more at (
                                add-IsSound
                                  (close_chunk st handler tokenizer max_tokens max_calls s) patch
                                  closed fits (ground arith)))
                      ]
                ]
        ]

    place_prepared-IsSound :
        (s : Chunks) (o : Option (Text × ℕ))
        → IsSound s
        → s.call_number ≤ max_calls
        → Fits o
        → IsSound (place_prepared st handler tokenizer max_tokens max_calls s o)
    place_prepared-IsSound s none h room f = h
    place_prepared-IsSound s (some (patch, tokens)) h room (counted, fits) =
        subst (λ n. IsSound (place s patch n)) (sym counted)
          (place-IsSound s patch h room (rw counted at fits))

    step-IsSound :
        (n : Bool) (s : Chunks) (file : FilePatchInfo)
        → IsSound s
        → IsSound (chunk_step st handler tokenizer max_tokens max_calls n s file)
    unfolding chunk_step
    step-IsSound n s file h = elim (Bool-cases s.stopped) [
      | inl stop ↦ rw stop (stop_there s true h)
      | inr go ↦ elim (Bool-cases (ltb max_calls s.call_number)) [
        | inl past ↦ rw (go, past) (stop_there s true h)
        | inr room ↦
            rw (go, room)
              (rw go at (
                place_prepared-IsSound s (prepare_patch st handler tokenizer max_tokens n file) h
                  (ground arith) (prepare_patch-Fits n file)))
      ]
    ]
      where
        stop_there : (s : Chunks) (b : Bool) → IsSound s → IsSound (record s { stopped = b })
        stop_there s b h = record {
          counted = h.counted;
          fitting = h.fitting;
          numbered = h.numbered;
          called = h.called;
          finished = h.finished;
          within = h.within;
        }

    loop-IsSound :
        (n : Bool) (s : Chunks) (files : List FilePatchInfo)
        → IsSound s
        → IsSound (chunk_loop st handler tokenizer max_tokens max_calls n s files)
    unfolding chunk_loop
    loop-IsSound n s [] h = h
    loop-IsSound n s (file ∷ files) h =
        loop-IsSound n (chunk_step st handler tokenizer max_tokens max_calls n s file) files
          (step-IsSound n s file h)

    -- What the last chunk adds.
    last_sound :
        (s : Chunks)
        → IsSound s
        → (length (last_chunk st handler tokenizer max_tokens max_calls s) ≤ max_calls)
          × All
              (IsInBudget handler max_tokens)
              (last_chunk st handler tokenizer max_tokens max_calls s)
    last_sound s h = elim (Bool-cases (null s.patches)) [
      | inl empty ↦ rw empty (omega (arith, h.numbered, h.called), h.within)
      | inr held ↦
          let fits = of_held s.patches held h.fitting in
          let room = of_held s.patches held h.finished in
          rw held (
            omega (
              arith,
              length-append s.final_diff_list (strip (join newline s.patches) ∷ []),
              h.numbered,
            ),
            All-append (IsInBudget handler max_tokens) s.final_diff_list _ h.within
                ((s.patches, inr refl, omega (arith, h.counted)), tt),
          )
    ]

    -- The diffs of a pull request are at most `max_calls`, and each is made of patches that, with the
    -- prompt, leave the soft threshold of the model's tokens free.
    pub chunk_files_sound :
        (add_line_numbers : Bool) (files : List FilePatchInfo)
        → (length (chunk_files st handler tokenizer max_tokens max_calls add_line_numbers files)
            ≤ max_calls)
          × All
              (IsInBudget handler max_tokens)
              (chunk_files st handler tokenizer max_tokens max_calls add_line_numbers files)
    unfolding chunk_files
    chunk_files_sound add_line_numbers files = last_sound _ (
        loop-IsSound add_line_numbers _ files (record {
          counted = omega arith;
          fitting = inl refl;
          numbered = omega arith;
          called = omega arith;
          finished = inl refl;
          within = tt;
        }))

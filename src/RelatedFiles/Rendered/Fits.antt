-- ===== src/RelatedFiles/Rendered/Fits.antt =====
-- On the text of `_render` and its limits.
use achord_review.Prelude.{
  ℕ, zero, suc, ◌+◌, ◌-◌, ◌≤◌, ◌≡◌, refl, Bool, true, false, Option, none, some, List, [], ◌∷◌,
  ◌++◌, length, null, ltb, ◌==◌, if◌then◌else◌, Bool-cases, inl, inr, ◌⊎◌, arith, ltb_false→le,
  leb→le, ap, sym, ◌∙◌,
}
use achord_review.Text.{Text}
use achord_review.Text.Lines.{split_lines}
use achord_review.RepoContext.Render.{Files}
use achord_review.RelatedFiles.Search.{largest_fit, output_buffer}
use achord_review.RelatedFiles.Search.Sound.{search_sound}
use achord_review.RelatedFiles.Rendered.{
  Block, Limits, Oversized, Handler, Settings, fits, tokens_fit, assemble, block_of, block_for,
  fence_for, block_of_best, largest_prefix_that_fits, whole_pass, add_block, short_pass, render,
  budget_left, available_token_budget, render_related_files,
}

-- The blocks are none, or the text that is assembled from them fits.
abbrev pub IsFitting : Limits → List Block → Type 0
IsFitting limits blocks = (blocks ≡ []) ⊎ (fits limits (assemble blocks) ≡ true)

some-injective : {x y : Bool} → some x ≡ some y → x ≡ y
some-injective {x} p = ap (λ o. elim o [ none ↦ x | some z ↦ z ]) p

whole_pass-IsFitting :
    (limits : Limits) (files : Files) (blocks : List Block)
    → IsFitting limits blocks
    → IsFitting limits (whole_pass limits files blocks).0
unfolding whole_pass
whole_pass-IsFitting limits [] blocks h = h
whole_pass-IsFitting limits ((path, content) ∷ files) blocks h =
    let more = blocks ++ block_of path (fence_for content) (split_lines content) ∷ [] in
    elim (Bool-cases (fits limits (assemble more))) [
      | inl fit ↦ rw fit (whole_pass-IsFitting limits files more (inr fit))
      | inr unfit ↦ rw unfit (whole_pass-IsFitting limits files blocks h)
    ]

add_best-IsFitting :
    (limits : Limits) (blocks : List Block) (file : Oversized) (o : Option ℕ)
    → ((found : ℕ)
        → o ≡ some found
        → (found ≡ 0)
          ⊎ (some (fits limits (assemble (blocks ++ block_for file found ∷ []))) ≡ some true))
    → IsFitting limits blocks
    → IsFitting limits (add_block blocks (block_of_best file o))
unfolding block_of_best
add_best-IsFitting limits blocks file none seen h = h
add_best-IsFitting limits blocks file (some zero) seen h = h
add_best-IsFitting limits blocks file (some (suc count)) seen h = elim (seen (suc count) refl) [
  | inl e ↦ absurd (omega (arith, e))
  | inr fit ↦ inr (some-injective fit)
]

short_pass-IsFitting :
    (limits : Limits) (files : List Oversized) (blocks : List Block)
    → IsFitting limits blocks
    → IsFitting limits (short_pass limits files blocks)
unfolding short_pass largest_prefix_that_fits largest_fit
short_pass-IsFitting limits [] blocks h = h
short_pass-IsFitting limits (file ∷ files) blocks h =
    let seen : ℕ → Option Bool =
      λ count. some (fits limits (assemble (blocks ++ block_for file count ∷ []))) in
    let high = length file.lines - 1 in
    short_pass-IsFitting limits files
      (add_block blocks (largest_prefix_that_fits limits blocks file))
      (add_best-IsFitting limits blocks file (largest_fit seen high)
        (λ found. search_sound high seen 1 high 0 found) h)

-- Nothing is rendered, or a text that fits the limits.
render-fits :
    (limits : Limits) (files : Files)
    → (render limits files ≡ []) ⊎ (fits limits (render limits files) ≡ true)
unfolding render
render-fits limits files =
    let blocks = short_pass limits (whole_pass limits files []).1 (whole_pass limits files []).0 in
    elim (Bool-cases (null blocks)) [
      | inl e ↦ rw e (inl refl)
      | inr e ↦
          rw e
            (elim (short_pass-IsFitting limits (whole_pass limits files []).1
              (whole_pass limits files []).0 (whole_pass-IsFitting limits files [] (inl refl))) [
                | inl bare ↦ cc (sym e ∙ ap null bare)
                | inr fit ↦ inr fit
              ])
    ]

-- The text is within the lines, and with the prompt and the diff it leaves the output buffer of the window free.
abbrev pub IsWithin : Settings → ℕ → Handler → Text → Text → Type 0
IsWithin settings window handler diff shown =
    (length (split_lines shown) ≤ settings.max_total_lines)
    × ((tokens of_diff : ℕ) × (handler.count_tokens shown ≡ some tokens)
        × (handler.count_tokens diff ≡ some of_diff)
        × (handler.prompt_tokens + of_diff + tokens + output_buffer ≤ window)
        × (tokens ≤ settings.max_tokens))

abbrev limits_of : Settings → ℕ → Handler → Limits
limits_of settings budget handler = record {
  max_total_lines = settings.max_total_lines;
  max_tokens = budget;
  count_tokens = some handler.count_tokens;
}

-- The tokens of the diff are known where tokens are left.
budget_left-bound :
    (configured_max prompt_tokens budget window : ℕ) (of_diff : Option ℕ)
    → budget_left configured_max prompt_tokens (some window) of_diff ≡ suc budget
    → (tokens : ℕ) × (of_diff ≡ some tokens)
      × (prompt_tokens + tokens + suc budget + output_buffer ≤ window)
      × (suc budget ≤ configured_max)
budget_left-bound configured_max prompt_tokens budget window none h = absurd (omega (arith, h))
budget_left-bound configured_max prompt_tokens budget window (some tokens) h =
    (tokens, refl, omega (arith, h), omega (arith, h))

tokens_fit-bound :
    (budget : ℕ) (count : Text → Option ℕ) (s : Text) (o : Option ℕ)
    → count s ≡ o
    → tokens_fit (suc budget) (some count) s ≡ true
    → (tokens : ℕ) × (count s ≡ some tokens) × (tokens ≤ suc budget)
tokens_fit-bound budget count s none e h = cc (rw e at h)
tokens_fit-bound budget count s (some tokens) e h = (tokens, e, leb→le _ _ (rw e at h))

fits-bound :
    (settings : Settings) (budget : ℕ) (handler : Handler) (s : Text)
    → fits (limits_of settings (suc budget) handler) s ≡ true
    → (length (split_lines s) ≤ settings.max_total_lines)
      × ((tokens : ℕ) × (handler.count_tokens s ≡ some tokens) × (tokens ≤ suc budget))
unfolding fits
fits-bound settings budget handler s h =
    elim (Bool-cases (ltb settings.max_total_lines (length (split_lines s)))) [
      | inl long ↦ cc (rw long at h)
      | inr short ↦ (
        ltb_false→le _ _ short,
        tokens_fit-bound budget handler.count_tokens s _ refl (rw short at h),
      )
    ]

render-IsWithin :
    (settings : Settings) (files : Files) (window : ℕ) (handler : Handler) (diff : Text)
    (budget : ℕ)
    → available_token_budget (some window) (some handler) diff settings.max_tokens ≡ suc budget
    → (render (limits_of settings (suc budget) handler) files ≡ [])
      ⊎ IsWithin settings window handler diff
          (render (limits_of settings (suc budget) handler) files)
unfolding available_token_budget
render-IsWithin settings files window handler diff budget h =
    elim (render-fits (limits_of settings (suc budget) handler) files) [
      | inl bare ↦ inl bare
      | inr fit ↦
          let (few, (tokens, counted, small)) = fits-bound settings budget handler _ fit in
          let (of_diff, of_diff_counted, left, allowed) =
            budget_left-bound settings.max_tokens handler.prompt_tokens budget window
              (handler.count_tokens diff) h in
          inr (
            few,
            (
              tokens,
              of_diff,
              counted,
              of_diff_counted,
              omega (arith, small, left),
              omega (arith, small, allowed),
            ),
          )
    ]

abbrev rendered : Settings → Files → Handler → ℕ → Text
rendered settings files handler budget =
    if budget == 0 then [] else render (limits_of settings budget handler) files

rendered-IsWithin :
    (settings : Settings) (files : Files) (window : ℕ) (handler : Handler) (diff : Text)
    (budget : ℕ)
    → available_token_budget (some window) (some handler) diff settings.max_tokens ≡ budget
    → (rendered settings files handler budget ≡ [])
      ⊎ IsWithin settings window handler diff (rendered settings files handler budget)
rendered-IsWithin settings files window handler diff zero h = inl refl
rendered-IsWithin settings files window handler diff (suc budget) h =
    let positive : (suc budget == 0) ≡ false = ground arith in
    rw positive (render-IsWithin settings files window handler diff budget h)

-- For a model with a token handler nothing is rendered, or a text within the lines that are allowed, whose
-- tokens, with those of the prompt and the diff, leave the output buffer of the model's window free.
pub render_related_files-IsWithin :
    (settings : Settings) (files : Files) (window : ℕ) (handler : Handler) (diff : Text)
    → (render_related_files settings files (some window) (some handler) diff ≡ [])
      ⊎ IsWithin settings window handler diff
          (render_related_files settings files (some window) (some handler) diff)
unfolding render_related_files
render_related_files-IsWithin settings [] window handler diff = inl refl
render_related_files-IsWithin settings (file ∷ files) window handler diff =
    rendered-IsWithin settings (file ∷ files) window handler diff
      (available_token_budget (some window) (some handler) diff settings.max_tokens) refl

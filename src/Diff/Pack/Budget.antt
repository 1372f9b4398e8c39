-- ===== src/Diff/Pack/Budget.antt =====
-- The tokens of one pass: what is counted, and the bound that the thresholds enforce.
use achord_review.Prelude.{ℕ, ◌+◌, ◌≤◌, ◌≡◌, refl, ◌⊎◌, inl, Bool, List, [], ◌∷◌, ◌++◌, arith, All}
use achord_review.Text.{Text}
use achord_review.Types.{TokenHandler}
use achord_review.Diff.Pack.{
  Entry, FileDict, Pack, patch_final, pack_step, pack_loop, pack_start, generate_full_patch,
  soft_threshold,
}

-- The tokens of a list of texts.
abbrev pub sum_tokens : TokenHandler → List Text → ℕ
sum_tokens handler [] = 0
sum_tokens handler (p ∷ ps) = handler.count_tokens p + sum_tokens handler ps

pub sum_tokens-append :
    (handler : TokenHandler) (ps qs : List Text)
    → sum_tokens handler (ps ++ qs) ≡ sum_tokens handler ps + sum_tokens handler qs
sum_tokens-append handler [] qs = omega arith
sum_tokens-append handler (p ∷ ps) qs = omega (arith, sum_tokens-append handler ps qs)

-- Adding the heading to a patch costs at most `slack` tokens more than were counted for it.
abbrev pub HasSlack : Bool → TokenHandler → ℕ → Text × Entry → Type 0
HasSlack convert handler slack item =
    handler.count_tokens (patch_final convert item) ≤ item.1.tokens + slack

module _ (convert : Bool) (handler : TokenHandler) (max_tokens_model : ℕ) (prev : List Text) where
  abbrev step : Pack → Text × Entry → Pack
  step = pack_step convert handler max_tokens_model prev

  abbrev loop : Pack → FileDict → Pack
  loop = pack_loop convert handler max_tokens_model prev

  abbrev result : FileDict → Pack
  result = generate_full_patch convert handler max_tokens_model prev

  abbrev IsCounted : Pack → Type 0
  IsCounted s = s.total_tokens ≡ handler.prompt_tokens + sum_tokens handler s.patches

  pack_step-IsCounted : (s : Pack) (item : Text × Entry) → IsCounted s → IsCounted (step s item)
  unfolding pack_step
  pack_step-IsCounted s (filename, entry) h =
      ground
        (arith, sum_tokens-append handler s.patches (patch_final convert (filename, entry) ∷ []))

  pack_loop-IsCounted : (s : Pack) (dict : FileDict) → IsCounted s → IsCounted (loop s dict)
  unfolding pack_loop
  pack_loop-IsCounted s [] h = h
  pack_loop-IsCounted s (item ∷ dict) h =
      pack_loop-IsCounted (step s item) dict (pack_step-IsCounted s item h)

  -- The total that a pass reports is the prompt's tokens and those of the patches that it returns.
  pub total_tokens-generate_full_patch :
      (file_dict : FileDict)
      → (result file_dict).total_tokens
        ≡ handler.prompt_tokens + sum_tokens handler (result file_dict).patches
  unfolding generate_full_patch
  total_tokens-generate_full_patch file_dict =
      pack_loop-IsCounted (pack_start handler) file_dict (omega arith)

  module _ (slack : ℕ) where
    abbrev FitsBudget : Pack → Type 0
    FitsBudget s = (s.patches ≡ []) ⊎ (s.total_tokens + soft_threshold ≤ max_tokens_model + slack)

    pack_step-FitsBudget :
        (s : Pack) (item : Text × Entry)
        → HasSlack convert handler slack item
        → FitsBudget s
        → FitsBudget (step s item)
    unfolding pack_step
    pack_step-FitsBudget s (filename, entry) h f = ground arith

    pack_loop-FitsBudget :
        (s : Pack) (dict : FileDict)
        → All (HasSlack convert handler slack) dict
        → FitsBudget s
        → FitsBudget (loop s dict)
    unfolding pack_loop
    pack_loop-FitsBudget s [] h f = f
    pack_loop-FitsBudget s (item ∷ dict) h f =
        pack_loop-FitsBudget (step s item) dict h.1 (pack_step-FitsBudget s item h.0 f)

    -- If a heading costs at most `slack` tokens, then a pass that shows a file at all stays at least
    -- `soft_threshold - slack` tokens below the model's limit.
    pub generate_full_patch-FitsBudget :
        (file_dict : FileDict)
        → All (HasSlack convert handler slack) file_dict
        → ((result file_dict).patches ≡ [])
          ⊎ ((result file_dict).total_tokens + soft_threshold ≤ max_tokens_model + slack)
    unfolding generate_full_patch
    generate_full_patch-FitsBudget file_dict h =
        pack_loop-FitsBudget (pack_start handler) file_dict h (inl refl)

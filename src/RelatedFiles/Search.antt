-- ===== src/RelatedFiles/Search.antt =====
-- The two binary searches of pr_agent/algo/related_files.py, and `_candidates_that_fit`.
pub mod Longest
pub mod Sound
use achord_review.Prelude.{
  ℕ, zero, suc, ◌+◌, ◌-◌, ◌/◌, Bool, true, false, Option, none, some, List, [], ◌∷◌, length, take,
  leb, ◌==◌, if◌then◌else◌,
}
use achord_review.Text.{Text}

-- `while low <= high`, on fuel; `none` is an exception that a test raised.  A round lessens
-- `high + 1 - low`, so that `high` rounds are enough from `low = 1` on.
unfoldable pub search : ℕ → (ℕ → Option Bool) → ℕ → ℕ → ℕ → Option ℕ
search zero fits low high best = some best
search (suc fuel) fits low high best =
    let middle = (low + high) / 2 in
    if leb low high
    then elim (fits middle) [
      | none ↦ none
      | some fit ↦
          if fit
          then search fuel fits (middle + 1) high middle
          else search fuel fits low (middle - 1) best
    ]
    else some best

-- The largest of the numbers 1, …, `high` that was seen to fit, or 0.
unfoldable pub largest_fit : (ℕ → Option Bool) → ℕ → Option ℕ
unfolding search
largest_fit fits high = search high fits 1 high 0

abbrev pub output_buffer : ℕ
output_buffer = 1500

-- The window of the model and the count of the rendered prompt's tokens; `none` is an exception.
pub record Sizer : Type 0 where
  pub max_tokens : Option ℕ
  pub count_prompt : List Text → Option ℕ

-- The test that the prompt for these candidates leaves the output buffer free.
unfoldable pub fits_window : Sizer → List Text → Option Bool
fits_window sizer candidates = elim sizer.max_tokens [
  | none ↦ none
  | some window ↦ elim (sizer.count_prompt candidates) [
    | none ↦ none
    | some tokens ↦ some (leb (tokens + output_buffer) window)
  ]
]

-- `candidates[:best]`, and nothing where no prompt fits.
abbrev pub keep_best : List Text → Option ℕ → List Text
keep_best candidates none = []
keep_best candidates (some zero) = []
keep_best candidates (some (suc best)) = take (suc best) candidates

-- What is left of the candidates when not all of them fit.
unfoldable pub shorten : Sizer → List Text → List Text
unfolding largest_fit fits_window
shorten sizer candidates =
    keep_best candidates
      (largest_fit (λ count. fits_window sizer (take count candidates)) (length candidates - 1))

-- What follows the test of the whole list.
unfoldable pub after_test : Sizer → List Text → Option Bool → List Text
unfolding shorten
after_test sizer candidates none = []
after_test sizer candidates (some true) = candidates
after_test sizer candidates (some false) = shorten sizer candidates

-- `_candidates_that_fit`, whose first argument is `none` where there is no token handler.
unfoldable pub candidates_that_fit : Option Sizer → List Text → List Text
unfolding after_test
candidates_that_fit none candidates = candidates
candidates_that_fit (some sizer) [] = []
candidates_that_fit (some sizer) (path ∷ candidates) =
    after_test sizer (path ∷ candidates) (fits_window sizer (path ∷ candidates))

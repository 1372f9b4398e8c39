-- ===== src/Tests/Context.antt =====
-- The context that the repository gives a review, rendered and cached on small inputs.
use achord_review.Prelude.{ℕ, ◌<◌, ◌≡◌, refl, none, some, List, [], ◌∷◌, arith}
use achord_review.Text.{Text, codes, text_eq}
use achord_review.Text.Markup.Joined.{line_ends}
use achord_review.Types.{text_eq_refl, text_eq→eq}
use achord_review.RepoContext.Render.{Files, render_instruction_files_with_line_budget}
use achord_review.RepoContext.Render.Budget.{render_instruction_files_with_line_budget-bound}
use achord_review.RepoContext.Cache.{
  Keys, Limits, Call, gets, sets, run, get, lookup, read_entry, call, set_item, trim,
}
use achord_review.RepoContext.Cache.Sound.{get-stored, stored}

abbrev guide : Files
guide = (codes "docs/AGENTS.md", codes "one\ntwo\nthree\nfour\nfive") ∷ []

render_instruction_files_with_line_budget-bound_example :
    line_ends (render_instruction_files_with_line_budget guide 12) < 12
render_instruction_files_with_line_budget-bound_example =
    render_instruction_files_with_line_budget-bound guide 12 (refl, tt) (omega arith)

abbrev text_keys : Keys Text
text_keys = record { same = text_eq; same_refl = text_eq_refl; same→eq = text_eq→eq }

abbrev calls : List (Call Text)
calls =
    sets 1 (codes "a") (codes "old")
    ∷ sets 2 (codes "b") (codes "other")
    ∷ sets 3 (codes "a") (codes "new")
    ∷ gets 4 (codes "b")
    ∷ []

abbrev limits : Limits
limits = record { max_size = 2; ttl_seconds = 10 }

still_fresh :
    (get text_keys limits 5 (codes "a") (run text_keys limits calls [])).0 ≡ some (codes "new")
unfolding get lookup read_entry run call set_item trim text_eq
still_fresh = refl

evicted :
    (get text_keys limits 6 (codes "c") (
      run text_keys limits
        (sets 5 (codes "c") (codes "late")
          ∷ sets 6 (codes "d") (codes "later")
          ∷ sets 6 (codes "e") (codes "last")
          ∷ [])
        [])).0
    ≡ none
unfolding get lookup read_entry run call set_item trim text_eq
evicted = refl

get-stored_example :
    (expires_at : ℕ) × (stored text_keys limits (codes "a") none calls
      ≡ some (codes "new", expires_at))
    × (5 < expires_at)
get-stored_example = get-stored text_keys limits calls 5 (codes "a") (codes "new") still_fresh

-- ===== src/Dashboard/Life.antt =====
-- The life of the reviews as steps of their tables.
pub mod Later
pub mod Final
use achord_review.Prelude.{
  ℕ, suc, ◌≤◌, ◌≡◌, refl, Bool, true, false, ◌&&◌, ◌||◌, not, Option, none, some, List, [], ◌∷◌,
  ◌++◌, length, map, keep, any, ◌==◌, if◌then◌else◌, ◌⊎◌, inl, inr, Bool-cases, All, All-append,
  All-keep, All_map, arith, ap, sym, ◌∙◌, subst,
}
use achord_review.Text.{Text, text_eq}
use achord_review.Dashboard.Payload.{Issue}
use achord_review.Dashboard.Reviews.{
  Status, running, completed, failed, skipped, is_running, Usage, Outcome, Review, Store, Limits,
  Request, is_open, update, touch_review, cancel_review, complete_review, finish_without_issues,
  find_id, add_issues, finish_review, set_review_usage, set_review_metadata, new_review,
  create_review, close,
}
use achord_review.Dashboard.Retention.{
  delete_reviews, close_stale, delete_old, delete_excess, maintain_review_rows,
}

-- One call on the tables.
pub data Step (limits : Limits) : Store → Store → Type 0 where
  creates : (now : ℕ) (request : Request) (s : Store) → Step limits s (create_review now request s)
  touches : (now : ℕ) (request : Text) (s : Store) → Step limits s (touch_review now request s).0
  cancels : (review_id : ℕ) (s : Store) → Step limits s (cancel_review review_id s).0
  completes :
      (now : ℕ) (request : Text) (outcome : Outcome) (s : Store)
      → Step limits s (complete_review limits now request outcome s)
  fails :
      (now : ℕ) (request message : Text) (usage : Usage) (s : Store)
      → Step limits s (finish_without_issues failed now request message usage s).0
  skips :
      (now : ℕ) (request message : Text) (usage : Usage) (s : Store)
      → Step limits s (finish_without_issues skipped now request message usage s).0
  finishes :
      (now : ℕ) (request : Text) (issues : List (Option Issue)) (outcome : Outcome)
      (comment_url : Text) (usage : Usage) (s : Store)
      → Step limits s (finish_review limits now request issues outcome comment_url usage s).0
  sets_usage :
      (request : Text) (usage : Usage) (s : Store)
      → Step limits s (set_review_usage request usage s)
  sets_metadata :
      (request pr_title commit_sha : Text) (s : Store)
      → Step limits s (set_review_metadata request pr_title commit_sha s)
  maintains : (now : ℕ) (s : Store) → Step limits s (maintain_review_rows limits now s)

-- Calls one after the other.
pub data Run (limits : Limits) : Store → Store → Type 0 where
  stop : (s : Store) → Run limits s s
  next : (s t u : Store) → Step limits s t → Run limits t u → Run limits s u

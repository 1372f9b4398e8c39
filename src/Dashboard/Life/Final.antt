-- ===== src/Dashboard/Life/Final.antt =====
-- On the rows before and after calls.
use achord_review.Prelude.{
  ℕ, ◌≤◌, refl, Bool, true, false, Option, none, some, List, [], ◌∷◌, any, ◌⊎◌, inl, inr,
  Bool-cases, All, All-append, All_map, arith,
}
use achord_review.Text.{Text, text_eq}
use achord_review.Dashboard.Payload.{Issue, bounded_review_issues}
use achord_review.Dashboard.Reviews.{
  Usage, Outcome, Store, Limits, Request, touch_review, cancel_review, complete_review,
  finish_without_issues, find_id, add_issues, insert_findings, finish_review, set_review_usage,
  set_review_metadata, new_review, create_review,
}
use achord_review.Dashboard.Retention.{close_stale, delete_old, delete_excess, maintain_review_rows}
use achord_review.Dashboard.Life.{
  Step, creates, touches, cancels, completes, fails, skips, finishes, sets_usage, sets_metadata,
  maintains, Run, stop, next,
}
use achord_review.Dashboard.Life.Later.{
  Follows, Some, IsLater, self-Some, update-IsLater, is_running-running, is_open-running,
  delete_reviews-IsLater, IsLater-trans,
}

create_review-IsLater :
    (now : ℕ) (request : Request) (s : Store) → IsLater s (create_review now request s)
unfolding create_review
create_review-IsLater now request s =
    elim (Bool-cases (any (λ row. text_eq row.request_id request.request_id) s.reviews)) [
      | inl there ↦ rw there (omega arith, kept)
      | inr new ↦ rw new (
        omega arith,
        All-append _ s.reviews (new_review s.next_id now request ∷ []) kept (inl (omega arith), tt),
      )
    ]
  where
    kept : All (λ row. (s.next_id ≤ row.id) ⊎ Some (λ old. Follows old row) s.reviews) s.reviews
    kept = All_map _ (λ row p. inr p) s.reviews (self-Some s.reviews)

add_issues-IsLater :
    (s t : Store) (o : Option ℕ) (issues : List Issue)
    → IsLater s t
    → IsLater s (add_issues o issues t)
add_issues-IsLater s t none issues h = h
add_issues-IsLater s t (some review_id) issues h = h

insert_findings-IsLater :
    (limits : Limits) (request : Text) (issues : List (Option Issue)) (s t : Store) (found : Bool)
    → IsLater s t
    → IsLater s (insert_findings limits request issues (t, found)).0
unfolding insert_findings
insert_findings-IsLater limits request issues s t true h =
    add_issues-IsLater s t (find_id request t.reviews)
      (bounded_review_issues limits.max_review_findings_bytes issues) h
insert_findings-IsLater limits request issues s t false h = h

finish_review-IsLater :
    (limits : Limits) (now : ℕ) (request : Text) (issues : List (Option Issue)) (outcome : Outcome)
    (comment_url : Text) (usage : Usage) (s : Store)
    → IsLater s (finish_review limits now request issues outcome comment_url usage s).0
unfolding finish_review
finish_review-IsLater limits now request issues outcome comment_url usage s =
    insert_findings-IsLater limits request issues s _ _
      (update-IsLater _ _ s (λ row e. (refl, refl, inl (is_open-running request row e))))

maintain_review_rows-IsLater :
    (limits : Limits) (now : ℕ) (s : Store) → IsLater s (maintain_review_rows limits now s)
unfolding maintain_review_rows delete_excess delete_old close_stale
maintain_review_rows-IsLater limits now s =
    let stale = close_stale limits now s in
    let old = delete_old limits now stale in
    IsLater-trans s stale (delete_excess limits old)
      (update-IsLater _ _ s
        (λ row e. (refl, refl, inl (is_running-running row.status (ground arith)))))
      (IsLater-trans stale old (delete_excess limits old) (delete_reviews-IsLater _ stale)
        (delete_reviews-IsLater _ old))

Step-IsLater : (limits : Limits) (s t : Store) → Step limits s t → IsLater s t
unfolding touch_review cancel_review complete_review finish_without_issues set_review_usage
    set_review_metadata
Step-IsLater limits s _ (creates now request _) = create_review-IsLater now request s
Step-IsLater limits s _ (touches now request _) =
    update-IsLater _ _ s (λ row e. (refl, refl, inr (refl, refl, refl, refl)))
Step-IsLater limits s _ (cancels review_id _) =
    update-IsLater _ _ s (λ row e. (refl, refl, inr (refl, refl, refl, refl)))
Step-IsLater limits s _ (completes now request outcome _) =
    update-IsLater _ _ s (λ row e. (refl, refl, inl (is_open-running request row e)))
Step-IsLater limits s _ (fails now request message usage _) =
    update-IsLater _ _ s (λ row e. (refl, refl, inl (is_open-running request row e)))
Step-IsLater limits s _ (skips now request message usage _) =
    update-IsLater _ _ s (λ row e. (refl, refl, inl (is_open-running request row e)))
Step-IsLater limits s _ (finishes now request issues outcome comment_url usage _) =
    finish_review-IsLater limits now request issues outcome comment_url usage s
Step-IsLater limits s _ (sets_usage request usage _) =
    update-IsLater _ _ s (λ row e. (refl, refl, inr (refl, refl, refl, refl)))
Step-IsLater limits s _ (sets_metadata request pr_title commit_sha _) =
    update-IsLater _ _ s (λ row e. (refl, refl, inr (refl, refl, refl, refl)))
Step-IsLater limits s _ (maintains now _) = maintain_review_rows-IsLater limits now s

-- After any calls, every review is new or was there before with the same id and request id, and one that was
-- closed has kept its status, its verdict and outputs, its error message and the time of its end.
pub Run-IsLater : (limits : Limits) (s t : Store) → Run limits s t → IsLater s t
Run-IsLater limits s _ (stop _) =
    (omega arith, All_map _ (λ row p. inr p) s.reviews (self-Some s.reviews))
Run-IsLater limits s u (next _ t _ first more) =
    IsLater-trans s t u (Step-IsLater limits s t first) (Run-IsLater limits t u more)

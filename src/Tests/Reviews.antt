-- ===== src/Tests/Reviews.antt =====
-- The dashboard's reviews, closed, retried and bounded on small inputs.
use achord_review.Prelude.{ℕ, zero, suc, ◌≤◌, ◌≡◌, refl, true, none, some, [], ◌∷◌, length}
use achord_review.Text.{codes, text_eq}
use achord_review.Dashboard.Payload.{
  Issue, max_review_findings, bounded_review_issues, bounded_from, clean_issue, truncate_text_bytes,
  take_bytes, byte_size, byte_sizes,
}
use achord_review.Dashboard.Payload.Bounds.{total_bytes, bounded_review_issues-bound}
use achord_review.Dashboard.Reviews.{
  failed, Usage, Store, Limits, Request, no_outcome, new_review, finish_review,
  finish_without_issues, update, is_open, insert_findings,
}
use achord_review.Dashboard.Retention.{maintain_review_rows}
use achord_review.Dashboard.Life.{fails, maintains, Run, stop, next}
use achord_review.Dashboard.Life.Later.{IsLater}
use achord_review.Dashboard.Life.Final.{Run-IsLater}
use achord_review.Dashboard.Transaction.{
  Attempt, commits, locked, Result, after_attempt, transaction, reported, run_finish_without_issues,
  run_finish_review,
}
use achord_review.Dashboard.Transaction.Reported.{
  IsCommitted, run_finish_without_issues-IsCommitted,
}

abbrev no_usage : Usage
no_usage = record {
  model = [];
  reasoning_effort = [];
  prompt_tokens = 0;
  completion_tokens = 0;
  total_tokens = 0;
  duration_ms = 0;
}

abbrev limits : Limits
limits = record {
  stale_review_seconds = 1800;
  review_retention_days = 90;
  max_review_records = 100;
  max_review_payload_bytes = 65536;
  max_review_findings_bytes = 40;
}

abbrev request : Request
request = record {
  request_id = codes "r1";
  pr_title = [];
  commit_sha = [];
  model = codes "m";
  reasoning_effort = [];
}

abbrev empty_store : Store
empty_store = record { reviews = []; issues = []; next_id = 1 }

abbrev one_running : Store
one_running = record { reviews = new_review 1 5 request ∷ []; issues = []; next_id = 2 }

abbrev issue : Issue
issue = record {
  relevant_lines_start = some 3;
  relevant_lines_end = some 4;
  severity = codes "P1";
  relevant_file = codes "src/main.py";
  issue_summary = codes "The result is never checked.";
  suggestion = [];
}

abbrev closing : Store
closing = (finish_without_issues failed 9 (codes "r1") (codes "boom") no_usage one_running).0

abbrev life : Run limits one_running (maintain_review_rows limits 20 closing)
life =
    next one_running closing _ (fails 9 (codes "r1") (codes "boom") no_usage one_running)
      (next closing _ _ (maintains 20 closing) (stop _))

Run-IsLater_example : IsLater one_running (maintain_review_rows limits 20 closing)
Run-IsLater_example = Run-IsLater limits one_running (maintain_review_rows limits 20 closing) life

bounded_review_issues-bound_example :
    (length (bounded_review_issues 40 (some issue ∷ none ∷ some issue ∷ [])) ≤ max_review_findings)
    × (total_bytes (bounded_review_issues 40 (some issue ∷ none ∷ some issue ∷ [])) ≤ 40)
bounded_review_issues-bound_example =
    bounded_review_issues-bound 40 (some issue ∷ none ∷ some issue ∷ [])

one_is_stored : length (bounded_review_issues 40 (some issue ∷ none ∷ some issue ∷ [])) ≡ 1
unfolding bounded_review_issues bounded_from clean_issue truncate_text_bytes take_bytes byte_size
    byte_sizes
one_is_stored = refl

-- The first attempt is locked at its commit, the second one is committed.
abbrev attempts : ℕ → Attempt
attempts zero = record { others = λ s. s; ending = locked true }
attempts (suc i) = record { others = λ s. s; ending = commits }

is_reported :
    reported
      (run_finish_without_issues failed 9 (codes "r1") (codes "boom") no_usage attempts one_running)
    ≡ true
unfolding run_finish_without_issues transaction after_attempt finish_without_issues update is_open
    text_eq
is_reported = refl

run_finish_without_issues-IsCommitted_example :
    IsCommitted
      (finish_without_issues failed 9 (codes "r1") (codes "boom") no_usage)
      (run_finish_without_issues failed 9
        (codes "r1")
        (codes "boom")
        no_usage
        attempts
        one_running).store
run_finish_without_issues-IsCommitted_example =
    run_finish_without_issues-IsCommitted failed 9 (codes "r1") (codes "boom") no_usage attempts
      one_running is_reported

-- Another process closes the review between the two attempts.
abbrev interrupted : ℕ → Attempt
interrupted zero = record { others = λ s. s; ending = locked true }
interrupted (suc i) = record { others = λ _. closing; ending = commits }

abbrev finished : Result
finished =
    run_finish_review limits 10 (codes "r1") (some issue ∷ []) no_outcome [] no_usage interrupted
      one_running

reported_though_failed : reported finished ≡ true
unfolding run_finish_review transaction after_attempt finish_review insert_findings
    finish_without_issues update is_open text_eq
reported_though_failed = refl

no_issue_is_stored : finished.store.issues ≡ []
unfolding run_finish_review transaction after_attempt finish_review insert_findings
    finish_without_issues update is_open text_eq
no_issue_is_stored = refl

-- ===== src/Dashboard/Transaction/Reported.antt =====
-- On what `_transaction` reports and what it commits.
use achord_review.Prelude.{ℕ, zero, suc, ◌≡◌, refl, Bool, true, false, ap, ◌∙◌}
use achord_review.Text.{Text}
use achord_review.Dashboard.Reviews.{Status, Usage, Store, finish_without_issues}
use achord_review.Dashboard.Transaction.{
  Ending, commits, commits_unprotected, locked, fails, Attempt, Result, after_attempt, transaction,
  assigns, reported, run_finish_without_issues, max_retry,
}

-- The tables are what the statements made of some tables in which they found their row.
abbrev pub IsCommitted : (Store → Store × Bool) → Store → Type 0
IsCommitted statements after = (before : Store) × (statements before ≡ (after, true))

after_attempt-IsCommitted :
    (statements : Store → Store × Bool) (ending : Ending) (before : Store) (flag : Bool)
    (o : Store × Bool) (again : Store → Bool → Result)
    → statements before ≡ o
    → ((s : Store) (b : Bool)
        → reported (again s b) ≡ true
        → IsCommitted statements (again s b).store)
    → reported (after_attempt ending before flag o again) ≡ true
    → IsCommitted statements (after_attempt ending before flag o again).store
unfolding after_attempt
after_attempt-IsCommitted statements commits before flag (store, raised) again e later h =
    (before, e ∙ ap (λ b. (store, b)) h)
after_attempt-IsCommitted statements commits_unprotected before flag (store, raised) again e later
      h =
    cc h
after_attempt-IsCommitted statements (locked ran) before flag (store, raised) again e later h =
    later before _ h
after_attempt-IsCommitted statements (fails ran) before flag (store, raised) again e later h = cc h

transaction-IsCommitted :
    (n : ℕ) (statements : Store → Store × Bool) (attempts : ℕ → Attempt) (store : Store)
    (flag : Bool)
    → reported (transaction n (assigns statements) attempts store flag) ≡ true
    → IsCommitted statements (transaction n (assigns statements) attempts store flag).store
unfolding transaction
transaction-IsCommitted zero statements attempts store flag h = cc h
transaction-IsCommitted (suc n) statements attempts store flag h =
    after_attempt-IsCommitted statements (attempts 0).ending ((attempts 0).others store) flag _
      (transaction n (assigns statements) (λ i. attempts (suc i))) refl
      (transaction-IsCommitted n statements (λ i. attempts (suc i))) h

-- When `fail_review` or `skip_review` reports that it closed a review, then, whatever other processes did and
-- however often the database was locked, the tables are what its statements made of tables in which they
-- found exactly one running row of the request.
pub run_finish_without_issues-IsCommitted :
    (status : Status) (now : ℕ) (request message : Text) (usage : Usage) (attempts : ℕ → Attempt)
    (store : Store)
    → reported (run_finish_without_issues status now request message usage attempts store) ≡ true
    → IsCommitted
        (finish_without_issues status now request message usage)
        (run_finish_without_issues status now request message usage attempts store).store
unfolding run_finish_without_issues
run_finish_without_issues-IsCommitted status now request message usage attempts store h =
    transaction-IsCommitted max_retry (finish_without_issues status now request message usage)
      attempts store false h

-- ===== src/Dashboard/Transaction.antt =====
-- `_transaction` of pr_agent/dashboard/storage.py: a write that is tried again while the database is locked,
-- and what the callers report of it.
pub mod Reported
use achord_review.Prelude.{ℕ, zero, suc, Bool, true, false, ◌&&◌, ◌||◌, Option, List, if◌then◌else◌}
use achord_review.Text.{Text}
use achord_review.Dashboard.Payload.{Issue}
use achord_review.Dashboard.Reviews.{
  Status, Usage, Outcome, Store, Limits, cancel_review, touch_review, finish_without_issues,
  finish_review,
}

-- What becomes of an attempt: it is committed; it is committed and the protection of the file raises; the
-- database is locked, or another error is raised, and nothing is written.  The Boolean tells whether the
-- operation had come to its end before.
pub data Ending : Type 0 where
  commits : Ending
  commits_unprotected : Ending
  locked : Bool → Ending
  fails : Bool → Ending

-- What other processes do before an attempt, and its ending.
pub record Attempt : Type 0 where
  pub others : Store → Store
  pub ending : Ending

-- The statements of a caller, on the tables and on its local flag.
abbrev pub Operation : Type 0
Operation = Store → Bool → Store × Bool

-- The tables, the flag, and whether the transaction reports success.
pub record Result : Type 0 where
  pub store : Store
  pub flag : Bool
  pub succeeded : Bool

-- How an attempt goes on: with its result, or with another attempt.
unfoldable pub after_attempt :
    Ending → Store → Bool → Store × Bool → (Store → Bool → Result) → Result
after_attempt commits before flag (store, raised) again = record {
  store = store;
  flag = raised;
  succeeded = true;
}
after_attempt commits_unprotected before flag (store, raised) again = record {
  store = store;
  flag = raised;
  succeeded = false;
}
after_attempt (locked ran) before flag (store, raised) again =
    again before (if ran then raised else flag)
after_attempt (fails ran) before flag (store, raised) again = record {
  store = before;
  flag = if ran then raised else flag;
  succeeded = false;
}

-- `_transaction` with its number of attempts left; behind the last one a lock is an error.
unfoldable pub transaction : ℕ → Operation → (ℕ → Attempt) → Store → Bool → Result
unfolding after_attempt
transaction zero operation attempts store flag = record {
  store = store;
  flag = flag;
  succeeded = false;
}
transaction (suc n) operation attempts store flag =
    let before = (attempts 0).others store in
    after_attempt (attempts 0).ending before flag (operation before flag)
      (transaction n operation (λ i. attempts (suc i)))

abbrev pub max_retry : ℕ
max_retry = 3

-- The flag is what the last run of the statements found: `flag = cursor.rowcount == 1`.
abbrev pub assigns : (Store → Store × Bool) → Operation
assigns statements store flag = statements store

-- The flag is raised where a row was found, and stays as it is where none was.
abbrev pub raises : (Store → Store × Bool) → Operation
raises statements store flag = let (after, found) = statements store in (after, found || flag)

-- `self._transaction(…) and flag`
abbrev pub reported : Result → Bool
reported result = result.succeeded && result.flag

-- `touch_review`
unfoldable pub run_touch_review : ℕ → Text → (ℕ → Attempt) → Store → Result
unfolding transaction touch_review
run_touch_review now request attempts store =
    transaction 1 (assigns (touch_review now request)) attempts store false

-- `cancel_review`
unfoldable pub run_cancel_review : ℕ → (ℕ → Attempt) → Store → Result
unfolding transaction cancel_review
run_cancel_review review_id attempts store =
    transaction max_retry (assigns (cancel_review review_id)) attempts store false

-- `_finish_without_issues`
unfoldable pub run_finish_without_issues :
    Status → ℕ → Text → Text → Usage → (ℕ → Attempt) → Store → Result
unfolding transaction finish_without_issues
run_finish_without_issues status now request message usage attempts store =
    transaction max_retry (assigns (finish_without_issues status now request message usage))
      attempts store false

-- `finish_review`
unfoldable pub run_finish_review :
    Limits
    → ℕ
    → Text
    → List (Option Issue)
    → Outcome
    → Text
    → Usage
    → (ℕ → Attempt)
    → Store
    → Result
unfolding transaction finish_review
run_finish_review limits now request issues outcome comment_url usage attempts store =
    transaction max_retry
      (raises (finish_review limits now request issues outcome comment_url usage)) attempts store
      false

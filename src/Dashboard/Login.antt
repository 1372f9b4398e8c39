-- ===== src/Dashboard/Login.antt =====
-- `verify_login_attempt` of pr_agent/dashboard/storage.py: the lockout behind failed attempts, on the rows of
-- `dashboard_login_attempts`.
pub mod Counts
pub mod Lockout
use achord_review.Prelude.{
  ℕ, zero, suc, ◌+◌, ◌-◌, min, Bool, true, false, ◌&&◌, not, List, [], ◌∷◌, ◌++◌, length, keep, ltb,
  leb, ◌==◌, if◌then◌else◌,
}
use achord_review.Text.{Text, text_eq}

-- A failed attempt; the rows stand in the order of their ids.
pub record Failure : Type 0 where
  pub lockout_key : Text
  pub attempted_at : ℕ

pub record Rules : Type 0 where
  pub window_seconds : ℕ
  pub max_attempts : ℕ
  pub max_rows : ℕ

pub record Decision : Type 0 where
  pub authenticated : Bool
  pub locked_out : Bool
  pub failed_count : ℕ

-- An attempt: its key, whether the password matches, and its time.
pub record Attempt : Type 0 where
  pub key : Text
  pub password_matches : Bool
  pub now : ℕ

-- `lockout_key = ? AND attempted_at >= ?`
unfoldable pub counts_for : Text → ℕ → Failure → Bool
unfolding text_eq
counts_for key cutoff row = text_eq row.lockout_key key && leb cutoff row.attempted_at

abbrev earliest : Failure → List Failure → ℕ
earliest row [] = row.attempted_at
earliest row (other ∷ rows) = min row.attempted_at (earliest other rows)

abbrev remove_at : ℕ → List Failure → List Failure
remove_at time [] = []
remove_at time (row ∷ rows) = if row.attempted_at == time then rows else row ∷ remove_at time rows

abbrev remove_oldest : List Failure → List Failure
remove_oldest [] = []
remove_oldest (row ∷ rows) = remove_at (earliest row rows) (row ∷ rows)

-- The rows that are first by time and id go.
unfoldable pub evict : ℕ → List Failure → List Failure
evict zero rows = rows
evict (suc excess) rows = evict excess (remove_oldest rows)

-- The rows within the window of an attempt.
unfoldable pub purge : ℕ → List Failure → List Failure
purge cutoff = keep (λ row. not (ltb row.attempted_at cutoff))

unfoldable pub fail_attempt : Rules → Attempt → ℕ → List Failure → Decision × List Failure
unfolding evict
fail_attempt rules attempt failed_count rows =
    let more = rows ++ record { lockout_key = attempt.key; attempted_at = attempt.now } ∷ [] in
    (
      record { authenticated = false; locked_out = false; failed_count = suc failed_count },
      evict (length more - rules.max_rows) more,
    )

-- What follows the count.
unfoldable pub decide : Rules → Attempt → ℕ → List Failure → Decision × List Failure
unfolding fail_attempt text_eq
decide rules attempt failed_count rows =
    if leb rules.max_attempts failed_count
    then (record { authenticated = false; locked_out = true; failed_count = failed_count }, rows)
    else if attempt.password_matches
    then (
      record { authenticated = true; locked_out = false; failed_count = 0 },
      keep (λ row. not (text_eq row.lockout_key attempt.key)) rows,
    )
    else fail_attempt rules attempt failed_count rows

-- `verify_login_attempt`, where the transaction succeeds.
unfoldable pub verify_login_attempt : Rules → Attempt → List Failure → Decision × List Failure
unfolding decide purge counts_for
verify_login_attempt rules attempt rows =
    let cutoff = attempt.now - rules.window_seconds in
    let recent = purge cutoff rows in
    decide rules attempt (length (keep (counts_for attempt.key cutoff) recent)) recent

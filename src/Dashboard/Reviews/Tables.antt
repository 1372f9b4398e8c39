-- ===== src/Dashboard/Reviews/Tables.antt =====
-- The tables `reviews` and `review_issues`, and the settings: pr_agent/dashboard/storage.py.
use achord_review.Prelude.{ℕ, Bool, true, false, Option, List}
use achord_review.Text.{Text}
use achord_review.Dashboard.Payload.{Issue}

-- The column `status`.
pub data Status : Type 0 where
  running completed failed skipped : Status

abbrev pub is_running : Status → Bool
is_running running = true
is_running _ = false

-- The columns on what a run took.
pub record Usage : Type 0 where
  pub model : Text
  pub reasoning_effort : Text
  pub prompt_tokens : ℕ
  pub completion_tokens : ℕ
  pub total_tokens : ℕ
  pub duration_ms : ℕ

-- What a run concluded.
pub record Outcome : Type 0 where
  pub verdict : Text
  pub verdict_reason : Text
  pub markdown_output : Text
  pub raw_prediction : Text

-- A row of `reviews`, times in seconds; a text that is NULL is the empty one, and the columns that only
-- `create_review` sets and only the views read
-- are left out.
pub record Review : Type 0 where
  pub id : ℕ
  pub request_id : Text
  pub status : Status
  pub heartbeat_at : ℕ
  pub created_at : ℕ
  pub completed_at : Option ℕ
  pub cancel_requested : Bool
  pub outcome : Outcome
  pub error_message : Text
  pub review_comment_url : Text
  pub pr_title : Text
  pub commit_sha : Text
  pub usage : Usage

-- Both tables, with the review of each finding, and the next id, which is never given twice.
pub record Store : Type 0 where
  pub reviews : List Review
  pub issues : List (ℕ × Issue)
  pub next_id : ℕ

-- The settings of the module.
pub record Limits : Type 0 where
  pub stale_review_seconds : ℕ
  pub review_retention_days : ℕ
  pub max_review_records : ℕ
  pub max_review_payload_bytes : ℕ
  pub max_review_findings_bytes : ℕ

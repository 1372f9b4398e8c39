-- ===== src/Dashboard/Reviews.antt =====
-- The life of a review in the tables `reviews` and `review_issues`: pr_agent/dashboard/storage.py.
mod Tables
pub use Tables.*
use achord_review.Prelude.{
  ℕ, suc, Bool, true, false, ◌&&◌, Option, none, some, List, [], ◌∷◌, ◌++◌, length, map, keep, any,
  null, ltb, ◌==◌, if◌then◌else◌,
}
use achord_review.Text.{Text, text_eq}
use achord_review.Dashboard.Payload.{Issue, truncate_payload, bounded_review_issues}

-- `COALESCE(NULLIF(new, ''), old)`
abbrev pub or_old : Text → Text → Text
or_old new old = if null new then old else new

-- `CASE WHEN new > 0 THEN new ELSE old END`
abbrev pub positive_or_old : ℕ → ℕ → ℕ
positive_or_old new old = if ltb 0 new then new else old

abbrev pub live_usage : Usage → Usage → Usage
live_usage new old = record {
  model = or_old new.model old.model;
  reasoning_effort = or_old new.reasoning_effort old.reasoning_effort;
  prompt_tokens = positive_or_old new.prompt_tokens old.prompt_tokens;
  completion_tokens = positive_or_old new.completion_tokens old.completion_tokens;
  total_tokens = positive_or_old new.total_tokens old.total_tokens;
  duration_ms = positive_or_old new.duration_ms old.duration_ms;
}

-- `WHERE request_id=? AND status='RUNNING'`
unfoldable pub is_open : Text → Review → Bool
unfolding text_eq
is_open request row = text_eq row.request_id request && is_running row.status

-- `UPDATE reviews SET … WHERE …`: the rows, and `rowcount == 1`.
unfoldable pub update : (Review → Bool) → (Review → Review) → Store → Store × Bool
update here change store = (
  record store { reviews = map (λ row. if here row then change row else row) store.reviews },
  length (keep here store.reviews) == 1,
)

-- The statement of `touch_review`
unfoldable pub touch_review : ℕ → Text → Store → Store × Bool
unfolding update is_open
touch_review now request = update (is_open request) (λ row. record row { heartbeat_at = now })

-- The statement of `cancel_review`
unfoldable pub cancel_review : ℕ → Store → Store × Bool
unfolding update
cancel_review review_id =
    update (λ row. (row.id == review_id) && is_running row.status)
      (λ row. record row { cancel_requested = true })

-- `is_cancel_requested`
unfoldable pub is_cancel_requested : Text → Store → Bool
unfolding is_open
is_cancel_requested request store =
    any (λ row. is_open request row && row.cancel_requested) store.reviews

abbrev pub close : Status → ℕ → Review → Review
close status now row = record row { status = status; completed_at = some now }

unfoldable pub cut_outcome : Limits → Outcome → Outcome
unfolding truncate_payload
cut_outcome limits outcome = record outcome {
  markdown_output = truncate_payload limits.max_review_payload_bytes outcome.markdown_output;
  raw_prediction = truncate_payload limits.max_review_payload_bytes outcome.raw_prediction;
}

-- `complete_review`
unfoldable pub complete_review : Limits → ℕ → Text → Outcome → Store → Store
unfolding update is_open cut_outcome
complete_review limits now request outcome store =
    (update (is_open request)
      (λ row. record (close completed now row) { outcome = cut_outcome limits outcome }) store).0

-- The statement of `_finish_without_issues`, for `fail_review` and `skip_review`
unfoldable pub finish_without_issues : Status → ℕ → Text → Text → Usage → Store → Store × Bool
unfolding update is_open
finish_without_issues status now request message usage = update (is_open request) (λ row.
    record (close status now row) { error_message = message; usage = live_usage usage row.usage })

-- `SELECT id FROM reviews WHERE request_id = ?`
unfoldable pub find_id : Text → List Review → Option ℕ
unfolding text_eq
find_id request [] = none
find_id request (row ∷ rows) =
    if text_eq row.request_id request then some row.id else find_id request rows

abbrev pub add_issues : Option ℕ → List Issue → Store → Store
add_issues none issues store = store
add_issues (some review_id) issues store = record store {
  issues = store.issues ++ map (λ issue. (review_id, issue)) issues;
}

-- What follows the update in `finish_review`: without a row that was updated, nothing.
unfoldable pub insert_findings : Limits → Text → List (Option Issue) → Store × Bool → Store × Bool
unfolding bounded_review_issues find_id
insert_findings limits request issues (store, found) =
    if found
    then (
      add_issues (find_id request store.reviews)
          (bounded_review_issues limits.max_review_findings_bytes issues) store,
      true,
    )
    else (store, false)

-- The statements of `finish_review`
unfoldable pub finish_review :
    Limits → ℕ → Text → List (Option Issue) → Outcome → Text → Usage → Store → Store × Bool
unfolding update is_open cut_outcome insert_findings
finish_review limits now request issues outcome comment_url usage store =
    insert_findings limits request issues (
      update (is_open request)
        (λ row. record (close completed now row) {
          outcome = cut_outcome limits outcome;
          review_comment_url = or_old comment_url row.review_comment_url;
          usage = live_usage usage row.usage;
        })
        store)

-- `set_review_usage`
unfoldable pub set_review_usage : Text → Usage → Store → Store
unfolding update text_eq
set_review_usage request usage store =
    (update (λ row. text_eq row.request_id request)
      (λ row. record row {
        usage = record usage {
          model = or_old usage.model row.usage.model;
          reasoning_effort = or_old usage.reasoning_effort row.usage.reasoning_effort;
        };
      })
      store).0

-- `set_review_metadata`
unfoldable pub set_review_metadata : Text → Text → Text → Store → Store
unfolding update text_eq
set_review_metadata request pr_title commit_sha store =
    (update (λ row. text_eq row.request_id request)
      (λ row. record row {
        pr_title = or_old pr_title row.pr_title;
        commit_sha = or_old commit_sha row.commit_sha;
      })
      store).0

abbrev pub no_outcome : Outcome
no_outcome = record { verdict = []; verdict_reason = []; markdown_output = []; raw_prediction = [] }

-- What `create_review` is given.
pub record Request : Type 0 where
  pub request_id : Text
  pub pr_title : Text
  pub commit_sha : Text
  pub model : Text
  pub reasoning_effort : Text

abbrev pub new_review : ℕ → ℕ → Request → Review
new_review id now request = record {
  id = id;
  request_id = request.request_id;
  status = running;
  heartbeat_at = now;
  created_at = now;
  completed_at = none;
  cancel_requested = false;
  outcome = no_outcome;
  error_message = [];
  review_comment_url = [];
  pr_title = request.pr_title;
  commit_sha = request.commit_sha;
  usage = record {
    model = request.model;
    reasoning_effort = request.reasoning_effort;
    prompt_tokens = 0;
    completion_tokens = 0;
    total_tokens = 0;
    duration_ms = 0;
  };
}

-- The statement of `create_review`, which a request id that is there makes fail
unfoldable pub create_review : ℕ → Request → Store → Store
unfolding text_eq
create_review now request store =
    if any (λ row. text_eq row.request_id request.request_id) store.reviews
    then store
    else record store {
      reviews = store.reviews ++ new_review store.next_id now request ∷ [];
      next_id = suc store.next_id;
    }

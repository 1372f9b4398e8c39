-- ===== src/Tests/Runs.antt =====
-- Runs of the fallback loop, the run details, the inline comment store and the publish lock.
use achord_review.Prelude.{
  ℕ, ◌≡◌, refl, true, false, ◌||◌, none, some, List, [], ◌∷◌, All, any, map, leb, if◌then◌else◌,
  arith,
}
use achord_review.Prelude.Int.{pos}
use achord_review.Text.{Text, codes, text_eq}
use achord_review.Types.{mem_text}
use achord_review.Fallback.{
  Outcome, success, failure, returned, raised, ModelSettings, regular, names, comma_text,
  retry_loop, retry_with_fallback_models,
}
use achord_review.Fallback.Message.{Failure, format_all_models_failed, bounded_failure_reason}
use achord_review.Fallback.Laws.{IsReported, retry_with_fallback_models-IsReported}
use achord_review.Fallback.Order.{
  Trace, traced, Fails, retry_loop-first_success, retry_loop-all_fail,
}
use achord_review.RunDetails.{
  RunDetails, Event, model_used, ai_call, amount, run, on_event, record_model_used, record_ai_call,
  charge, add_cost, as_decimal_cost, add_token_usage, init_run_details, cost_status, complete,
}
use achord_review.RunDetails.Laws.{
  Adds, run-Adds, run-complete, run-fallback_used, all_priced, is_fallback_event,
}
use achord_review.Inline.Markers.{marker_fingerprints, body_with_markers}
use achord_review.Inline.Markers.RoundTrip.{body_with_markers-found}
use achord_review.Inline.Store.{
  Listing, load_call, seen_call, add_call, new_store, seen, add, release, run_calls,
}
use achord_review.Inline.Store.Laws.{adds, release-unseen, add-seen}
use achord_review.PublishLock.{
  Action, open_file, attempt, leave, tick, start, run_actions, step, act, try_lock, leave_body,
}
use achord_review.PublishLock.Waiting.{has_entered, run_actions-has_entered}
use achord_review.PublishLock.Exclusion.{holds, run_actions-exclusive}

-- Only `gpt` answers.
abbrev answers : Text → Outcome ℕ
answers [] = failure (record { text = []; class_name = codes "ValueError" })
answers (c ∷ _) =
    if leb 104 c
    then failure (record { text = codes "quota  error"; class_name = codes "APIError" })
    else success 7

abbrev quiet : Trace
quiet = record { deployment = none; tried = []; used = none }

o1-Fails : All (Fails answers) (codes "o1" ∷ [])
o1-Fails = ((record { text = codes "quota  error"; class_name = codes "APIError" }, refl), tt)

retry_loop-first_success_example :
    let (result, after) =
      retry_loop
        (traced answers)
        0
        3
        []
        (codes "o1" ∷ codes "gpt" ∷ codes "o3" ∷ [])
        (none ∷ none ∷ none ∷ [])
        quiet in
    (result ≡ returned 7)
    × (after.used ≡ some (codes "gpt", true))
    × (after.tried ≡ (codes "o1", none) ∷ (codes "gpt", none) ∷ [])
retry_loop-first_success_example =
    retry_loop-first_success answers (codes "o1" ∷ []) (codes "gpt") 7 (codes "o3" ∷ [])
      (none ∷ none ∷ none ∷ []) quiet o1-Fails refl (omega arith)

abbrev time_out : Text → Failure
time_out _ = record { text = []; class_name = codes "TimeoutError" }

abbrev never : Text → Outcome ℕ
never model = failure (time_out model)

retry_loop-all_fail_example :
    let (result, after) =
      retry_loop (traced never) 0 2 [] (codes "o1" ∷ codes "o3" ∷ []) (none ∷ none ∷ []) quiet in
    (result
      ≡ raised (
          format_all_models_failed
            (map (λ x. (x, bounded_failure_reason (time_out x))) (codes "o1" ∷ codes "o3" ∷ []))))
    × (after.used ≡ none)
    × (after.tried ≡ (codes "o1", none) ∷ (codes "o3", none) ∷ [])
retry_loop-all_fail_example =
    retry_loop-all_fail never time_out (codes "o1") (codes "o3" ∷ []) (none ∷ none ∷ []) quiet
      (λ _. refl) (omega arith)

abbrev models : ModelSettings
models = record {
  model = codes "o1";
  model_weak = [];
  model_reasoning = [];
  fallback_models = comma_text (codes "o3, gpt");
  deployment_id = none;
  fallback_deployments = names [];
}

retry_with_fallback_models-IsReported_example :
    IsReported (retry_with_fallback_models (traced never) models regular quiet).0
retry_with_fallback_models-IsReported_example =
    retry_with_fallback_models-IsReported (traced never) models regular quiet

abbrev events : List Event
events = ai_call none (some (codes "gpt")) (amount (pos 3)) ∷ model_used (codes "gpt") true ∷ []

run-Adds_example :
    (after : RunDetails) × (run events (some init_run_details) ≡ some after)
    × Adds init_run_details events after
run-Adds_example = run-Adds events init_run_details

abbrev ended : RunDetails
ended = record {
  model_used = some (codes "gpt");
  fallback_used = true;
  prompt_tokens = 0;
  completion_tokens = 0;
  total_tokens = 0;
  num_ai_calls = 1;
  total_cost_usd = 3;
  known_cost_call_count = 1;
  model_costs_usd = (codes "gpt", 3) ∷ [];
}

events-ended : run events (some init_run_details) ≡ some ended
unfolding run on_event record_model_used record_ai_call charge add_cost as_decimal_cost
    add_token_usage
events-ended = refl

ended-complete : cost_status ended ≡ complete
unfolding cost_status
ended-complete = refl

run-complete_example : all_priced events ≡ true
run-complete_example = run-complete events ended events-ended ended-complete

run-fallback_used_example :
    (after : RunDetails) × (run events (some init_run_details) ≡ some after)
    × (after.fallback_used ≡ (any is_fallback_event events || false))
run-fallback_used_example = run-fallback_used events init_run_details

abbrev first_fp : Text
first_fp = codes "0123456789ab"

abbrev second_fp : Text
second_fp = codes "fedcba987654"

body_with_markers-found_example :
    (mem_text first_fp (
        marker_fingerprints
          (body_with_markers (codes "Use a set") first_fp (some second_fp) (some 100)))
      ≡ true)
    × (mem_text second_fp (
          marker_fingerprints
            (body_with_markers (codes "Use a set") first_fp (some second_fp) (some 100)))
        ≡ true)
body_with_markers-found_example =
    body_with_markers-found (codes "Use a set") first_fp second_fp (some 100) (refl, refl)
      (refl, refl)

abbrev listing : Listing
listing = record { bodies = codes "<!-- pr-agent-dedup: 0123456789ab -->" ∷ []; broke = false }

is_released : mem_text first_fp (first_fp ∷ []) ≡ true
unfolding text_eq
is_released = refl

none_added :
    any (adds first_fp) (seen_call listing (some second_fp) ∷ add_call (some second_fp) ∷ [])
    ≡ false
unfolding adds text_eq
none_added = refl

release-unseen_example :
    (seen listing (some first_fp) (
      run_calls
        (seen_call listing (some second_fp) ∷ add_call (some second_fp) ∷ [])
        (release (first_fp ∷ []) new_store))).0
    ≡ false
release-unseen_example =
    release-unseen first_fp (first_fp ∷ []) new_store
      (seen_call listing (some second_fp) ∷ add_call (some second_fp) ∷ []) listing is_released
      none_added

add-seen_example :
    (seen listing
      (some second_fp)
      (run_calls (load_call listing ∷ []) (add (some second_fp) new_store))).0
    ≡ true
add-seen_example = add-seen second_fp new_store (load_call listing ∷ []) listing refl refl

abbrev schedule : List Action
schedule = open_file 1 ∷ open_file 2 ∷ attempt 1 ∷ attempt 2 ∷ leave 1 ∷ attempt 2 ∷ []

abbrev second : ℕ
second = 2

second-holds : holds ((run_actions 600 schedule start).phase second) ≡ true
unfolding run_actions step act try_lock leave_body
second-holds = refl

run_actions-exclusive_example : second ≡ second
run_actions-exclusive_example =
    run_actions-exclusive 600 schedule second second second-holds second-holds

-- Another process holds the lock all the time.
abbrev busy : List Action
busy = open_file 2 ∷ attempt 2 ∷ tick ∷ attempt 1 ∷ open_file 3 ∷ tick ∷ attempt 3 ∷ []

run_actions-has_entered_example :
    has_entered ((step 2 (attempt 1) (run_actions 2 busy (step 2 (open_file 1) start))).phase 1)
    ≡ true
run_actions-has_entered_example = run_actions-has_entered 2 1 busy start refl (omega arith)

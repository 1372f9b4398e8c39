-- ===== src/RunDetails.antt =====
-- pr_agent/algo/run_details.py: what one command run has used.
pub mod Tokens
pub mod Laws
use achord_review.Prelude.{
  ℕ, ◌+◌, Bool, true, false, ◌||◌, Option, none, some, List, [], ◌∷◌, ltb, ◌==◌, if◌then◌else◌,
}
use achord_review.Prelude.Int.{ℤ, pos, negsuc, leb_ℤ}
use achord_review.Text.{Text, codes, text_eq}

-- `class RunDetails`, without the clock. Costs are in a unit that divides every price.
pub record RunDetails : Type 0 where
  pub model_used : Option Text
  pub fallback_used : Bool
  pub prompt_tokens : ℕ
  pub completion_tokens : ℕ
  pub total_tokens : ℕ
  pub num_ai_calls : ℕ
  pub total_cost_usd : ℕ
  pub known_cost_call_count : ℕ
  pub model_costs_usd : List (Text × ℕ)

-- `RunDetails()`, as `init_run_details` installs it
abbrev pub init_run_details : RunDetails
init_run_details = record {
  model_used = none;
  fallback_used = false;
  prompt_tokens = 0;
  completion_tokens = 0;
  total_tokens = 0;
  num_ai_calls = 0;
  total_cost_usd = 0;
  known_cost_call_count = 0;
  model_costs_usd = [];
}

abbrev pub has_token_usage : RunDetails → Bool
has_token_usage d = ltb 0 d.total_tokens || (ltb 0 d.prompt_tokens || ltb 0 d.completion_tokens)

pub data CostStatus : Type 0 where
  unavailable complete partial : CostStatus

unfoldable pub cost_status : RunDetails → CostStatus
cost_status d =
    if d.known_cost_call_count == 0
    then unavailable
    else if d.known_cost_call_count == d.num_ai_calls
    then complete
    else partial

unfoldable pub record_model_used : Text → Bool → RunDetails → RunDetails
record_model_used model is_fallback d = record {
  model_used = some model;
  fallback_used = if is_fallback then true else d.fallback_used;
  prompt_tokens = d.prompt_tokens;
  completion_tokens = d.completion_tokens;
  total_tokens = d.total_tokens;
  num_ai_calls = d.num_ai_calls;
  total_cost_usd = d.total_cost_usd;
  known_cost_call_count = d.known_cost_call_count;
  model_costs_usd = d.model_costs_usd;
}

-- The fields of a usage object; `none` is a field that is absent or not an `int`.
pub record Usage : Type 0 where
  pub prompt : Option ℕ
  pub completion : Option ℕ
  pub total : Option ℕ

abbrev pub read_token_field : Option ℕ → ℕ
read_token_field none = 0
read_token_field (some n) = n

-- `_read_token_field(usage, "total_tokens") or (prompt_tokens + completion_tokens)`
unfoldable pub total_of : Usage → ℕ
total_of u =
    let reported = read_token_field u.total in
    if reported == 0 then read_token_field u.prompt + read_token_field u.completion else reported

unfoldable pub add_token_usage : Option Usage → RunDetails → RunDetails
unfolding total_of
add_token_usage none d = d
add_token_usage (some u) d = record {
  model_used = d.model_used;
  fallback_used = d.fallback_used;
  prompt_tokens = d.prompt_tokens + read_token_field u.prompt;
  completion_tokens = d.completion_tokens + read_token_field u.completion;
  total_tokens = d.total_tokens + total_of u;
  num_ai_calls = d.num_ai_calls;
  total_cost_usd = d.total_cost_usd;
  known_cost_call_count = d.known_cost_call_count;
  model_costs_usd = d.model_costs_usd;
}

-- What a caller hands over as `cost_usd`: nothing or a `bool`, a value that `Decimal` does not read,
-- an infinity or a NaN, or an amount.
pub data Cost : Type 0 where
  absent unreadable not_finite : Cost
  amount : ℤ → Cost

unfoldable pub as_decimal_cost : Cost → Option ℕ
as_decimal_cost (amount (pos n)) = if n == 0 then none else some n
as_decimal_cost _ = none

-- `costs[name] = costs.get(name, 0) + cost`
unfoldable pub add_cost : Text → ℕ → List (Text × ℕ) → List (Text × ℕ)
add_cost name cost [] = (name, cost) ∷ []
add_cost name cost ((n, c) ∷ costs) =
    let rest = add_cost name cost costs in
    if text_eq name n then (n, c + cost) ∷ costs else (n, c) ∷ rest

-- `model or "unknown"`
abbrev pub name_of : Option Text → Text
name_of none = codes "unknown"
name_of (some []) = codes "unknown"
name_of (some (c ∷ s)) = c ∷ s

abbrev pub count_call : RunDetails → RunDetails
count_call d = record {
  model_used = d.model_used;
  fallback_used = d.fallback_used;
  prompt_tokens = d.prompt_tokens;
  completion_tokens = d.completion_tokens;
  total_tokens = d.total_tokens;
  num_ai_calls = d.num_ai_calls + 1;
  total_cost_usd = d.total_cost_usd;
  known_cost_call_count = d.known_cost_call_count;
  model_costs_usd = d.model_costs_usd;
}

unfoldable pub charge : Option Text → Option ℕ → RunDetails → RunDetails
unfolding add_cost
charge model none d = d
charge model (some cost) d = record {
  model_used = d.model_used;
  fallback_used = d.fallback_used;
  prompt_tokens = d.prompt_tokens;
  completion_tokens = d.completion_tokens;
  total_tokens = d.total_tokens;
  num_ai_calls = d.num_ai_calls;
  total_cost_usd = d.total_cost_usd + cost;
  known_cost_call_count = d.known_cost_call_count + 1;
  model_costs_usd = add_cost (name_of model) cost d.model_costs_usd;
}

unfoldable pub record_ai_call : Option Usage → Option Text → Cost → RunDetails → RunDetails
unfolding add_token_usage charge as_decimal_cost
record_ai_call usage model cost_usd d =
    charge model (as_decimal_cost cost_usd) (add_token_usage usage (count_call d))

-- The calls that reach the collector of one run.
pub data Event : Type 0 where
  model_used : Text → Bool → Event
  token_usage : Option Usage → Event
  ai_call : Option Usage → Option Text → Cost → Event

unfoldable pub on_event : Event → RunDetails → RunDetails
unfolding record_model_used add_token_usage record_ai_call
on_event (model_used model is_fallback) d = record_model_used model is_fallback d
on_event (token_usage usage) d = add_token_usage usage d
on_event (ai_call usage model cost) d = record_ai_call usage model cost d

-- Without a collector, the calls return at once.
unfoldable pub run : List Event → Option RunDetails → Option RunDetails
unfolding on_event
run [] d = d
run (e ∷ events) none = run events none
run (e ∷ events) (some d) = run events (some (on_event e d))

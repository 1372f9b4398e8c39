-- ===== src/RunDetails/Tokens.antt =====
-- What the token counters of a run hold after one call.
use achord_review.Prelude.{
  ℕ, ◌+◌, ◌≡◌, refl, Option, none, some, List, [], ◌∷◌, arith, ap₂, ◌==◌, if◌then◌else◌, zero, suc,
}
use achord_review.Text.{Text}
use achord_review.RunDetails.{
  RunDetails, Event, model_used, token_usage, ai_call, on_event, record_model_used, add_token_usage,
  record_ai_call, charge, as_decimal_cost, count_call, Usage, read_token_field, total_of,
}

abbrev pub or_zero : Option ℕ → ℕ
or_zero none = 0
or_zero (some c) = c

-- The usage that an event reports.
abbrev pub usage_of : Event → Option Usage
usage_of (model_used _ _) = none
usage_of (token_usage usage) = usage
usage_of (ai_call usage _ _) = usage

abbrev pub prompt_in : Option Usage → ℕ
prompt_in none = 0
prompt_in (some u) = or_zero u.prompt

abbrev pub completion_in : Option Usage → ℕ
completion_in none = 0
completion_in (some u) = or_zero u.completion

-- A total that is reported counts, and else the sum of the two parts.
abbrev pub total_or : Option ℕ → ℕ → ℕ
total_or none parts = parts
total_or (some zero) parts = parts
total_or (some (suc n)) parts = suc n

abbrev pub total_in : Option Usage → ℕ
total_in none = 0
total_in (some u) = total_or u.total (or_zero u.prompt + or_zero u.completion)

-- The sum of a count over the usages of the events.
abbrev pub tokens_of : (Option Usage → ℕ) → List Event → ℕ
tokens_of count [] = 0
tokens_of count (e ∷ events) = count (usage_of e) + tokens_of count events

abbrev pub AddsTokens : RunDetails → List Event → RunDetails → Type 0
AddsTokens before events after =
    (after.prompt_tokens ≡ before.prompt_tokens + tokens_of prompt_in events)
    × (after.completion_tokens ≡ before.completion_tokens + tokens_of completion_in events)
    × (after.total_tokens ≡ before.total_tokens + tokens_of total_in events)

read_token_field-or_zero : (o : Option ℕ) → read_token_field o ≡ or_zero o
read_token_field-or_zero none = refl
read_token_field-or_zero (some n) = refl

total_of-total_in : (u : Usage) → total_of u ≡ total_in (some u)
unfolding total_of
total_of-total_in u = by_total u.total
  where
    by_total :
        (o : Option ℕ)
        → (if read_token_field o == 0
            then read_token_field u.prompt + read_token_field u.completion
            else read_token_field o)
          ≡ total_or o (or_zero u.prompt + or_zero u.completion)
    by_total none =
        ap₂ (◌+◌) (read_token_field-or_zero u.prompt) (read_token_field-or_zero u.completion)
    by_total (some zero) =
        ap₂ (◌+◌) (read_token_field-or_zero u.prompt) (read_token_field-or_zero u.completion)
    by_total (some (suc n)) = ground arith

add_token_usage-AddsTokens :
    (usage : Option Usage) (d : RunDetails)
    → AddsTokens d (token_usage usage ∷ []) (add_token_usage usage d)
unfolding add_token_usage
add_token_usage-AddsTokens none d = (omega arith, omega arith, omega arith)
add_token_usage-AddsTokens (some u) d = (
  omega (arith, read_token_field-or_zero u.prompt),
  omega (arith, read_token_field-or_zero u.completion),
  omega (arith, total_of-total_in u),
)

charge-AddsTokens :
    (model : Option Text) (o : Option ℕ) (usage : Option Usage) (d : RunDetails)
    → AddsTokens d (token_usage usage ∷ []) (charge model o (add_token_usage usage (count_call d)))
unfolding charge
charge-AddsTokens model none usage d = add_token_usage-AddsTokens usage (count_call d)
charge-AddsTokens model (some c) usage d = add_token_usage-AddsTokens usage (count_call d)

pub on_event-AddsTokens : (e : Event) (d : RunDetails) → AddsTokens d (e ∷ []) (on_event e d)
unfolding on_event record_model_used record_ai_call
on_event-AddsTokens (model_used model b) d = (omega arith, omega arith, omega arith)
on_event-AddsTokens (token_usage usage) d = add_token_usage-AddsTokens usage d
on_event-AddsTokens (ai_call usage model cost) d =
    charge-AddsTokens model (as_decimal_cost cost) usage d

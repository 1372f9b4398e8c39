-- ===== src/RunDetails/Laws.antt =====
-- What the collector of a run holds after any calls.
use achord_review.Prelude.{
  ℕ, ◌+◌, ◌≤◌, ◌≡◌, refl, Bool, true, false, ◌||◌, ◌&&◌, Option, none, some, List, [], ◌∷◌,
  Bool-cases, Option-cases, inl, inr, arith, any, ap, ◌∙◌, sym, subst,
}
use achord_review.Text.{Text, text_eq}
use achord_review.RunDetails.{
  RunDetails, Event, model_used, token_usage, ai_call, run, on_event, record_model_used,
  add_token_usage, record_ai_call, charge, add_cost, as_decimal_cost, count_call, init_run_details,
  cost_status, complete, Cost, name_of, Usage,
}
use achord_review.RunDetails.Tokens.{or_zero, AddsTokens, on_event-AddsTokens}

abbrev pub sum_costs : List (Text × ℕ) → ℕ
sum_costs [] = 0
sum_costs ((_, c) ∷ costs) = c + sum_costs costs

sum_costs-add_cost :
    (name : Text) (cost : ℕ) (costs : List (Text × ℕ))
    → sum_costs (add_cost name cost costs) ≡ sum_costs costs + cost
unfolding add_cost
sum_costs-add_cost name cost [] = omega arith
sum_costs-add_cost name cost ((n, c) ∷ costs) = elim (Bool-cases (text_eq name n)) [
  | inl e ↦ rw e (omega arith)
  | inr e ↦ rw e (omega (arith, sum_costs-add_cost name cost costs))
]

-- How many events are calls, and how many of them have a price.
abbrev pub calls_of : List Event → ℕ
calls_of [] = 0
calls_of (ai_call _ _ _ ∷ events) = 1 + calls_of events
calls_of (_ ∷ events) = calls_of events

abbrev pub one_if_some : Option ℕ → ℕ
one_if_some none = 0
one_if_some (some _) = 1

unfoldable pub priced_calls_of : List Event → ℕ
unfolding as_decimal_cost
priced_calls_of [] = 0
priced_calls_of (ai_call _ _ cost ∷ events) =
    one_if_some (as_decimal_cost cost) + priced_calls_of events
priced_calls_of (_ ∷ events) = priced_calls_of events

unfoldable pub cost_of : List Event → ℕ
unfolding as_decimal_cost
cost_of [] = 0
cost_of (ai_call _ _ cost ∷ events) = or_zero (as_decimal_cost cost) + cost_of events
cost_of (_ ∷ events) = cost_of events

-- The four counters of calls and costs.
abbrev pub AddsCosts : RunDetails → List Event → RunDetails → Type 0
AddsCosts before events after =
    (after.num_ai_calls ≡ before.num_ai_calls + calls_of events)
    × (after.known_cost_call_count ≡ before.known_cost_call_count + priced_calls_of events)
    × (after.total_cost_usd ≡ before.total_cost_usd + cost_of events)
    × (sum_costs after.model_costs_usd ≡ sum_costs before.model_costs_usd + cost_of events)

-- The counters of `after` are those of `before` and what the events add to them.
abbrev pub Adds : RunDetails → List Event → RunDetails → Type 0
Adds before events after = AddsCosts before events after × AddsTokens before events after

charge-AddsCosts :
    (usage : Option Usage) (model : Option Text) (cost : Cost) (o : Option ℕ) (d : RunDetails)
    → as_decimal_cost cost ≡ o
    → AddsCosts d
        (ai_call usage model cost ∷ [])
        (charge model o (add_token_usage usage (count_call d)))
unfolding charge add_token_usage priced_calls_of cost_of
charge-AddsCosts none model cost none d e =
    rw e (omega arith, omega arith, omega arith, omega arith)
charge-AddsCosts (some u) model cost none d e =
    rw e (omega arith, omega arith, omega arith, omega arith)
charge-AddsCosts none model cost (some c) d e = rw e (
  omega arith,
  omega arith,
  omega arith,
  omega (arith, sum_costs-add_cost (name_of model) c d.model_costs_usd),
)
charge-AddsCosts (some u) model cost (some c) d e = rw e (
  omega arith,
  omega arith,
  omega arith,
  omega (arith, sum_costs-add_cost (name_of model) c d.model_costs_usd),
)

on_event-AddsCosts : (e : Event) (d : RunDetails) → AddsCosts d (e ∷ []) (on_event e d)
unfolding on_event record_model_used add_token_usage record_ai_call priced_calls_of cost_of
on_event-AddsCosts (model_used model b) d = (omega arith, omega arith, omega arith, omega arith)
on_event-AddsCosts (token_usage none) d = (omega arith, omega arith, omega arith, omega arith)
on_event-AddsCosts (token_usage (some u)) d = (omega arith, omega arith, omega arith, omega arith)
on_event-AddsCosts (ai_call usage model cost) d =
    charge-AddsCosts usage model cost (as_decimal_cost cost) d refl

cons-adds :
    (e : Event) (events : List Event)
    → (calls_of (e ∷ events) ≡ calls_of (e ∷ []) + calls_of events)
      × (priced_calls_of (e ∷ events) ≡ priced_calls_of (e ∷ []) + priced_calls_of events)
      × (cost_of (e ∷ events) ≡ cost_of (e ∷ []) + cost_of events)
unfolding priced_calls_of cost_of
cons-adds (model_used _ _) events = (omega arith, omega arith, omega arith)
cons-adds (token_usage _) events = (omega arith, omega arith, omega arith)
cons-adds (ai_call _ _ _) events = (omega arith, omega arith, omega arith)

-- A run with a collector keeps it and adds to its counters what the events add: the calls, the calls with
-- a price and their cost, in the total and over the models alike, and the prompt, completion and total
-- tokens of every usage that is reported, where a usage without a total counts with the sum of its parts.
pub run-Adds :
    (events : List Event) (d : RunDetails)
    → (after : RunDetails) × (run events (some d) ≡ some after) × Adds d events after
unfolding run priced_calls_of cost_of
run-Adds [] d = (
  d,
  refl,
  ((omega arith, omega arith, omega arith, omega arith), (omega arith, omega arith, omega arith)),
)
run-Adds (e ∷ events) d =
    let (after, eq, ((a, b, c, s), (p, q, t))) = run-Adds events (on_event e d) in
    let (a1, b1, c1, s1) = on_event-AddsCosts e d in
    let (p1, q1, t1) = on_event-AddsTokens e d in
    let (a2, b2, c2) = cons-adds e events in
    (
      after,
      eq,
      (
        (omega arith, omega arith, omega arith, omega arith),
        (omega arith, omega arith, omega arith),
      ),
    )

abbrev pub is_some : Option ℕ → Bool
is_some none = false
is_some (some _) = true

-- No call of the events is without a price.
unfoldable pub all_priced : List Event → Bool
unfolding as_decimal_cost
all_priced [] = true
all_priced (ai_call _ _ cost ∷ events) = is_some (as_decimal_cost cost) && all_priced events
all_priced (_ ∷ events) = all_priced events

priced_calls_le : (events : List Event) → priced_calls_of events ≤ calls_of events
unfolding priced_calls_of
priced_calls_le [] = omega arith
priced_calls_le (model_used _ _ ∷ events) = priced_calls_le events
priced_calls_le (token_usage _ ∷ events) = priced_calls_le events
priced_calls_le (ai_call _ _ cost ∷ events) = elim (Option-cases (as_decimal_cost cost)) [
  | inl e ↦ rw e (omega (arith, priced_calls_le events))
  | inr (c, e) ↦ rw e (omega (arith, priced_calls_le events))
]

all_priced_of_eq :
    (events : List Event) → priced_calls_of events ≡ calls_of events → all_priced events ≡ true
unfolding all_priced priced_calls_of
all_priced_of_eq [] h = refl
all_priced_of_eq (model_used _ _ ∷ events) h = all_priced_of_eq events h
all_priced_of_eq (token_usage _ ∷ events) h = all_priced_of_eq events h
all_priced_of_eq (ai_call u m cost ∷ events) h = elim (Option-cases (as_decimal_cost cost)) [
  | inl e ↦ absurd (
      omega (
        arith,
        priced_calls_le events,
        subst (λ o. one_if_some o + priced_calls_of events ≡ 1 + calls_of events) e h,
      ))
  | inr (c, e) ↦ rw e (
      all_priced_of_eq events (
        omega
          (arith, subst (λ o. one_if_some o + priced_calls_of events ≡ 1 + calls_of events) e h)))
]

known_of_complete :
    (d : RunDetails) → cost_status d ≡ complete → d.known_cost_call_count ≡ d.num_ai_calls
unfolding cost_status
known_of_complete d h = ground arith

-- The cost status of a run that began empty is `complete` only if every call of it has a price.
pub run-complete :
    (events : List Event) (d : RunDetails)
    → run events (some init_run_details) ≡ some d
    → cost_status d ≡ complete
    → all_priced events ≡ true
run-complete events d e h =
    let (after, eq, ((a, b, _, _), _)) = run-Adds events init_run_details in
    let same = some-injective (sym e ∙ eq) in
    let known = known_of_complete d h in
    all_priced_of_eq events
      (omega (arith, ap (λ x. x.known_cost_call_count) same, ap (λ x. x.num_ai_calls) same))
  where
    some-injective : {x y : RunDetails} → some x ≡ some y → x ≡ y
    some-injective {x} p = ap (λ o. elim o [ none ↦ x | some z ↦ z ]) p

abbrev pub is_fallback_event : Event → Bool
is_fallback_event (model_used _ b) = b
is_fallback_event _ = false

on_event-fallback :
    (e : Event) (d : RunDetails)
    → (on_event e d).fallback_used ≡ (is_fallback_event e || d.fallback_used)
unfolding on_event record_model_used add_token_usage record_ai_call charge
on_event-fallback (model_used m true) d = refl
on_event-fallback (model_used m false) d = refl
on_event-fallback (token_usage none) d = refl
on_event-fallback (token_usage (some u)) d = refl
on_event-fallback (ai_call none m cost) d = elim (Option-cases (as_decimal_cost cost)) [
  | inl e ↦ rw e refl
  | inr (c, e) ↦ rw e refl
]
on_event-fallback (ai_call (some u) m cost) d = elim (Option-cases (as_decimal_cost cost)) [
  | inl e ↦ rw e refl
  | inr (c, e) ↦ rw e refl
]

or_swap : (a b c : Bool) → ((a || b) || c) ≡ (b || (a || c))
or_swap true true c = refl
or_swap true false c = refl
or_swap false true c = refl
or_swap false false c = refl

-- A run keeps `fallback_used` from the first success of a fallback on: the flag is set at the end just
-- when it was set before or some event reports a fallback.
pub run-fallback_used :
    (events : List Event) (d : RunDetails)
    → (after : RunDetails) × (run events (some d) ≡ some after)
      × (after.fallback_used ≡ (any is_fallback_event events || d.fallback_used))
unfolding run
run-fallback_used [] d = (d, refl, refl)
run-fallback_used (e ∷ events) d =
    let (after, eq, flag) = run-fallback_used events (on_event e d) in
    (
      after,
      eq,
      flag
          ∙ ap (◌||◌ (any is_fallback_event events)) (on_event-fallback e d)
          ∙ sym (or_swap (is_fallback_event e) (any is_fallback_event events) d.fallback_used),
    )

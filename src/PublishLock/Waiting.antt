-- ===== src/PublishLock/Waiting.antt =====
-- How long a process waits for the lock.
use achord_review.Prelude.{
  ℕ, suc, ◌+◌, ◌≤◌, ◌≡◌, ◌⊎◌, refl, Bool, true, false, Option, none, some, List, [], ◌∷◌, leb, ◌==◌,
  arith, Bool-cases, inl, inr, sym, ap, ◌∙◌, subst, ==_refl, le→leb,
}
use achord_review.PublishLock.{
  Phase, outside, waiting, inside, done, World, set_phase, Action, enter_without_flock, open_file,
  fail_to_open, attempt, fail_to_lock, leave, tick, try_lock, leave_body, act, step, run_actions,
}

-- The process is in the body or behind it.
abbrev pub has_entered : Phase → Bool
has_entered (inside _) = true
has_entered done = true
has_entered _ = false

-- How often the clock ticks.
abbrev pub ticks : List Action → ℕ
ticks [] = 0
ticks (tick ∷ actions) = suc (ticks actions)
ticks (_ ∷ actions) = ticks actions

-- The process waits until `deadline`, or is past the loop of attempts.
abbrev IsOn : ℕ → Phase → Type 0
IsOn deadline p = (p ≡ waiting deadline) ⊎ (has_entered p ≡ true)

eq_of_same : (j i : ℕ) → (j == i) ≡ true → j ≡ i
eq_of_same j i h = ground arith

ticks-cons :
    (a : Action) (actions : List Action) → ticks (a ∷ actions) ≡ ticks (a ∷ []) + ticks actions
ticks-cons tick actions = omega arith
ticks-cons (enter_without_flock _) actions = omega arith
ticks-cons (open_file _) actions = omega arith
ticks-cons (fail_to_open _) actions = omega arith
ticks-cons (attempt _) actions = omega arith
ticks-cons (fail_to_lock _) actions = omega arith
ticks-cons (leave _) actions = omega arith

abbrev deadline_of : Phase → ℕ
deadline_of (waiting d) = d
deadline_of _ = 0

opens :
    (timeout i : ℕ) (w : World)
    → w.phase i ≡ outside
    → ((step timeout (open_file i) w).phase i ≡ waiting (w.clock + timeout))
      × ((step timeout (open_file i) w).clock ≡ w.clock)
unfolding step act
opens timeout i w e = rw (e, ==_refl i) (refl, refl)

module _ (i deadline : ℕ) where
  set_phase-IsOn :
      (j : ℕ) (p : Phase) (phase : ℕ → Phase)
      → has_entered p ≡ true
      → IsOn deadline (phase i)
      → IsOn deadline (set_phase j p phase i)
  set_phase-IsOn j p phase h on = elim (Bool-cases (j == i)) [
    | inl same ↦ rw same (inr h)
    | inr other ↦ rw other on
  ]

  outside-IsOn : IsOn deadline outside → ⊥
  outside-IsOn (inl e) = cc e
  outside-IsOn (inr e) = cc e

  opened-IsOn :
      (j : ℕ) (p : Phase) (phase : ℕ → Phase)
      → phase j ≡ outside
      → IsOn deadline (phase i)
      → IsOn deadline (set_phase j p phase i)
  opened-IsOn j p phase e on = elim (Bool-cases (j == i)) [
    | inl same ↦
        absurd (outside-IsOn (subst (IsOn deadline) (ap phase (sym (eq_of_same j i same)) ∙ e) on))
    | inr other ↦ rw other on
  ]

  -- The process goes on, and the clock does not.
  abbrev IsNext : World → World → Type 0
  IsNext w v = IsOn deadline (v.phase i) × (v.clock ≡ w.clock)

  try_lock-IsNext :
      (j late : ℕ) (o : Option ℕ) (w : World)
      → IsOn deadline (w.phase i)
      → IsNext w (try_lock j late o w)
  unfolding try_lock
  try_lock-IsNext j late none w on = (set_phase-IsOn j (inside true) w.phase refl on, refl)
  try_lock-IsNext j late (some k) w on = elim (Bool-cases (leb late w.clock)) [
    | inl past ↦ rw past (set_phase-IsOn j (inside false) w.phase refl on, refl)
    | inr early ↦ rw early (on, refl)
  ]

  leave_body-IsNext :
      (j : ℕ) (held : Bool) (w : World) → IsOn deadline (w.phase i) → IsNext w (leave_body j held w)
  unfolding leave_body
  leave_body-IsNext j true w on = (set_phase-IsOn j done w.phase refl on, refl)
  leave_body-IsNext j false w on = (set_phase-IsOn j done w.phase refl on, refl)

  same_clock : {p : Phase} {m n : ℕ} → IsOn deadline p × (m ≡ n) → IsOn deadline p × (m ≡ n + 0)
  same_clock (on, e) = (on, omega (arith, e))

  module _ (timeout : ℕ) (w : World) (on : IsOn deadline (w.phase i)) where
    enter-IsNext :
        (j : ℕ) (p : Phase) → w.phase j ≡ p → IsNext w (act timeout (enter_without_flock j) p w)
    unfolding act
    enter-IsNext j outside e = (set_phase-IsOn j (inside false) w.phase refl on, refl)
    enter-IsNext j (waiting d) e = (on, refl)
    enter-IsNext j (inside b) e = (on, refl)
    enter-IsNext j done e = (on, refl)

    fail_to_open-IsNext :
        (j : ℕ) (p : Phase) → w.phase j ≡ p → IsNext w (act timeout (fail_to_open j) p w)
    unfolding act
    fail_to_open-IsNext j outside e = (set_phase-IsOn j (inside false) w.phase refl on, refl)
    fail_to_open-IsNext j (waiting d) e = (on, refl)
    fail_to_open-IsNext j (inside b) e = (on, refl)
    fail_to_open-IsNext j done e = (on, refl)

    open_file-IsNext :
        (j : ℕ) (p : Phase) → w.phase j ≡ p → IsNext w (act timeout (open_file j) p w)
    unfolding act
    open_file-IsNext j outside e = (opened-IsOn j (waiting (w.clock + timeout)) w.phase e on, refl)
    open_file-IsNext j (waiting d) e = (on, refl)
    open_file-IsNext j (inside b) e = (on, refl)
    open_file-IsNext j done e = (on, refl)

    fail_to_lock-IsNext :
        (j : ℕ) (p : Phase) → w.phase j ≡ p → IsNext w (act timeout (fail_to_lock j) p w)
    unfolding act
    fail_to_lock-IsNext j outside e = (on, refl)
    fail_to_lock-IsNext j (waiting d) e = (set_phase-IsOn j (inside false) w.phase refl on, refl)
    fail_to_lock-IsNext j (inside b) e = (on, refl)
    fail_to_lock-IsNext j done e = (on, refl)

    attempt-IsNext : (j : ℕ) (p : Phase) → w.phase j ≡ p → IsNext w (act timeout (attempt j) p w)
    unfolding act
    attempt-IsNext j outside e = (on, refl)
    attempt-IsNext j (waiting d) e = try_lock-IsNext j d w.holder w on
    attempt-IsNext j (inside b) e = (on, refl)
    attempt-IsNext j done e = (on, refl)

    leave-IsNext : (j : ℕ) (p : Phase) → w.phase j ≡ p → IsNext w (act timeout (leave j) p w)
    unfolding act
    leave-IsNext j outside e = (on, refl)
    leave-IsNext j (waiting d) e = (on, refl)
    leave-IsNext j (inside b) e = leave_body-IsNext j b w on
    leave-IsNext j done e = (on, refl)

    step-IsOn :
        (a : Action)
        → IsOn deadline ((step timeout a w).phase i)
          × ((step timeout a w).clock ≡ w.clock + ticks (a ∷ []))
    unfolding step
    step-IsOn tick = (on, omega arith)
    step-IsOn (enter_without_flock j) = same_clock (enter-IsNext j (w.phase j) refl)
    step-IsOn (open_file j) = same_clock (open_file-IsNext j (w.phase j) refl)
    step-IsOn (fail_to_open j) = same_clock (fail_to_open-IsNext j (w.phase j) refl)
    step-IsOn (attempt j) = same_clock (attempt-IsNext j (w.phase j) refl)
    step-IsOn (fail_to_lock j) = same_clock (fail_to_lock-IsNext j (w.phase j) refl)
    step-IsOn (leave j) = same_clock (leave-IsNext j (w.phase j) refl)

  run-IsOn :
      (timeout : ℕ) (actions : List Action) (w : World)
      → IsOn deadline (w.phase i)
      → IsOn deadline ((run_actions timeout actions w).phase i)
        × ((run_actions timeout actions w).clock ≡ w.clock + ticks actions)
  unfolding run_actions
  run-IsOn timeout [] w on = (on, omega arith)
  run-IsOn timeout (a ∷ actions) w on =
      let (next, time) = step-IsOn timeout w on a in
      let (last, total) = run-IsOn timeout actions (step timeout a w) next in
      (last, omega (arith, time, total, ticks-cons a actions))

  try_lock-has_entered :
      (o : Option ℕ) (w : World)
      → deadline ≤ w.clock
      → has_entered ((try_lock i deadline o w).phase i) ≡ true
  unfolding try_lock
  try_lock-has_entered none w late = rw (==_refl i) refl
  try_lock-has_entered (some k) w late = rw (le→leb deadline w.clock late, ==_refl i) refl

  last_attempt :
      (timeout : ℕ) (p : Phase) (w : World)
      → w.phase i ≡ p
      → IsOn deadline p
      → deadline ≤ w.clock
      → has_entered ((act timeout (attempt i) p w).phase i) ≡ true
  unfolding act
  last_attempt timeout outside w e on late = absurd (outside-IsOn on)
  last_attempt timeout (waiting d) w e (inl same) late =
      rw (ap deadline_of same) (try_lock-has_entered w.holder w late)
  last_attempt timeout (waiting d) w e (inr entered) late = cc entered
  last_attempt timeout (inside b) w e on late = ap has_entered e
  last_attempt timeout done w e on late = ap has_entered e

-- A process that opens the lock file is in the body, or behind it, after its next attempt once the clock has
-- ticked `timeout` times, whatever all processes do meanwhile and in whatever order.
pub run_actions-has_entered :
    (timeout i : ℕ) (actions : List Action) (w : World)
    → w.phase i ≡ outside
    → timeout ≤ ticks actions
    → has_entered (
        (step timeout
            (attempt i)
            (run_actions timeout actions (step timeout (open_file i) w))).phase
          i)
      ≡ true
unfolding step
run_actions-has_entered timeout i actions w e enough =
    let opened = opens timeout i w e in
    let (on, time) =
      run-IsOn i (w.clock + timeout) timeout actions (step timeout (open_file i) w)
        (inl opened.0) in
    let after = run_actions timeout actions (step timeout (open_file i) w) in
    last_attempt i (w.clock + timeout) timeout (after.phase i) after refl on
      (omega (arith, time, opened.1))

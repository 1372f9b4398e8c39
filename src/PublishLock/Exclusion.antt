-- ===== src/PublishLock/Exclusion.antt =====
-- At most one process is in the body with the lock.
use achord_review.Prelude.{
  ℕ, ◌+◌, ◌≡◌, refl, Bool, true, false, Option, none, some, List, [], ◌∷◌, leb, ◌==◌, ap, sym, ◌∙◌,
  arith, Bool-cases, inl, inr,
}
use achord_review.PublishLock.{
  Phase, outside, waiting, inside, done, World, start, set_phase, move, Action, enter_without_flock,
  open_file, fail_to_open, attempt, fail_to_lock, leave, tick, try_lock, leave_body, act, step,
  run_actions,
}

-- The process is in the body and holds the lock.
abbrev pub holds : Phase → Bool
holds (inside b) = b
holds _ = false

-- A process that holds the lock is the one that the kernel has granted it.
abbrev Granted : World → Type 0
Granted w = (j : ℕ) → holds (w.phase j) ≡ true → w.holder ≡ some j

move-Granted : (i : ℕ) (p : Phase) (w : World) → holds p ≡ false → Granted w → Granted (move i p w)
move-Granted i p w n g j h = elim (Bool-cases (i == j)) [
  | inl same ↦ absurd (cc (sym n ∙ (rw same at h)))
  | inr other ↦ g j (rw other at h)
]

grant-Granted :
    (i : ℕ) (w : World)
    → w.holder ≡ none
    → Granted w
    → Granted
        (record { phase = set_phase i (inside true) w.phase; clock = w.clock; holder = some i })
grant-Granted i w e g j h = elim (Bool-cases (i == j)) [
  | inl same ↦ ap some (ground arith)
  | inr other ↦ let held = g j (rw other at h) in cc
]

release-Granted :
    (i : ℕ) (w : World)
    → w.holder ≡ some i
    → Granted w
    → Granted (record { phase = set_phase i done w.phase; clock = w.clock; holder = none })
release-Granted i w e g j h = elim (Bool-cases (i == j)) [
  | inl same ↦ absurd (cc (rw same at h))
  | inr other ↦
      let both : some i ≡ some j = sym e ∙ g j (rw other at h) in
      absurd (ground (arith, ap (λ o. elim o [ none ↦ i | some k ↦ k ]) both))
]

try_lock-Granted :
    (i deadline : ℕ) (o : Option ℕ) (w : World)
    → w.holder ≡ o
    → Granted w
    → Granted (try_lock i deadline o w)
unfolding try_lock
try_lock-Granted i deadline none w e g = grant-Granted i w e g
try_lock-Granted i deadline (some k) w e g = elim (Bool-cases (leb deadline w.clock)) [
  | inl late ↦ rw late (move-Granted i (inside false) w refl g)
  | inr early ↦ rw early g
]

leave_body-Granted :
    (i : ℕ) (b : Bool) (w : World) → w.phase i ≡ inside b → Granted w → Granted (leave_body i b w)
unfolding leave_body
leave_body-Granted i true w e g = release-Granted i w (g i (ap holds e)) g
leave_body-Granted i false w e g = move-Granted i done w refl g

module _ (timeout : ℕ) (w : World) (g : Granted w) where
  attempt-Granted : (i : ℕ) (p : Phase) → Granted (act timeout (attempt i) p w)
  unfolding act
  attempt-Granted i (waiting d) = try_lock-Granted i d w.holder w refl g
  attempt-Granted i outside = g
  attempt-Granted i (inside _) = g
  attempt-Granted i done = g

  fail_to_lock-Granted : (i : ℕ) (p : Phase) → Granted (act timeout (fail_to_lock i) p w)
  unfolding act
  fail_to_lock-Granted i (waiting d) = move-Granted i (inside false) w refl g
  fail_to_lock-Granted i outside = g
  fail_to_lock-Granted i (inside _) = g
  fail_to_lock-Granted i done = g

  leave-Granted : (i : ℕ) (p : Phase) → w.phase i ≡ p → Granted (act timeout (leave i) p w)
  unfolding act
  leave-Granted i (inside b) e = leave_body-Granted i b w e g
  leave-Granted i outside e = g
  leave-Granted i (waiting _) e = g
  leave-Granted i done e = g

  enter-Granted : (i : ℕ) (p : Phase) → Granted (act timeout (enter_without_flock i) p w)
  unfolding act
  enter-Granted i outside = move-Granted i (inside false) w refl g
  enter-Granted i (waiting _) = g
  enter-Granted i (inside _) = g
  enter-Granted i done = g

  open_file-Granted : (i : ℕ) (p : Phase) → Granted (act timeout (open_file i) p w)
  unfolding act
  open_file-Granted i outside = move-Granted i (waiting (w.clock + timeout)) w refl g
  open_file-Granted i (waiting _) = g
  open_file-Granted i (inside _) = g
  open_file-Granted i done = g

  fail_to_open-Granted : (i : ℕ) (p : Phase) → Granted (act timeout (fail_to_open i) p w)
  unfolding act
  fail_to_open-Granted i outside = move-Granted i (inside false) w refl g
  fail_to_open-Granted i (waiting _) = g
  fail_to_open-Granted i (inside _) = g
  fail_to_open-Granted i done = g

  step-Granted : (a : Action) → Granted (step timeout a w)
  unfolding step
  step-Granted tick = g
  step-Granted (enter_without_flock i) = enter-Granted i (w.phase i)
  step-Granted (open_file i) = open_file-Granted i (w.phase i)
  step-Granted (fail_to_open i) = fail_to_open-Granted i (w.phase i)
  step-Granted (attempt i) = attempt-Granted i (w.phase i)
  step-Granted (fail_to_lock i) = fail_to_lock-Granted i (w.phase i)
  step-Granted (leave i) = leave-Granted i (w.phase i) refl

run-Granted :
    (timeout : ℕ) (actions : List Action) (w : World)
    → Granted w
    → Granted (run_actions timeout actions w)
unfolding run_actions
run-Granted timeout [] w g = g
run-Granted timeout (a ∷ actions) w g =
    run-Granted timeout actions (step timeout a w) (step-Granted timeout w g a)

start-Granted : Granted start
start-Granted j h = absurd (cc h)

-- Whatever the processes do and in whatever order, no two of them are in the body with the lock at once.
pub run_actions-exclusive :
    (timeout : ℕ) (actions : List Action) (i j : ℕ)
    → holds ((run_actions timeout actions start).phase i) ≡ true
    → holds ((run_actions timeout actions start).phase j) ≡ true
    → i ≡ j
run_actions-exclusive timeout actions i j hi hj =
    let g = run-Granted timeout actions start start-Granted in
    let both : some i ≡ some j = sym (g i hi) ∙ g j hj in
    ap (λ o. elim o [ none ↦ i | some k ↦ k ]) both

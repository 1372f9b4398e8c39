-- ===== src/PublishLock.antt =====
-- `publish_lock` of pr_agent/algo/publish_lock.py: processes that share one lock file.
pub mod Exclusion
pub mod Waiting
use achord_review.Prelude.{
  ℕ, suc, ◌+◌, Bool, true, false, Option, none, some, List, [], ◌∷◌, leb, ◌==◌, if◌then◌else◌,
}

-- Where a process is: before the call, in the loop of attempts until a deadline, in the body of the
-- `with` block, with `held` as the lock yields it, or behind it.
pub data Phase : Type 0 where
  outside : Phase
  waiting : ℕ → Phase
  inside : Bool → Phase
  done : Phase

-- The processes, the clock, and the process that the kernel has granted the file's lock.
pub record World : Type 0 where
  pub phase : ℕ → Phase
  pub clock : ℕ
  pub holder : Option ℕ

abbrev pub start : World
start = record { phase = λ _. outside; clock = 0; holder = none }

abbrev pub set_phase : ℕ → Phase → (ℕ → Phase) → ℕ → Phase
set_phase i p phase j = if i == j then p else phase j

abbrev pub move : ℕ → Phase → World → World
move i p w = record { phase = set_phase i p w.phase; clock = w.clock; holder = w.holder }

-- The steps of a process: it starts the call on a platform without `flock`, it opens the file or fails
-- to, it makes an attempt, its attempt raises another error, it leaves the body. Time passes.
pub data Action : Type 0 where
  enter_without_flock open_file fail_to_open attempt fail_to_lock leave : ℕ → Action
  tick : Action

-- `flock(fd, LOCK_EX | LOCK_NB)` in the loop: granted, refused before the deadline, refused past it.
unfoldable pub try_lock : ℕ → ℕ → Option ℕ → World → World
try_lock i deadline none w = record {
  phase = set_phase i (inside true) w.phase;
  clock = w.clock;
  holder = some i;
}
try_lock i deadline (some _) w = if leb deadline w.clock then move i (inside false) w else w

-- The `finally` block.
unfoldable pub leave_body : ℕ → Bool → World → World
leave_body i true w = record { phase = set_phase i done w.phase; clock = w.clock; holder = none }
leave_body i false w = move i done w

-- What a process in the phase `p` does; a step that does not fit its phase changes nothing.
unfoldable pub act : ℕ → Action → Phase → World → World
unfolding try_lock leave_body
act timeout (enter_without_flock i) outside w = move i (inside false) w
act timeout (open_file i) outside w = move i (waiting (w.clock + timeout)) w
act timeout (fail_to_open i) outside w = move i (inside false) w
act timeout (attempt i) (waiting deadline) w = try_lock i deadline w.holder w
act timeout (fail_to_lock i) (waiting deadline) w = move i (inside false) w
act timeout (leave i) (inside held) w = leave_body i held w
act timeout _ _ w = w

unfoldable pub step : ℕ → Action → World → World
unfolding act
step timeout tick w = record { phase = w.phase; clock = suc w.clock; holder = w.holder }
step timeout (enter_without_flock i) w = act timeout (enter_without_flock i) (w.phase i) w
step timeout (open_file i) w = act timeout (open_file i) (w.phase i) w
step timeout (fail_to_open i) w = act timeout (fail_to_open i) (w.phase i) w
step timeout (attempt i) w = act timeout (attempt i) (w.phase i) w
step timeout (fail_to_lock i) w = act timeout (fail_to_lock i) (w.phase i) w
step timeout (leave i) w = act timeout (leave i) (w.phase i) w

unfoldable pub run_actions : ℕ → List Action → World → World
unfolding step
run_actions timeout [] w = w
run_actions timeout (a ∷ actions) w = run_actions timeout actions (step timeout a w)

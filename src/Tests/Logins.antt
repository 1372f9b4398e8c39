-- ===== src/Tests/Logins.antt =====
-- Guesses at a password within one window.
use achord_review.Prelude.{
  ℕ, ◌-◌, ◌≤◌, ◌≡◌, refl, Bool, true, false, List, [], ◌∷◌, length, keep, All, arith,
}
use achord_review.Text.{Text, codes, text_eq}
use achord_review.Dashboard.Login.{
  Rules, Attempt, counts_for, purge, evict, fail_attempt, decide, verify_login_attempt,
}
use achord_review.Dashboard.Login.Lockout.{answered, IsGuess, answered-bound}

abbrev rules : Rules
rules = record { window_seconds = 300; max_attempts = 2; max_rows = 10 }

abbrev guess : Text → Bool → ℕ → Attempt
guess key password_matches now = record {
  key = key;
  password_matches = password_matches;
  now = now;
}

abbrev guesses : List Attempt
guesses =
    guess (codes "a") false 1000
    ∷ guess (codes "b") true 1001
    ∷ guess (codes "a") false 1002
    ∷ guess (codes "a") false 1003
    ∷ guess (codes "a") false 1004
    ∷ []

are_guesses : All (IsGuess rules 1000 (codes "a")) guesses
unfolding text_eq
are_guesses = (
  (omega arith, omega arith, refl),
  (
    (omega arith, omega arith, refl),
    (
      (omega arith, omega arith, refl),
      ((omega arith, omega arith, refl), ((omega arith, omega arith, refl), tt)),
    ),
  ),
)

answered-bound_example :
    answered rules (codes "a") guesses []
    ≤ rules.max_attempts - length (keep (counts_for (codes "a") 1000) [])
answered-bound_example = answered-bound rules 1000 (codes "a") guesses [] are_guesses (omega arith)

two_answered : answered rules (codes "a") guesses [] ≡ 2
unfolding answered verify_login_attempt decide fail_attempt evict purge counts_for text_eq
two_answered = refl

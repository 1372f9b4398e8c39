-- ===== src/Dashboard/Login/Lockout.antt =====
-- On the attempts that are answered.
use achord_review.Prelude.{
  ℕ, suc, ◌+◌, ◌-◌, ◌≤◌, ◌<◌, ◌≡◌, refl, true, false, ◌&&◌, not, List, [], ◌∷◌, ◌++◌, length,
  length-append, keep, ltb, leb, if◌then◌else◌, Bool-cases, inl, inr, arith, sym, subst, All, ◌⊎◌,
  leb_false→lt, le→leb,
}
use achord_review.Text.{Text, text_eq}
use achord_review.Types.{text_eq→eq}
use achord_review.Dashboard.Login.{
  Failure, Rules, Decision, Attempt, counts_for, evict, purge, fail_attempt, decide,
  verify_login_attempt,
}
use achord_review.Dashboard.Login.Counts.{
  since, since-purge, since-remove, length-keep, since-append, since-earlier,
}

-- How many attempts on the key are answered, rather than locked out.
unfoldable pub answered : Rules → Text → List Attempt → List Failure → ℕ
answered rules key [] rows = 0
answered rules key (attempt ∷ attempts) rows =
    let (decision, after) = verify_login_attempt rules attempt rows in
    let rest = answered rules key attempts after in
    if text_eq attempt.key key && not decision.locked_out then suc rest else rest

-- The attempts lie in one window, and those on the key have a wrong password.
abbrev pub IsGuess : Rules → ℕ → Text → Attempt → Type 0
IsGuess rules start key attempt =
    (start ≤ attempt.now)
    × (attempt.now ≤ start + rules.window_seconds)
    × ((text_eq attempt.key key && attempt.password_matches) ≡ false)

-- One attempt: what it adds to the answers is added to the failures, and these are at most one row more.
IsOneStep : Rules → ℕ → Text → Attempt → List Failure → Decision × List Failure → Type 0
IsOneStep rules start key attempt rows (decision, after) =
    (length after ≤ length rows + 1)
    × (((text_eq attempt.key key && not decision.locked_out) ≡ false)
          × (since key start rows ≤ since key start after)
        ⊎ ((since key start rows < rules.max_attempts)
            × (since key start rows + 1 ≤ since key start after)))

fail_attempt-rows :
    (rules : Rules) (attempt : Attempt) (failed_count : ℕ) (rows : List Failure)
    → length rows + 1 ≤ rules.max_rows
    → fail_attempt rules attempt failed_count rows ≡ (
      record { authenticated = false; locked_out = false; failed_count = suc failed_count },
      rows ++ record { lockout_key = attempt.key; attempted_at = attempt.now } ∷ [],
    )
unfolding fail_attempt evict
fail_attempt-rows rules attempt failed_count rows h =
    let more = rows ++ record { lockout_key = attempt.key; attempted_at = attempt.now } ∷ [] in
    let none_over : length more - rules.max_rows ≡ 0 = omega (
      arith,
      h,
      length-append rows (record { lockout_key = attempt.key; attempted_at = attempt.now } ∷ []),
    ) in
    rw none_over refl

failed-IsOneStep :
    (rules : Rules) (start : ℕ) (key : Text) (attempt : Attempt) (failed_count : ℕ)
    (rows : List Failure)
    → start ≤ attempt.now
    → failed_count < rules.max_attempts
    → (text_eq attempt.key key ≡ true → since key start rows ≤ failed_count)
    → IsOneStep rules start key attempt rows (
      record { authenticated = false; locked_out = false; failed_count = suc failed_count },
      rows ++ record { lockout_key = attempt.key; attempted_at = attempt.now } ∷ [],
    )
unfolding IsOneStep counts_for
failed-IsOneStep rules start key attempt failed_count rows late few counted =
    let failure : Failure = record { lockout_key = attempt.key; attempted_at = attempt.now } in
    let longer = length-append rows (failure ∷ []) in
    let sum = since-append key start rows (failure ∷ []) in
    elim (Bool-cases (text_eq attempt.key key)) [
      | inl same ↦
          let one : since key start (failure ∷ []) ≡ 1 =
            rw (same, le→leb start attempt.now late) refl in
          (omega (arith, longer), inr (omega (arith, few, counted same), omega (arith, sum, one)))
      | inr other ↦ (omega (arith, longer), inl (rw other refl, omega (arith, sum)))
    ]

decide-IsOneStep :
    (rules : Rules) (start : ℕ) (key : Text) (attempt : Attempt) (failed_count : ℕ)
    (rows : List Failure)
    → IsGuess rules start key attempt
    → length rows + 1 ≤ rules.max_rows
    → (text_eq attempt.key key ≡ true → since key start rows ≤ failed_count)
    → IsOneStep rules start key attempt rows (decide rules attempt failed_count rows)
unfolding decide IsOneStep
decide-IsOneStep rules start key attempt failed_count rows (late, early, wrong) room counted =
    elim (Bool-cases (leb rules.max_attempts failed_count)) [
      | inl locked ↦ rw locked (omega arith, inl (ground arith, omega arith))
      | inr unlocked ↦ rw unlocked (elim (Bool-cases attempt.password_matches) [
        | inl right ↦
            let other : text_eq attempt.key key ≡ false = ground arith in
            rw right (
              omega (arith, length-keep (λ row. not (text_eq row.lockout_key attempt.key)) rows),
              inl (ground arith, omega (arith, since-remove key attempt.key start rows other)),
            )
        | inr failing ↦ rw failing (
            subst (IsOneStep rules start key attempt rows)
              (sym (fail_attempt-rows rules attempt failed_count rows room))
              (failed-IsOneStep rules start key attempt failed_count rows late
                (leb_false→lt _ _ unlocked) counted))
      ])
    ]

length-purge : (cutoff : ℕ) (rows : List Failure) → length (purge cutoff rows) ≤ length rows
unfolding purge
length-purge cutoff rows = length-keep (λ row. not (ltb row.attempted_at cutoff)) rows

one_more :
    (rules : Rules) (start : ℕ) (key : Text) (attempt : Attempt) (rows : List Failure)
    (result : Decision × List Failure)
    → IsOneStep rules start key attempt rows result
    → length result.1 ≤ length rows + 1
unfolding IsOneStep
one_more rules start key attempt rows (decision, after) (small, rest) = small

verify_login_attempt-IsOneStep :
    (rules : Rules) (start : ℕ) (key : Text) (attempt : Attempt) (rows : List Failure)
    → IsGuess rules start key attempt
    → length rows + 1 ≤ rules.max_rows
    → IsOneStep rules start key attempt
        (purge (attempt.now - rules.window_seconds) rows)
        (verify_login_attempt rules attempt rows)
unfolding verify_login_attempt
verify_login_attempt-IsOneStep rules start key attempt rows guess room =
    let cutoff = attempt.now - rules.window_seconds in
    let recent = purge cutoff rows in
    decide-IsOneStep rules start key attempt (since attempt.key cutoff recent) recent guess
      (omega (arith, room, length-purge cutoff rows))
      (λ same.
        subst (λ k. since k start recent ≤ since attempt.key cutoff recent)
          (text_eq→eq attempt.key key same)
          (since-earlier attempt.key start cutoff recent (omega (arith, guess.1))))

answered-step :
    (rules : Rules) (start : ℕ) (key : Text) (attempt : Attempt) (attempts : List Attempt)
    (rows : List Failure) (recent : List Failure) (result : Decision × List Failure)
    → IsOneStep rules start key attempt recent result
    → since key start recent ≡ since key start rows
    → answered rules key attempts result.1 ≤ rules.max_attempts - since key start result.1
    → (if text_eq attempt.key key && not result.0.locked_out
        then suc (answered rules key attempts result.1)
        else answered rules key attempts result.1)
      ≤ rules.max_attempts - since key start rows
unfolding IsOneStep
answered-step rules start key attempt attempts rows recent (decision, after)
      (small, inl (silent, grows)) same ih =
    rw silent (omega (arith, grows, same, ih))
answered-step rules start key attempt attempts rows recent (decision, after)
      (small, inr (few, grows)) same ih =
    elim (Bool-cases (text_eq attempt.key key && not decision.locked_out)) [
      | inl e ↦ rw e (omega (arith, few, grows, same, ih))
      | inr e ↦ rw e (omega (arith, few, grows, same, ih))
    ]

-- Of any attempts within one window, at most as many wrong guesses for a key are answered as are left to it,
-- and all others find it locked out, when the table has room for all attempts and no password for the key
-- matches; attempts on other keys, right or wrong, come between them in any way.
pub answered-bound :
    (rules : Rules) (start : ℕ) (key : Text) (attempts : List Attempt) (rows : List Failure)
    → All (IsGuess rules start key) attempts
    → length rows + length attempts ≤ rules.max_rows
    → answered rules key attempts rows
      ≤ rules.max_attempts - length (keep (counts_for key start) rows)
unfolding answered
answered-bound rules start key [] rows guesses room = omega arith
answered-bound rules start key (attempt ∷ attempts) rows (guess, guesses) room =
    let cutoff = attempt.now - rules.window_seconds in
    let recent = purge cutoff rows in
    let step =
      verify_login_attempt-IsOneStep rules start key attempt rows guess (omega (arith, room)) in
    answered-step rules start key attempt attempts rows recent
      (verify_login_attempt rules attempt rows) step
      (since-purge key start cutoff rows (omega (arith, guess.1)))
      (answered-bound rules start key attempts (verify_login_attempt rules attempt rows).1 guesses (
        omega (
          arith,
          room,
          length-purge cutoff rows,
          one_more rules start key attempt recent (verify_login_attempt rules attempt rows) step,
        )))

-- ===== src/Dashboard/Login/Counts.antt =====
-- On the counts of failed attempts.
use achord_review.Prelude.{
  ℕ, suc, ◌+◌, ◌≤◌, ◌≡◌, refl, Bool, true, false, ◌&&◌, not, List, [], ◌∷◌, ◌++◌, length,
  length-append, keep, keep-append, ltb, leb, Bool-cases, inl, inr, arith, ap, sym, ◌∙◌, subst,
  leb→le, le→leb, ltb→lt,
}
use achord_review.Text.{Text, text_eq}
use achord_review.Types.{text_eq→eq}
use achord_review.Dashboard.Login.{Failure, counts_for, purge}

-- The failures on the key since the start of the window.
abbrev pub since : Text → ℕ → List Failure → ℕ
since key start rows = length (keep (counts_for key start) rows)

pub since-purge :
    (key : Text) (start cutoff : ℕ) (rows : List Failure)
    → cutoff ≤ start
    → since key start (purge cutoff rows) ≡ since key start rows
unfolding purge counts_for
since-purge key start cutoff [] h = refl
since-purge key start cutoff (row ∷ rows) h = elim (Bool-cases (ltb row.attempted_at cutoff)) [
  | inl old ↦
      let before = ltb→lt row.attempted_at cutoff old in
      let late : leb start row.attempted_at ≡ false = ground arith in
      let uncounted : (text_eq row.lockout_key key && leb start row.attempted_at) ≡ false =
        ground arith in
      rw (old, uncounted) (since-purge key start cutoff rows h)
  | inr recent ↦
      rw recent (elim (Bool-cases (text_eq row.lockout_key key && leb start row.attempted_at)) [
        | inl e ↦ rw e (ap suc (since-purge key start cutoff rows h))
        | inr e ↦ rw e (since-purge key start cutoff rows h)
      ])
]

pub since-remove :
    (key other : Text) (start : ℕ) (rows : List Failure)
    → text_eq other key ≡ false
    → since key start (keep (λ row. not (text_eq row.lockout_key other)) rows)
      ≡ since key start rows
unfolding counts_for
since-remove key other start [] h = refl
since-remove key other start (row ∷ rows) h = elim (Bool-cases (text_eq row.lockout_key other)) [
  | inl same ↦
      let apart : text_eq row.lockout_key key ≡ false =
        subst (λ k. text_eq k key ≡ false) (sym (text_eq→eq row.lockout_key other same)) h in
      rw (same, apart) (since-remove key other start rows h)
  | inr differ ↦
      rw differ (elim (Bool-cases (text_eq row.lockout_key key && leb start row.attempted_at)) [
        | inl e ↦ rw e (ap suc (since-remove key other start rows h))
        | inr e ↦ rw e (since-remove key other start rows h)
      ])
]

pub length-keep : (p : Failure → Bool) (rows : List Failure) → length (keep p rows) ≤ length rows
length-keep p [] = omega arith
length-keep p (row ∷ rows) = ground (arith, length-keep p rows)

pub since-append :
    (key : Text) (start : ℕ) (rows more : List Failure)
    → since key start (rows ++ more) ≡ since key start rows + since key start more
since-append key start rows more =
    ap length (keep-append (counts_for key start) rows more)
    ∙ length-append (keep (counts_for key start) rows) (keep (counts_for key start) more)

-- Counting from an earlier time counts no less.
pub since-earlier :
    (key : Text) (start cutoff : ℕ) (rows : List Failure)
    → cutoff ≤ start
    → since key start rows ≤ since key cutoff rows
unfolding counts_for
since-earlier key start cutoff [] h = omega arith
since-earlier key start cutoff (row ∷ rows) h =
    let rest = since-earlier key start cutoff rows h in
    elim (Bool-cases (text_eq row.lockout_key key)) [
      | inr other ↦ rw other rest
      | inl same ↦ rw same (elim (Bool-cases (leb start row.attempted_at)) [
        | inl late ↦
            let later : leb cutoff row.attempted_at ≡ true =
              le→leb _ _ (omega (arith, h, leb→le _ _ late)) in
            rw (late, later) (omega (arith, rest))
        | inr early ↦ rw early (elim (Bool-cases (leb cutoff row.attempted_at)) [
          | inl e ↦ rw e (omega (arith, rest))
          | inr e ↦ rw e rest
        ])
      ])
    ]

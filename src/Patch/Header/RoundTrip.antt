-- ===== src/Patch/Header/RoundTrip.antt =====
-- The numbers of a header are read back from their digits.
use achord_review.Prelude.{
  ℕ, zero, suc, ◌+◌, ◌*◌, ◌-◌, ◌/◌, ◌%◌, ◌<◌, ◌≡◌, refl, true, false, some, [], ◌∷◌, ◌++◌, arith,
  Bool-cases, inl, inr, ltb, ltb_false→le, null, all,
}
use achord_review.Text.{Text, codes}
use achord_review.Text.Numbers.{is_digit, show_from, show_ℕ, int_from, int_of}
use achord_review.Patch.Header.{span_digits, digits, size_group}

-- `int` after `str`
int_from-append :
    (acc c : ℕ) (s : Text) → int_from acc (s ++ c ∷ []) ≡ int_from acc s * 10 + (c - 48)
unfolding int_from
int_from-append acc c [] = refl
int_from-append acc c (d ∷ s) = int_from-append (acc * 10 + (d - 48)) c s

int_of-show_from : (fuel n : ℕ) → n < fuel → int_of (show_from fuel n) ≡ n
unfolding show_from int_of
int_of-show_from zero n h = elim h [ ]
int_of-show_from (suc fuel) n h = elim (Bool-cases (ltb n 10)) [
  | inl small ↦ rw small (unfold int_from in omega arith)
  | inr large ↦
      let big = ltb_false→le n 10 large in
      rw (large, int_from-append, int_of-show_from fuel (n / 10) (omega arith)) (omega arith)
]

all_digits-append :
    (s : Text) (c : ℕ)
    → all is_digit s ≡ true
    → is_digit c ≡ true
    → all is_digit (s ++ c ∷ []) ≡ true
all_digits-append [] c h k = ground arith
all_digits-append (d ∷ s) c h k = ground (arith, all_digits-append s c)

all_digits-show_from : (fuel n : ℕ) → all is_digit (show_from fuel n) ≡ true
unfolding show_from
all_digits-show_from zero n = refl
all_digits-show_from (suc fuel) n = elim (Bool-cases (ltb n 10)) [
  | inl small ↦ rw small (unfold is_digit in ground arith)
  | inr large ↦
      rw large (
        all_digits-append _ _ (all_digits-show_from fuel (n / 10))
          (unfold is_digit in ground arith))
]

null-append-cons : (s : Text) (c : ℕ) (t : Text) → null (s ++ c ∷ t) ≡ false
null-append-cons [] c t = refl
null-append-cons (d ∷ s) c t = refl

show_from-ne-nil : (fuel n : ℕ) → n < fuel → null (show_from fuel n) ≡ false
unfolding show_from
show_from-ne-nil zero n h = elim h [ ]
show_from-ne-nil (suc fuel) n h = elim (Bool-cases (ltb n 10)) [
  | inl small ↦ rw small
  | inr large ↦ rw large (null-append-cons (show_from fuel (n / 10)) (48 + n % 10) [])
]

span_digits-append :
    (ds : Text) (c : ℕ) (rest : Text)
    → all is_digit ds ≡ true
    → is_digit c ≡ false
    → span_digits (ds ++ c ∷ rest) ≡ (ds, c ∷ rest)
unfolding span_digits
span_digits-append [] c rest h stop = rw stop
span_digits-append (d ∷ ds) c rest h stop = ground (arith, span_digits-append ds c rest)

-- A number that is written is read whole, before anything that is no digit.
pub digits-show :
    (n c : ℕ) (rest : Text)
    → is_digit c ≡ false
    → digits (show_ℕ n ++ c ∷ rest) ≡ some (show_ℕ n, c ∷ rest)
unfolding digits show_ℕ
digits-show n c rest stop = rw (
  span_digits-append (show_from (suc n) n) c rest (all_digits-show_from (suc n) n) stop,
  show_from-ne-nil (suc n) n (omega arith),
)

pub int_of-show : (n : ℕ) → int_of (show_ℕ n) ≡ n
unfolding show_ℕ
int_of-show n = int_of-show_from (suc n) n (omega arith)

pub size_group-show :
    (n : ℕ) (rest : Text)
    → size_group (codes "," ++ (show_ℕ n ++ 32 ∷ rest)) ≡ (some (show_ℕ n), 32 ∷ rest)
unfolding size_group
size_group-show n rest = rw (digits-show n 32 rest (unfold is_digit in refl))

pub digits-show_comma :
    (n : ℕ) (rest : Text) → digits (show_ℕ n ++ 44 ∷ rest) ≡ some (show_ℕ n, 44 ∷ rest)
digits-show_comma n rest = digits-show n 44 rest (unfold is_digit in refl)

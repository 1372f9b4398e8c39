-- ===== src/Text/Numbers.antt =====
-- `str(n)` and `int(s)` for natural numbers.
use achord_review.Prelude.{
  ℕ, zero, suc, ◌+◌, ◌-◌, ◌*◌, ◌/◌, ◌%◌, Bool, true, false, ◌&&◌, Option, none, some, List, [], ◌∷◌,
  ◌++◌, ltb, leb, ◌==◌, if◌then◌else◌,
}
use achord_review.Prelude.Int.{ℤ, pos, negsuc}

-- the ASCII digits, of what the class `\d` matches
unfoldable pub is_digit : ℕ → Bool
is_digit c = leb 48 c && leb c 57

-- The decimal digits of `n`; the fuel is `n + 1`, and each round divides by ten.
unfoldable pub show_from : ℕ → ℕ → List ℕ
show_from zero n = []
show_from (suc fuel) n =
    let front = show_from fuel (n / 10) in
    if ltb n 10 then (48 + n) ∷ [] else front ++ (48 + n % 10) ∷ []

unfoldable pub show_ℕ : ℕ → List ℕ
unfolding show_from
show_ℕ n = show_from (suc n) n

unfoldable pub int_from : ℕ → List ℕ → ℕ
int_from acc [] = acc
int_from acc (c ∷ s) = int_from (acc * 10 + (c - 48)) s

unfoldable pub int_of : List ℕ → ℕ
unfolding int_from
int_of s = int_from 0 s

-- `str(n)` for an integer
unfoldable pub show_ℤ : ℤ → List ℕ
show_ℤ (pos n) = show_ℕ n
show_ℤ (negsuc n) = b'-' ∷ show_ℕ (suc n)

-- The digits of `int(s)`, of which an underscore may divide any two; the first argument tells whether the
-- last code point was a digit.
unfoldable pub digits_from : Bool → ℕ → List ℕ → Option ℕ
unfolding is_digit
digits_from after_digit acc [] = if after_digit then some acc else none
digits_from after_digit acc (c ∷ s) =
    let digit = digits_from true (acc * 10 + (c - 48)) s in
    let divided = digits_from false acc s in
    if is_digit c then digit else if after_digit && (c == b'_') then divided else none

unfoldable pub negate : ℕ → ℤ
negate zero = pos zero
negate (suc n) = negsuc n

abbrev map_number : (ℕ → ℤ) → Option ℕ → Option ℤ
map_number f none = none
map_number f (some n) = some (f n)

-- `int(s)` for a text without space around it; `none` is `ValueError`.
unfoldable pub parse_int : List ℕ → Option ℤ
unfolding digits_from negate
parse_int [] = none
parse_int (c ∷ s) =
    if c == b'-'
    then map_number negate (digits_from false 0 s)
    else if c == b'+'
    then map_number pos (digits_from false 0 s)
    else map_number pos (digits_from false 0 (c ∷ s))

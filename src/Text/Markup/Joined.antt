-- ===== src/Text/Markup/Joined.antt =====
-- The line ends of joined texts.
use achord_review.Prelude.{
  ℕ, zero, suc, ◌+◌, ◌-◌, ◌≤◌, ◌≡◌, refl, Bool, true, false, not, ◌&&◌, List, [], ◌∷◌, ◌++◌, length,
  take, all-append, All, reverse, Bool-cases, inl, inr, arith, ◌==◌, ◌∙◌, ap, null, if◌then◌else◌,
}
use mathlib.Core.List.{reverse-append}
use achord_review.Text.{Text, join, newline, strip, lstrip, rstrip}
use achord_review.Text.Lines.{split_lines, split_from, is_break}
use achord_review.Text.Markup.{escape, escape_code}
use achord_review.Text.Markup.Fence.{one_line}

-- The number of `\n` in a text.
abbrev pub line_ends : Text → ℕ
line_ends [] = 0
line_ends (c ∷ s) = if c == 10 then suc (line_ends s) else line_ends s

line_ends-append : (s t : Text) → line_ends (s ++ t) ≡ line_ends s + line_ends t
line_ends-append [] t = omega arith
line_ends-append (c ∷ s) t = ground (arith, line_ends-append s t)

line_ends-one_line : (s : Text) → one_line s ≡ true → line_ends s ≡ 0
line_ends-one_line [] h = refl
line_ends-one_line (c ∷ s) h = ground (arith, line_ends-one_line s)

abbrev pub OneLines : List Text → Type 0
OneLines = All (λ s. one_line s ≡ true)

line_ends-join : (ps : List Text) → OneLines ps → line_ends (join newline ps) ≡ length ps - 1
unfolding join
line_ends-join [] h = omega arith
line_ends-join (p ∷ []) (h, _) = omega (arith, line_ends-one_line p h)
line_ends-join (p ∷ q ∷ ps) (h, hs) = omega (
  arith,
  line_ends-append p (newline ++ join newline (q ∷ ps)),
  line_ends-one_line p h,
  line_ends-join (q ∷ ps) hs,
)

line_ends-lstrip : (s : Text) → line_ends (lstrip s) ≤ line_ends s
unfolding lstrip
line_ends-lstrip [] = omega arith
line_ends-lstrip (c ∷ s) = ground (arith, line_ends-lstrip s)

line_ends-reverse : (s : Text) → line_ends (reverse s) ≡ line_ends s
line_ends-reverse [] = refl
line_ends-reverse (c ∷ s) =
    ap line_ends (reverse-append (c ∷ []) s)
    ∙ line_ends-append (reverse s) (c ∷ [])
    ∙ ground (arith, line_ends-reverse s)

line_ends-strip : (s : Text) → line_ends (strip s) ≤ line_ends s
unfolding strip rstrip
line_ends-strip s = omega (
  arith,
  line_ends-reverse (lstrip (reverse (lstrip s))),
  line_ends-lstrip (reverse (lstrip s)),
  line_ends-reverse (lstrip s),
  line_ends-lstrip s,
)

-- Joined and stripped, texts of one line each have fewer line ends than there are texts.
pub line_ends-strip-join :
    (ps : List Text) → OneLines ps → line_ends (strip (join newline ps)) ≤ length ps - 1
line_ends-strip-join ps h = omega (arith, line_ends-strip (join newline ps), line_ends-join ps h)

pub one_line-append :
    (s t : Text) → one_line s ≡ true → one_line t ≡ true → one_line (s ++ t) ≡ true
one_line-append s t h k = ground (arith, h, k, all-append (λ c. not (c == 10)) s t)

not_break : (c : ℕ) → is_break c ≡ false → one_line (c ∷ []) ≡ true
unfolding is_break
not_break c b = ground arith

split_from-OneLines :
    (was_cr : Bool) (cur s : Text) → one_line cur ≡ true → OneLines (split_from was_cr cur s)
unfolding split_from
split_from-OneLines was_cr cur [] h = elim (Bool-cases (null cur)) [
  | inl e ↦ rw e tt
  | inr e ↦ rw e (h, tt)
]
split_from-OneLines was_cr cur (c ∷ s) h = elim (Bool-cases (was_cr && (c == 10))) [
  | inl e ↦ rw e (split_from-OneLines false cur s h)
  | inr e ↦ elim (Bool-cases (is_break c)) [
    | inl b ↦ rw (e, b) (h, split_from-OneLines (c == 13) [] s refl)
    | inr b ↦
        rw (e, b)
          (split_from-OneLines false (cur ++ c ∷ []) s
            (one_line-append cur (c ∷ []) h (not_break c b)))
  ]
]

-- No line of `splitlines` has a line end.
pub split_lines-OneLines : (s : Text) → OneLines (split_lines s)
unfolding split_lines
split_lines-OneLines s = split_from-OneLines false [] s refl

pub take-OneLines : (n : ℕ) (ps : List Text) → OneLines ps → OneLines (take n ps)
take-OneLines zero ps h = tt
take-OneLines (suc n) [] h = tt
take-OneLines (suc n) (p ∷ ps) (h, hs) = (h, take-OneLines n ps hs)

escape_code-one_line : (c : ℕ) → (c == 10) ≡ false → one_line (escape_code c) ≡ true
escape_code-one_line c h = ground arith

pub escape-one_line : (s : Text) → one_line s ≡ true → one_line (escape s) ≡ true
unfolding escape
escape-one_line [] h = refl
escape-one_line (c ∷ s) h = elim (Bool-cases (c == 10)) [
  | inl e ↦ absurd (ground (arith, e))
  | inr e ↦
      one_line-append (escape_code c) (escape s) (escape_code-one_line c e)
        (escape-one_line s (ground (arith, h)))
]

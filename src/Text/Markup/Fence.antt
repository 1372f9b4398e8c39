-- ===== src/Text/Markup/Fence.antt =====
-- On the fence around a text.
use achord_review.Prelude.{
  ℕ, zero, suc, ◌+◌, ◌≤◌, ◌<◌, ◌≡◌, Bool, true, false, not, [], ◌∷◌, ◌++◌, length, length-append,
  all, all-append, Bool-cases, inl, inr, arith, ◌==◌,
}
use achord_review.Text.{Text, contains, starts_with, strip_prefix}
use achord_review.Text.Markup.{lengthen, fence_from}

prefix_length : (p s : Text) → starts_with p s ≡ true → length p ≤ length s
unfolding starts_with strip_prefix
prefix_length [] s h = omega arith
prefix_length (a ∷ p) [] h = cc h
prefix_length (a ∷ p) (b ∷ s) h = ground (arith, prefix_length p s)

contains-length : (p s : Text) → contains p s ≡ true → length p ≤ length s
unfolding contains
contains-length p [] h = prefix_length p [] h
contains-length p (c ∷ s) h = elim (Bool-cases (starts_with p (c ∷ s))) [
  | inl front ↦ prefix_length p (c ∷ s) front
  | inr later ↦ ground (arith, contains-length p s)
]

lengthen-fresh :
    (fuel : ℕ) (fence content : Text)
    → length content < length fence + fuel
    → contains (lengthen fuel fence content) content ≡ false
unfolding lengthen
lengthen-fresh zero fence content h = elim (Bool-cases (contains fence content)) [
  | inl inside ↦ absurd (omega (arith, contains-length fence content inside))
  | inr outside ↦ outside
]
lengthen-fresh (suc fuel) fence content h = elim (Bool-cases (contains fence content)) [
  | inl inside ↦ rw inside (
      lengthen-fresh fuel (fence ++ 96 ∷ []) content (omega (arith, length-append fence (96 ∷ []))))
  | inr outside ↦ rw outside outside
]

-- The fence that is chosen for a content does not occur in the content, whatever the content holds.
pub fence_from-fresh : (fence content : Text) → contains (fence_from fence content) content ≡ false
unfolding fence_from
fence_from-fresh fence content = lengthen-fresh (suc (length content)) fence content (omega arith)

-- The text has no `\n`.
abbrev pub one_line : Text → Bool
one_line = all (λ c. not (c == 10))

lengthen-one_line :
    (fuel : ℕ) (fence content : Text)
    → one_line fence ≡ true
    → one_line (lengthen fuel fence content) ≡ true
unfolding lengthen
lengthen-one_line zero fence content h = h
lengthen-one_line (suc fuel) fence content h = elim (Bool-cases (contains fence content)) [
  | inl inside ↦ rw inside (
      lengthen-one_line fuel (fence ++ 96 ∷ []) content
        (ground (arith, all-append (λ c. not (c == 10)) fence (96 ∷ []))))
  | inr outside ↦ rw outside h
]

pub fence_from-one_line :
    (fence content : Text) → one_line fence ≡ true → one_line (fence_from fence content) ≡ true
unfolding fence_from
fence_from-one_line fence content h = lengthen-one_line (suc (length content)) fence content h

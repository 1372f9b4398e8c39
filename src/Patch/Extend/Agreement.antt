-- ===== src/Patch/Extend/Agreement.antt =====
-- The lists of lines that the placing of context lines compares and searches.
use achord_review.Prelude.{
  ℕ, zero, suc, ◌-◌, ◌≤◌, ◌<◌, ◌≡◌, refl, true, none, some, List, [], ◌∷◌, length, length-take,
  drop, arith, Bool-cases, Option-cases, inl, inr, sym, ap, ◌∙◌, min, subst,
}
use achord_review.Prelude.Int.{pos, ◌-ℤ◌}
use achord_review.Text.{Text, contains}
use achord_review.Patch.Extend.Layout.{lines_eq, slice, find_section, find_agreement, as_context}
use achord_review.Patch.Extend.Reach.{sub_pos}

length-drop : (n : ℕ) (xs : List Text) → length (drop n xs) ≡ length xs - n
length-drop zero xs = omega arith
length-drop (suc n) [] = omega arith
length-drop (suc n) (x ∷ xs) = omega (arith, length-drop n xs)

lines_eq-length : (xs ys : List Text) → lines_eq xs ys ≡ true → length xs ≡ length ys
lines_eq-length [] [] h = refl
lines_eq-length [] (y ∷ ys) h = cc h
lines_eq-length (x ∷ xs) [] h = cc h
lines_eq-length (x ∷ xs) (y ∷ ys) h = omega (arith, lines_eq-length xs ys (ground arith))

-- A position that is left of the end of one list is so in every list that agrees with it from there on.
pub lines_eq-drop :
    (i : ℕ) (xs ys : List Text)
    → i < length xs
    → lines_eq (drop i xs) (drop i ys) ≡ true
    → i < length ys
lines_eq-drop i xs ys h e =
    omega (arith, h, lines_eq-length (drop i xs) (drop i ys) e, length-drop i xs, length-drop i ys)

some-injective : {m n : ℕ} → some m ≡ some n → m ≡ n
some-injective {m} p = ap (λ o. elim o [ none ↦ m | some k ↦ k ]) p

pub find_section-bound :
    (section : Text) (lines : List Text) (i : ℕ)
    → find_section section lines ≡ some i
    → i < length lines
unfolding find_section
find_section-bound section [] i e = cc e
find_section-bound section (l ∷ ls) i e = elim (Bool-cases (contains section l)) [
  | inl here ↦ omega (arith, some-injective (rw here at e))
  | inr there ↦ elim (Option-cases (find_section section ls)) [
    | inl none_found ↦ cc (rw (there, none_found) at e)
    | inr (j, found) ↦
        omega
          (arith, some-injective (rw (there, found) at e), find_section-bound section ls j found)
  ]
]

drop-drop_one : (i : ℕ) (ys : List Text) → drop i (drop 1 ys) ≡ drop (suc i) ys
drop-drop_one zero [] = refl
drop-drop_one (suc i) [] = refl
drop-drop_one i (y ∷ ys) = refl

pub length-slice :
    (xs : List Text) (a s : ℕ)
    → 1 ≤ a
    → 1 ≤ s
    → length (slice xs (pos a -ℤ pos 1) (pos s -ℤ pos 1)) ≤ s - a
unfolding slice
length-slice xs a s ha hs =
    rw (sub_pos a 1 ha, sub_pos s 1 hs)
      (omega (
        arith,
        length-take (min (s - 1) (length xs) - min (a - 1) (length xs))
            (drop (min (a - 1) (length xs)) xs),
      ))

pub length-as_context : (xs : List Text) → length (as_context xs) ≡ length xs
length-as_context [] = refl
length-as_context (x ∷ xs) = ap suc (length-as_context xs)

pub find_agreement-agrees :
    (xs ys : List Text) (i : ℕ)
    → find_agreement xs ys ≡ some i
    → (i < length xs) × (lines_eq (drop i xs) (drop i ys) ≡ true)
unfolding find_agreement
find_agreement-agrees [] ys i e = cc e
find_agreement-agrees (x ∷ xs) ys i e = elim (Bool-cases (lines_eq (x ∷ xs) ys)) [
  | inl here ↦
      let at_once = some-injective (rw here at e) in
      (
        omega (arith, at_once),
        subst (λ n. lines_eq (drop n (x ∷ xs)) (drop n ys) ≡ true) at_once here,
      )
  | inr there ↦ elim (Option-cases (find_agreement xs (drop 1 ys))) [
    | inl none_found ↦ cc (rw (there, none_found) at e)
    | inr (j, found) ↦
        let later = some-injective (rw (there, found) at e) in
        let (short, agrees) = find_agreement-agrees xs (drop 1 ys) j found in
        (
          omega (arith, later, short),
          subst (λ n. lines_eq (drop n (x ∷ xs)) (drop n ys) ≡ true) later
              (ap (lines_eq (drop j xs)) (sym (drop-drop_one j ys)) ∙ agrees),
        )
  ]
]

-- ===== src/Patch/Deletions/Idempotence.antt =====
-- Cutting a list of lines into hunks and gluing them together again; what `omit_deletion_hunks`
-- leaves of the additions, and what it does to its own result.
use achord_review.Prelude.{
  ◌≡◌, refl, true, false, ◌&&◌, List, [], ◌∷◌, ◌++◌, ap, any, all, all-append, all-keep,
  keep_of_all, keep-keep, All, All-keep, null, keep, keep-append, keep-eq-nil, flatten, arith,
  append_assoc, Bool-cases, inl, inr, ◌∙◌, sym, ◌≡⟨◌⟩◌, ◌∎,
}
use achord_review.Text.{Text, starts_with}
use achord_review.Patch.Deletions.{kept_lines, is_header, is_addition, marks_hunk}
use achord_review.Patch.Deletions.Hunks.{
  is_readable, split_hunks, with_preface, has_addition, adding_hunks,
}
use achord_review.Patch.Deletions.Refinement.{rest_of, chosen, chosen-cons, kept_lines-adding_hunks}

marks_hunk-addition : (l : Text) → marks_hunk l ≡ true → is_addition l ≡ false
unfolding starts_with
marks_hunk-addition [] h = refl
marks_hunk-addition (a ∷ l) h = ground arith

additions-readable : (ls : List Text) → keep is_addition (keep is_readable ls) ≡ keep is_addition ls
additions-readable [] = refl
additions-readable (l ∷ ls) = ground (arith, additions-readable ls, marks_hunk-addition l)

headers-readable : (ls : List Text) → any is_header (keep is_readable ls) ≡ any is_header ls
headers-readable [] = refl
headers-readable (l ∷ ls) = ground (arith, headers-readable ls)

additions-chosen :
    (hs : List (List Text)) → keep is_addition (chosen hs) ≡ keep is_addition (flatten hs)
unfolding flatten
additions-chosen [] = unfold chosen in refl
additions-chosen (h ∷ hs) = elim (Bool-cases (has_addition h)) [
  | inl p ↦ rw (chosen-cons, p, keep-append, keep-append, additions-chosen hs)
  | inr n ↦ rw (chosen-cons, n, keep-append, keep-eq-nil is_addition h n) (additions-chosen hs)
]

-- The parts of a split hold every line, in order.
flatten-split_hunks : (ls : List Text) → (split_hunks ls).0 ++ flatten (split_hunks ls).1 ≡ ls
unfolding split_hunks flatten
flatten-split_hunks [] = refl
flatten-split_hunks (l ∷ ls) = elim (Bool-cases (is_header l)) [
  | inl h ↦ rw h (ap (◌∷◌ l) (flatten-split_hunks ls))
  | inr n ↦ rw n (ap (◌∷◌ l) (flatten-split_hunks ls))
]

flatten-with_preface :
    (preface : List Text) (hs : List (List Text))
    → null hs ≡ false
    → flatten (with_preface preface hs) ≡ preface ++ flatten hs
unfolding flatten
flatten-with_preface preface [] h = cc
flatten-with_preface preface (x ∷ hs) h = append_assoc preface x (flatten hs)

header-split_hunks : (ls : List Text) → any is_header ls ≡ true → null (split_hunks ls).1 ≡ false
unfolding split_hunks
header-split_hunks [] h = cc
header-split_hunks (l ∷ ls) h = ground (arith, header-split_hunks ls)

-- If a patch has a hunk at all, then no added line is lost: the additions of the result are the
-- additions of the patch, in order.
pub additions-kept_lines :
    (patch_lines : List Text)
    → any is_header patch_lines ≡ true
    → keep is_addition (kept_lines patch_lines) ≡ keep is_addition patch_lines
unfolding adding_hunks
additions-kept_lines patch_lines h = rw kept_lines-adding_hunks (
    unfold chosen rest_of in
    additions-chosen (with_preface (rest_of patch_lines).0 (rest_of patch_lines).1)
    ∙ ap (keep is_addition) (
        flatten-with_preface _ _ (header-split_hunks readable (headers-readable patch_lines ∙ h))
        ∙ flatten-split_hunks readable)
    ∙ additions-readable patch_lines)
  where
    readable : List Text
    readable = keep is_readable patch_lines

-- A hunk is a header and lines that are none.
abbrev IsHunk : List Text → Type 0
IsHunk [] = ⊥
IsHunk (l ∷ body) = (is_header l ≡ true) × (any is_header body ≡ false)

split_hunks-glue :
    (hs : List (List Text)) (preface : List Text)
    → any is_header preface ≡ false
    → All IsHunk hs
    → split_hunks (preface ++ flatten hs) ≡ (preface, hs)
unfolding split_hunks flatten
split_hunks-glue [] [] h k = refl
split_hunks-glue ([] ∷ hs) [] h k = absurd k.0
split_hunks-glue ((l ∷ body) ∷ hs) [] h k = rw (split_hunks-glue hs body k.0.1 k.1, k.0.0)
split_hunks-glue hs (l ∷ preface) h k = elim (Bool-cases (is_header l)) [
  | inl p ↦ ground arith
  | inr n ↦ rw (split_hunks-glue hs preface (ground arith) k, n)
]

split_hunks-IsHunk :
    (ls : List Text) → (any is_header (split_hunks ls).0 ≡ false) × All IsHunk (split_hunks ls).1
unfolding split_hunks
split_hunks-IsHunk [] = (refl, tt)
split_hunks-IsHunk (l ∷ ls) =
    let (p, q) = split_hunks-IsHunk ls in
    elim (Bool-cases (is_header l)) [ inl h ↦ rw h (refl, ((h, p), q)) | inr n ↦ rw n (rw n p, q) ]

with_preface-nil : (hs : List (List Text)) → with_preface [] hs ≡ hs
with_preface-nil [] = refl
with_preface-nil (h ∷ hs) = refl

chosen-keep : (hs : List (List Text)) → chosen (keep has_addition hs) ≡ chosen hs
unfolding chosen
chosen-keep hs = rw keep-keep

-- Choosing once more, from the lines that were chosen.
abbrev rechosen : List Text → List Text
rechosen out = chosen (with_preface (split_hunks out).0 (split_hunks out).1)

chosen-glue :
    (preface x : List Text) (hs : List (List Text))
    → (preface ++ x) ++ chosen hs ≡ preface ++ flatten (x ∷ keep has_addition hs)
unfolding chosen flatten
chosen-glue preface x hs = append_assoc preface x (chosen hs)

rechosen-chosen :
    (preface : List Text) (hs : List (List Text))
    → any is_header preface ≡ false
    → All IsHunk hs
    → rechosen (chosen (with_preface preface hs)) ≡ chosen (with_preface preface hs)
rechosen-chosen preface [] h k = unfold chosen flatten split_hunks in refl
rechosen-chosen preface (x ∷ hs) h k = elim (Bool-cases (has_addition (preface ++ x))) [
  | inl p ↦
      let kept = keep has_addition hs in
      let cut : split_hunks ((preface ++ x) ++ chosen hs) ≡ (preface, x ∷ kept) =
        ap split_hunks (chosen-glue preface x hs)
        ∙ split_hunks-glue (x ∷ kept) preface h (k.0, All-keep IsHunk has_addition hs k.1) in
      rw (chosen-cons, p, cut, chosen-cons, p, chosen-keep hs)
  | inr n ↦
      let kept = keep has_addition hs in
      let cut : split_hunks (chosen hs) ≡ ([], kept) =
        unfold chosen in split_hunks-glue kept [] refl (All-keep IsHunk has_addition hs k.1) in
      rw (chosen-cons, n, cut, with_preface-nil, chosen-keep hs)
]

all-chosen :
    (hs : List (List Text))
    → all is_readable (flatten hs) ≡ true
    → all is_readable (chosen hs) ≡ true
unfolding flatten
all-chosen [] h = unfold chosen in refl
all-chosen (x ∷ hs) h =
    let e : (all is_readable x && all is_readable (flatten hs)) ≡ true =
      sym (all-append is_readable x (flatten hs)) ∙ h in
    rw chosen-cons (ground (arith, all-append is_readable x (chosen hs), all-chosen hs))

all-with_preface :
    (preface : List Text) (hs : List (List Text))
    → all is_readable (preface ++ flatten hs) ≡ true
    → all is_readable (flatten (with_preface preface hs)) ≡ true
unfolding flatten
all-with_preface preface [] h = refl
all-with_preface preface (x ∷ hs) h = rw append_assoc h

readable-kept_lines : (ls : List Text) → all is_readable (kept_lines ls) ≡ true
unfolding adding_hunks rest_of chosen
readable-kept_lines ls = rw kept_lines-adding_hunks (
    all-chosen (with_preface (rest_of ls).0 (rest_of ls).1) (
      all-with_preface (rest_of ls).0 (rest_of ls).1
        (rw flatten-split_hunks (all-keep is_readable ls))))

adding_hunks-readable : (ls : List Text) → all is_readable ls ≡ true → adding_hunks ls ≡ rechosen ls
unfolding adding_hunks chosen
adding_hunks-readable ls h = rw (keep_of_all is_readable ls h)

rechosen-adding_hunks : (ls : List Text) → rechosen (adding_hunks ls) ≡ adding_hunks ls
unfolding adding_hunks rest_of chosen
rechosen-adding_hunks ls =
    let (p, q) = split_hunks-IsHunk (keep is_readable ls) in
    rechosen-chosen (rest_of ls).0 (rest_of ls).1 p q

-- Applied to the lines of its own result the loop keeps them all: no hunk is left to omit.
kept_lines-kept_lines :
    (patch_lines : List Text) → kept_lines (kept_lines patch_lines) ≡ kept_lines patch_lines
kept_lines-kept_lines ls =
    kept_lines (kept_lines ls)
    ≡⟨ kept_lines-adding_hunks (kept_lines ls) ⟩ adding_hunks (kept_lines ls)
    ≡⟨ adding_hunks-readable (kept_lines ls) (readable-kept_lines ls) ⟩ rechosen (kept_lines ls)
    ≡⟨ ap rechosen (kept_lines-adding_hunks ls) ⟩ rechosen (adding_hunks ls)
    ≡⟨ rechosen-adding_hunks ls ⟩ adding_hunks ls
    ≡⟨ sym (kept_lines-adding_hunks ls) ⟩ kept_lines ls ∎

-- ===== src/Patch/Deletions/Refinement.antt =====
-- The loop of `omit_deletion_hunks` keeps the hunks that add a line, and no addition is lost.
use achord_review.Prelude.{
  ◌≡◌, refl, true, false, List, [], ◌∷◌, ◌++◌, any-append, keep, flatten, arith, append_assoc,
  append-nil, Bool-cases, inl, inr, if◌then◌else◌, ◌∙◌, sym,
}
use achord_review.Text.{Text}
use achord_review.Patch.Deletions.{
  OmitState, omit_step, omit_loop, omit_finish, kept_lines, is_header, marks_hunk,
}
use achord_review.Patch.Deletions.Hunks.{
  is_readable, split_hunks, with_preface, has_addition, adding_hunks, is_header-marks_hunk,
  is_header-addition,
}

abbrev inside : List Text → List Text → OmitState
inside temp added = record {
  temp_hunk = temp;
  added_patched = added;
  add_hunk = has_addition temp;
  inside_hunk = true;
}

abbrev before : List Text → OmitState
before temp = record {
  temp_hunk = temp;
  added_patched = [];
  add_hunk = has_addition temp;
  inside_hunk = false;
}

unmarked-readable : (l : Text) → marks_hunk l ≡ false → is_header l ≡ false
unmarked-readable l h = ground (arith, is_header-marks_hunk l)

-- One round inside a hunk.
step_body :
    (temp added : List Text) (l : Text)
    → marks_hunk l ≡ false
    → omit_step (inside temp added) l ≡ inside (temp ++ l ∷ []) added
unfolding omit_step
step_body temp added l h = rw h (rw any-append (ground arith))

step_skip :
    (s : OmitState) (l : Text) → marks_hunk l ≡ true → is_header l ≡ false → omit_step s l ≡ s
unfolding omit_step
step_skip s l h k = rw (h, k)

step_header :
    (temp added : List Text) (l : Text)
    → is_header l ≡ true
    → omit_step (inside temp added) l
      ≡ inside (l ∷ []) (if has_addition temp then added ++ temp else added)
unfolding omit_step
step_header temp added l h = rw (is_header-marks_hunk l h, h, is_header-addition l h)

step_before :
    (temp : List Text) (l : Text)
    → marks_hunk l ≡ false
    → omit_step (before temp) l ≡ before (temp ++ l ∷ [])
unfolding omit_step
step_before temp l h = rw h (rw any-append (ground arith))

step_first :
    (temp : List Text) (l : Text)
    → is_header l ≡ true
    → omit_step (before temp) l ≡ inside (temp ++ l ∷ []) []
unfolding omit_step
step_first temp l h =
    rw (is_header-marks_hunk l h, h) (rw any-append (ground (arith, is_header-addition l h)))

-- The rest of the patch, split: `split_hunks` with the unreadable lines gone.
unfoldable pub rest_of : List Text → List Text × List (List Text)
rest_of ls = split_hunks (keep is_readable ls)

rest_of-header :
    (l : Text) (ls : List Text)
    → is_header l ≡ true
    → rest_of (l ∷ ls) ≡ ([], (l ∷ (rest_of ls).0) ∷ (rest_of ls).1)
unfolding rest_of split_hunks
rest_of-header l ls h = rw (is_header-marks_hunk l h, h) (rw h)

rest_of-body :
    (l : Text) (ls : List Text)
    → marks_hunk l ≡ false
    → rest_of (l ∷ ls) ≡ (l ∷ (rest_of ls).0, (rest_of ls).1)
unfolding rest_of split_hunks
rest_of-body l ls m = rw m (rw (unmarked-readable l m))

rest_of-skip :
    (l : Text) (ls : List Text)
    → marks_hunk l ≡ true
    → is_header l ≡ false
    → rest_of (l ∷ ls) ≡ rest_of ls
unfolding rest_of
rest_of-skip l ls m n = rw (m, n)

unfoldable pub chosen : List (List Text) → List Text
chosen hunks = flatten (keep has_addition hunks)

pub chosen-cons :
    (h : List Text) (hs : List (List Text))
    → chosen (h ∷ hs) ≡ (if has_addition h then h ++ chosen hs else chosen hs)
unfolding chosen flatten
chosen-cons h hs = elim (Bool-cases (has_addition h)) [ inl p ↦ rw p | inr n ↦ rw n ]

close_hunk :
    (temp added : List Text) (hs : List (List Text))
    → (if has_addition temp then added ++ temp else added) ++ chosen hs
      ≡ added ++ chosen ((temp ++ []) ∷ hs)
close_hunk temp added hs = elim (Bool-cases (has_addition temp)) [
  | inl p ↦ rw (append-nil, chosen-cons, p) (append_assoc added temp (chosen hs))
  | inr n ↦ rw (append-nil, chosen-cons, n)
]

loop_inside :
    (ls temp added : List Text)
    → omit_finish (omit_loop (inside temp added) ls)
      ≡ added ++ chosen ((temp ++ (rest_of ls).0) ∷ (rest_of ls).1)
unfolding omit_loop
loop_inside [] temp added =
    unfold omit_finish rest_of split_hunks in
    sym (append-nil _) ∙ unfold chosen flatten in close_hunk temp added []
loop_inside (l ∷ ls) temp added = elim (Bool-cases (is_header l)) [
  | inl h ↦
      rw (step_header temp added l h, loop_inside ls, rest_of-header l ls h)
        (close_hunk temp added ((l ∷ (rest_of ls).0) ∷ (rest_of ls).1))
  | inr n ↦ elim (Bool-cases (marks_hunk l)) [
    | inl m ↦
        rw (step_skip (inside temp added) l m n, rest_of-skip l ls m n) (loop_inside ls temp added)
    | inr m ↦ rw (step_body temp added l m, loop_inside ls, rest_of-body l ls m, append_assoc)
  ]
]

loop_before :
    (ls temp : List Text)
    → omit_finish (omit_loop (before temp) ls)
      ≡ chosen (with_preface (temp ++ (rest_of ls).0) (rest_of ls).1)
unfolding omit_loop
loop_before [] temp = unfold omit_finish rest_of split_hunks chosen flatten in refl
loop_before (l ∷ ls) temp = elim (Bool-cases (is_header l)) [
  | inl h ↦
      rw (step_first temp l h, loop_inside ls, rest_of-header l ls h, append-nil, append_assoc)
  | inr n ↦ elim (Bool-cases (marks_hunk l)) [
    | inl m ↦ rw (step_skip (before temp) l m n, rest_of-skip l ls m n) (loop_before ls temp)
    | inr m ↦ rw (step_before temp l m, loop_before ls, rest_of-body l ls m, append_assoc)
  ]
]

-- The loop over the lines keeps, in order, exactly the lines of the hunks that add a line, where the
-- lines before the first header go with the first hunk and lines that only look like a header go.
pub kept_lines-adding_hunks :
    (patch_lines : List Text) → kept_lines patch_lines ≡ adding_hunks patch_lines
unfolding kept_lines adding_hunks chosen rest_of
kept_lines-adding_hunks patch_lines = loop_before patch_lines []

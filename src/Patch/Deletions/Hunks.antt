-- ===== src/Patch/Deletions/Hunks.antt =====
-- The specification of `omit_deletion_hunks`: a patch as a list of hunks.
use achord_review.Prelude.{
  ◌≡◌, refl, Bool, true, false, ◌||◌, not, List, [], ◌∷◌, ◌++◌, any, keep, flatten, arith,
  if◌then◌else◌,
}
use achord_review.Text.{Text, starts_with}
use achord_review.Patch.Header.{match_header}
use achord_review.Patch.Deletions.{is_header, is_addition, marks_hunk}

-- Lines that begin with `@@` and are no hunk header are skipped.
abbrev pub is_readable : Text → Bool
is_readable line = not (marks_hunk line) || is_header line

-- The lines before the first header, and the hunks: a header and the lines up to the next one.
unfoldable pub split_hunks : List Text → List Text × List (List Text)
split_hunks [] = ([], [])
split_hunks (l ∷ ls) =
    let (preface, hunks) = split_hunks ls in
    if is_header l then ([], (l ∷ preface) ∷ hunks) else (l ∷ preface, hunks)

-- What stands before the first header goes with the first hunk.
abbrev pub with_preface : List Text → List (List Text) → List (List Text)
with_preface preface [] = []
with_preface preface (h ∷ hs) = (preface ++ h) ∷ hs

abbrev pub hunks_of : List Text → List (List Text)
hunks_of ls = with_preface (split_hunks ls).0 (split_hunks ls).1

abbrev pub has_addition : List Text → Bool
has_addition = any is_addition

-- The hunks that add a line, in order.
unfoldable pub adding_hunks : List Text → List Text
adding_hunks ls = flatten (keep has_addition (hunks_of (keep is_readable ls)))

-- A header begins with `@@`.
pub is_header-marks_hunk : (l : Text) → is_header l ≡ true → marks_hunk l ≡ true
unfolding is_header match_header starts_with
is_header-marks_hunk [] h = h
is_header-marks_hunk (a ∷ []) h = ground arith
is_header-marks_hunk (a ∷ b ∷ l) h = ground arith

pub is_header-addition : (l : Text) → is_header l ≡ true → is_addition l ≡ false
unfolding is_header match_header
is_header-addition [] h = refl
is_header-addition (a ∷ l) h = ground arith

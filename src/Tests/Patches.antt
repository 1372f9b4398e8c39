-- ===== src/Tests/Patches.antt =====
-- A patch with two hunks, run through the code of pr_agent/algo/git_patch_processing.py.
use mathlib.Core.List.{Sublist}
use achord_review.Prelude.{arith, ◌≡◌, refl, true, false, List, [], ◌∷◌, keep, any}
use achord_review.Text.{Text, codes, starts_with, text_eq, contains, strip_prefix}
use achord_review.Patch.Header.{HunkHeader, match_header, digits, size_group}
use achord_review.Patch.Deletions.{
  kept_lines, omit_finish, omit_loop, omit_step, is_header, is_addition,
}
use achord_review.Patch.Deletions.Hunks.{adding_hunks}
use achord_review.Patch.Deletions.Refinement.{kept_lines-adding_hunks}
use achord_review.Patch.Deletions.Idempotence.{additions-kept_lines}
use achord_review.Patch.Numbered.{number_hunks}
use achord_review.Patch.Numbered.Blocks.{items, render_patch}
use achord_review.Patch.Numbered.Refinement.{number_hunks-render_patch}
use achord_review.Patch.Extend.{extended_header}
use achord_review.Patch.Extend.Layout.{
  Context, layout_hunk, place_context, calc_context_limits, slice, find_section, find_agreement,
}
use achord_review.Patch.Extend.Placed.{IsWritten, match_header-layout_hunk}
use achord_review.Prelude.Int.{◌+ℤ◌, ◌-ℤ◌}
use achord_review.Text.Numbers.{show_ℤ, show_ℕ, show_from}
use achord_review.Patch.Extend.Lines.{extended_lines, extended_lines-sublist, is_copied}

abbrev patch : List Text
patch =
    codes "@@ -1,2 +1,1 @@"
    ∷ codes "-gone"
    ∷ codes " kept"
    ∷ codes "@@ -10,2 +9,3 @@ def f():"
    ∷ codes " a"
    ∷ codes "+b"
    ∷ codes " c"
    ∷ []

patch-kept :
    kept_lines patch ≡ codes "@@ -10,2 +9,3 @@ def f():" ∷ codes " a" ∷ codes "+b" ∷ codes " c" ∷ []
unfolding kept_lines omit_finish omit_loop omit_step starts_with is_header match_header digits
    size_group
patch-kept = refl

kept_lines-adding_hunks_example : kept_lines patch ≡ adding_hunks patch
kept_lines-adding_hunks_example = kept_lines-adding_hunks patch

patch-any : any is_header patch ≡ true
unfolding is_header match_header digits size_group
patch-any = refl

additions-kept_lines_example : keep is_addition (kept_lines patch) ≡ keep is_addition patch
additions-kept_lines_example = additions-kept_lines patch patch-any

number_hunks-render_patch_example :
    number_hunks (codes "## File: 'f.py'") patch
    ≡ render_patch (codes "## File: 'f.py'") (items true false patch)
number_hunks-render_patch_example = number_hunks-render_patch (codes "## File: 'f.py'") patch

abbrev context : Context
context = record {
  original_lines = codes "x" ∷ codes "gone" ∷ codes "kept" ∷ [];
  new_lines = codes "x" ∷ codes "kept" ∷ [];
  extra_before = 1;
  extra_after = 1;
  allow_dynamic_context = false;
  extra_before_dynamic = 8;
}

extended_lines-sublist_example : Sublist (keep is_copied patch) (extended_lines context patch)
extended_lines-sublist_example = extended_lines-sublist context patch

-- A hunk at the end of a file of three lines.
abbrev last_hunk : HunkHeader
last_hunk = record {
  section_header = codes "def f():";
  size1 = 2;
  size2 = 1;
  start1 = 2;
  start2 = 2;
}

match_header-layout_hunk_example :
    (w : HunkHeader) × IsWritten context last_hunk (layout_hunk context last_hunk true) w
match_header-layout_hunk_example =
    match_header-layout_hunk context last_hunk (omega arith) (omega arith) (omega arith) true

last_header :
    extended_header (layout_hunk context last_hunk true) ≡ codes "@@ -1,3 +1,2 @@ def f():"
unfolding extended_header layout_hunk place_context calc_context_limits slice find_section
    find_agreement ◌+ℤ◌ ◌-ℤ◌ show_ℤ show_ℕ show_from text_eq contains starts_with strip_prefix
last_header = refl

-- A hunk without old lines at the head of a file of one line, as a patch without context has it: the size
-- that is written is negative.
abbrev one_line : Context
one_line = record {
  original_lines = codes "x" ∷ [];
  new_lines = [];
  extra_before = 3;
  extra_after = 0;
  allow_dynamic_context = false;
  extra_before_dynamic = 3;
}

abbrev first_hunk : HunkHeader
first_hunk = record { section_header = []; size1 = 0; size2 = 2; start1 = 0; start2 = 1 }

negative_size : extended_header (layout_hunk one_line first_hunk true) ≡ codes "@@ -1,-1 +1,2 @@ "
unfolding extended_header layout_hunk place_context calc_context_limits slice find_section
    find_agreement ◌+ℤ◌ ◌-ℤ◌ show_ℤ show_ℕ show_from text_eq contains starts_with strip_prefix
negative_size = refl

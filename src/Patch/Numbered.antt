-- ===== src/Patch/Numbered.antt =====
-- `decouple_and_convert_to_hunks_with_lines_numbers` of pr_agent/algo/git_patch_processing.py: each
-- hunk as its new lines, numbered, and its old lines.
pub mod Blocks
pub mod Refinement
pub mod Written
use achord_review.Prelude.{
  ℕ, String, Bool, true, false, ◌&&◌, ◌||◌, not, Option, none, some, List, [], ◌∷◌, ◌++◌, ◌==◌,
  null, any, if◌then◌else◌,
}
use achord_review.Prelude.Int.{ℤ, pos, negsuc, ◌+ℤ◌}
use achord_review.Text.{Text, codes, starts_with, contains, lower, strip, rstrip}
use achord_review.Text.Lines.{split_lines}
use achord_review.Text.Numbers.{show_ℤ}
use achord_review.Types.{EditType, FilePatchInfo}
use achord_review.Patch.Header.{Match, match_header, extract_hunk_headers}

-- `'no newline at end of file' in line.lower()`
unfoldable pub is_eof_note : Text → Bool
is_eof_note line = contains (codes "no newline at end of file") (lower line)

abbrev pub is_added : Text → Bool
is_added [] = false
is_added (c ∷ _) = c == b'+'

abbrev pub is_removed : Text → Bool
is_removed [] = false
is_removed (c ∷ _) = c == b'-'

abbrev pub marks_hunk : Text → Bool
marks_hunk line = starts_with (codes "@@") line

-- The loop `for i, line_new in enumerate(new_content_lines)`.
unfoldable pub numbered_lines : ℤ → List Text → Text
unfolding ◌+ℤ◌ show_ℤ
numbered_lines n [] = []
numbered_lines n (l ∷ ls) =
    show_ℤ n ++ (codes " " ++ (l ++ (codes "\n" ++ numbered_lines (n +ℤ pos 1) ls)))

-- The loop `for line_old in old_content_lines`.
unfoldable pub plain_lines : List Text → Text
plain_lines [] = []
plain_lines (l ∷ ls) = l ++ (codes "\n" ++ plain_lines ls)

-- The text that one hunk adds behind its header.
unfoldable pub write_hunk : Text → ℤ → List Text → List Text → Text
write_hunk text start2 new_lines old_lines =
    let is_plus_lines = any is_added new_lines in
    let is_minus_lines = any is_removed old_lines in
    let with_new =
      if is_plus_lines || is_minus_lines
      then rstrip text ++ (codes "\n__new hunk__\n" ++ numbered_lines start2 new_lines)
      else text in
    if is_minus_lines
    then rstrip with_new ++ (codes "\n__old hunk__\n" ++ plain_lines old_lines)
    else with_new

abbrev pub write_header : Text → Text → Text
write_header text header = text ++ (codes "\n" ++ (header ++ codes "\n"))

-- The variables of the loop; `header_line` is `none` until a header has matched, and then
-- `prev_header_line` and `match` stand for the same hunk.
pub record NumberState : Type 0 where
  pub text : Text
  pub new_content_lines : List Text
  pub old_content_lines : List Text
  pub header_line : Option Text
  pub start2 : ℤ
  pub skip_hunk : Bool

abbrev pub header_text : Text → Option Text → Text
header_text text none = text
header_text text (some header) = write_header text header

-- "found a new hunk, split the previous lines"
unfoldable pub flush : NumberState → Text
flush s =
    if null s.new_content_lines && null s.old_content_lines
    then s.text
    else write_hunk (header_text s.text s.header_line) s.start2 s.new_content_lines
        s.old_content_lines

abbrev pub open_hunk : NumberState → Text → Option Match → NumberState
open_hunk s line none = record s { skip_hunk = true }
open_hunk s line (some m) = record {
  text = flush s;
  new_content_lines = [];
  old_content_lines = [];
  header_line = some line;
  start2 = pos ((extract_hunk_headers m).start2);
  skip_hunk = false;
}

abbrev pub ends_hunk : List Text → Bool
ends_hunk [] = true
ends_hunk (next ∷ _) = marks_hunk next

-- An empty line before a hunk header, or at the end, is no line of the file.
abbrev pub is_gap : Bool → Text → List Text → Bool
is_gap is_first line rest = null line && not is_first && ends_hunk rest

-- One round; `is_first` is `line_i == 0`, and `rest` the lines behind this one.
unfoldable pub number_step : Bool → NumberState → Text → List Text → NumberState
number_step is_first s line rest =
    if is_eof_note line
    then s
    else if marks_hunk line
    then open_hunk s line (match_header line)
    else if s.skip_hunk
    then s
    else if is_added line
    then record s { new_content_lines = s.new_content_lines ++ line ∷ [] }
    else if is_removed line
    then record s { old_content_lines = s.old_content_lines ++ line ∷ [] }
    else if is_gap is_first line rest
    then s
    else record s {
      new_content_lines = s.new_content_lines ++ line ∷ [];
      old_content_lines = s.old_content_lines ++ line ∷ [];
    }

unfoldable pub number_loop : Bool → NumberState → List Text → NumberState
number_loop is_first s [] = s
number_loop is_first s (line ∷ rest) = number_loop false (number_step is_first s line rest) rest

abbrev pub number_start : Text → NumberState
number_start heading = record {
  text = heading;
  new_content_lines = [];
  old_content_lines = [];
  header_line = none;
  start2 = negsuc 0;
  skip_hunk = false;
}

-- "finishing last hunk": nothing is written if no header has matched.
abbrev pub last_text : NumberState → Option Text → Text
last_text s none = s.text
last_text s (some _) = flush s

unfoldable pub number_hunks : Text → List Text → Text
unfolding number_loop
number_hunks heading patch_lines =
    let s = number_loop true (number_start heading) patch_lines in
    rstrip (last_text s s.header_line)

abbrev pub is_deleted_file : Option FilePatchInfo → Bool
is_deleted_file none = false
is_deleted_file (some file) = elim file.edit_type [
  | EditType.added ↦ false
  | EditType.deleted ↦ true
  | _ ↦ false
]

abbrev pub file_heading : Option FilePatchInfo → Text
file_heading none = []
file_heading (some file) = codes "\n\n## File: '" ++ (strip file.filename ++ codes "'\n")

abbrev pub deleted_heading : Option FilePatchInfo → Text
deleted_heading none = []
deleted_heading (some file) =
    codes "\n\n## File '" ++ (strip file.filename ++ codes "' was deleted\n")

unfoldable pub decouple_and_convert_to_hunks_with_lines_numbers : Text → Option FilePatchInfo → Text
decouple_and_convert_to_hunks_with_lines_numbers patch file =
    if is_deleted_file file
    then deleted_heading file
    else number_hunks (file_heading file) (split_lines patch)

-- ===== src/Patch/Selection.antt =====
-- `extract_hunk_lines_from_patch` of pr_agent/algo/git_patch_processing.py: the hunk around some lines.
use achord_review.Prelude.{
  ℕ, suc, ◌+◌, Bool, true, false, ◌&&◌, ◌||◌, not, Option, none, some, List, [], ◌∷◌, ◌++◌,
  if◌then◌else◌,
}
use achord_review.Prelude.Int.{ℤ, pos, negsuc, ◌+ℤ◌, ◌-ℤ◌, leb_ℤ}
use achord_review.Text.{Text, codes, text_eq, starts_with, lower, strip, rstrip}
use achord_review.Text.Lines.{split_lines}
use achord_review.Patch.Header.{Match, HunkHeader, match_header, extract_hunk_headers}
use achord_review.Patch.Numbered.{is_eof_note}

-- `side.lower()`
pub data Side : Type 0 where
  left right neither : Side

unfoldable pub side_of : Text → Side
side_of side =
    if text_eq (lower side) (codes "left")
    then left
    else if text_eq (lower side) (codes "right")
    then right
    else neither

-- The variables of the loop; both starts are -1 before the first hunk.
pub record SelectState : Type 0 where
  pub patch_with_lines : Text
  pub selected_lines : Text
  pub start1 : ℤ
  pub start2 : ℤ
  pub skip_hunk : Bool
  pub selected_lines_num : ℕ

-- `start <= line_start <= start + size - 1`
abbrev pub covers : ℕ → ℕ → ℤ → Bool
covers start size line_start =
    leb_ℤ (pos start) line_start && leb_ℤ line_start (pos (start + size) -ℤ pos 1)

-- The line range begins in the hunk.
unfoldable pub is_wanted : Side → ℤ → HunkHeader → Bool
is_wanted left line_start h = covers h.start1 h.size1 line_start
is_wanted right line_start h = covers h.start2 h.size2 line_start
is_wanted neither line_start h = true

-- A line that begins with `@@`.
unfoldable pub begin_hunk : Side → ℤ → SelectState → Text → Option Match → SelectState
unfolding is_wanted
begin_hunk side line_start s line none = record s { skip_hunk = true }
begin_hunk side line_start s line (some m) =
    let h = extract_hunk_headers m in
    record {
      patch_with_lines =
          if is_wanted side line_start h
          then s.patch_with_lines ++ 10 ∷ (line ++ 10 ∷ [])
          else s.patch_with_lines;
      selected_lines = s.selected_lines;
      start1 = pos h.start1;
      start2 = pos h.start2;
      skip_hunk = not (is_wanted side line_start h);
      selected_lines_num = 0;
    }

abbrev pub marker_of_other_side : Side → Text
marker_of_other_side left = codes "+"
marker_of_other_side _ = codes "-"

abbrev pub is_left : Side → Bool
is_left left = true
is_left _ = false

abbrev pub hunk_start : Side → SelectState → ℤ
hunk_start left s = s.start1
hunk_start _ s = s.start2

-- A line of a hunk, on one of the two sides: selected if it is in range, and counted if it is on the side.
unfoldable pub select_line : Side → ℤ → ℤ → SelectState → Text → SelectState
select_line side line_start line_end s line =
    let at = hunk_start side s +ℤ pos s.selected_lines_num in
    let line_exists_on_side = not (starts_with (marker_of_other_side side) line) in
    let in_range = leb_ℤ line_start at && leb_ℤ at line_end in
    record {
      patch_with_lines = s.patch_with_lines ++ (line ++ 10 ∷ []);
      selected_lines =
          if in_range && (line_exists_on_side || not (is_left side))
          then s.selected_lines ++ (line ++ 10 ∷ [])
          else s.selected_lines;
      start1 = s.start1;
      start2 = s.start2;
      skip_hunk = s.skip_hunk;
      selected_lines_num =
          if line_exists_on_side then suc s.selected_lines_num else s.selected_lines_num;
    }

abbrev pub show_line : Side → ℤ → ℤ → SelectState → Text → SelectState
unfolding select_line
show_line neither line_start line_end s line = record s {
  patch_with_lines = s.patch_with_lines ++ (line ++ 10 ∷ []);
}
show_line side line_start line_end s line = select_line side line_start line_end s line

-- One round of the loop.
unfoldable pub select_step : Side → ℤ → ℤ → SelectState → Text → SelectState
unfolding begin_hunk select_line show_line
select_step side line_start line_end s line =
    if is_eof_note line
    then s
    else if starts_with (codes "@@") line
    then begin_hunk side line_start s line (match_header line)
    else if s.skip_hunk
    then s
    else show_line side line_start line_end s line

unfoldable pub select_loop : Side → ℤ → ℤ → SelectState → List Text → SelectState
unfolding select_step
select_loop side line_start line_end s [] = s
select_loop side line_start line_end s (line ∷ lines) =
    select_loop side line_start line_end (select_step side line_start line_end s line) lines

abbrev pub select_start : Text → SelectState
select_start file_name = record {
  patch_with_lines = codes "\n\n## File: '" ++ (strip file_name ++ codes "'\n\n");
  selected_lines = [];
  start1 = negsuc 0;
  start2 = negsuc 0;
  skip_hunk = false;
  selected_lines_num = 0;
}

-- The line numbers are those that `int` gives, or -1.
unfoldable pub extract_hunk_lines_from_patch : Text → Text → ℤ → ℤ → Text → Bool → Text × Text
unfolding side_of select_loop
extract_hunk_lines_from_patch patch file_name line_start line_end side remove_trailing_chars =
    let s =
      select_loop (side_of side) line_start line_end (select_start file_name) (split_lines patch) in
    if remove_trailing_chars
    then (rstrip s.patch_with_lines, rstrip s.selected_lines)
    else (s.patch_with_lines, s.selected_lines)

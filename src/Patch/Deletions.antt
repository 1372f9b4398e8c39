-- ===== src/Patch/Deletions.antt =====
-- `omit_deletion_hunks` and `handle_patch_deletions` of pr_agent/algo/git_patch_processing.py.
pub mod Hunks
pub mod Refinement
pub mod Idempotence
use achord_review.Prelude.{
  String, Bool, true, false, ◌&&◌, ◌||◌, Option, none, some, List, [], ◌∷◌, ◌++◌, ◌==◌, null,
  if◌then◌else◌,
}
use achord_review.Text.{Text, codes, starts_with, join, newline}
use achord_review.Text.Lines.{split_lines}
use achord_review.Types.{EditType}
use achord_review.Patch.Header.{match_header}

-- `if match:`
unfoldable pub is_header : Text → Bool
is_header line = elim (match_header line) [ none ↦ false | some _ ↦ true ]

-- `line and line[0] == '+'`
abbrev pub is_addition : Text → Bool
is_addition [] = false
is_addition (c ∷ _) = c == b'+'

abbrev pub marks_hunk : Text → Bool
marks_hunk line = starts_with (codes "@@") line

-- The variables of the loop of `omit_deletion_hunks`.
pub record OmitState : Type 0 where
  pub temp_hunk : List Text
  pub added_patched : List Text
  pub add_hunk : Bool
  pub inside_hunk : Bool

abbrev pub omit_start : OmitState
omit_start = record { temp_hunk = []; added_patched = []; add_hunk = false; inside_hunk = false }

-- "finish previous hunk"
abbrev pub finish_hunk : OmitState → OmitState
finish_hunk s =
    if s.inside_hunk
    then record {
      temp_hunk = [];
      added_patched = if s.add_hunk then s.added_patched ++ s.temp_hunk else s.added_patched;
      add_hunk = false;
      inside_hunk = true;
    }
    else s

-- One round of the loop.
unfoldable pub omit_step : OmitState → Text → OmitState
omit_step s line =
    let t = finish_hunk s in
    if marks_hunk line
    then if is_header line
      then record t { temp_hunk = t.temp_hunk ++ line ∷ []; inside_hunk = true }
      else s
    else record s {
      temp_hunk = s.temp_hunk ++ line ∷ [];
      add_hunk = s.add_hunk || is_addition line;
    }

unfoldable pub omit_finish : OmitState → List Text
omit_finish s =
    if s.inside_hunk && s.add_hunk then s.added_patched ++ s.temp_hunk else s.added_patched

unfoldable pub omit_loop : OmitState → List Text → OmitState
omit_loop s [] = s
omit_loop s (line ∷ lines) = omit_loop (omit_step s line) lines

-- The lines that are joined at the end.
unfoldable pub kept_lines : List Text → List Text
kept_lines patch_lines = omit_finish (omit_loop omit_start patch_lines)

unfoldable pub omit_deletion_hunks : List Text → Text
omit_deletion_hunks patch_lines = join newline (kept_lines patch_lines)

abbrev pub may_be_deleted : EditType → Bool
may_be_deleted EditType.deleted = true
may_be_deleted EditType.unknown = true
may_be_deleted _ = false

-- `none` is the `None` that stands for a deleted file.
unfoldable pub handle_patch_deletions : Text → Text → EditType → Option Text
handle_patch_deletions patch new_file_content_str edit_type =
    if null new_file_content_str && may_be_deleted edit_type
    then none
    else some (omit_deletion_hunks (split_lines patch))

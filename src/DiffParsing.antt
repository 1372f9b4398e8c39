-- ===== src/DiffParsing.antt =====
-- pr_agent/git_providers/diff_parsing.py: the original file from the changed one and the patch.  `PatchSet`
-- of the package unidiff is a parameter.
pub mod RoundTrip
use achord_review.Prelude.{
  ℕ, suc, ◌+◌, ◌-◌, Bool, true, false, ◌||◌, ◌&&◌, not, Option, none, some, List, [], ◌∷◌, ◌++◌,
  length, take, drop, get_elem?, reverse, null, ltb, ◌==◌, if◌then◌else◌,
}
use achord_review.Text.{Text, codes, join, newline, text_eq, starts_with}
use achord_review.Text.Lines.{split_lines}
use achord_review.Types.{EditType, added, deleted, modified, renamed, unknown, FilePatchInfo}

-- The lines of a hunk, with their values; `other` is the mark of a missing line end.
pub data HunkLine : Type 0 where
  context_line added_line removed_line other_line : Text → HunkLine

pub record Hunk : Type 0 where
  pub target_start : ℕ
  pub lines : List HunkLine

-- A file of a `PatchSet`.
pub record PatchedFile : Type 0 where
  pub is_binary_file : Bool
  pub is_added_file : Bool
  pub is_removed_file : Bool
  pub is_rename : Bool
  pub source_file : Text
  pub target_file : Text
  pub shown : Text
  pub hunks : List Hunk

-- `_strip_prefix`
unfoldable pub strip_side : Text → Text
unfolding starts_with
strip_side path =
    if starts_with (codes "a/") path || starts_with (codes "b/") path then drop 2 path else path

unfoldable pub edit_type_of : PatchedFile → EditType
edit_type_of file =
    if file.is_added_file
    then added
    else if file.is_removed_file
    then deleted
    else if file.is_rename
    then renamed
    else modified

-- `parse_unified_diff`, on the files of the `PatchSet`; each with its old name.
unfoldable pub parse_unified_diff : List PatchedFile → List (FilePatchInfo × Option Text)
unfolding edit_type_of strip_side
parse_unified_diff [] = []
parse_unified_diff (file ∷ files) =
    let rest = parse_unified_diff files in
    let info : FilePatchInfo = record {
      base_file = [];
      head_file = [];
      patch = file.shown;
      filename = strip_side (if file.is_removed_file then file.source_file else file.target_file);
      tokens = none;
      edit_type = edit_type_of file;
      num_plus_lines = 0;
      num_minus_lines = 0;
      long_summary = none;
    } in
    if file.is_binary_file
    then rest
    else (info, if file.is_rename then some (strip_side file.source_file) else none) ∷ rest

-- `value.rstrip("\r\n")`, from the end
abbrev drop_ends : Text → Text
drop_ends [] = []
drop_ends (c ∷ s) = if (c == 10) || (c == 13) then drop_ends s else c ∷ s

unfoldable pub strip_ends : Text → Text
strip_ends value = reverse (drop_ends (reverse value))

-- The variables of the loop.
pub record Cursor : Type 0 where
  pub base_lines : List Text
  pub head_idx : ℕ

-- `head_idx < len(head_lines) and head_lines[head_idx] == value`
abbrev is_at : Option Text → Text → Bool
unfolding text_eq
is_at none value = false
is_at (some line) value = text_eq line value

unfoldable pub has_line : List Text → ℕ → Text → Bool
unfolding is_at
has_line head_lines head_idx value = is_at (get_elem? head_lines head_idx) value

-- One line of a hunk; `none` is `return ""`.  The context line that is appended is the one that was compared.
unfoldable pub apply_line : List Text → HunkLine → Cursor → Option Cursor
unfolding has_line strip_ends
apply_line head_lines (context_line value) at =
    if has_line head_lines at.head_idx (strip_ends value)
    then some
        (record { base_lines = at.base_lines ++ strip_ends value ∷ []; head_idx = suc at.head_idx })
    else none
apply_line head_lines (added_line value) at =
    if has_line head_lines at.head_idx (strip_ends value)
    then some (record at { head_idx = suc at.head_idx })
    else none
apply_line head_lines (removed_line value) at =
    some (record at { base_lines = at.base_lines ++ strip_ends value ∷ [] })
apply_line head_lines (other_line value) at = some at

abbrev pub and_then : Option Cursor → (Cursor → Option Cursor) → Option Cursor
and_then none f = none
and_then (some at) f = f at

unfoldable pub apply_lines : List Text → List HunkLine → Cursor → Option Cursor
unfolding apply_line
apply_lines head_lines [] at = some at
apply_lines head_lines (line ∷ lines) at =
    and_then (apply_line head_lines line at) (apply_lines head_lines lines)

-- The lines before a hunk are taken over, if it starts within the file and behind the cursor.
unfoldable pub seek : List Text → ℕ → Cursor → Option Cursor
seek head_lines target_start at =
    if (target_start == 0)
      || (ltb (target_start - 1) at.head_idx || ltb (length head_lines) (target_start - 1))
    then none
    else some (record {
      base_lines =
          at.base_lines ++ take (target_start - 1 - at.head_idx) (drop at.head_idx head_lines);
      head_idx = target_start - 1;
    })

unfoldable pub apply_hunks : List Text → List Hunk → Cursor → Option Cursor
unfolding seek apply_lines
apply_hunks head_lines [] at = some at
apply_hunks head_lines (hunk ∷ hunks) at =
    and_then (and_then (seek head_lines hunk.target_start at) (apply_lines head_lines hunk.lines))
      (apply_hunks head_lines hunks)

-- The text of the lines, with the line end that the changed file has.
unfoldable pub finish_text : Text → List Text → Text
unfolding join
finish_text head_file base_lines =
    if not (null base_lines) && ends_with_newline (reverse head_file)
    then join newline base_lines ++ newline
    else join newline base_lines
  where
    ends_with_newline : Text → Bool
    ends_with_newline [] = false
    ends_with_newline (c ∷ s) = c == 10

unfoldable pub rest_of : Text → List Text → Option Cursor → Text
unfolding finish_text
rest_of head_file head_lines none = []
rest_of head_file head_lines (some at) =
    finish_text head_file (at.base_lines ++ drop at.head_idx head_lines)

-- On the files that `PatchSet` gives; a patch of more than one file, or of none, is refused.
unfoldable pub reconstruct_from : Text → Option (List PatchedFile) → Text
unfolding apply_hunks rest_of
reconstruct_from head_file none = []
reconstruct_from head_file (some []) = []
reconstruct_from head_file (some (file ∷ [])) =
    let head_lines = split_lines head_file in
    rest_of head_file head_lines
      (apply_hunks head_lines file.hunks (record { base_lines = []; head_idx = 0 }))
reconstruct_from head_file (some (file ∷ other ∷ files)) = []

-- `reconstruct_base_file`; `none` from `patch_set` is `UnidiffParseError`.
unfoldable pub reconstruct_base_file : (Text → Option (List PatchedFile)) → Text → Text → Text
unfolding reconstruct_from
reconstruct_base_file patch_set head_file patch = reconstruct_from head_file (patch_set patch)

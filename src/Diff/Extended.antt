-- ===== src/Diff/Extended.antt =====
-- `pr_generate_extended_diff` and `add_ai_summary_top_patch` of pr_agent/algo/pr_processing.py.
pub mod Laws
use achord_review.Prelude.{
  ℕ, ◌+◌, String, Bool, true, false, ◌&&◌, ◌||◌, Option, none, some, List, [], ◌∷◌, ◌++◌, null, ltb,
  if◌then◌else◌,
}
use achord_review.Text.{Text, codes, starts_with, join, newline}
use achord_review.Text.Parts.{split_newline, replace}
use achord_review.Types.{FilePatchInfo, TokenHandler}
use achord_review.Patch.Extend.{ExtendSettings, extend_patch}
use achord_review.Patch.Numbered.{decouple_and_convert_to_hunks_with_lines_numbers}
use achord_review.Diff.Pack.{with_file_heading}
use achord_review.Diff.Compress.{LanguageFiles}

abbrev pub is_file_heading : Text → Bool
is_file_heading line = starts_with (codes "## File:") line || starts_with (codes "## file:") line

-- The summary goes behind the first heading of a file, if there is one.
unfoldable pub insert_summary : Text → List Text → List Text
insert_summary summary [] = []
insert_summary summary (line ∷ lines) =
    if is_file_heading line
    then line ∷ (codes "### AI-generated changes summary:\n" ++ summary) ∷ lines
    else line ∷ insert_summary summary lines

unfoldable pub add_ai_summary_top_patch : Text → Text → Text
unfolding insert_summary
add_ai_summary_top_patch summary full_extended_patch =
    join newline (insert_summary summary (split_newline full_extended_patch))

-- "add AI-summary metadata to the patch"
abbrev pub with_summary : Bool → Option Text → Text → Text
with_summary enable_ai_metadata none patch = patch
with_summary enable_ai_metadata (some summary) patch =
    if enable_ai_metadata then add_ai_summary_top_patch summary patch else patch

abbrev pub max_extra_lines : ℕ
max_extra_lines = 10

-- `none` is a value that `int` does not read.
unfoldable pub cap_and_log_extra_lines : Option ℕ → ℕ
cap_and_log_extra_lines none = 0
cap_and_log_extra_lines (some value) = if ltb max_extra_lines value then max_extra_lines else value

-- The settings that the functions of pr_processing.py read.
pub data LargePatchPolicy : Type 0 where
  skip clip other : LargePatchPolicy

pub record DiffSettings : Type 0 where
  pub extend : ExtendSettings
  pub enable_ai_metadata : Bool
  pub large_patch_policy : LargePatchPolicy
  pub patch_extra_lines_before : Option ℕ
  pub patch_extra_lines_after : Option ℕ
  pub max_ai_calls : ℕ

-- The variables of the loops.
pub record Extended : Type 0 where
  pub patches_extended : List Text
  pub total_tokens : ℕ
  pub patches_extended_tokens : List ℕ

module _ (st : DiffSettings) (handler : TokenHandler) (add_line_numbers : Bool)
    (before after : ℕ) where
  -- `extend_patch` for a file; an empty text stands for a file that is passed over.
  abbrev pub extended_patch : FilePatchInfo → Text
  extended_patch file =
      extend_patch st.extend file.base_file file.patch before after file.filename file.head_file

  -- `full_extended_patch`
  abbrev pub full_extended_patch : FilePatchInfo → Text → Text
  full_extended_patch file patch = with_summary st.enable_ai_metadata file.long_summary (
      if add_line_numbers
      then decouple_and_convert_to_hunks_with_lines_numbers patch (some file)
      else with_file_heading file.filename (replace (codes "\n@@ ") (codes "\n\n@@ ") patch))

  -- One file: the state, and the file with its tokens written.
  unfoldable pub extend_file : Extended → FilePatchInfo → Extended × FilePatchInfo
  extend_file s file =
      let patch = extended_patch file in
      let full = full_extended_patch file patch in
      let tokens = handler.count_tokens full in
      if null file.patch || null patch then (s, file) else (
        record {
          patches_extended = s.patches_extended ++ full ∷ [];
          total_tokens = s.total_tokens + tokens;
          patches_extended_tokens = s.patches_extended_tokens ++ tokens ∷ [];
        },
        record file { tokens = some tokens },
      )

  unfoldable pub extend_files : Extended → List FilePatchInfo → Extended × List FilePatchInfo
  extend_files s [] = (s, [])
  extend_files s (file ∷ files) =
      let (s', file') = extend_file s file in
      let (t, files') = extend_files s' files in (t, file' ∷ files')

  unfoldable pub extend_languages : Extended → List LanguageFiles → Extended × List LanguageFiles
  extend_languages s [] = (s, [])
  extend_languages s (lang ∷ langs) =
      let (s', files') = extend_files s lang.files in
      let (t, langs') = extend_languages s' langs in (t, record lang { files = files' } ∷ langs')

  -- The result, and the languages with the tokens of their files written.
  unfoldable pub pr_generate_extended_diff : List LanguageFiles → Extended × List LanguageFiles
  unfolding extend_languages extend_files extend_file
  pr_generate_extended_diff pr_languages =
      extend_languages
        (record {
          patches_extended = [];
          total_tokens = handler.prompt_tokens;
          patches_extended_tokens = [];
        })
        pr_languages

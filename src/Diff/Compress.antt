-- ===== src/Diff/Compress.antt =====
-- `pr_generate_compressed_diff` of pr_agent/algo/pr_processing.py: the files of a pull request as
-- groups of patches, each within the model's budget.
pub mod Dictionary
pub mod Rounds
use achord_review.Prelude.{
  ℕ, zero, suc, ◌-◌, String, Bool, true, false, Option, none, some, List, [], ◌∷◌, ◌++◌, map, ltb,
  leb, null, if◌then◌else◌,
}
use achord_review.Text.{Text, codes, text_eq}
use achord_review.Text.Numbers.{show_ℕ}
use achord_review.Types.{EditType, FilePatchInfo, TokenHandler, mem_text}
use achord_review.Patch.Deletions.{handle_patch_deletions}
use achord_review.Patch.Numbered.{decouple_and_convert_to_hunks_with_lines_numbers}
use achord_review.Diff.Pack.{Entry, FileDict, Pack, generate_full_patch}
use achord_review.Diff.Clip.{Limits, get_max_tokens}

-- A value of `top_langs`.
pub record LanguageFiles : Type 0 where
  pub language : Text
  pub files : List FilePatchInfo

-- `x.tokens` as the sort key, where `none` is below every count.
abbrev pub token_key : FilePatchInfo → ℕ
token_key file = elim file.tokens [ none ↦ 0 | some n ↦ suc n ]

-- A file goes before the first one that has no more tokens, so that equals keep their order.
unfoldable pub insert_file : FilePatchInfo → List FilePatchInfo → List FilePatchInfo
insert_file file [] = file ∷ []
insert_file file (g ∷ gs) =
    if leb (token_key g) (token_key file) then file ∷ g ∷ gs else g ∷ insert_file file gs

-- `sorted(files, key=lambda x: x.tokens, reverse=True)`, which is stable
unfoldable pub sort_by_tokens : List FilePatchInfo → List FilePatchInfo
unfolding insert_file
sort_by_tokens [] = []
sort_by_tokens (file ∷ files) = insert_file file (sort_by_tokens files)

-- `sorted_files`
unfoldable pub sorted_files : List LanguageFiles → List FilePatchInfo
unfolding sort_by_tokens
sorted_files [] = []
sorted_files (lang ∷ langs) = sort_by_tokens lang.files ++ sorted_files langs

-- `file_dict[filename] = entry`
unfoldable pub put : Text → Entry → FileDict → FileDict
put name entry [] = (name, entry) ∷ []
put name entry ((k, e) ∷ dict) =
    if text_eq k name then (k, entry) ∷ dict else (k, e) ∷ put name entry dict

-- The variables of the loop over the sorted files.
pub record Table : Type 0 where
  pub file_dict : FileDict
  pub deleted_files : List Text

abbrev pub note_deleted : Table → Text → Table
note_deleted t name =
    if mem_text name t.deleted_files
    then t
    else record t { deleted_files = t.deleted_files ++ name ∷ [] }

-- The stand-in for an added file whose diff is too large to have a patch.
unfoldable pub omitted_summary : ℕ → Text
omitted_summary n =
    codes "New file (content omitted: exceeds diff size limits), +" ++ (show_ℕ n ++ codes " lines.")

module _ (handler : TokenHandler) where
  abbrev pub count_missing : FilePatchInfo → Option ℕ → FilePatchInfo
  count_missing file (some n) = file
  count_missing file none = record file {
    tokens = some (if null file.patch then 0 else handler.count_tokens file.patch);
  }

  -- The first loop, which writes `file.tokens` where it is not known.
  unfoldable pub count_file : FilePatchInfo → FilePatchInfo
  count_file file = count_missing file file.tokens

  abbrev pub count_language : LanguageFiles → LanguageFiles
  count_language lang = record lang { files = map count_file lang.files }

  abbrev pub entry_of : Text → FilePatchInfo → Entry
  entry_of patch file = record {
    patch = patch;
    tokens = handler.count_tokens patch;
    edit_type = file.edit_type;
  }

  -- "A file with additions but no patch"
  abbrev pub without_patch : Table → FilePatchInfo → EditType → Table
  without_patch t file EditType.added =
      if ltb 0 file.num_plus_lines
      then record t {
        file_dict =
            put file.filename (entry_of (omitted_summary file.num_plus_lines) file) t.file_dict;
      }
      else t
  without_patch t file EditType.deleted =
      if ltb 0 file.num_minus_lines then note_deleted t file.filename else t
  without_patch t file _ = t

  abbrev pub with_patch : Bool → Table → FilePatchInfo → Option Text → Table
  with_patch convert t file none = note_deleted t file.filename
  with_patch convert t file (some patch) =
      let shown =
        if convert
        then decouple_and_convert_to_hunks_with_lines_numbers patch (some file)
        else patch in
      record t { file_dict = put file.filename (entry_of shown file) t.file_dict }

  -- One round of the loop over the sorted files.
  unfoldable pub table_step : Bool → Table → FilePatchInfo → Table
  table_step convert t file =
      if null file.patch
      then without_patch t file file.edit_type
      else with_patch convert t file
          (handle_patch_deletions file.patch file.head_file file.edit_type)

  unfoldable pub table_loop : Bool → Table → List FilePatchInfo → Table
  table_loop convert t [] = t
  table_loop convert t (file ∷ files) = table_loop convert (table_step convert t file) files

abbrev pub table_start : Table
table_start = record { file_dict = []; deleted_files = [] }

-- The lists that the iterations fill.
pub record Groups : Type 0 where
  pub patches_list : List (List Text)
  pub total_tokens_list : List ℕ
  pub files_in_patches_list : List (List Text)
  pub remaining_files_list : List Text

abbrev pub first_group : Pack → Groups
first_group p = record {
  patches_list = p.patches ∷ [];
  total_tokens_list = p.total_tokens ∷ [];
  files_in_patches_list = p.files_in_patch ∷ [];
  remaining_files_list = p.remaining_files;
}

-- A pass that shows nothing adds no group.
abbrev pub add_group : Groups → Pack → Groups
add_group g p =
    if null p.patches then record g { remaining_files_list = p.remaining_files } else record {
      patches_list = g.patches_list ++ p.patches ∷ [];
      total_tokens_list = g.total_tokens_list ++ p.total_tokens ∷ [];
      files_in_patches_list = g.files_in_patches_list ++ p.files_in_patch ∷ [];
      remaining_files_list = p.remaining_files;
    }

module _ (convert : Bool) (handler : TokenHandler) (max_tokens_model : ℕ)
    (file_dict : FileDict) where
  -- "additional iterations (if needed)"
  unfoldable pub more_groups : ℕ → Groups → Groups
  more_groups zero g = g
  more_groups (suc rounds) g =
      let next =
        add_group g
          (generate_full_patch convert handler max_tokens_model g.remaining_files_list file_dict) in
      let rest = more_groups rounds next in if null g.remaining_files_list then g else rest

  -- The first iteration, and the others where `large_pr_handling` asks for them; one of the
  -- `max_ai_calls` is kept for the summary.
  unfoldable pub group_patches : Bool → ℕ → List Text → Groups
  unfolding more_groups
  group_patches large_pr_handling max_ai_calls names =
      let g = first_group (generate_full_patch convert handler max_tokens_model names file_dict) in
      if large_pr_handling then more_groups (max_ai_calls - 2) g else g

-- What `pr_generate_compressed_diff` returns.
pub record Compressed : Type 0 where
  pub groups : Groups
  pub table : Table

abbrev pub names_of : List FilePatchInfo → List Text
names_of files = map (λ f. f.filename) files

-- `none` is the exception of `get_max_tokens`.
unfoldable pub pr_generate_compressed_diff :
    List LanguageFiles → TokenHandler → Limits → Text → Bool → Bool → ℕ → Option Compressed
unfolding table_loop group_patches
pr_generate_compressed_diff top_langs handler limits model convert large_pr_handling max_ai_calls =
    let files = sorted_files (map (count_language handler) top_langs) in
    let table = table_loop handler convert table_start files in
    elim (get_max_tokens limits model) [
      | none ↦ none
      | some max_tokens_model ↦ some (record {
        groups =
            group_patches convert handler max_tokens_model table.file_dict large_pr_handling
              max_ai_calls (names_of files);
        table = table;
      })
    ]

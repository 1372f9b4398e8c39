-- ===== src/Diff/Single.antt =====
-- `get_pr_diff` of pr_agent/algo/pr_processing.py: a pull request as one diff, extended if it fits
-- and compressed otherwise.
pub mod Laws
use achord_review.Prelude.{
  ℕ, ◌+◌, ◌-◌, String, Bool, true, false, ◌&&◌, ◌||◌, not, Option, none, some, List, [], ◌∷◌, ◌++◌,
  ltb, null, length, if◌then◌else◌,
}
use achord_review.Prelude.Int.{ℤ, pos, ◌-ℤ◌}
use achord_review.Text.{Text, codes, join, newline}
use achord_review.Types.{EditType, TokenHandler, mem_text}
use achord_review.Diff.Pack.{Entry, FileDict, soft_threshold, hard_threshold}
use achord_review.Diff.Clip.{Limits, Tokenizer, clip_tokens, get_max_tokens}
use achord_review.Diff.Compress.{
  LanguageFiles, Groups, Table, Compressed, pr_generate_compressed_diff,
}
use achord_review.Diff.Extended.{
  DiffSettings, Extended, pr_generate_extended_diff, cap_and_log_extra_lines,
}

-- The result: a diff, or with `return_remaining_files` a pair. The full diff and the empty text of the
-- large-PR mode come alone in either case.
pub data DiffResult : Type 0 where
  diff : Text → DiffResult
  diff_and_remaining : Text → List Text → DiffResult
  no_model : DiffResult

-- The lists of files that the diff does not show.
pub record FileLists : Type 0 where
  pub added_list : Text
  pub modified_list : Text
  pub deleted_list : Text

-- `heading + f"\n{filename}"` the first time, and `f"\n{filename}"` behind the list then.
abbrev pub add_name : Text → Text → Text → Text
add_name heading filename list =
    if null list then heading ++ (codes "\n" ++ filename) else list ++ (codes "\n" ++ filename)

abbrev pub list_name : FileLists → Text → EditType → FileLists
list_name l filename EditType.added = record l {
  added_list =
      add_name (codes "Additional added files (insufficient token budget to process):\n") filename
        l.added_list;
}
list_name l filename EditType.modified = record l {
  modified_list =
      add_name (codes "Additional modified files (insufficient token budget to process):\n")
        filename l.modified_list;
}
list_name l filename EditType.renamed = record l {
  modified_list =
      add_name (codes "Additional modified files (insufficient token budget to process):\n")
        filename l.modified_list;
}
list_name l filename EditType.deleted = record l {
  deleted_list = add_name (codes "Deleted files:\n") filename l.deleted_list;
}
list_name l filename EditType.unknown = l

-- The loop over `file_dict`.
unfoldable pub list_files : List Text → FileLists → FileDict → FileLists
list_files files_in_patch l [] = l
list_files files_in_patch l ((filename, entry) ∷ dict) =
    list_files files_in_patch
      (if mem_text filename files_in_patch then l else list_name l filename entry.edit_type) dict

abbrev pub no_lists : FileLists
no_lists = record { added_list = []; modified_list = []; deleted_list = [] }

-- The diff and the tokens counted for it so far.
pub record Growing : Type 0 where
  pub final_diff : Text
  pub curr_token : ℕ

module _ (handler : TokenHandler) (tokenizer : Tokenizer) (max_tokens_model : ℕ) where
  abbrev pub clip_list : ℕ → Text → Text
  clip_list curr_token list =
      clip_tokens tokenizer list (pos max_tokens_model -ℤ pos (hard_threshold + curr_token)) none
        false

  -- A list is clipped to the room that is left and added, if anything of it remains.
  unfoldable pub append_list : Growing → Text → Growing
  append_list g list =
      let clipped = clip_list g.curr_token list in
      if null clipped then g else record {
        final_diff = g.final_diff ++ (codes "\n\n" ++ clipped);
        curr_token = g.curr_token + handler.count_tokens clipped + 2;
      }

  -- The added, the modified and the deleted files, in this order.
  unfoldable pub add_lists : Growing → FileLists → Growing
  unfolding append_list
  add_lists g lists =
      append_list (append_list (append_list g lists.added_list) lists.modified_list)
        lists.deleted_list

  -- The part behind the compression, for the first group.
  unfoldable pub finish_diff : List Text → ℕ → List Text → FileDict → Text
  unfolding add_lists list_files
  finish_diff patches total_tokens files_in_patch file_dict =
      let lists =
        if ltb (total_tokens + hard_threshold + 10) max_tokens_model
        then list_files files_in_patch no_lists file_dict
        else no_lists in
      (add_lists (record { final_diff = join newline patches; curr_token = total_tokens })
        lists).final_diff

-- The first group, which `pr_generate_compressed_diff` always returns.
abbrev pub first_or {ℓ} : {A : Type ℓ} → A → List A → A
first_or d [] = d
first_or d (x ∷ _) = x

abbrev pub compressed_result : TokenHandler → Tokenizer → ℕ → Bool → Bool → Compressed → DiffResult
compressed_result handler tokenizer max_tokens_model large_pr_handling return_remaining_files c =
    let final_diff =
      finish_diff handler tokenizer max_tokens_model (first_or [] c.groups.patches_list)
        (first_or 0 c.groups.total_tokens_list) (first_or [] c.groups.files_in_patches_list)
        c.table.file_dict in
    if large_pr_handling && ltb 1 (length c.groups.patches_list)
    then diff []
    else if return_remaining_files
    then diff_and_remaining final_diff c.groups.remaining_files_list
    else diff final_diff

abbrev pub compress_or_fail :
    TokenHandler → Tokenizer → ℕ → Bool → Bool → Option Compressed → DiffResult
compress_or_fail handler tokenizer max_tokens_model large remaining none = no_model
compress_or_fail handler tokenizer max_tokens_model large remaining (some c) =
    compressed_result handler tokenizer max_tokens_model large remaining c

-- `no_model` is the exception of `get_max_tokens`. The languages, with their files, come from the git
-- provider and `sort_files_by_main_languages`.
unfoldable pub get_pr_diff :
    DiffSettings
    → TokenHandler
    → Tokenizer
    → Limits
    → List LanguageFiles
    → Text
    → Bool
    → Bool
    → Bool
    → Bool
    → DiffResult
unfolding finish_diff cap_and_log_extra_lines
get_pr_diff st handler tokenizer limits pr_languages model add_line_numbers disable_extra_lines
      large_pr_handling return_remaining_files =
    let before =
      if disable_extra_lines then 0 else cap_and_log_extra_lines st.patch_extra_lines_before in
    let after =
      if disable_extra_lines then 0 else cap_and_log_extra_lines st.patch_extra_lines_after in
    let (extended, langs) =
      pr_generate_extended_diff st handler add_line_numbers before after pr_languages in
    let compressed =
      pr_generate_compressed_diff langs handler limits model add_line_numbers large_pr_handling
        st.max_ai_calls in
    elim (get_max_tokens limits model) [
      | none ↦ no_model
      | some max_tokens_model ↦
          if ltb (extended.total_tokens + soft_threshold) max_tokens_model
          then diff (join newline extended.patches_extended)
          else compress_or_fail handler tokenizer max_tokens_model large_pr_handling
              return_remaining_files compressed
    ]

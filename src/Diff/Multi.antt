-- ===== src/Diff/Multi.antt =====
-- `get_pr_multi_diffs` of pr_agent/algo/pr_processing.py: a pull request as diffs for several calls.
-- The languages and their files come from the git provider and `sort_files_by_main_languages`.
pub mod Laws
use achord_review.Prelude.{
  ℕ, ◌+◌, suc, String, Bool, true, false, ◌&&◌, not, Option, none, some, List, [], ◌∷◌, ◌++◌, ltb,
  null, if◌then◌else◌,
}
use achord_review.Prelude.Int.{ℤ, pos, ◌-ℤ◌}
use achord_review.Text.{Text, join, newline, strip}
use achord_review.Types.{FilePatchInfo, TokenHandler}
use achord_review.Patch.Deletions.{handle_patch_deletions}
use achord_review.Patch.Numbered.{decouple_and_convert_to_hunks_with_lines_numbers}
use achord_review.Diff.Pack.{with_file_heading, soft_threshold}
use achord_review.Diff.Clip.{Limits, Tokenizer, clip_tokens, get_max_tokens}
use achord_review.Diff.Compress.{LanguageFiles, sorted_files}
use achord_review.Diff.Extended.{
  DiffSettings, LargePatchPolicy, skip, clip, other, with_summary, pr_generate_extended_diff,
  cap_and_log_extra_lines,
}

-- The variables of the loop; `stopped` is set by its `break`s.
pub record Chunks : Type 0 where
  pub patches : List Text
  pub final_diff_list : List Text
  pub total_tokens : ℕ
  pub call_number : ℕ
  pub stopped : Bool

module _ (st : DiffSettings) (handler : TokenHandler) (tokenizer : Tokenizer) (max_tokens : ℕ) where
  -- The prompt and so many tokens leave less than the soft threshold.
  abbrev pub is_over : ℕ → Bool
  is_over tokens = ltb max_tokens (tokens + soft_threshold)

  abbrev pub too_large : Text → ℕ → Bool
  too_large patch tokens = not (null patch) && is_over (handler.prompt_tokens + tokens)

  abbrev pub keep_clipped : Text → Option (Text × ℕ)
  keep_clipped patch =
      if too_large patch (handler.count_tokens patch)
      then none
      else some (patch, handler.count_tokens patch)

  -- What a patch that is too large becomes under the policy; `none` is `continue`.
  unfoldable pub fit_large : LargePatchPolicy → Text → ℕ → Option (Text × ℕ)
  unfolding ◌-ℤ◌
  fit_large clip patch tokens = keep_clipped (
      clip_tokens tokenizer patch
        (pos max_tokens -ℤ pos soft_threshold -ℤ pos handler.prompt_tokens) (some tokens) true)
  fit_large skip patch tokens = none
  fit_large other patch tokens = none

  abbrev pub shown_patch : Bool → FilePatchInfo → Text → Text
  shown_patch add_line_numbers file patch = with_summary st.enable_ai_metadata file.long_summary (
      if add_line_numbers
      then decouple_and_convert_to_hunks_with_lines_numbers patch (some file)
      else with_file_heading file.filename patch)

  abbrev pub fit_patch : Text → Option (Text × ℕ)
  fit_patch patch =
      if too_large patch (handler.count_tokens patch)
      then fit_large st.large_patch_policy patch (handler.count_tokens patch)
      else some (patch, handler.count_tokens patch)

  abbrev pub show_kept : Bool → FilePatchInfo → Option Text → Option (Text × ℕ)
  show_kept add_line_numbers file none = none
  show_kept add_line_numbers file (some patch) = fit_patch (shown_patch add_line_numbers file patch)

  -- The patch of a file and its tokens, or `none` where the loop goes on to the next file.
  unfoldable pub prepare_patch : Bool → FilePatchInfo → Option (Text × ℕ)
  unfolding fit_large
  prepare_patch add_line_numbers file =
      if null file.patch
      then none
      else show_kept add_line_numbers file
          (handle_patch_deletions file.patch file.head_file file.edit_type)

  module _ (max_calls : ℕ) where
    abbrev pub add_patch : Chunks → Text → ℕ → Chunks
    add_patch s patch tokens = record s {
      patches = s.patches ++ patch ∷ [];
      total_tokens = s.total_tokens + tokens;
    }

    -- A chunk is closed, and the next call begins.
    abbrev pub close_chunk : Chunks → Chunks
    close_chunk s = record {
      patches = [];
      final_diff_list = s.final_diff_list ++ join newline s.patches ∷ [];
      total_tokens = handler.prompt_tokens;
      call_number = suc s.call_number;
      stopped = ltb max_calls (suc s.call_number);
    }

    abbrev pub place_patch : Chunks → Text → ℕ → Chunks
    place_patch s patch tokens =
        if null patch
        then s
        else if is_over (s.total_tokens + tokens)
        then if ltb max_calls (suc s.call_number)
          then close_chunk s
          else add_patch (close_chunk s) patch tokens
        else add_patch s patch tokens

    abbrev pub place_prepared : Chunks → Option (Text × ℕ) → Chunks
    place_prepared s none = s
    place_prepared s (some (patch, tokens)) = place_patch s patch tokens

    -- One round of the loop.
    unfoldable pub chunk_step : Bool → Chunks → FilePatchInfo → Chunks
    chunk_step add_line_numbers s file =
        if s.stopped
        then s
        else if ltb max_calls s.call_number
        then record s { stopped = true }
        else place_prepared s (prepare_patch add_line_numbers file)

    unfoldable pub chunk_loop : Bool → Chunks → List FilePatchInfo → Chunks
    chunk_loop add_line_numbers s [] = s
    chunk_loop add_line_numbers s (file ∷ files) =
        chunk_loop add_line_numbers (chunk_step add_line_numbers s file) files

    -- "Add the last chunk"
    abbrev pub last_chunk : Chunks → List Text
    last_chunk s =
        if null s.patches
        then s.final_diff_list
        else s.final_diff_list ++ strip (join newline s.patches) ∷ []

    unfoldable pub chunk_files : Bool → List FilePatchInfo → List Text
    unfolding chunk_loop
    chunk_files add_line_numbers files = last_chunk (
        chunk_loop add_line_numbers
          (record {
            patches = [];
            final_diff_list = [];
            total_tokens = handler.prompt_tokens;
            call_number = 1;
            stopped = false;
          })
          files)

-- `none` is the exception of `get_max_tokens`.
unfoldable pub get_pr_multi_diffs :
    DiffSettings
    → TokenHandler
    → Tokenizer
    → Limits
    → List LanguageFiles
    → Text
    → ℕ
    → Bool
    → Option (List Text)
unfolding chunk_files cap_and_log_extra_lines
get_pr_multi_diffs st handler tokenizer limits pr_languages model max_calls add_line_numbers =
    let (extended, langs) =
      pr_generate_extended_diff st handler add_line_numbers
        (cap_and_log_extra_lines st.patch_extra_lines_before)
        (cap_and_log_extra_lines st.patch_extra_lines_after) pr_languages in
    elim (get_max_tokens limits model) [
      | none ↦ none
      | some max_tokens ↦ some (
          if ltb (extended.total_tokens + soft_threshold) max_tokens
          then if null extended.patches_extended
            then []
            else join newline extended.patches_extended ∷ []
          else chunk_files st handler tokenizer max_tokens max_calls add_line_numbers
              (sorted_files langs))
    ]

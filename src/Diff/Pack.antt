-- ===== src/Diff/Pack.antt =====
-- `generate_full_patch` of pr_agent/algo/pr_processing.py: one greedy pass over the files that are
-- still to be shown.
pub mod Budget
pub mod Partition
pub mod Progress
use achord_review.Prelude.{ℕ, ◌+◌, Bool, String, List, [], ◌∷◌, ◌++◌, ltb, null, if◌then◌else◌}
use achord_review.Text.{Text, codes, strip}
use achord_review.Types.{EditType, TokenHandler, mem_text}

-- A value of `file_dict`.
pub record Entry : Type 0 where
  pub patch : Text
  pub tokens : ℕ
  pub edit_type : EditType

-- `file_dict`, in insertion order
abbrev pub FileDict : Type 0
FileDict = List (Text × Entry)

abbrev pub soft_threshold : ℕ
soft_threshold = 1500

abbrev pub hard_threshold : ℕ
hard_threshold = 1000

-- The variables of the loop.
pub record Pack : Type 0 where
  pub total_tokens : ℕ
  pub patches : List Text
  pub remaining_files : List Text
  pub files_in_patch : List Text

-- `f"\n\n## File: '{filename.strip()}'\n\n{patch.strip()}\n"`
unfoldable pub with_file_heading : Text → Text → Text
with_file_heading filename patch =
    codes "\n\n## File: '" ++ (strip filename ++ (codes "'\n\n" ++ (strip patch ++ codes "\n")))

-- `patch_final`
unfoldable pub patch_final : Bool → Text × Entry → Text
patch_final convert_hunks_to_line_numbers (filename, entry) =
    if convert_hunks_to_line_numbers
    then codes "\n\n" ++ strip entry.patch
    else with_file_heading filename entry.patch

abbrev pub pack_start : TokenHandler → Pack
pack_start handler = record {
  total_tokens = handler.prompt_tokens;
  patches = [];
  remaining_files = [];
  files_in_patch = [];
}

module _ (convert : Bool) (handler : TokenHandler) (max_tokens_model : ℕ) (prev : List Text) where
  abbrev pub skip_file : Pack → Text → Pack
  skip_file s filename = record s { remaining_files = s.remaining_files ++ filename ∷ [] }

  abbrev pub add_file : Pack → Text × Entry → Pack
  add_file s item = record s {
    total_tokens = s.total_tokens + handler.count_tokens (patch_final convert item);
    patches = s.patches ++ patch_final convert item ∷ [];
    files_in_patch = s.files_in_patch ++ item.0 ∷ [];
  }

  -- One round of the loop. The tests are those of the source with the threshold on the other side.
  unfoldable pub pack_step : Pack → Text × Entry → Pack
  pack_step s (filename, entry) =
      if mem_text filename prev
      then if ltb max_tokens_model (s.total_tokens + hard_threshold)
        then skip_file s filename
        else if ltb max_tokens_model (s.total_tokens + entry.tokens + soft_threshold)
        then skip_file s filename
        else if null entry.patch
        then s
        else add_file s (filename, entry)
      else s

  unfoldable pub pack_loop : Pack → FileDict → Pack
  pack_loop s [] = s
  pack_loop s (item ∷ items) = pack_loop (pack_step s item) items

  unfoldable pub generate_full_patch : FileDict → Pack
  unfolding pack_loop
  generate_full_patch file_dict = pack_loop (pack_start handler) file_dict

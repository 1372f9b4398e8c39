-- ===== src/Tests/Groups.antt =====
-- A small pull request, run through the compression and the cutting of pr_agent/algo/pr_processing.py.

use achord_review.Prelude.{
  ℕ, ◌+◌, ◌≤◌, ◌≡◌, true, false, Option, none, some, List, [], ◌∷◌, All, length, map, keep,
}
use achord_review.Text.{Text, codes}
use achord_review.Types.{EditType, FilePatchInfo}
use achord_review.Diff.Pack.Budget.{sum_tokens}
use achord_review.Diff.Clip.{Tokenizer}
use achord_review.Diff.Compress.{LanguageFiles, table_loop, table_start, group_patches}
use achord_review.Diff.Compress.Dictionary.{is_listed, has_something, table_loop-listed}
use achord_review.Diff.Compress.Rounds.{IsWithin, group_patches-IsWithin}
use achord_review.Diff.Extended.{DiffSettings, clip, pr_generate_extended_diff}
use achord_review.Diff.Extended.Laws.{pr_generate_extended_diff-accounts}
use achord_review.Diff.Multi.{chunk_files}
use achord_review.Diff.Multi.Laws.{IsInBudget, chunk_files_sound}
use achord_review.Languages.{ExtensionMap, sort_files_by_main_languages, filter_bad_extensions}
use achord_review.Languages.Complete.{is_sorted_in, has_file, sort_files_by_main_languages_complete}
use achord_review.Tests.Diffs.{handler, file_dict, names, file_dict-HasSlack}

abbrev file_of : Text → Text → Option ℕ → EditType → FilePatchInfo
file_of name patch tokens kind = record {
  base_file = codes "x = 1\n";
  head_file = codes "x = 2\n";
  patch = patch;
  filename = name;
  tokens = tokens;
  edit_type = kind;
  num_plus_lines = 1;
  num_minus_lines = 1;
  long_summary = none;
}

abbrev files : List FilePatchInfo
files =
    file_of (codes "a.py") (codes "@@ -1,1 +1,1 @@\n-x = 1\n+x = 2") (some 30) EditType.modified
    ∷ file_of (codes "b.py") [] none EditType.added
    ∷ file_of (codes "c.py") (codes "@@ -1,1 +1,1 @@\n-x = 1\n+x = 22") (some 31) EditType.modified
    ∷ []

abbrev languages : List LanguageFiles
languages = record { language = codes "Python"; files = files } ∷ []

abbrev settings : DiffSettings
settings = record {
  extend = record {
    allow_dynamic_context = true;
    max_extra_lines_before_dynamic_context = 8;
    patch_extension_skip_types = codes ".md" ∷ [];
  };
  enable_ai_metadata = false;
  large_patch_policy = clip;
  patch_extra_lines_before = some 3;
  patch_extra_lines_after = some 1;
  max_ai_calls = 5;
}

abbrev tokenizer : Tokenizer
tokenizer = record { encode_length = length; output_chars = λ chars tokens budget. budget }

table_loop-listed_example :
    All
      (λ file. is_listed file.filename (table_loop handler false table_start files) ≡ true)
      (keep (has_something handler false) files)
table_loop-listed_example = table_loop-listed handler false files

group_patches-IsWithin_example :
    IsWithin false handler 4000 file_dict 29 file_dict-HasSlack
      (group_patches false handler 4000 file_dict true 5 names).patches_list
group_patches-IsWithin_example =
    group_patches-IsWithin false handler 4000 file_dict 29 file_dict-HasSlack true 5 names

pr_generate_extended_diff-accounts_example :
    ((pr_generate_extended_diff settings handler false 3 1 languages).0.total_tokens
      ≡ 100
        + sum_tokens handler
            (pr_generate_extended_diff settings handler false 3 1 languages).0.patches_extended)
    × ((pr_generate_extended_diff settings handler false 3 1 languages).0.patches_extended_tokens
        ≡ map length
            (pr_generate_extended_diff settings handler false 3 1 languages).0.patches_extended)
pr_generate_extended_diff-accounts_example =
    pr_generate_extended_diff-accounts settings handler false 3 1 languages

chunk_files_sound_example :
    (length (chunk_files settings handler tokenizer 1700 3 false files) ≤ 3)
    × All (IsInBudget handler 1700) (chunk_files settings handler tokenizer 1700 3 false files)
chunk_files_sound_example = chunk_files_sound settings handler tokenizer 1700 3 false files

abbrev extensions : ExtensionMap
extensions = (codes "Python", codes ".py" ∷ []) ∷ (codes "Markdown", codes ".md" ∷ []) ∷ []

sort_files_by_main_languages_complete_example :
    is_sorted_in
      (codes "a.py")
      (sort_files_by_main_languages extensions (codes "png" ∷ []) ((codes "Python", 90) ∷ []) files)
    ≡ has_file (codes "a.py") (filter_bad_extensions (codes "png" ∷ []) files)
sort_files_by_main_languages_complete_example =
    sort_files_by_main_languages_complete extensions (codes "png" ∷ []) ((codes "Python", 90) ∷ [])
      files (codes "a.py")

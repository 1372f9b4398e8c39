-- ===== src/Tests/Diffs.antt =====
-- Two files of a pull request, run through pr_agent/algo/pr_processing.py with a tokenizer that counts
-- code points.
use mathlib.Core.List.{Perm}
use achord_review.Prelude.{
  ◌+◌, ◌≤◌, ◌≡◌, refl, ◌⊎◌, true, false, List, [], ◌∷◌, ◌++◌, All, any, null, length, arith,
}
use achord_review.Text.{Text, codes, text_eq, strip, rstrip, lstrip, is_space}
use achord_review.Types.{EditType, TokenHandler}
use achord_review.Diff.Pack.{
  FileDict, soft_threshold, patch_final, with_file_heading, generate_full_patch,
}
use achord_review.Diff.Pack.Budget.{
  HasSlack, sum_tokens, total_tokens-generate_full_patch, generate_full_patch-FitsBudget,
}
use achord_review.Diff.Pack.Partition.{HasPatch, names_asked, generate_full_patch-partition}
use achord_review.Diff.Pack.Progress.{fits_alone, generate_full_patch-progress}

abbrev pub handler : TokenHandler
handler = record { prompt_tokens = 100; count_tokens = length }

abbrev pub file_dict : FileDict
file_dict =
    (
      codes "a.py",
      record { patch = codes "@@ -1 +1 @@"; tokens = 11; edit_type = EditType.modified },
    )
    ∷ (
      codes "b.py",
      record { patch = codes "@@ -2 +2 @@"; tokens = 11; edit_type = EditType.added },
    )
    ∷ []

abbrev pub names : List Text
names = codes "a.py" ∷ codes "b.py" ∷ []

pub file_dict-HasSlack : All (HasSlack false handler 29) file_dict
unfolding patch_final with_file_heading strip rstrip lstrip is_space
file_dict-HasSlack = (omega arith, (omega arith, tt))

total_tokens-generate_full_patch_example :
    (generate_full_patch false handler 4000 names file_dict).total_tokens
    ≡ 100 + sum_tokens handler (generate_full_patch false handler 4000 names file_dict).patches
total_tokens-generate_full_patch_example =
    total_tokens-generate_full_patch false handler 4000 names file_dict

generate_full_patch-FitsBudget_example :
    ((generate_full_patch false handler 4000 names file_dict).patches ≡ [])
    ⊎ ((generate_full_patch false handler 4000 names file_dict).total_tokens + soft_threshold
        ≤ 4000 + 29)
generate_full_patch-FitsBudget_example =
    generate_full_patch-FitsBudget false handler 4000 names 29 file_dict file_dict-HasSlack

file_dict-HasPatch : All HasPatch file_dict
file_dict-HasPatch = (refl, (refl, tt))

generate_full_patch-partition_example :
    Perm
      ((generate_full_patch false handler 4000 names file_dict).files_in_patch
        ++ (generate_full_patch false handler 4000 names file_dict).remaining_files)
      (names_asked names file_dict)
generate_full_patch-partition_example =
    generate_full_patch-partition false handler 4000 names file_dict file_dict-HasPatch

some_fits : any (fits_alone false handler 4000 names) file_dict ≡ true
unfolding text_eq
some_fits = refl

generate_full_patch-progress_example :
    null (generate_full_patch false handler 4000 names file_dict).files_in_patch ≡ false
generate_full_patch-progress_example =
    generate_full_patch-progress false handler 4000 names file_dict some_fits

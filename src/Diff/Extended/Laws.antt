-- ===== src/Diff/Extended/Laws.antt =====
-- The accounts of `pr_generate_extended_diff`.
use achord_review.Prelude.{
  ℕ, ◌+◌, ◌≡◌, refl, Bool, ◌||◌, List, [], ◌∷◌, map, arith, null, Bool-cases, inl, inr, map-append,
}
use achord_review.Types.{FilePatchInfo, TokenHandler}
use achord_review.Diff.Pack.Budget.{sum_tokens, sum_tokens-append}
use achord_review.Diff.Compress.{LanguageFiles}
use achord_review.Diff.Extended.{
  DiffSettings, Extended, extended_patch, full_extended_patch, extend_file, extend_files,
  extend_languages, pr_generate_extended_diff,
}

module _ (st : DiffSettings) (handler : TokenHandler) (add_line_numbers : Bool)
    (before after : ℕ) where
  -- The total is the prompt's tokens and those of the patches, and each patch has its count.
  abbrev IsAccounted : Extended → Type 0
  IsAccounted s =
      (s.total_tokens ≡ handler.prompt_tokens + sum_tokens handler s.patches_extended)
      × (s.patches_extended_tokens ≡ map handler.count_tokens s.patches_extended)

  extend_file-IsAccounted :
      (s : Extended) (file : FilePatchInfo)
      → IsAccounted s
      → IsAccounted (extend_file st handler add_line_numbers before after s file).0
  unfolding extend_file
  extend_file-IsAccounted s file (h, k) =
      let patch = extended_patch st handler add_line_numbers before after file in
      let full = full_extended_patch st handler add_line_numbers before after file patch in
      elim (Bool-cases (null file.patch || null patch)) [
        | inl passed ↦ rw passed (h, k)
        | inr shown ↦ rw shown (
          omega (arith, h, sum_tokens-append handler s.patches_extended (full ∷ [])),
          rw (map-append, k),
        )
      ]

  extend_files-IsAccounted :
      (s : Extended) (files : List FilePatchInfo)
      → IsAccounted s
      → IsAccounted (extend_files st handler add_line_numbers before after s files).0
  unfolding extend_files
  extend_files-IsAccounted s [] h = h
  extend_files-IsAccounted s (file ∷ files) h =
      extend_files-IsAccounted (extend_file st handler add_line_numbers before after s file).0 files
        (extend_file-IsAccounted s file h)

  extend_languages-IsAccounted :
      (s : Extended) (langs : List LanguageFiles)
      → IsAccounted s
      → IsAccounted (extend_languages st handler add_line_numbers before after s langs).0
  unfolding extend_languages
  extend_languages-IsAccounted s [] h = h
  extend_languages-IsAccounted s (lang ∷ langs) h =
      extend_languages-IsAccounted
        (extend_files st handler add_line_numbers before after s lang.files).0 langs
        (extend_files-IsAccounted s lang.files h)

  -- The total of the extended diff is the prompt's tokens and those of its patches, and the list of
  -- counts holds the tokens of each patch, in order.
  pub pr_generate_extended_diff-accounts :
      (pr_languages : List LanguageFiles)
      → ((pr_generate_extended_diff st handler add_line_numbers before after
            pr_languages).0.total_tokens
          ≡ handler.prompt_tokens
            + sum_tokens handler
                (pr_generate_extended_diff st handler add_line_numbers before after
                  pr_languages).0.patches_extended)
        × ((pr_generate_extended_diff st handler add_line_numbers before after
              pr_languages).0.patches_extended_tokens
            ≡ map handler.count_tokens
                (pr_generate_extended_diff st handler add_line_numbers before after
                  pr_languages).0.patches_extended)
  unfolding pr_generate_extended_diff
  pr_generate_extended_diff-accounts pr_languages =
      extend_languages-IsAccounted _ pr_languages (omega arith, refl)

-- ===== src/Tests/Related.antt =====
-- Related files collected and rendered, and a review recovered, on small inputs.
use achord_review.Prelude.{
  ℕ, ◌+◌, ◌≤◌, ◌≡◌, refl, true, false, none, some, List, [], ◌∷◌, ◌++◌, length, length-append, take,
  leb, All, ◌⊎◌, flatten, arith, if◌then◌else◌,
}
use achord_review.Text.{
  Text, codes, text_eq, strip, rstrip, lstrip, is_space, join, lower, lower_code, starts_with,
  strip_prefix, contains,
}
use achord_review.Text.Glob.{fnmatch, matches}
use achord_review.Text.Lines.{split_lines, split_from, is_break}
use achord_review.TimedDict.{put}
use achord_review.Yaml.{Value, text, items, dict, nil, item, end, field, get, has, set}
use achord_review.RelatedFiles.Paths.{
  is_safe_path, is_sensitive_path, is_excluded, matches_any, dirname, extension, change_of, is_near,
  is_candidate, place, place_all, rank_candidates,
}
use achord_review.RelatedFiles.Select.{select_path, select_loop, parse_selection}
use achord_review.RelatedFiles.Search.{
  output_buffer, candidates_that_fit, after_test, shorten, fits_window, largest_fit, search,
}
use achord_review.RelatedFiles.Search.Longest.{sizer_of, last_fit, candidates_that_fit-longest}
use achord_review.RelatedFiles.Collect.{
  Options, World, repo_tree, clip_lines, is_attachable, attach, attach_all, select_paths,
  offered_paths, collect_related_files,
}
use achord_review.RelatedFiles.Collect.Safe.{IsAttached, collect_related_files-IsAttached}
use achord_review.RelatedFiles.Rendered.{
  Settings, Handler, render_related_files, available_token_budget, render, whole_pass, short_pass,
  largest_prefix_that_fits, fits, fence_for, block_of, assemble,
}
use achord_review.Text.Markup.{escape, fence_from, lengthen}
use achord_review.RelatedFiles.Rendered.Fits.{IsWithin, render_related_files-IsWithin}
use achord_review.Review.{
  recover_missing_review_wrapper, recover_fields, are_review_fields, normalized_issues,
  normalize_issues, put_findings, wrap,
}
use achord_review.Review.Finding.{
  normalize_finding, normalize_fields, has_texts, has_lines, is_filled, is_positive_line_number,
  line_of, end_line_of, severity_of, with_numbers, put_severity, number_of, upper,
}
use achord_review.Review.Security.{is_explicit_security_concern}
use achord_review.Text.Numbers.{parse_int, digits_from, is_digit}
use achord_review.Review.Recovered.{IsReview, recover_missing_review_wrapper-IsReview}

abbrev paths : List Text
paths =
    codes "src/a.py"
    ∷ codes "src/b.py"
    ∷ codes "lib/c.py"
    ∷ codes "README.md"
    ∷ codes "src/token.py"
    ∷ []

-- Ten tokens for each path and as many for the rest of the prompt.
abbrev count : List Text → ℕ
count candidates = 10 + length candidates

count-grows : (xs ys : List Text) → count xs ≤ count (xs ++ ys)
count-grows xs ys = omega (arith, length-append xs ys)

candidates_that_fit-longest_example :
    candidates_that_fit (some (sizer_of 1513 count)) paths
    ≡ take (last_fit (λ n. leb (count (take n paths) + output_buffer) 1513) (length paths)) paths
candidates_that_fit-longest_example = candidates_that_fit-longest 1513 count count-grows paths

three_fit : candidates_that_fit (some (sizer_of 1513 count)) paths ≡ take 3 paths
unfolding candidates_that_fit after_test shorten fits_window largest_fit search
three_fit = refl

abbrev options : Options
options = record {
  enabled = true;
  exclude = codes "*.md" ∷ [];
  max_files = 2;
  max_candidate_paths = 10;
  max_lines_per_file = 3;
  max_file_bytes = 100;
}

abbrev world : World
world = record {
  supports_tree = true;
  cached_tree = none;
  listed_tree = some paths;
  content =
      λ path. if text_eq path (codes "src/b.py") then some (codes "x = 1\n") else some (codes "y");
  chosen = λ _. some (
      items (
        item (text (codes "./src/b.py"))
          (item (text (codes "/etc/passwd")) (item (text (codes "lib/c.py")) nil))));
  has_credentials = λ _. false;
}

collect_related_files-IsAttached_example :
    All
      (IsAttached options world (codes "src/a.py" ∷ []))
      (collect_related_files options world none (codes "diff") (codes "src/a.py" ∷ []))
collect_related_files-IsAttached_example =
    collect_related_files-IsAttached options world (codes "src/a.py" ∷ []) none (codes "diff")
      (omega arith)

two_attached :
    collect_related_files options world none (codes "diff") (codes "src/a.py" ∷ [])
    ≡ (codes "src/b.py", codes "x = 1") ∷ (codes "lib/c.py", codes "y") ∷ []
unfolding collect_related_files attach_all attach select_paths offered_paths repo_tree clip_lines
    is_attachable parse_selection select_loop select_path rank_candidates place_all place
    is_candidate is_near change_of dirname extension is_excluded is_sensitive_path matches_any
    is_safe_path fnmatch matches candidates_that_fit put split_lines split_from is_break strip
    rstrip lstrip is_space lower lower_code starts_with strip_prefix text_eq get join
two_attached = refl

abbrev settings : Settings
settings = record { max_tokens = 2000; max_total_lines = 40 }

abbrev handler : Handler
handler = record { prompt_tokens = 100; count_tokens = λ s. some (length s) }

render_related_files-IsWithin_example :
    (render_related_files settings
        ((codes "src/b.py", codes "x = 1") ∷ [])
        (some 4000)
        (some handler)
        (codes "diff")
      ≡ [])
    ⊎ IsWithin settings 4000 handler (codes "diff") (
        render_related_files settings
          ((codes "src/b.py", codes "x = 1") ∷ [])
          (some 4000)
          (some handler)
          (codes "diff"))
render_related_files-IsWithin_example =
    render_related_files-IsWithin settings ((codes "src/b.py", codes "x = 1") ∷ []) 4000 handler
      (codes "diff")

is_rendered :
    starts_with (codes "The files below are NOT") (
      render_related_files settings
        ((codes "src/b.py", codes "x = 1") ∷ [])
        (some 4000)
        (some handler)
        (codes "diff"))
    ≡ true
unfolding render_related_files available_token_budget render whole_pass short_pass
    largest_prefix_that_fits fits fence_for fence_from lengthen block_of escape assemble contains
    join starts_with strip_prefix split_lines split_from is_break flatten
is_rendered = refl

abbrev answer : Value
answer = dict (
    field (codes "key_issues_to_review")
      (items (
        item
          (dict (
            field (codes "relevant_file") (text (codes "a.py")) (
              field (codes "issue_header") (text (codes "Bug")) (
                field (codes "issue_content") (text (codes "It fails.")) (
                  field (codes "start_line") (text (codes " 3"))
                    (field (codes "severity") (text (codes "p1")) end))))))
          nil))
      end)

recover_missing_review_wrapper-IsReview_example :
    (recover_missing_review_wrapper answer true ≡ (answer, false))
    ⊎ IsReview true (recover_missing_review_wrapper answer true)
recover_missing_review_wrapper-IsReview_example =
    recover_missing_review_wrapper-IsReview answer true

is_recovered : (recover_missing_review_wrapper answer true).1 ≡ true
unfolding recover_missing_review_wrapper recover_fields are_review_fields normalized_issues
    normalize_issues normalize_finding normalize_fields has_texts has_lines is_filled
    is_positive_line_number line_of end_line_of severity_of with_numbers put_severity put_findings
    wrap is_explicit_security_concern number_of parse_int digits_from is_digit upper strip rstrip
    lstrip is_space text_eq get has set
is_recovered = refl

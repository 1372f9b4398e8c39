-- ===== src/RelatedFiles/Collect.antt =====
-- `collect_related_files` of pr_agent/algo/related_files.py: the files that are fetched for the model's choice.
pub mod Safe
use achord_review.Prelude.{
  ℕ, Bool, true, false, ◌&&◌, ◌||◌, not, Option, none, some, List, [], ◌∷◌, ◌++◌, length, take,
  keep, null, ltb, if◌then◌else◌,
}
use achord_review.Text.{Text, strip, join, newline}
use achord_review.Text.Lines.{split_lines}
use achord_review.Yaml.{Value}
use achord_review.TimedDict.{put}
use achord_review.RepoContext.Render.{Files, truncation_marker}
use achord_review.RelatedFiles.Paths.{
  is_safe_path, is_sensitive_path, rank_candidates, exclude_globs,
}
use achord_review.RelatedFiles.Select.{parse_selection}
use achord_review.RelatedFiles.Search.{Sizer, candidates_that_fit}

-- The settings of `related_files`, read by `_int_setting` and `_bool_setting`.
pub record Options : Type 0 where
  pub enabled : Bool
  pub exclude : List Text
  pub max_files : ℕ
  pub max_candidate_paths : ℕ
  pub max_lines_per_file : ℕ
  pub max_file_bytes : ℕ

-- What the git provider and the model answer; `none` is an exception.  A file without content is `[]`.
-- `has_credentials` tells whether one of the expressions of `CREDENTIAL_MARKERS` occurs.
pub record World : Type 0 where
  pub supports_tree : Bool
  pub cached_tree : Option (List Text)
  pub listed_tree : Option (List Text)
  pub content : Text → Option Text
  pub chosen : List Text → Option Value
  pub has_credentials : Text → Bool

-- `_repo_tree`
unfoldable pub repo_tree : World → Option (List Text)
unfolding is_safe_path
repo_tree world = elim world.cached_tree [
  | some tree ↦ some tree
  | none ↦ elim world.listed_tree [ none ↦ none | some tree ↦ some (keep is_safe_path tree) ]
]

-- The lines of a file that are attached.
unfoldable pub clip_lines : ℕ → Text → Text
clip_lines max_lines content =
    let lines = split_lines content in
    join newline (
      if ltb max_lines (length lines)
      then take max_lines lines ++ truncation_marker ∷ []
      else lines)

-- A content that may be attached.
unfoldable pub is_attachable : Options → World → Text → Bool
unfolding strip
is_attachable options world content = not (
    ltb options.max_file_bytes (length content)
    || (null (strip content) || world.has_credentials content))

-- One round of the loop over the selected paths, with what the provider gives for the path.
unfoldable pub attach : Options → World → Text → Option Text → Files → Files
unfolding is_sensitive_path is_attachable clip_lines put
attach options world path none files = files
attach options world path (some content) files =
    if is_sensitive_path path
    then files
    else if is_attachable options world content
    then put path (clip_lines options.max_lines_per_file content) files
    else files

unfoldable pub attach_all : Options → World → List Text → Files → Files
unfolding attach
attach_all options world [] files = files
attach_all options world (path ∷ paths) files =
    attach_all options world paths (attach options world path (world.content path) files)

abbrev pub answer_paths : Options → List Text → Option Value → List Text
unfolding parse_selection
answer_paths options paths none = []
answer_paths options paths (some answer) = parse_selection answer paths options.max_files

-- The model is asked if there are candidates.
unfoldable pub select_paths : Options → World → List Text → List Text
unfolding answer_paths
select_paths options world [] = []
select_paths options world (path ∷ paths) =
    answer_paths options (path ∷ paths) (world.chosen (path ∷ paths))

abbrev pub paths_of : Options → Option Sizer → List Text → Option (List Text) → List Text
unfolding rank_candidates candidates_that_fit
paths_of options sizer changed_paths none = []
paths_of options sizer changed_paths (some tree) =
    candidates_that_fit sizer (
      rank_candidates (exclude_globs options.exclude) tree changed_paths
        options.max_candidate_paths)

-- The candidates, ranked and shortened.
unfoldable pub offered_paths : Options → World → Option Sizer → List Text → List Text
unfolding paths_of repo_tree
offered_paths options world sizer changed_paths =
    paths_of options sizer changed_paths (repo_tree world)

-- `collect_related_files`
unfoldable pub collect_related_files : Options → World → Option Sizer → Text → List Text → Files
unfolding attach_all select_paths offered_paths
collect_related_files options world sizer diff changed_paths =
    if not options.enabled || (null diff || not world.supports_tree)
    then []
    else attach_all options world
        (select_paths options world (offered_paths options world sizer changed_paths)) []

-- ===== src/RelatedFiles/Select.antt =====
-- The model's choice among the candidates: `_parse_selection` of pr_agent/algo/related_files.py.
pub mod Safe
use achord_review.Prelude.{
  ℕ, Bool, true, false, ◌&&◌, ◌||◌, not, Option, none, some, List, [], ◌∷◌, ◌++◌, length, take,
  keep, null, ltb, leb, if◌then◌else◌,
}
use achord_review.Text.{Text, codes, strip, strip_prefix, join, newline}
use achord_review.Text.Lines.{split_lines}
use achord_review.Types.{mem_text}
use achord_review.Yaml.{
  Value, Items, absent, flag, whole, text, scalar, items, dict, nil, item, get, or_else,
}
use achord_review.TimedDict.{put}
use achord_review.RelatedFiles.Paths.{
  is_safe_path, is_sensitive_path, rank_candidates, exclude_globs,
}

-- The paths among the entries, which are the entries themselves or their field `path`; others are skipped.
abbrev pub entry_path : Value → Option Text
unfolding get
entry_path (text path) = some path
entry_path (dict entry) = elim (get (codes "path") entry) [
  | absent ↦ none
  | flag _ ↦ none
  | whole _ ↦ none
  | text path ↦ some path
  | scalar _ _ ↦ none
  | items _ ↦ none
  | dict _ ↦ none
]
entry_path _ = none

-- `path.strip().removeprefix("./")`
abbrev pub clean_path : Text → Text
unfolding strip strip_prefix
clean_path path = elim (strip_prefix (codes "./") (strip path)) [
  | none ↦ strip path
  | some rest ↦ rest
]

-- The path joins the selection if it was offered and is new.
unfoldable pub select_path : List Text → Text → List Text → List Text
unfolding is_safe_path
select_path candidates path selected =
    if mem_text path candidates && (is_safe_path path && not (mem_text path selected))
    then selected ++ path ∷ []
    else selected

-- An entry without a path is passed over.
abbrev pub select_entry : List Text → Option Text → List Text → List Text
unfolding select_path
select_entry candidates none selected = selected
select_entry candidates (some path) selected = select_path candidates (clean_path path) selected

-- `len(selected) >= max_files`, which is asked behind a path only
abbrev pub is_full : ℕ → Option Text → List Text → Bool
is_full max_files none selected = false
is_full max_files (some path) selected = leb max_files (length selected)

unfoldable pub select_loop : List Text → ℕ → List Text → Items → List Text
unfolding select_entry
select_loop candidates max_files selected nil = selected
select_loop candidates max_files selected (item entry entries) =
    let more = select_entry candidates (entry_path entry) selected in
    let rest = select_loop candidates max_files more entries in
    if is_full max_files (entry_path entry) more then more else rest

-- The list that the answer holds, bare or under one of two keys.
abbrev pub answer_list : Value → Value
unfolding get
answer_list (dict d) =
    or_else (get (codes "files") d) (or_else (get (codes "related_files") d) (items nil))
answer_list answer = answer

abbrev pub select_items : List Text → ℕ → Value → List Text
unfolding select_loop
select_items candidates max_files (items entries) = select_loop candidates max_files [] entries
select_items candidates max_files _ = []

-- `_parse_selection`, on the data that `load_yaml` makes of the answer.
unfoldable pub parse_selection : Value → List Text → ℕ → List Text
unfolding select_items answer_list
parse_selection answer candidates max_files = select_items candidates max_files (answer_list answer)

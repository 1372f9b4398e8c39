-- ===== src/RepoContext/Render.antt =====
-- `render_instruction_files` and `render_instruction_files_with_line_budget` of
-- pr_agent/algo/repo_context.py.
pub mod Budget
use achord_review.Prelude.{
  ℕ, ◌+◌, ◌-◌, Bool, true, false, ◌&&◌, not, Option, none, some, List, [], ◌∷◌, ◌++◌, length, take,
  ltb, leb, null, ◌==◌, if◌then◌else◌,
}
use achord_review.Text.{Text, codes, contains, join, newline, strip, rstrip}
use achord_review.Text.Lines.{split_lines}
use achord_review.Text.Markup.{escape, fence_from}

abbrev pub truncation_marker : Text
truncation_marker = codes "...(truncated)..."

abbrev pub intro : Text
intro =
    codes
      "You are being given instruction files. Follow them as project-specific guidance when reviewing code."

-- `_get_markdown_fence(content)`
unfoldable pub get_markdown_fence : Text → Text
unfolding fence_from
get_markdown_fence content = fence_from (codes "`````") content

-- What stands before the last `/`.
abbrev pub before_last_slash : Text → Option Text
before_last_slash [] = none
before_last_slash (c ∷ s) = elim (before_last_slash s) [
  | some front ↦ some (c ∷ front)
  | none ↦ if c == b'/' then some [] else none
]

-- `path.rsplit("/", 1)[0] if "/" in path else "repo-root"`
abbrev pub scope_of : Text → Text
scope_of path = elim (before_last_slash path) [ none ↦ codes "repo-root" | some front ↦ front ]

unfoldable pub file_header : Text → Text → List Text
unfolding escape
file_header path fence =
    (codes "<file path=\""
      ++ (escape path ++ (codes "\" scope=\"" ++ (escape (scope_of path) ++ codes "\">"))))
    ∷ (fence ++ codes "markdown")
    ∷ []

abbrev pub file_footer : Text → List Text
file_footer fence = fence ∷ codes "</file>" ∷ [] ∷ []

abbrev pub opening_parts : List Text
opening_parts = intro ∷ codes "<instruction_files>" ∷ []

abbrev pub closing_tag : Text
closing_tag = codes "</instruction_files>"

-- The files with their contents, in the order of the dictionary.
abbrev pub Files : Type 0
Files = List (Text × Text)

abbrev pub whole_files : Files → List Text
unfolding get_markdown_fence file_header
whole_files [] = []
whole_files ((path, content) ∷ files) =
    let fence = get_markdown_fence content in
    file_header path fence ++ (rstrip content ∷ (file_footer fence ++ whole_files files))

unfoldable pub render_instruction_files : Files → Text
unfolding whole_files
render_instruction_files files =
    join newline (opening_parts ++ (whole_files files ++ closing_tag ∷ []))

-- The lines of a file that are shown where only `available` of them have room.
unfoldable pub clipped_lines : ℕ → List Text → List Text
clipped_lines available lines =
    if ltb 1 available
    then take (available - 1) lines ++ truncation_marker ∷ []
    else truncation_marker ∷ []

-- The loop over the files; six lines of the budget are reserved for a file's frame and the closing tag.
-- A subtraction that goes below zero in the source stops the loop.
unfoldable pub budget_loop : ℕ → List Text → Files → List Text
unfolding get_markdown_fence file_header clipped_lines
budget_loop max_lines parts [] = parts
budget_loop max_lines parts ((path, content) ∷ files) =
    let lines = split_lines (rstrip content) in
    let fence = get_markdown_fence content in
    let available = max_lines - (length parts + 6) in
    let more =
      budget_loop max_lines (parts ++ (file_header path fence ++ (lines ++ file_footer fence)))
        files in
    if ltb max_lines (length parts + 6)
    then parts
    else if not (null lines) && ltb available 1
    then parts
    else if leb (length lines) available
    then more
    else parts ++ (file_header path fence ++ (clipped_lines available lines ++ file_footer fence))

unfoldable pub render_instruction_files_with_line_budget : Files → ℕ → Text
unfolding budget_loop
render_instruction_files_with_line_budget files max_lines =
    if ltb max_lines (length opening_parts + 1)
    then []
    else strip (join newline (budget_loop max_lines opening_parts files ++ closing_tag ∷ []))

-- ===== src/RepoContext/Render/Budget.antt =====
-- On the lines of the rendered instruction files.
use achord_review.Prelude.{
  ℕ, ◌+◌, ◌-◌, ◌≤◌, ◌<◌, ◌≡◌, refl, true, false, ◌&&◌, not, none, some, List, [], ◌∷◌, ◌++◌, length,
  length-append, length-take, take, ltb, leb, null, All, All-append, Bool-cases, Option-cases, inl,
  inr, arith, ltb→lt, ltb_false→le, leb→le, ◌==◌, ap, subst,
}
use achord_review.Text.{Text, codes, rstrip}
use achord_review.Text.Lines.{split_lines}
use achord_review.Text.Markup.{escape}
use achord_review.Text.Markup.Fence.{one_line, fence_from-one_line}
use achord_review.Text.Markup.Joined.{
  line_ends, OneLines, one_line-append, line_ends-strip-join, split_lines-OneLines, take-OneLines,
  escape-one_line,
}
use achord_review.RepoContext.Render.{
  Files, before_last_slash, scope_of, get_markdown_fence, file_header, file_footer, clipped_lines,
  truncation_marker, opening_parts, closing_tag, budget_loop,
  render_instruction_files_with_line_budget,
}

abbrev pub HasPlainPath : Text × Text → Type 0
HasPlainPath file = one_line file.0 ≡ true

-- Room is left for the closing tag, and no part has a line end.
abbrev IsWithin : ℕ → List Text → Type 0
IsWithin max_lines parts = (length parts + 1 ≤ max_lines) × OneLines parts

some-injective : {x y : Text} → some x ≡ some y → x ≡ y
some-injective {x} p = ap (λ o. elim o [ none ↦ x | some z ↦ z ]) p

before_last_slash-one_line :
    (s front : Text) → before_last_slash s ≡ some front → one_line s ≡ true → one_line front ≡ true
before_last_slash-one_line [] front e h = cc e
before_last_slash-one_line (c ∷ s) front e h = elim (Option-cases (before_last_slash s)) [
  | inl absent ↦ elim (Bool-cases (c == b'/')) [
    | inl slash ↦ subst (λ f. one_line f ≡ true) (some-injective (rw (absent, slash) at e)) refl
    | inr other ↦ cc (rw (absent, other) at e)
  ]
  | inr (f, found) ↦
      let rest = before_last_slash-one_line s f found (ground (arith, h)) in
      subst (λ g. one_line g ≡ true) (some-injective (rw found at e)) (ground (arith, h, rest))
]

scope_of-one_line : (path : Text) → one_line path ≡ true → one_line (scope_of path) ≡ true
scope_of-one_line path h = elim (Option-cases (before_last_slash path)) [
  | inl absent ↦ rw (absent, scope_of) refl
  | inr (f, found) ↦ rw (found, scope_of) (before_last_slash-one_line path f found h)
]

get_markdown_fence-one_line : (content : Text) → one_line (get_markdown_fence content) ≡ true
unfolding get_markdown_fence
get_markdown_fence-one_line content = fence_from-one_line (codes "`````") content refl

file_header-OneLines :
    (path fence : Text)
    → one_line path ≡ true
    → one_line fence ≡ true
    → OneLines (file_header path fence)
unfolding file_header
file_header-OneLines path fence p f =
    let closing = codes "\">" in
    let scope = escape (scope_of path) in
    let behind_path = codes "\" scope=\"" ++ (scope ++ closing) in
    let scoped =
      one_line-append scope closing (escape-one_line (scope_of path) (scope_of-one_line path p))
        refl in
    let pathed =
      one_line-append (escape path) behind_path (escape-one_line path p)
        (one_line-append (codes "\" scope=\"") (scope ++ closing) refl scoped) in
    (
      one_line-append (codes "<file path=\"") (escape path ++ behind_path) refl pathed,
      (one_line-append fence (codes "markdown") f refl, tt),
    )

clipped_lines-OneLines :
    (n : ℕ) (lines : List Text) → OneLines lines → OneLines (clipped_lines n lines)
unfolding clipped_lines
clipped_lines-OneLines n lines h = elim (Bool-cases (ltb 1 n)) [
  | inl e ↦ rw e (
      All-append (λ s. one_line s ≡ true) (take (n - 1) lines) _ (take-OneLines (n - 1) lines h)
        (refl, tt))
  | inr e ↦ rw e (refl, tt)
]

length-clipped_lines : (n : ℕ) (lines : List Text) → 1 ≤ n → length (clipped_lines n lines) ≤ n
unfolding clipped_lines
length-clipped_lines n lines h = elim (Bool-cases (ltb 1 n)) [
  | inl e ↦ rw e (
      omega (
        arith,
        ltb→lt _ _ e,
        length-append (take (n - 1) lines) (truncation_marker ∷ []),
        length-take (n - 1) lines,
      ))
  | inr e ↦ rw e h
]

some_room :
    (lines : List Text) (n : ℕ)
    → (not (null lines) && ltb n 1) ≡ false
    → leb (length lines) n ≡ false
    → 1 ≤ n
some_room [] n h k = ground arith
some_room (l ∷ lines) n h k = ground arith

-- A file with its frame around `body`, behind `parts`.
framed-IsWithin :
    (max_lines : ℕ) (parts : List Text) (path fence : Text) (body : List Text)
    → one_line path ≡ true
    → one_line fence ≡ true
    → OneLines parts
    → OneLines body
    → length parts + 6 + length body ≤ max_lines
    → IsWithin max_lines (parts ++ (file_header path fence ++ (body ++ file_footer fence)))
framed-IsWithin max_lines parts path fence body p f ps bs h = (
  omega (
    arith,
    h,
    length-append parts (file_header path fence ++ (body ++ file_footer fence)),
    size_header,
    length-append (file_header path fence) (body ++ file_footer fence),
    length-append body (file_footer fence),
  ),
  All-append (λ s. one_line s ≡ true) parts _ ps
      (All-append (λ s. one_line s ≡ true) (file_header path fence) _
        (file_header-OneLines path fence p f)
        (All-append (λ s. one_line s ≡ true) body _ bs (f, (refl, (refl, tt))))),
)
  where
    size_header : length (file_header path fence) ≡ 2
    size_header = unfold file_header in refl

budget_loop-IsWithin :
    (max_lines : ℕ) (parts : List Text) (files : Files)
    → All HasPlainPath files
    → IsWithin max_lines parts
    → IsWithin max_lines (budget_loop max_lines parts files)
unfolding budget_loop
budget_loop-IsWithin max_lines parts [] ps w = w
budget_loop-IsWithin max_lines parts ((path, content) ∷ files) (p, ps) (w, os) =
    let lines = split_lines (rstrip content) in
    let fence = get_markdown_fence content in
    let available = max_lines - (length parts + 6) in
    let f = get_markdown_fence-one_line content in
    elim (Bool-cases (ltb max_lines (length parts + 6))) [
      | inl full ↦ rw full (w, os)
      | inr room ↦ elim (Bool-cases (not (null lines) && ltb available 1)) [
        | inl tight ↦ rw (room, tight) (w, os)
        | inr loose ↦ elim (Bool-cases (leb (length lines) available)) [
          | inl all_fit ↦
              rw (room, loose, all_fit)
                (budget_loop-IsWithin max_lines
                  (parts ++ (file_header path fence ++ (lines ++ file_footer fence))) files ps
                  (framed-IsWithin max_lines parts path fence lines p f os
                    (split_lines-OneLines (rstrip content))
                    (omega (arith, ltb_false→le _ _ room, leb→le _ _ all_fit))))
          | inr too_many ↦
              rw (room, loose, too_many)
                (framed-IsWithin max_lines parts path fence (clipped_lines available lines) p f os
                  (clipped_lines-OneLines available lines (split_lines-OneLines (rstrip content)))
                  (omega (
                    arith,
                    ltb_false→le _ _ room,
                    length-clipped_lines available lines (some_room lines available loose too_many),
                  )))
        ]
      ]
    ]

-- A text with a budget of lines has fewer line ends than lines in the budget, if no path holds a line end.
pub render_instruction_files_with_line_budget-bound :
    (files : Files) (max_lines : ℕ)
    → All HasPlainPath files
    → 0 < max_lines
    → line_ends (render_instruction_files_with_line_budget files max_lines) < max_lines
unfolding render_instruction_files_with_line_budget
render_instruction_files_with_line_budget-bound files max_lines h positive =
    elim (Bool-cases (ltb max_lines (length opening_parts + 1))) [
      | inl small ↦ rw small positive
      | inr large ↦
          let parts = budget_loop max_lines opening_parts files in
          let (l, os) =
            budget_loop-IsWithin max_lines opening_parts files h
              (ltb_false→le _ _ large, (refl, (refl, tt))) in
          let ends =
            line_ends-strip-join (parts ++ closing_tag ∷ [])
              (All-append (λ s. one_line s ≡ true) parts (closing_tag ∷ []) os (refl, tt)) in
          rw large (omega (arith, ends, l, length-append parts (closing_tag ∷ [])))
    ]

-- ===== src/RelatedFiles/Select/Safe.antt =====
-- On the paths that `_parse_selection` takes.
use achord_review.Prelude.{
  ℕ, ◌≤◌, ◌<◌, ◌≡◌, refl, Bool, true, false, ◌&&◌, not, Option, none, some, List, [], ◌∷◌, ◌++◌,
  length, length-append, All, All-append, Bool-cases, inl, inr, arith, ap, sym, ◌∙◌, leb_false→lt,
  any-append,
}
use achord_review.Text.{Text, text_eq}
use achord_review.Types.{mem_text, text_eq→eq, text_eq_refl}
use achord_review.Yaml.{Value, Items, absent, flag, whole, text, scalar, items, dict, nil, item}
use achord_review.RelatedFiles.Paths.{is_safe_path}
use achord_review.RelatedFiles.Select.{
  entry_path, clean_path, select_path, select_entry, is_full, select_loop, answer_list,
  select_items, parse_selection,
}

-- No path stands twice.
abbrev pub distinct : List Text → Bool
distinct [] = true
distinct (path ∷ paths) = not (mem_text path paths) && distinct paths

-- Every path was offered and may stand in a prompt, there are at most `max_files` of them, and no two are
-- the same.
abbrev pub IsSelection : List Text → ℕ → List Text → Type 0
IsSelection candidates max_files selected =
    All (λ path. (mem_text path candidates ≡ true) × (is_safe_path path ≡ true)) selected
    × (length selected ≤ max_files)
    × (distinct selected ≡ true)

text_eq-false_sym : (s t : Text) → text_eq s t ≡ false → text_eq t s ≡ false
text_eq-false_sym s t h = elim (Bool-cases (text_eq t s)) [
  | inl e ↦ cc (sym h ∙ ap (text_eq s) (text_eq→eq t s e) ∙ text_eq_refl s)
  | inr e ↦ e
]

distinct-append :
    (path : Text) (paths : List Text)
    → distinct paths ≡ true
    → mem_text path paths ≡ false
    → distinct (paths ++ path ∷ []) ≡ true
distinct-append path [] h new = refl
distinct-append path (other ∷ paths) h new = ground (
  arith,
  any-append (text_eq other) paths (path ∷ []),
  distinct-append path paths,
  text_eq-false_sym path other,
)

select_path-IsSelection :
    (candidates : List Text) (max_files : ℕ) (path : Text) (selected : List Text)
    → length selected < max_files
    → IsSelection candidates max_files selected
    → IsSelection candidates max_files (select_path candidates path selected)
unfolding select_path
select_path-IsSelection candidates max_files path selected h (sound, small, once) =
    elim (Bool-cases
      (mem_text path candidates && (is_safe_path path && not (mem_text path selected)))) [
        | inr e ↦ rw e (sound, small, once)
        | inl e ↦ rw e (
          All-append _ selected (path ∷ []) sound ((ground arith, ground arith), tt),
          omega (arith, length-append selected (path ∷ [])),
          distinct-append path selected once (ground arith),
        )
      ]

-- The selection is sound, and there is room for one more path unless the loop stops.
IsRound : List Text → ℕ → Option Text → List Text → Type 0
IsRound candidates max_files o selected =
    IsSelection candidates max_files selected
    × (is_full max_files o selected ≡ false → length selected < max_files)

select_entry-IsRound :
    (candidates : List Text) (max_files : ℕ) (o : Option Text) (selected : List Text)
    → length selected < max_files
    → IsSelection candidates max_files selected
    → IsRound candidates max_files o (select_entry candidates o selected)
unfolding IsRound select_entry
select_entry-IsRound candidates max_files none selected h good = (good, λ _. h)
select_entry-IsRound candidates max_files (some path) selected h good = (
  select_path-IsSelection candidates max_files (clean_path path) selected h good,
  λ below. leb_false→lt _ _ below,
)

select_loop-IsSelection :
    (candidates : List Text) (max_files : ℕ) (selected : List Text) (entries : Items)
    → length selected < max_files
    → IsSelection candidates max_files selected
    → IsSelection candidates max_files (select_loop candidates max_files selected entries)
unfolding select_loop IsRound
select_loop-IsSelection candidates max_files selected nil h good = good
select_loop-IsSelection candidates max_files selected (item entry entries) h good =
    let o = entry_path entry in
    let more = select_entry candidates o selected in
    let (better, room) = select_entry-IsRound candidates max_files o selected h good in
    elim (Bool-cases (is_full max_files o more)) [
      | inl full ↦ rw full better
      | inr below ↦
          rw below (select_loop-IsSelection candidates max_files more entries (room below) better)
    ]

select_items-IsSelection :
    (candidates : List Text) (max_files : ℕ) (v : Value)
    → 0 < max_files
    → IsSelection candidates max_files (select_items candidates max_files v)
unfolding select_items
select_items-IsSelection candidates max_files (items entries) h =
    select_loop-IsSelection candidates max_files [] entries h (tt, omega (arith, h), refl)
select_items-IsSelection candidates max_files absent h = (tt, omega arith, refl)
select_items-IsSelection candidates max_files (flag _) h = (tt, omega arith, refl)
select_items-IsSelection candidates max_files (whole _) h = (tt, omega arith, refl)
select_items-IsSelection candidates max_files (text _) h = (tt, omega arith, refl)
select_items-IsSelection candidates max_files (scalar _ _) h = (tt, omega arith, refl)
select_items-IsSelection candidates max_files (dict _) h = (tt, omega arith, refl)

-- Whatever the model answers, each path of the selection was offered and is safe in a prompt, no path stands
-- twice, and there are at most `max_files` paths, when that is not zero.
pub parse_selection-IsSelection :
    (answer : Value) (candidates : List Text) (max_files : ℕ)
    → 0 < max_files
    → IsSelection candidates max_files (parse_selection answer candidates max_files)
unfolding parse_selection
parse_selection-IsSelection answer candidates max_files h =
    select_items-IsSelection candidates max_files (answer_list answer) h

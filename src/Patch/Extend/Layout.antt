-- ===== src/Patch/Extend/Layout.antt =====
-- `_calc_context_limits` and the placing of context lines in `process_patch_lines` of
-- pr_agent/algo/git_patch_processing.py: what is written for one hunk.
use achord_review.Prelude.{
  ℕ, zero, suc, ◌-◌, min, Bool, true, false, ◌&&◌, ◌||◌, not, Option, none, some, List, [], ◌∷◌,
  map, length, take, drop, any, null, ltb, ◌==◌, if◌then◌else◌,
}
use achord_review.Prelude.Int.{ℤ, pos, negsuc, ◌+ℤ◌, ◌-ℤ◌, ltb_ℤ}
use achord_review.Text.{Text, text_eq, contains, strip}
use achord_review.Patch.Header.{HunkHeader}

abbrev pub max_ℤ : ℤ → ℤ → ℤ
max_ℤ a b = if ltb_ℤ a b then b else a

-- Where an index of a slice falls in a list: negative ones count from the end.
abbrev pub clamp_index : ℕ → ℤ → ℕ
clamp_index len (pos n) = min n len
clamp_index len (negsuc n) = len - suc n

-- `xs[a:b]`
unfoldable pub slice {ℓ} : {A : Type ℓ} → List A → ℤ → ℤ → List A
slice xs a b =
    take (clamp_index (length xs) b - clamp_index (length xs) a)
      (drop (clamp_index (length xs) a) xs)

-- `s == t` on lists of lines
abbrev pub lines_eq : List Text → List Text → Bool
lines_eq [] [] = true
lines_eq (s ∷ ss) (t ∷ ts) = text_eq s t && lines_eq ss ts
lines_eq _ _ = false

-- The arguments and settings of `process_patch_lines` that do not change.
pub record Context : Type 0 where
  pub original_lines : List Text
  pub new_lines : List Text
  pub extra_before : ℕ
  pub extra_after : ℕ
  pub allow_dynamic_context : Bool
  pub extra_before_dynamic : ℕ

-- The four numbers of an extended header.
pub record Extent : Type 0 where
  pub start1 : ℤ
  pub size1 : ℤ
  pub start2 : ℤ
  pub size2 : ℤ

abbrev pub extent_of : HunkHeader → Extent
extent_of h = record {
  start1 = pos h.start1;
  size1 = pos h.size1;
  start2 = pos h.start2;
  size2 = pos h.size2;
}

abbrev pub shift_extent : Extent → ℕ → Extent
shift_extent e i = record {
  start1 = e.start1 +ℤ pos i;
  size1 = e.size1 -ℤ pos i;
  start2 = e.start2 +ℤ pos i;
  size2 = e.size2 -ℤ pos i;
}

-- `original_lines[start1 - 1]`; `none` is the `IndexError`.
abbrev pub line_before : List Text → ℕ → Option Text
line_before [] start1 = none
line_before (l ∷ ls) zero = last_of l ls
  where
    last_of : Text → List Text → Option Text
    last_of l [] = some l
    last_of l (k ∷ ks) = last_of k ks
line_before (l ∷ ls) (suc zero) = some l
line_before (l ∷ ls) (suc (suc n)) = line_before ls (suc n)

-- `check_if_hunk_lines_matches_to_file`: the line behind the header, if it is a line of the file,
-- against the file; a lookup that fails leaves the hunk valid, as does an empty line.
unfoldable pub check_if_hunk_lines_matches_to_file : List Text → List Text → ℕ → Bool
check_if_hunk_lines_matches_to_file [] original_lines start1 = true
check_if_hunk_lines_matches_to_file ([] ∷ _) original_lines start1 = true
check_if_hunk_lines_matches_to_file ((c ∷ line) ∷ _) original_lines start1 =
    if c == 32
    then (elim (line_before original_lines start1) [
      | none ↦ true
      | some l ↦ text_eq (strip (c ∷ line)) (strip l)
    ])
    else true

module _ (cx : Context) where
  -- `_calc_context_limits`
  unfoldable pub calc_context_limits : HunkHeader → ℕ → Extent
  unfolding ◌+ℤ◌ ◌-ℤ◌
  calc_context_limits h before =
      let start1 = max_ℤ (pos 1) (pos h.start1 -ℤ pos before) in
      let size1 = pos h.size1 +ℤ (pos h.start1 -ℤ start1) +ℤ pos cx.extra_after in
      let start2 = max_ℤ (pos 1) (pos h.start2 -ℤ pos before) in
      let size2 = pos h.size2 +ℤ (pos h.start2 -ℤ start2) +ℤ pos cx.extra_after in
      let len = pos (length cx.original_lines) in
      let delta_cap = start1 -ℤ pos 1 +ℤ size1 -ℤ len in
      if ltb_ℤ (pos 0) delta_cap
      then record {
        start1 = start1;
        size1 = max_ℤ (size1 -ℤ delta_cap) (pos h.size1);
        start2 = start2;
        size2 = max_ℤ (size2 -ℤ delta_cap) (pos h.size2);
      }
      else record { start1 = start1; size1 = size1; start2 = start2; size2 = size2 }

  -- The lines of the two files between the extended start and the hunk.
  abbrev pub original_before : HunkHeader → Extent → List Text
  original_before h e = slice cx.original_lines (e.start1 -ℤ pos 1) (pos h.start1 -ℤ pos 1)

  abbrev pub new_before : HunkHeader → Extent → List Text
  new_before h e = slice cx.new_lines (e.start2 -ℤ pos 1) (pos h.start2 -ℤ pos 1)

-- The position of the first line that holds the section heading.
unfoldable pub find_section : Text → List Text → Option ℕ
find_section section [] = none
find_section section (l ∷ ls) =
    let later : Option ℕ = elim (find_section section ls) [ none ↦ none | some i ↦ some (suc i) ] in
    if contains section l then some 0 else later

-- The extent, and the section heading that is still to be written.
abbrev pub Placed : Type 0
Placed = Extent × Text

module _ (cx : Context) (h : HunkHeader) where
  abbrev pub static_context : Placed
  static_context = (calc_context_limits cx h cx.extra_before, h.section_header)

  abbrev pub dynamic_at : Extent → Option ℕ → Placed
  dynamic_at e none = static_context
  dynamic_at e (some i) =
      if lines_eq (drop i (original_before cx h e)) (drop i (new_before cx h e))
      then (shift_extent e i, [])
      else static_context

  -- The extent by the dynamic context, if that is allowed and finds the section.
  unfoldable pub place_context : Placed
  unfolding ◌+ℤ◌ ◌-ℤ◌ find_section
  place_context =
      let e = calc_context_limits cx h cx.extra_before_dynamic in
      if cx.allow_dynamic_context && not (null cx.new_lines)
      then dynamic_at e (find_section h.section_header (original_before cx h e))
      else static_context

-- `[f' {line}' for line in lines]`
abbrev pub as_context : List Text → List Text
as_context = map (λ l. 32 ∷ l)

-- The least number of leading lines to drop from both lists so that the rests agree, among the
-- positions of the first list.
unfoldable pub find_agreement : List Text → List Text → Option ℕ
find_agreement [] ys = none
find_agreement (x ∷ xs) ys =
    let later : Option ℕ = elim (find_agreement xs (drop 1 ys)) [
      | none ↦ none
      | some i ↦ some (suc i)
    ] in
    if lines_eq (x ∷ xs) ys then some 0 else later

-- What is written for a hunk: the numbers, the section heading and the context lines.
pub record HunkLayout : Type 0 where
  pub extent : Extent
  pub section : Text
  pub before : List Text

abbrev pub agree_at : HunkHeader → Extent → Text → List Text → Option ℕ → HunkLayout
agree_at h e section before none = record { extent = extent_of h; section = section; before = [] }
agree_at h e section before (some i) = record {
  extent = shift_extent e i;
  section = section;
  before = drop i before;
}

module _ (cx : Context) (h : HunkHeader) where
  -- "check if extra lines before hunk are different in original and new file"
  abbrev pub agree_context : Extent → Text → HunkLayout
  agree_context e section =
      let before = as_context (original_before cx h e) in
      let before_new = as_context (new_before cx h e) in
      if null cx.new_lines || lines_eq before before_new
      then record { extent = e; section = section; before = before }
      else agree_at h e section before (find_agreement before before_new)

  -- "logic to remove section header if its in the extra delta lines"
  abbrev pub drop_section : HunkLayout → HunkLayout
  drop_section l =
      if not (null l.section) && not cx.allow_dynamic_context && any (contains l.section) l.before
      then record l { section = [] }
      else l

  unfoldable pub layout_hunk : Bool → HunkLayout
  unfolding place_context find_agreement
  layout_hunk is_valid_hunk =
      if is_valid_hunk && (ltb 0 cx.extra_before || ltb 0 cx.extra_after)
      then (let (e, section) = place_context cx h in drop_section (agree_context e section))
      else record { extent = extent_of h; section = h.section_header; before = [] }

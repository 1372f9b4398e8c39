-- ===== src/Patch/Extend/Placed.antt =====
-- The header that `process_patch_lines` writes for a hunk of the file is a hunk header again.
use mathlib.Core.Option
use achord_review.Prelude.{
  ℕ, suc, ◌+◌, ◌-◌, ◌≤◌, ◌<◌, ◌≡◌, refl, Bool, ◌&&◌, ◌||◌, not, Option, none, some, List, length,
  drop, any, null, arith, ltb, Bool-cases, inl, inr, sym, subst,
}
use achord_review.Prelude.Int.{pos_part}
use achord_review.Text.{Text, contains}
use achord_review.Patch.Header.{HunkHeader, match_header, extract_hunk_headers}
use achord_review.Patch.Extend.{extended_header}
use achord_review.Patch.Extend.Layout.{
  lines_eq, Context, Extent, HunkLayout, extent_of, shift_extent, original_before, new_before,
  find_section, find_agreement, as_context, dynamic_at, place_context, agree_at, agree_context,
  drop_section, layout_hunk, calc_context_limits,
}
use achord_review.Patch.Extend.Reach.{IsReach, shift_extent-IsReach, calc_context_limits-IsReach}
use achord_review.Patch.Extend.ReadBack.{match_header-extended_header}
use achord_review.Patch.Extend.Agreement.{
  lines_eq-drop, find_section-bound, length-slice, length-as_context, find_agreement-agrees,
}

-- `w` is read back from the line that is written, and describes the hunk `h` with context lines around it.
abbrev pub IsWritten : Context → HunkHeader → HunkLayout → HunkHeader → Type 0
IsWritten cx h l w =
    (Option.map extract_hunk_headers (match_header (extended_header l)) ≡ some w)
    × (l.extent ≡ extent_of w)
    × (l.section ≡ w.section_header)
    × (1 ≤ w.start1)
    × (w.start1 ≤ h.start1)
    × (h.start1 + h.size1 ≤ w.start1 + w.size1)
    × (w.start1 + w.size1 ≤ h.start1 + h.size1 + cx.extra_after)
    × (w.start1 + w.size1 ≤ suc (length cx.original_lines))
    × (1 ≤ w.start2)
    × (w.start2 ≤ h.start2)
    × (h.start2 + h.size2 ≤ w.start2 + w.size2)
    × (w.start2 + w.size2 ≤ h.start2 + h.size2 + cx.extra_after)

module _ (cx : Context) (h : HunkHeader) where
  original_before-length :
      (e : Extent) → IsReach cx h e → length (original_before cx h e) ≤ h.start1 - pos_part e.start1
  original_before-length e (a, b, c, d, same, a1, a2, ab, am, al, c1, c2, cd, dm) =
      rw same (length-slice cx.original_lines a h.start1 a1 (omega arith))

  new_before-length :
      (e : Extent) → IsReach cx h e → length (new_before cx h e) ≤ h.start2 - pos_part e.start2
  new_before-length e (a, b, c, d, same, a1, a2, ab, am, al, c1, c2, cd, dm) =
      rw same (length-slice cx.new_lines c h.start2 c1 (omega arith))

  -- A shift to a line that stands before the hunk in both files.
  shift-IsReach :
      (e : Extent) (i : ℕ)
      → IsReach cx h e
      → i < length (original_before cx h e)
      → i < length (new_before cx h e)
      → IsReach cx h (shift_extent e i)
  shift-IsReach e i reach left right =
      shift_extent-IsReach cx h e i (omega (arith, left, original_before-length e reach))
        (omega (arith, right, new_before-length e reach)) reach

  agree_at-IsReach :
      (e : Extent) (section : Text) (before : List Text) (o : Option ℕ)
      → find_agreement (as_context (original_before cx h e)) (as_context (new_before cx h e)) ≡ o
      → IsReach cx h (extent_of h)
      → IsReach cx h e
      → IsReach cx h (agree_at h e section before o).extent
  agree_at-IsReach e section before none found own reach = own
  agree_at-IsReach e section before (some i) found own reach =
      let old = as_context (original_before cx h e) in
      let new = as_context (new_before cx h e) in
      let (left, agrees) = find_agreement-agrees old new i found in
      let right = lines_eq-drop i old new left agrees in
      shift-IsReach e i reach (omega (arith, left, length-as_context (original_before cx h e)))
        (omega (arith, right, length-as_context (new_before cx h e)))

  drop_section-extent : (l : HunkLayout) → (drop_section cx h l).extent ≡ l.extent
  drop_section-extent l =
      elim (Bool-cases (
        not (null l.section)
        && not cx.allow_dynamic_context
        && any (contains l.section) l.before)) [
          | inl drops ↦ rw drops refl
          | inr keeps ↦ rw keeps refl
        ]

  module _ (h1 : 1 ≤ h.start1) (h2 : 1 ≤ h.start2)
      (inside : h.start1 + h.size1 ≤ suc (length cx.original_lines)) where
    limits-IsReach : (before : ℕ) → IsReach cx h (calc_context_limits cx h before)
    limits-IsReach before = calc_context_limits-IsReach cx h before h1 h2 inside

    own-IsReach : IsReach cx h (extent_of h)
    own-IsReach = (
      h.start1,
      h.size1,
      h.start2,
      h.size2,
      refl,
      h1,
      omega arith,
      omega arith,
      omega arith,
      omega arith,
      h2,
      omega arith,
      omega arith,
      omega arith,
    )

    dynamic_at-IsReach :
        (e : Extent) (o : Option ℕ)
        → IsReach cx h e
        → find_section h.section_header (original_before cx h e) ≡ o
        → IsReach cx h (dynamic_at cx h e o).0
    dynamic_at-IsReach e none reach found = limits-IsReach cx.extra_before
    dynamic_at-IsReach e (some i) reach found =
        let old = original_before cx h e in
        let new = new_before cx h e in
        let left = find_section-bound h.section_header old i found in
        elim (Bool-cases (lines_eq (drop i old) (drop i new))) [
          | inl agrees ↦
              rw agrees (shift-IsReach e i reach left (lines_eq-drop i old new left agrees))
          | inr differ ↦ rw differ (limits-IsReach cx.extra_before)
        ]

    place_context-IsReach : IsReach cx h (place_context cx h).0
    unfolding place_context
    place_context-IsReach =
        elim (Bool-cases (cx.allow_dynamic_context && not (null cx.new_lines))) [
          | inl dynamic ↦ rw dynamic (
              dynamic_at-IsReach (calc_context_limits cx h cx.extra_before_dynamic) _
                (limits-IsReach cx.extra_before_dynamic) refl)
          | inr static ↦ rw static (limits-IsReach cx.extra_before)
        ]

    agree_context-IsReach :
        (e : Extent) (section : Text)
        → IsReach cx h e
        → IsReach cx h (agree_context cx h e section).extent
    agree_context-IsReach e section reach =
        elim (Bool-cases (
          null cx.new_lines
          || lines_eq (as_context (original_before cx h e)) (as_context (new_before cx h e)))) [
            | inl same ↦ rw same reach
            | inr differ ↦ rw differ (
                agree_at-IsReach e section (as_context (original_before cx h e)) _ refl own-IsReach
                  reach)
          ]

    layout_hunk-IsReach :
        (is_valid_hunk : Bool) → IsReach cx h (layout_hunk cx h is_valid_hunk).extent
    unfolding layout_hunk
    layout_hunk-IsReach is_valid_hunk =
        let placed = place_context cx h in
        elim (Bool-cases (is_valid_hunk && (ltb 0 cx.extra_before || ltb 0 cx.extra_after))) [
          | inl extends ↦ rw extends (
              subst (IsReach cx h)
                (sym (drop_section-extent (agree_context cx h placed.0 placed.1)))
                (agree_context-IsReach placed.0 placed.1 place_context-IsReach))
          | inr stays ↦ rw stays own-IsReach
        ]

    -- If a hunk begins at a line from 1 on in both files, and ends in the original one, then the header line
    -- that is written for it with its context is matched by the header expression, and read back from it are
    -- the section heading and the numbers that were laid out. These describe a hunk that begins at a line from
    -- 1 on and not behind the given one in both files, reaches at least as far, by no more than the extra lines
    -- further, and not over the end of the original file.
    pub match_header-layout_hunk :
        (is_valid_hunk : Bool)
        → (w : HunkHeader) × IsWritten cx h (layout_hunk cx h is_valid_hunk) w
    match_header-layout_hunk is_valid_hunk =
        let layout = layout_hunk cx h is_valid_hunk in
        let (a, b, c, d, same, a1, a2, ab, am, al, c1, c2, cd, dm) =
          layout_hunk-IsReach is_valid_hunk in
        let w : HunkHeader = record {
          section_header = layout.section;
          size1 = b;
          size2 = d;
          start1 = a;
          start2 = c;
        } in
        (
          w,
          (
            match_header-extended_header layout w same refl,
            same,
            refl,
            a1,
            a2,
            omega arith,
            omega arith,
            omega arith,
            c1,
            c2,
            omega arith,
            omega arith,
          ),
        )

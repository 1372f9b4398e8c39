-- ===== src/Patch/Numbered/Written.antt =====
-- The text that `decouple_and_convert_to_hunks_with_lines_numbers` adds for one hunk is that of its block.
use achord_review.Prelude.{
  ℕ, suc, ◌≡◌, refl, ◌||◌, Option, none, some, List, [], ◌∷◌, ◌++◌, arith, any, keep, flatten,
  append-nil, append_assoc, Bool-cases, inl, inr, ap, sym, ◌∙◌,
}
use achord_review.Prelude.Int.{ℤ, pos, ◌+ℤ◌, int_laws}
use achord_review.Text.{Text}
use achord_review.Patch.Numbered.{
  is_added, is_removed, numbered_lines, plain_lines, write_hunk, header_text,
}
use achord_review.Patch.Numbered.Blocks.{
  is_marked, in_new_file, in_old_file, is_changed, numbered_from, with_ends, opening_of,
  render_lines,
}

next_number : (start : ℤ) (i : ℕ) → start +ℤ pos i +ℤ pos 1 ≡ start +ℤ pos (suc i)
next_number start i = grind int_laws

first_number : (start : ℤ) → start +ℤ pos 0 ≡ start
first_number start = grind int_laws

numbered_lines-from :
    (start : ℤ) (i : ℕ) (lines : List Text)
    → numbered_lines (start +ℤ pos i) lines ≡ numbered_from start i lines
unfolding numbered_lines numbered_from
numbered_lines-from start i [] = refl
numbered_lines-from start i (line ∷ lines) =
    rw (next_number start i, numbered_lines-from start (suc i) lines) (simp append_assoc)

numbered_lines-numbered_from :
    (start : ℤ) (lines : List Text) → numbered_lines start lines ≡ numbered_from start 0 lines
numbered_lines-numbered_from start lines =
    ap (λ n. numbered_lines n lines) (sym (first_number start)) ∙ numbered_lines-from start 0 lines

plain_lines-with_ends : (lines : List Text) → plain_lines lines ≡ with_ends lines
unfolding plain_lines flatten
plain_lines-with_ends [] = refl
plain_lines-with_ends (line ∷ lines) = rw (plain_lines-with_ends lines) (simp append_assoc)

any_added : (body : List Text) → any is_added (keep in_new_file body) ≡ any (is_marked b'+') body
any_added [] = refl
any_added ([] ∷ body) = any_added body
any_added ((c ∷ l) ∷ body) = ground (arith, any_added body)

any_removed :
    (body : List Text) → any is_removed (keep in_old_file body) ≡ any (is_marked b'-') body
any_removed [] = refl
any_removed ([] ∷ body) = any_removed body
any_removed ((c ∷ l) ∷ body) = ground (arith, any_removed body)

any_changed :
    (body : List Text)
    → any is_changed body ≡ (any (is_marked b'+') body || any (is_marked b'-') body)
any_changed [] = refl
any_changed (line ∷ body) = ground (arith, any_changed body)

header_text-opening_of :
    (text : Text) (header : Option Text) → header_text text header ≡ text ++ opening_of header
header_text-opening_of text none = sym (append-nil text)
header_text-opening_of text (some header) = refl

-- The lines of the new and of the old file, taken from the body of a block, are written as the block is.
pub write_hunk-render_lines :
    (text : Text) (header : Option Text) (start : ℤ) (body : List Text)
    → write_hunk (header_text text header) start (keep in_new_file body) (keep in_old_file body)
      ≡ render_lines (text ++ opening_of header) start body
unfolding write_hunk render_lines
write_hunk-render_lines text header start body =
    rw
      (
        header_text-opening_of text header,
        any_added body,
        any_removed body,
        any_changed body,
        numbered_lines-numbered_from start (keep in_new_file body),
        plain_lines-with_ends (keep in_old_file body),
      )
      (elim (Bool-cases (any (is_marked b'-') body)) [
        | inl removed ↦ rw removed (ground arith)
        | inr kept ↦ rw kept (ground arith)
      ])

-- ===== src/Patch/Numbered/Blocks.antt =====
-- A patch as a list of blocks, and how one block is written: the specification of the loop of
-- `decouple_and_convert_to_hunks_with_lines_numbers`.
use achord_review.Prelude.{
  ℕ, Bool, true, false, ◌||◌, ◌&&◌, not, Option, none, some, List, [], ◌∷◌, ◌++◌, ◌==◌, suc, map,
  flatten, null, any, keep, if◌then◌else◌,
}
use achord_review.Prelude.Int.{ℤ, pos, negsuc, ◌+ℤ◌}
use achord_review.Text.{Text, codes, rstrip, starts_with, contains, lower}
use achord_review.Patch.Header.{match_header, extract_hunk_headers}
use achord_review.Text.Numbers.{show_ℤ}

-- What a line of the patch is: a hunk header with the start in the new file, or a line of a hunk.
pub data Item : Type 0 where
  opens : Text → ℕ → Item
  holds : Text → Item

-- The next line, if there is one, opens a hunk.
abbrev pub is_border : List Text → Bool
is_border [] = true
is_border (next ∷ _) = starts_with (codes "@@") next

-- The lines that count: no note on a missing line end, and no empty line, but the first, at a border. After
-- a header that cannot be read everything up to the next one is skipped.
unfoldable pub items : Bool → Bool → List Text → List Item
items is_first skip [] = []
items is_first skip (line ∷ rest) =
    if contains (codes "no newline at end of file") (lower line)
    then items false skip rest
    else if starts_with (codes "@@") line
    then (elim (match_header line) [
      | none ↦ items false true rest
      | some m ↦ opens line ((extract_hunk_headers m).start2) ∷ items false false rest
    ])
    else if skip || (null line && not is_first && is_border rest)
    then items false skip rest
    else holds line ∷ items false skip rest

pub record Block : Type 0 where
  pub header : Option Text
  pub start : ℤ
  pub body : List Text

-- The blocks of a patch: its items, cut at the headers.
unfoldable pub blocks : Block → List Item → List Block
blocks b [] = b ∷ []
blocks b (opens line start ∷ rest) =
    b ∷ blocks (record { header = some line; start = pos start; body = [] }) rest
blocks b (holds line ∷ rest) = blocks (record b { body = b.body ++ line ∷ [] }) rest

-- The line begins with the mark.
abbrev pub is_marked : ℕ → Text → Bool
is_marked mark [] = false
is_marked mark (c ∷ _) = c == mark

abbrev pub in_new_file : Text → Bool
in_new_file line = not (is_marked b'-' line)

abbrev pub in_old_file : Text → Bool
in_old_file line = not (is_marked b'+' line)

abbrev pub is_changed : Text → Bool
is_changed line = is_marked b'+' line || is_marked b'-' line

-- The lines from the one with index `i` on; the line with index `i` has the number `start + i`.
unfoldable pub numbered_from : ℤ → ℕ → List Text → Text
numbered_from start i [] = []
numbered_from start i (line ∷ lines) =
    (show_ℤ (start +ℤ pos i) ++ (codes " " ++ (line ++ codes "\n")))
    ++ numbered_from start (suc i) lines

abbrev pub with_ends : List Text → Text
with_ends lines = flatten (map (λ line. line ++ codes "\n") lines)

abbrev pub opening_of : Option Text → Text
opening_of none = []
opening_of (some header) = codes "\n" ++ (header ++ codes "\n")

-- How a block with a line is written. A block in which nothing changes is its header; the others also show
-- the lines of the new file, numbered, and, if some line is removed, those of the old file.
unfoldable pub render_lines : Text → ℤ → List Text → Text
unfolding numbered_from
render_lines opening start body =
    let with_new =
      rstrip opening
      ++ (codes "\n__new hunk__\n" ++ numbered_from start 0 (keep in_new_file body)) in
    if any (is_marked b'-') body
    then rstrip with_new ++ (codes "\n__old hunk__\n" ++ with_ends (keep in_old_file body))
    else if any is_changed body
    then with_new
    else opening

-- A block without a line is left out.
unfoldable pub render_block : Text → Block → Text
unfolding render_lines
render_block text b =
    if null b.body then text else render_lines (text ++ opening_of b.header) b.start b.body

unfoldable pub render_blocks : Text → List Block → Text
render_blocks text [] = text
render_blocks text (b ∷ bs) = render_blocks (render_block text b) bs

abbrev pub is_opening : Item → Bool
is_opening (opens _ _) = true
is_opening (holds _) = false

abbrev pub first_block : Block
first_block = record { header = none; start = negsuc 0; body = [] }

-- A patch with no readable header shows nothing.
unfoldable pub render_patch : Text → List Item → Text
render_patch heading is =
    rstrip (if any is_opening is then render_blocks heading (blocks first_block is) else heading)

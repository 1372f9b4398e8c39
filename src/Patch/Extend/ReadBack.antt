-- ===== src/Patch/Extend/ReadBack.antt =====
-- The header of an extended hunk is a hunk header again.
use mathlib.Core.Option
use achord_review.Prelude.{◌≡◌, some}
use achord_review.Text.Numbers.{show_ℤ}
use achord_review.Patch.Header.{HunkHeader, match_header, extract_hunk_headers}
use achord_review.Patch.Header.RoundTrip.{size_group-show, digits-show_comma, int_of-show}
use achord_review.Patch.Extend.{extended_header}
use achord_review.Patch.Extend.Layout.{HunkLayout, extent_of}

-- If the four numbers that are written for a hunk are those of `h`, so that none of them is negative, then
-- the written line is matched by the header expression, and the numbers and the section heading of the hunk
-- are read back from it.
pub match_header-extended_header :
    (l : HunkLayout) (h : HunkHeader)
    → l.extent ≡ extent_of h
    → l.section ≡ h.section_header
    → Option.map extract_hunk_headers (match_header (extended_header l)) ≡ some h
unfolding match_header extended_header extract_hunk_headers show_ℤ
match_header-extended_header l h numbers section =
    rw (numbers, section) (simp (digits-show_comma, size_group-show, int_of-show))

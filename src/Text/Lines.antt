-- ===== src/Text/Lines.antt =====
-- `str.splitlines`.
use achord_review.Prelude.{
  ℕ, Bool, false, ◌||◌, ◌&&◌, List, [], ◌∷◌, ◌++◌, leb, ◌==◌, if◌then◌else◌, null,
}

-- the code points at which a line ends
unfoldable pub is_break : ℕ → Bool
is_break c =
    (leb 10 c && leb c 13)
    || (leb 28 c && leb c 30)
    || (c == 0x85)
    || (c == 0x2028)
    || (c == 0x2029)

-- `cur` holds the open line; `was_cr` says that the last code point ended a line by `\r`, so that a
-- `\n` here belongs to that line end.
unfoldable pub split_from : Bool → List ℕ → List ℕ → List (List ℕ)
unfolding is_break
split_from was_cr cur [] = if null cur then [] else cur ∷ []
split_from was_cr cur (c ∷ s) =
    let swallowed = split_from false cur s in
    let ended = cur ∷ split_from (c == 13) [] s in
    let longer = split_from false (cur ++ c ∷ []) s in
    if was_cr && (c == 10) then swallowed else if is_break c then ended else longer

unfoldable pub split_lines : List ℕ → List (List ℕ)
unfolding split_from
split_lines s = split_from false [] s

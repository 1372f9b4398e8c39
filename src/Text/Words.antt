-- ===== src/Text/Words.antt =====
-- `str.split()` and `repr`.
use achord_review.Prelude.{
  ℕ, ◌+◌, ◌/◌, ◌%◌, ◌&&◌, ◌||◌, not, List, [], ◌∷◌, ◌++◌, ltb, ◌==◌, any, if◌then◌else◌,
}
use achord_review.Text.{is_space, codes}

-- The word `cur`, if it is not empty, before the others.
abbrev pub push_word : List ℕ → List (List ℕ) → List (List ℕ)
push_word [] ws = ws
push_word (c ∷ cur) ws = (c ∷ cur) ∷ ws

-- `s.split()`; `cur` holds the open word.
unfoldable pub words_from : List ℕ → List ℕ → List (List ℕ)
unfolding is_space
words_from cur [] = push_word cur []
words_from cur (c ∷ s) =
    let ended = push_word cur (words_from [] s) in
    let longer = words_from (cur ++ c ∷ []) s in if is_space c then ended else longer

abbrev pub words : List ℕ → List (List ℕ)
words s = words_from [] s

abbrev pub hex : ℕ → ℕ
hex n = if ltb n 10 then 48 + n else 87 + n

-- One code point of `repr(s)` between the quotes `quote`: an ASCII control is escaped; beyond ASCII
-- every code point is taken as printable.
abbrev pub repr_code : ℕ → ℕ → List ℕ
repr_code quote c =
    if c == quote || c == 92
    then 92 ∷ c ∷ []
    else if c == 10
    then codes "\\n"
    else if c == 13
    then codes "\\r"
    else if c == 9
    then codes "\\t"
    else if ltb c 32 || c == 127
    then codes "\\x" ++ hex (c / 16) ∷ hex (c % 16) ∷ []
    else c ∷ []

abbrev pub repr_codes : ℕ → List ℕ → List ℕ
repr_codes quote [] = []
repr_codes quote (c ∷ s) = repr_code quote c ++ repr_codes quote s

-- `repr(s)`: double quotes stand around a text that has a single quote and no double one.
abbrev pub repr : List ℕ → List ℕ
repr s =
    let quote = if any (◌==◌ 39) s && not (any (◌==◌ 34) s) then 34 else 39 in
    quote ∷ repr_codes quote s ++ quote ∷ []

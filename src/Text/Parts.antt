-- ===== src/Text/Parts.antt =====
-- `str.split(sep)` for one line end, and `str.replace`.
use achord_review.Prelude.{ℕ, zero, suc, ◌-◌, List, [], ◌∷◌, ◌++◌, length, ◌==◌, if◌then◌else◌}
use achord_review.Text.Match.{starts_with}

-- `s.split("\n")`; `cur` holds the open part.
unfoldable pub split_newline_from : List ℕ → List ℕ → List (List ℕ)
split_newline_from cur [] = cur ∷ []
split_newline_from cur (c ∷ s) =
    let ended = cur ∷ split_newline_from [] s in
    let longer = split_newline_from (cur ++ c ∷ []) s in if c == 10 then ended else longer

abbrev pub split_newline : List ℕ → List (List ℕ)
split_newline s = split_newline_from [] s

-- `s.replace(old, new)` for an `old` that is not empty; the first argument counts the code points
-- that the last replacement has used up.
unfoldable pub replace_from : ℕ → List ℕ → List ℕ → List ℕ → List ℕ
replace_from skip old new [] = []
replace_from (suc skip) old new (c ∷ s) = replace_from skip old new s
replace_from zero old new (c ∷ s) =
    let found = new ++ replace_from (length old - 1) old new s in
    let kept = c ∷ replace_from zero old new s in if starts_with old (c ∷ s) then found else kept

abbrev pub replace : List ℕ → List ℕ → List ℕ → List ℕ
replace old new s = replace_from 0 old new s

-- `s.split(sep)` for a separator of one code point
unfoldable pub split_code_from : ℕ → List ℕ → List ℕ → List (List ℕ)
split_code_from sep cur [] = cur ∷ []
split_code_from sep cur (c ∷ s) =
    let ended = cur ∷ split_code_from sep [] s in
    let longer = split_code_from sep (cur ++ c ∷ []) s in if c == sep then ended else longer

abbrev pub split_code : ℕ → List ℕ → List (List ℕ)
split_code sep s = split_code_from sep [] s

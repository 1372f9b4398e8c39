-- ===== src/Text/Markup.antt =====
-- Markup around quoted text: `html.escape`, code fences, and the lines of a text.
pub mod Fence
pub mod Joined
use achord_review.Prelude.{ℕ, zero, suc, List, [], ◌∷◌, ◌++◌, length, ◌==◌, if◌then◌else◌}
use achord_review.Text.{Text, codes, contains}

-- `escape(s, quote=True)`, code point by code point
abbrev pub escape_code : ℕ → Text
escape_code c =
    if c == b'&'
    then codes "&amp;"
    else if c == b'<'
    then codes "&lt;"
    else if c == b'>'
    then codes "&gt;"
    else if c == b'"'
    then codes "&quot;"
    else if c == 39
    then codes "&#x27;"
    else c ∷ []

unfoldable pub escape : Text → Text
escape [] = []
escape (c ∷ s) = escape_code c ++ escape s

-- `while fence in content: fence += "`"`, on fuel.
unfoldable pub lengthen : ℕ → Text → Text → Text
unfolding contains
lengthen zero fence content = fence
lengthen (suc fuel) fence content =
    let longer = lengthen fuel (fence ++ 96 ∷ []) content in
    if contains fence content then longer else fence

-- The fuel is enough, since a fence that is longer than the content does not occur in it.
unfoldable pub fence_from : Text → Text → Text
unfolding lengthen
fence_from fence content = lengthen (suc (length content)) fence content

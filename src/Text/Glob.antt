-- ===== src/Text/Glob.antt =====
-- `fnmatch.fnmatch` on a system whose paths keep their case.
use achord_review.Prelude.{
  ℕ, zero, suc, ◌+◌, Bool, true, false, ◌&&◌, ◌||◌, not, Option, none, some, List, [], ◌∷◌, length,
  leb, ◌==◌, if◌then◌else◌,
}
use achord_review.Text.{Text}

-- The parts of a pattern: `*`, `?`, `[…]` or `[!…]`, and a code point.
pub data Part : Type 0 where
  star : Part
  one : Part
  class : Bool → Text → Part
  letter : ℕ → Part

-- What stands before the first `]`.
abbrev before_bracket : Text → Option Text
before_bracket [] = none
before_bracket (c ∷ s) =
    if c == 93 then some [] else elim (before_bracket s) [ none ↦ none | some t ↦ some (c ∷ t) ]

-- The content of a class: a `]` that comes first belongs to it.
abbrev class_content : Text → Option Text
class_content [] = none
class_content (c ∷ s) = elim (before_bracket s) [
  | none ↦ none
  | some t ↦ if c == 93 then some (c ∷ t) else before_bracket (c ∷ s)
]

-- The class that follows a `[`, with the number of code points that it takes.
abbrev class_of : Text → Option (Part × ℕ)
class_of [] = none
class_of (c ∷ s) =
    if c == b'!'
    then elim (class_content s) [ none ↦ none | some t ↦ some (class false t, length t + 2) ]
    else elim (class_content (c ∷ s)) [ none ↦ none | some t ↦ some (class true t, length t + 1) ]

-- The first argument counts the code points that the last class has used up.
abbrev parts_from : ℕ → Text → List Part
parts_from skip [] = []
parts_from (suc skip) (c ∷ s) = parts_from skip s
parts_from zero (c ∷ s) =
    let rest = parts_from zero s in
    if c == b'*'
    then star ∷ rest
    else if c == b'?'
    then one ∷ rest
    else if c == b'['
    then elim (class_of s) [
      | none ↦ letter c ∷ rest
      | some found ↦ found.0 ∷ parts_from (found.1) s
    ]
    else letter c ∷ rest

-- Whether a class has the code point.
abbrev class_has : ℕ → Text → Bool
class_has c [] = false
class_has c (a ∷ []) = c == a
class_has c (a ∷ b ∷ []) = (c == a) || (c == b)
class_has c (a ∷ b ∷ z ∷ s) =
    let range = (leb a c && leb c z) || class_has c s in
    let single = (c == a) || class_has c (b ∷ z ∷ s) in if b == b'-' then range else single

-- Some rest of the text passes the test.
abbrev some_rest : (Text → Bool) → Text → Bool
some_rest p [] = p []
some_rest p (c ∷ s) = p (c ∷ s) || some_rest p s

unfoldable pub matches : List Part → Text → Bool
matches [] [] = true
matches [] (c ∷ s) = false
matches (star ∷ ps) s = some_rest (matches ps) s
matches (one ∷ ps) [] = false
matches (one ∷ ps) (c ∷ s) = matches ps s
matches (class positive members ∷ ps) [] = false
matches (class positive members ∷ ps) (c ∷ s) =
    (if positive then class_has c members else not (class_has c members)) && matches ps s
matches (letter a ∷ ps) [] = false
matches (letter a ∷ ps) (c ∷ s) = (a == c) && matches ps s

-- `fnmatch.fnmatch(s, pattern)`
unfoldable pub fnmatch : Text → Text → Bool
unfolding matches
fnmatch s pattern = matches (parts_from 0 pattern) s

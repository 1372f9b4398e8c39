-- ===== src/Inline/Markers/Scan.antt =====
-- A scan for markers finds a marker where it stands, and line ends keep markers apart.
use achord_review.Prelude.{
  ℕ, zero, suc, ◌+◌, ◌-◌, ◌≤◌, ◌≡◌, refl, Bool, true, ◌&&◌, not, none, some, List, [], ◌∷◌, ◌++◌,
  map, length, take, drop, ◌==◌, all, Bool-cases, Option-cases, inl, inr, arith, ap, ◌∙◌, sym,
  subst, append_assoc, ==_refl, length-append,
}
use achord_review.Text.{Text}
use achord_review.Inline.Markers.{
  MarkerKind, body, code, key_issue_location, key_issue_anchor, opening, closing, is_hex,
  pattern_of, matches, match_marker, marker_length, marker, count_match, find_markers,
}

-- No test of the list accepts a line end.
abbrev rejects : List (ℕ → Bool) → Bool
rejects = all (λ p. not (p 10))

matches_before_newline :
    (ps : List (ℕ → Bool)) (s t : Text)
    → rejects ps ≡ true
    → matches ps (s ++ 10 ∷ t) ≡ matches ps s
unfolding matches
matches_before_newline [] s t r = refl
matches_before_newline (p ∷ ps) [] t r = ground arith
matches_before_newline (p ∷ ps) (c ∷ s) t r = elim (Bool-cases (p 10)) [
  | inl bad ↦ ground arith
  | inr ok ↦ ap (p c &&◌) (matches_before_newline ps s t (ground arith))
]

length_of_matches : (ps : List (ℕ → Bool)) (s : Text) → matches ps s ≡ true → length ps ≤ length s
unfolding matches
length_of_matches [] s m = omega arith
length_of_matches (p ∷ ps) [] m = ground arith
length_of_matches (p ∷ ps) (c ∷ s) m = ground (arith, length_of_matches ps s)

pattern-rejects : (kind : MarkerKind) → rejects (pattern_of kind) ≡ true
pattern-rejects body = refl
pattern-rejects code = refl
pattern-rejects key_issue_location = refl
pattern-rejects key_issue_anchor = refl

length-pattern : (kind : MarkerKind) → length (pattern_of kind) ≡ marker_length kind
length-pattern body = refl
length-pattern code = refl
length-pattern key_issue_location = refl
length-pattern key_issue_anchor = refl

take-drop-append :
    (k n : ℕ) (s t : Text) → k + n ≤ length s → take n (drop k (s ++ t)) ≡ take n (drop k s)
take-drop-append zero zero s t h = refl
take-drop-append zero (suc n) [] t h = absurd (omega arith)
take-drop-append zero (suc n) (c ∷ s) t h = ap (◌∷◌ c) (take-drop-append zero n s t (omega arith))
take-drop-append (suc k) n [] t h = absurd (omega arith)
take-drop-append (suc k) n (c ∷ s) t h = take-drop-append k n s t (omega arith)

match_before_newline :
    (kind : MarkerKind) (s t : Text) → match_marker kind (s ++ 10 ∷ t) ≡ match_marker kind s
unfolding match_marker
match_before_newline kind s t =
    let same = matches_before_newline (pattern_of kind) s t (pattern-rejects kind) in
    elim (Bool-cases (matches (pattern_of kind) s)) [
      | inl m ↦
          let room = length_of_matches (pattern_of kind) s m in
          rw (same, m)
            (ap some (
              take-drop-append (length (opening kind)) 12 s (10 ∷ t)
                (omega (arith, length-pattern kind))))
      | inr m ↦ rw (same, m) refl
    ]

match_room :
    (kind : MarkerKind) (s fp : Text)
    → match_marker kind s ≡ some fp
    → marker_length kind ≤ length s
unfolding match_marker
match_room kind s fp h = elim (Bool-cases (matches (pattern_of kind) s)) [
  | inl m ↦ omega (arith, length-pattern kind, length_of_matches (pattern_of kind) s m)
  | inr m ↦ ground arith
]

match_nil : (kind : MarkerKind) → match_marker kind [] ≡ none
unfolding match_marker matches
match_nil body = refl
match_nil code = refl
match_nil key_issue_location = refl
match_nil key_issue_anchor = refl

-- A scan finds the markers before a line end and those behind it.
pub find-append :
    (kind : MarkerKind) (skip : ℕ) (s t : Text)
    → skip ≤ length s
    → find_markers kind skip (s ++ 10 ∷ t) ≡ find_markers kind skip s ++ find_markers kind 0 t
unfolding find_markers
find-append kind zero [] t h =
    let missed : match_marker kind (10 ∷ t) ≡ none =
      match_before_newline kind [] t ∙ match_nil kind in
    ap (λ o. count_match o (find_markers kind 0 t) (find_markers kind (marker_length kind - 1) t))
      missed
find-append kind (suc skip) [] t h = absurd (omega arith)
find-append kind (suc skip) (c ∷ s) t h = find-append kind skip s t (omega arith)
find-append kind zero (c ∷ s) t h =
    let same = match_before_newline kind (c ∷ s) t in
    elim (Option-cases (match_marker kind (c ∷ s))) [
      | inl e ↦ rw (same ∙ e, e) (find-append kind zero s t (omega arith))
      | inr (fp, e) ↦
          let room = match_room kind (c ∷ s) fp e in
          rw (same ∙ e, e)
            (ap (◌∷◌ fp) (find-append kind (marker_length kind - 1) s t (omega arith)))
    ]

-- Twelve code points from `[a-f0-9]`.
abbrev pub IsFingerprint : Text → Type 0
IsFingerprint fp = (length fp ≡ 12) × (all is_hex fp ≡ true)

matches-literal :
    (o : Text) (ps : List (ℕ → Bool)) (s : Text)
    → matches (map ◌==◌ o ++ ps) (o ++ s) ≡ matches ps s
unfolding matches
matches-literal [] ps s = refl
matches-literal (c ∷ o) ps s = rw (==_refl c) (matches-literal o ps s)

abbrev copies : ℕ → List (ℕ → Bool) → List (ℕ → Bool)
copies zero ps = ps
copies (suc n) ps = is_hex ∷ copies n ps

matches-copies :
    (n : ℕ) (fp : Text) (ps : List (ℕ → Bool)) (s : Text)
    → length fp ≡ n
    → all is_hex fp ≡ true
    → matches (copies n ps) (fp ++ s) ≡ matches ps s
unfolding matches
matches-copies zero [] ps s l h = refl
matches-copies zero (c ∷ fp) ps s l h = absurd (omega arith)
matches-copies (suc n) [] ps s l h = absurd (omega arith)
matches-copies (suc n) (c ∷ fp) ps s l h = elim (Bool-cases (is_hex c)) [
  | inl good ↦ rw good (matches-copies n fp ps s (omega arith) (rw good at h))
  | inr bad ↦ absurd (ground arith)
]

drop-length : (o s : Text) → drop (length o) (o ++ s) ≡ s
drop-length [] s = refl
drop-length (c ∷ o) s = drop-length o s

take-length : (n : ℕ) (fp s : Text) → length fp ≡ n → take n (fp ++ s) ≡ fp
take-length zero [] s l = refl
take-length zero (c ∷ fp) s l = absurd (omega arith)
take-length (suc n) [] s l = absurd (omega arith)
take-length (suc n) (c ∷ fp) s l = ap (◌∷◌ c) (take-length n fp s (omega arith))

match-marker :
    (kind : MarkerKind) (fp rest : Text)
    → IsFingerprint fp
    → match_marker kind (marker kind fp ++ rest) ≡ some fp
unfolding match_marker
match-marker kind fp rest (l, h) =
    let behind = closing ++ rest in
    let split : marker kind fp ++ rest ≡ opening kind ++ (fp ++ behind) =
      append_assoc (opening kind) (fp ++ closing) rest
      ∙ ap (◌++◌ (opening kind)) (append_assoc fp closing rest) in
    let found : matches (pattern_of kind) (opening kind ++ (fp ++ behind)) ≡ true =
      matches-literal (opening kind) (copies 12 (map ◌==◌ closing)) (fp ++ behind)
      ∙ matches-copies 12 fp (map ◌==◌ closing) behind l h
      ∙ matches-literal closing [] rest in
    let fingerprint =
      ap (take 12) (drop-length (opening kind) (fp ++ behind)) ∙ take-length 12 fp behind l in
    subst (λ s. match_marker kind s ≡ some fp) (sym split) (rw found (ap some fingerprint))

find-skip :
    (kind : MarkerKind) (s rest : Text)
    → find_markers kind (length s) (s ++ rest) ≡ find_markers kind 0 rest
unfolding find_markers
find-skip kind [] rest = refl
find-skip kind (c ∷ s) rest = find-skip kind s rest

length-marker :
    (kind : MarkerKind) (fp : Text) → length fp ≡ 12 → length (marker kind fp) ≡ marker_length kind
length-marker kind fp l =
    omega (arith, length-append (opening kind) (fp ++ closing), length-append fp closing)

find_cons :
    (kind : MarkerKind) (c : ℕ) (s fp : Text)
    → match_marker kind (c ∷ s) ≡ some fp
    → find_markers kind 0 (c ∷ s) ≡ fp ∷ find_markers kind (marker_length kind - 1) s
unfolding find_markers
find_cons kind c s fp e =
    ap (λ o. count_match o (find_markers kind 0 s) (find_markers kind (marker_length kind - 1) s)) e

-- A scan finds the marker that stands first.
pub find-marker :
    (kind : MarkerKind) (fp rest : Text)
    → IsFingerprint fp
    → find_markers kind 0 (marker kind fp ++ rest) ≡ fp ∷ find_markers kind 0 rest
find-marker kind fp rest (l, h) =
    from (marker kind fp) (match-marker kind fp rest (l, h)) (length-marker kind fp l)
  where
    from :
        (m : Text)
        → match_marker kind (m ++ rest) ≡ some fp
        → length m ≡ marker_length kind
        → find_markers kind 0 (m ++ rest) ≡ fp ∷ find_markers kind 0 rest
    from [] e n = absurd (omega arith)
    from (c ∷ m) e n =
        find_cons kind c (m ++ rest) fp e
        ∙ ap (λ k. fp ∷ find_markers kind k (m ++ rest)) (omega arith)
        ∙ ap (◌∷◌ fp) (find-skip kind m rest)

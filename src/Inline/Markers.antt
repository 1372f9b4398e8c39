-- ===== src/Inline/Markers.antt =====
-- Fingerprints of inline comments and the markers that carry them.
pub mod Scan
pub mod RoundTrip
use achord_review.Prelude.{
  ℕ, zero, suc, ◌+◌, ◌-◌, Bool, true, false, ◌&&◌, ◌||◌, not, Option, none, some, List, [], ◌∷◌,
  ◌++◌, map, length, take, drop, ltb, leb, ◌==◌, all, null, if◌then◌else◌,
}
use achord_review.Text.{Text, codes}
use achord_review.Text.Numbers.{show_ℕ}

-- The parts of a marker before the fingerprint.
pub data MarkerKind : Type 0 where
  body code key_issue_location key_issue_anchor : MarkerKind

abbrev pub opening : MarkerKind → Text
opening body = codes "<!-- pr-agent-dedup: "
opening code = codes "<!-- pr-agent-dedup-code: "
opening key_issue_location = codes "<!-- pr-agent-key-issue-location: "
opening key_issue_anchor = codes "<!-- pr-agent-key-issue-anchor: "

abbrev pub closing : Text
closing = codes " -->"

-- `[a-f0-9]`
abbrev pub is_hex : ℕ → Bool
is_hex c = (leb 48 c && leb c 57) || (leb 97 c && leb c 102)

abbrev pub fingerprint_length : ℕ
fingerprint_length = 12

abbrev pub twelve {ℓ} : {A : Type ℓ} → A → List A
twelve x = x ∷ x ∷ x ∷ x ∷ x ∷ x ∷ x ∷ x ∷ x ∷ x ∷ x ∷ x ∷ []

-- The regular expression of a kind: a test for each code point.
abbrev pub pattern_of : MarkerKind → List (ℕ → Bool)
pattern_of kind = map ◌==◌ (opening kind) ++ (twelve is_hex ++ map ◌==◌ closing)

-- The tests hold at the start of the text.
unfoldable pub matches : List (ℕ → Bool) → Text → Bool
matches [] s = true
matches (p ∷ ps) [] = false
matches (p ∷ ps) (c ∷ s) = p c && matches ps s

-- The fingerprint of a marker of this kind that stands at the start of `s`.
unfoldable pub match_marker : MarkerKind → Text → Option Text
unfolding matches
match_marker kind s =
    if matches (pattern_of kind) s
    then some (take fingerprint_length (drop (length (opening kind)) s))
    else none

abbrev pub marker_length : MarkerKind → ℕ
marker_length kind = length (opening kind) + fingerprint_length + length closing

abbrev pub marker : MarkerKind → Text → Text
marker kind fingerprint = opening kind ++ (fingerprint ++ closing)

abbrev pub count_match : Option Text → List Text → List Text → List Text
count_match none later behind = later
count_match (some fingerprint) later behind = fingerprint ∷ behind

-- `finditer`: the fingerprints of the markers of one kind, from left to right; `skip` counts the code
-- points that the last match has used up.
unfoldable pub find_markers : MarkerKind → ℕ → Text → List Text
unfolding match_marker
find_markers kind skip [] = []
find_markers kind (suc skip) (_ ∷ s) = find_markers kind skip s
find_markers kind zero (c ∷ s) =
    let later = find_markers kind zero s in
    let behind = find_markers kind (marker_length kind - 1) s in
    count_match (match_marker kind (c ∷ s)) later behind

-- `marker_fingerprints(body)`
unfoldable pub marker_fingerprints : Text → List Text
unfolding find_markers
marker_fingerprints s =
    find_markers body 0 s
    ++ (find_markers code 0 s
        ++ (find_markers key_issue_location 0 s ++ find_markers key_issue_anchor 0 s))

-- `has_marker(body)`
abbrev pub has_marker : Text → Bool
unfolding find_markers
has_marker s = not (null (find_markers body 0 s)) || not (null (find_markers code 0 s))

-- `marker_re.sub("", body)`
unfoldable pub remove_markers : MarkerKind → ℕ → Text → Text
unfolding match_marker
remove_markers kind skip [] = []
remove_markers kind (suc skip) (_ ∷ s) = remove_markers kind skip s
remove_markers kind zero (c ∷ s) =
    let kept = c ∷ remove_markers kind zero s in
    let behind = remove_markers kind (marker_length kind - 1) s in
    elim (match_marker kind (c ∷ s)) [ none ↦ kept | some _ ↦ behind ]

unfoldable pub strip_markers : Text → Text
unfolding remove_markers
strip_markers s =
    remove_markers key_issue_anchor 0
      (remove_markers key_issue_location 0 (remove_markers code 0 (remove_markers body 0 s)))

unfoldable pub build_markers : Text → Option Text → Text
build_markers body_fp none = marker body body_fp
build_markers body_fp (some code_fp) = marker body body_fp ++ (10 ∷ marker code code_fp)

-- `max_chars` is `none` where the source has `None` or 0.
unfoldable pub append_markers : Text → Text → Option ℕ → Text
append_markers text markers max_chars =
    let suffix = 10 ∷ 10 ∷ markers in
    elim max_chars [
      | none ↦ text ++ suffix
      | some n ↦
          if ltb n (length text + length suffix)
          then take (n - length suffix) text ++ suffix
          else text ++ suffix
    ]

unfoldable pub body_with_markers : Text → Text → Option Text → Option ℕ → Text
unfolding append_markers build_markers
body_with_markers text body_fp code_fp max_chars =
    append_markers text (build_markers body_fp code_fp) max_chars

unfoldable pub key_issue_body_with_markers : Text → Text → Text → Option ℕ → Option Text → Text
unfolding append_markers build_markers
key_issue_body_with_markers text body_fp location_fp max_chars anchor_fp =
    let first = build_markers body_fp none ++ (10 ∷ marker key_issue_location location_fp) in
    let markers : Text = elim anchor_fp [
      | none ↦ first
      | some [] ↦ first
      | some (c ∷ fp) ↦ first ++ (10 ∷ marker key_issue_anchor (c ∷ fp))
    ] in
    append_markers text markers max_chars

-- The fingerprints of key issues; `digest` is the hexadecimal SHA-256 of a text.
module _ (digest : Text → Text) where
  abbrev pub fingerprint_of : Text → Text
  fingerprint_of key = take fingerprint_length (digest key)

  unfoldable pub key_issue_fingerprint : Text → Text → Text
  key_issue_fingerprint relevant_file text = fingerprint_of (relevant_file ++ (codes "|" ++ text))

  unfoldable pub key_issue_location_fingerprint : Text → ℕ → ℕ → Text
  unfolding show_ℕ
  key_issue_location_fingerprint fingerprint start_line end_line =
      fingerprint_of
        (fingerprint ++ (codes "|" ++ (show_ℕ start_line ++ (codes "|" ++ show_ℕ end_line))))

  unfoldable pub key_issue_anchor_fingerprint : Text → ℕ → ℕ → Text
  unfolding show_ℕ
  key_issue_anchor_fingerprint relevant_file start_line end_line = fingerprint_of (
      codes "anchor|"
      ++ (relevant_file ++ (codes "|" ++ (show_ℕ start_line ++ (codes "|" ++ show_ℕ end_line)))))

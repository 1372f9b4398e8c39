-- ===== src/Review/Finding.antt =====
-- One finding of a review: `_normalize_finding` of pr_agent/algo/review_parser.py.
pub mod Complete
use achord_review.Prelude.{
  ℕ, ◌-◌, Bool, false, ◌&&◌, not, Option, none, some, List, [], ◌∷◌, null, ltb, leb, if◌then◌else◌,
}
use achord_review.Prelude.Int.{ℤ, pos, negsuc}
use achord_review.Text.{Text, codes, strip}
use achord_review.Text.Numbers.{parse_int, show_ℤ}
use achord_review.Types.{mem_text}
use achord_review.Yaml.{
  Value, Fields, absent, flag, whole, text, scalar, items, dict, get, has, set, is_truthy,
}

abbrev pub review_severities : List Text
review_severities = codes "P0" ∷ codes "P1" ∷ codes "P2" ∷ codes "P3" ∷ []

-- `int(str(value).strip())`; the texts of None, of truth values, lists and dictionaries are no numbers.
unfoldable pub number_of : Value → Option ℤ
unfolding parse_int strip
number_of (whole z) = some z
number_of (text s) = parse_int (strip s)
number_of (scalar s _) = parse_int (strip s)
number_of _ = none

abbrev pub positive_part : Option ℤ → ℕ
positive_part none = 0
positive_part (some (pos n)) = n
positive_part (some (negsuc n)) = 0

-- The number of a line, or 0 where there is none.
unfoldable pub line_of : Value → ℕ
unfolding number_of
line_of value = positive_part (number_of value)

-- `_is_positive_line_number`
unfoldable pub is_positive_line_number : Value → Bool
unfolding line_of
is_positive_line_number (flag b) = false
is_positive_line_number value = ltb 0 (line_of value)

-- `isinstance(value, str) and value.strip()`
unfoldable pub is_filled : Value → Bool
unfolding strip
is_filled (text s) = not (null (strip s))
is_filled _ = false

-- `issue["start_line"] if "end_line" not in issue else issue["end_line"]`
unfoldable pub end_line_of : Fields → Value
unfolding get has
end_line_of issue =
    if has (codes "end_line") issue
    then get (codes "end_line") issue
    else get (codes "start_line") issue

-- `str(value or "")`; of a list or a dictionary the first code point, which no severity has.
abbrev pub severity_text : Value → Text
severity_text absent = []
severity_text (flag b) = if b then codes "True" else []
severity_text (whole z) = if is_truthy (whole z) then show_ℤ z else []
severity_text (text s) = s
severity_text (scalar s b) = if b then s else []
severity_text (items vs) = if is_truthy (items vs) then codes "[" else []
severity_text (dict d) = if is_truthy (dict d) then codes "{" else []

-- `s.upper()` on ASCII letters
unfoldable pub upper : Text → Text
upper [] = []
upper (c ∷ s) = (if leb 97 c && leb c 122 then c - 32 else c) ∷ upper s

unfoldable pub severity_of : Fields → Text
unfolding get strip upper
severity_of issue = upper (strip (severity_text (get (codes "severity") issue)))

unfoldable pub put_severity : Text → Fields → Fields
unfolding set
put_severity severity issue =
    if mem_text severity review_severities
    then set (codes "severity") (text severity) issue
    else issue

-- The issue with its normalized severity and lines.
unfoldable pub with_numbers : Text → ℕ → ℕ → Fields → Fields
unfolding set put_severity
with_numbers severity start_line end_line issue =
    set (codes "end_line") (whole (pos end_line))
      (set (codes "start_line") (whole (pos start_line)) (put_severity severity issue))

-- The three texts that an issue needs.
unfoldable pub has_texts : Fields → Bool
unfolding is_filled get
has_texts issue =
    is_filled (get (codes "relevant_file") issue)
    && (is_filled (get (codes "issue_header") issue)
        && is_filled (get (codes "issue_content") issue))

unfoldable pub has_lines : Fields → Bool
unfolding is_positive_line_number end_line_of get
has_lines issue =
    is_positive_line_number (get (codes "start_line") issue)
    && (is_positive_line_number (end_line_of issue)
        && leb (line_of (get (codes "start_line") issue)) (line_of (end_line_of issue)))

abbrev pub is_severity : Bool → Text → Bool
is_severity require_severity severity =
    if null severity then not require_severity else mem_text severity review_severities

unfoldable pub normalize_fields : Fields → Bool → Option Fields
unfolding has_texts has_lines severity_of end_line_of with_numbers line_of get
normalize_fields issue require_severity =
    if not (has_texts issue)
    then none
    else if not (has_lines issue)
    then none
    else if not (is_severity require_severity (severity_of issue))
    then none
    else some (
        with_numbers (severity_of issue) (line_of (get (codes "start_line") issue))
          (line_of (end_line_of issue)) issue)

-- `_normalize_finding`
unfoldable pub normalize_finding : Value → Bool → Option Fields
unfolding normalize_fields
normalize_finding (dict issue) require_severity = normalize_fields issue require_severity
normalize_finding _ require_severity = none

-- ===== src/Dashboard/Payload.antt =====
-- The bounds on what a model can have stored: `_truncate_payload`, `_truncate_text_bytes` and
-- `_bounded_review_issues` of pr_agent/dashboard/storage.py.
pub mod Bounds
use achord_review.Prelude.{
  ℕ, zero, suc, ◌+◌, ◌-◌, min, Bool, ◌||◌, Option, none, some, List, [], ◌∷◌, ◌++◌, length, ltb,
  leb, ◌==◌, if◌then◌else◌,
}
use achord_review.Text.{Text, codes}

-- The bytes of a code point in UTF-8.
abbrev pub utf8_size : ℕ → ℕ
utf8_size c = if ltb c 0x80 then 1 else if ltb c 0x800 then 2 else if ltb c 0x10000 then 3 else 4

-- `len(s.encode("utf-8"))`
unfoldable pub byte_size : Text → ℕ
byte_size [] = 0
byte_size (c ∷ s) = utf8_size c + byte_size s

-- `s.encode("utf-8")[:n].decode("utf-8", errors="ignore")`: a code point that is cut is left out.
unfoldable pub take_bytes : ℕ → Text → Text
take_bytes n [] = []
take_bytes n (c ∷ s) =
    let rest = take_bytes (n - utf8_size c) s in if leb (utf8_size c) n then c ∷ rest else []

abbrev pub payload_marker : Text
payload_marker = codes "\n\n[dashboard payload truncated]"

-- `_truncate_payload`
unfoldable pub truncate_payload : ℕ → Text → Text
unfolding byte_size take_bytes
truncate_payload max_bytes s =
    if leb (byte_size s) max_bytes
    then s
    else take_bytes (max_bytes - length payload_marker) s ++ payload_marker

-- `_truncate_text_bytes`
unfoldable pub truncate_text_bytes : ℕ → Text → Text
unfolding byte_size take_bytes
truncate_text_bytes max_bytes s =
    if max_bytes == 0
    then []
    else if leb (byte_size s) max_bytes
    then s
    else if leb max_bytes 3
    then take_bytes max_bytes s
    else take_bytes (max_bytes - 3) s ++ codes "..."

-- A finding of a review; a field that is missing is the empty text.
pub record Issue : Type 0 where
  pub relevant_lines_start : Option ℕ
  pub relevant_lines_end : Option ℕ
  pub severity : Text
  pub relevant_file : Text
  pub issue_summary : Text
  pub suggestion : Text

abbrev pub max_finding_file_bytes : ℕ
max_finding_file_bytes = 4096

abbrev pub max_finding_summary_bytes : ℕ
max_finding_summary_bytes = 16384

abbrev pub max_finding_suggestion_bytes : ℕ
max_finding_suggestion_bytes = 65536

abbrev pub max_review_findings : ℕ
max_review_findings = 30

unfoldable pub byte_sizes : Issue → ℕ
unfolding byte_size
byte_sizes issue =
    byte_size issue.severity
    + (byte_size issue.relevant_file + (byte_size issue.issue_summary + byte_size issue.suggestion))

-- The issue with its four texts cut, each to its limit and to what the ones before it have left.
unfoldable pub clean_issue : ℕ → Issue → Issue
unfolding truncate_text_bytes byte_size
clean_issue remaining issue =
    let severity = truncate_text_bytes (min 16 remaining) issue.severity in
    let after_severity = remaining - byte_size severity in
    let relevant_file =
      truncate_text_bytes (min max_finding_file_bytes after_severity) issue.relevant_file in
    let after_file = after_severity - byte_size relevant_file in
    let issue_summary =
      truncate_text_bytes (min max_finding_summary_bytes after_file) issue.issue_summary in
    let after_summary = after_file - byte_size issue_summary in
    record {
      relevant_lines_start = issue.relevant_lines_start;
      relevant_lines_end = issue.relevant_lines_end;
      severity = severity;
      relevant_file = relevant_file;
      issue_summary = issue_summary;
      suggestion =
          truncate_text_bytes (min max_finding_suggestion_bytes after_summary) issue.suggestion;
    }

-- The loop of `_bounded_review_issues`; `places` counts the findings that may still come, and `none` is an
-- entry that is no dictionary.
unfoldable pub bounded_from : ℕ → ℕ → List (Option Issue) → List Issue
unfolding clean_issue byte_sizes
bounded_from places remaining [] = []
bounded_from places remaining (none ∷ issues) =
    let rest = bounded_from places remaining issues in
    if (places == 0) || (remaining == 0) then [] else rest
bounded_from places remaining (some issue ∷ issues) =
    let clean = clean_issue remaining issue in
    let rest = bounded_from (places - 1) (remaining - byte_sizes clean) issues in
    if (places == 0) || (remaining == 0) then [] else clean ∷ rest

-- `_bounded_review_issues`
unfoldable pub bounded_review_issues : ℕ → List (Option Issue) → List Issue
unfolding bounded_from
bounded_review_issues max_bytes issues = bounded_from max_review_findings max_bytes issues

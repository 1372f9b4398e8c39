-- ===== src/Verdict.antt =====
-- The verdict on a pull request: pr_agent/tools/pr_reviewer.py, from the parsed review to the one review that
-- is published.
pub mod Publish
pub mod Approval
use achord_review.Prelude.{
  ℕ, Bool, true, false, ◌&&◌, ◌||◌, not, Option, none, some, List, [], ◌∷◌, ◌++◌, null, ltb, ◌==◌,
  if◌then◌else◌,
}
use achord_review.Text.{Text, codes, strip, lower, starts_with, join, text_eq}
use achord_review.Types.{mem_text}
use achord_review.Yaml.{
  Value, Items, Fields, absent, flag, whole, text, scalar, items, dict, nil, item, end, get,
  or_else,
}
use achord_review.Review.Finding.{severity_text, upper}

-- `APPROVE`, `REQUEST_CHANGES` and `COMMENT`
pub data Event : Type 0 where
  approve request_changes comment : Event

-- The settings of the verdict; the severities are stripped and in capitals.
pub record VerdictSettings : Type 0 where
  pub blocking_on_security_concerns : Bool
  pub blocking_severities : List Text

-- `str(value or '').strip()`; of a list or a dictionary the first code point, which decides the tests.
unfoldable pub stripped : Value → Text
unfolding strip
stripped value = strip (severity_text value)

-- `security_concerns and not security_concerns.lower().startswith('no')`
unfoldable pub raises_concern : Text → Bool
unfolding lower starts_with
raises_concern concerns = not (null concerns) && not (starts_with (codes "no") (lower concerns))

-- The severities of the issues that are dictionaries.
unfoldable pub found_severities : Items → List Text
unfolding stripped get upper
found_severities nil = []
found_severities (item (dict issue) issues) =
    upper (stripped (get (codes "severity") issue)) ∷ found_severities issues
found_severities (item _ issues) = found_severities issues

-- `s < t`
abbrev text_less : Text → Text → Bool
text_less [] [] = false
text_less [] (b ∷ t) = true
text_less (a ∷ s) [] = false
text_less (a ∷ s) (b ∷ t) = ltb a b || ((a == b) && text_less s t)

-- The text in its place, if it is not there yet.
unfoldable pub insert : Text → List Text → List Text
unfolding text_eq
insert s [] = s ∷ []
insert s (t ∷ ts) =
    if text_eq s t then t ∷ ts else if text_less s t then s ∷ t ∷ ts else t ∷ insert s ts

-- `sorted(found & blocking_severities)`
unfoldable pub blocking_found : List Text → List Text → List Text
unfolding insert
blocking_found blocking [] = []
blocking_found blocking (severity ∷ found) =
    let rest = blocking_found blocking found in
    if mem_text severity blocking then insert severity rest else rest

-- `issues if isinstance(issues, list) else []`
abbrev pub issues_of : Value → Items
issues_of (items issues) = issues
issues_of _ = nil

abbrev pub is_nil : Items → Bool
is_nil nil = true
is_nil (item v vs) = false

unfoldable pub verdict_of_issues : VerdictSettings → Items → Event × Text
unfolding blocking_found found_severities join
verdict_of_issues settings issues =
    let blocking = blocking_found settings.blocking_severities (found_severities issues) in
    if not (null blocking)
    then (
      request_changes,
      codes "blocking issues found (" ++ (join (codes ", ") blocking ++ codes ")"),
    )
    else if not (is_nil issues)
    then (comment, codes "non-blocking suggestions only")
    else (approve, codes "no blocking issues found")

unfoldable pub verdict_of_review : VerdictSettings → Fields → Event × Text
unfolding stripped raises_concern verdict_of_issues get
verdict_of_review settings review =
    if settings.blocking_on_security_concerns
      && raises_concern (stripped (get (codes "security_concerns") review))
    then (request_changes, codes "security concerns were raised")
    else verdict_of_issues settings (issues_of (get (codes "key_issues_to_review") review))

unfoldable pub on_review : VerdictSettings → Value → Option (Event × Text)
unfolding verdict_of_review
on_review settings (dict review) = some (verdict_of_review settings review)
on_review settings _ = none

-- `_determine_review_verdict`; `none` is the exception of a `review` that is no dictionary.
unfoldable pub determine_review_verdict : VerdictSettings → Fields → Option (Event × Text)
unfolding on_review get
determine_review_verdict settings d =
    on_review settings (or_else (get (codes "review") d) (dict end))

-- What is published for the parsed review; an exception gives a comment.
abbrev pub verdict_or_comment : Option (Event × Text) → Event × Text
verdict_or_comment none = (comment, codes "the review verdict could not be determined")
verdict_or_comment (some verdict) = verdict

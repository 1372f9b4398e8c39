-- ===== src/Review.antt =====
-- pr_agent/algo/review_parser.py: a review whose outer key the model has left out.
pub mod Finding
pub mod Security
pub mod Accepted
pub mod Recovered
use achord_review.Prelude.{
  ℕ, Bool, true, false, ◌&&◌, ◌||◌, not, Option, none, some, List, [], ◌∷◌, if◌then◌else◌,
}
use achord_review.Text.{Text, codes}
use achord_review.Types.{mem_text}
use achord_review.Yaml.{
  Value, Items, Fields, absent, flag, whole, text, scalar, items, dict, nil, item, end, field, get,
  has, set,
}
use achord_review.Review.Finding.{normalize_finding}
use achord_review.Review.Security.{is_explicit_security_concern}

abbrev pub review_fields : List Text
review_fields =
    codes "ticket_compliance_check"
    ∷ codes "estimated_effort_to_review_[1-5]"
    ∷ codes "contribution_time_cost_estimate"
    ∷ codes "score"
    ∷ codes "relevant_tests"
    ∷ codes "insights_from_user_answers"
    ∷ codes "key_issues_to_review"
    ∷ codes "security_concerns"
    ∷ codes "todo_sections"
    ∷ codes "can_be_split"
    ∷ []

-- `set(d).issubset(_REVIEW_FIELDS)`
unfoldable pub are_review_fields : Fields → Bool
are_review_fields end = true
are_review_fields (field k v d) = mem_text k review_fields && are_review_fields d

-- `not data`, for a dictionary
abbrev pub is_empty : Fields → Bool
is_empty end = true
is_empty (field k v d) = false

abbrev pub add_finding : Option Fields → Option Items → Option Items
add_finding none rest = none
add_finding (some finding) none = none
add_finding (some finding) (some rest) = some (item (dict finding) rest)

-- The loop over the issues; one that is refused refuses all.
unfoldable pub normalize_issues : Bool → Items → Option Items
unfolding normalize_finding
normalize_issues require_severity nil = some nil
normalize_issues require_severity (item issue issues) =
    add_finding (normalize_finding issue require_severity)
      (normalize_issues require_severity issues)

abbrev pub accept : Option Items → Option (Option Items)
accept none = none
accept (some findings) = some (some findings)

-- What becomes of the issues; the outer `none` refuses the answer, `some none` is an answer without issues.
unfoldable pub normalized_issues : Bool → Value → Option (Option Items)
unfolding normalize_issues
normalized_issues require_severity absent = some none
normalized_issues require_severity (items issues) =
    accept (normalize_issues require_severity issues)
normalized_issues require_severity _ = none

-- `isinstance(issues, list) and bool(issues)`, of the issues that were accepted
abbrev pub has_complete_finding : Option Items → Bool
has_complete_finding none = false
has_complete_finding (some nil) = false
has_complete_finding (some (item v vs)) = true

unfoldable pub put_findings : Option Items → Fields → Fields
unfolding set
put_findings none d = d
put_findings (some findings) d = set (codes "key_issues_to_review") (items findings) d

-- What is returned when the issues are known.
unfoldable pub wrap : Fields → Option (Option Items) → Value × Bool
unfolding put_findings is_explicit_security_concern get
wrap d none = (dict d, false)
wrap d (some findings) =
    if not (has_complete_finding findings)
      && not (is_explicit_security_concern (get (codes "security_concerns") d))
    then (dict d, false)
    else (dict (field (codes "review") (dict (put_findings findings d)) end), true)

unfoldable pub recover_fields : Fields → Bool → Value × Bool
unfolding wrap normalized_issues are_review_fields has get
recover_fields d require_severity =
    if has (codes "review") d || is_empty d
    then (dict d, false)
    else if not (are_review_fields d)
    then (dict d, false)
    else wrap d (normalized_issues require_severity (get (codes "key_issues_to_review") d))

-- `recover_missing_review_wrapper`
unfoldable pub recover_missing_review_wrapper : Value → Bool → Value × Bool
unfolding recover_fields
recover_missing_review_wrapper (dict d) require_severity = recover_fields d require_severity
recover_missing_review_wrapper answer require_severity = (answer, false)

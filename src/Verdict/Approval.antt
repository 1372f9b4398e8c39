-- ===== src/Verdict/Approval.antt =====
-- On the three verdicts.
use achord_review.Prelude.{Bool, true, false, ◌==◌, ◌&&◌, ◌||◌, not, List, [], ◌∷◌, null}
use achord_review.Text.{Text, codes, strip}
use achord_review.Types.{mem_text}
use achord_review.Yaml.{Value, Items, Fields, items, dict, nil, item, get}
use achord_review.Review.Finding.{severity_text, upper}
use achord_review.Verdict.{Event, approve, request_changes, VerdictSettings, issues_of}

-- The text begins with the letters n and o, capital or small.
abbrev pub begins_with_no : Text → Bool
begins_with_no [] = false
begins_with_no (c ∷ []) = false
begins_with_no (c ∷ d ∷ _) = ((c == b'n') || (c == b'N')) && ((d == b'o') || (d == b'O'))

-- A text on security that is not blank and does not begin with "no".
abbrev pub has_concern : Fields → Bool
has_concern review =
    let concerns = strip (severity_text (get (codes "security_concerns") review)) in
    not (null concerns) && not (begins_with_no concerns)

-- Some issue has a severity that blocks, without regard to case and to space around it.
abbrev pub has_blocking : List Text → Items → Bool
has_blocking blocking nil = false
has_blocking blocking (item (dict issue) issues) =
    mem_text (upper (strip (severity_text (get (codes "severity") issue)))) blocking
    || has_blocking blocking issues
has_blocking blocking (item _ issues) = has_blocking blocking issues

-- There is no list of issues, or an empty one.
abbrev pub is_without_issues : Value → Bool
is_without_issues (items (item _ _)) = false
is_without_issues _ = true

abbrev pub is_approve : Event → Bool
is_approve approve = true
is_approve _ = false

abbrev pub is_request : Event → Bool
is_request request_changes = true
is_request _ = false

-- A reason to request changes.
abbrev pub is_blocked : VerdictSettings → Fields → Bool
is_blocked settings review =
    (settings.blocking_on_security_concerns && has_concern review)
    || has_blocking settings.blocking_severities
        (issues_of (get (codes "key_issues_to_review") review))

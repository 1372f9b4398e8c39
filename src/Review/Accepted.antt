-- ===== src/Review/Accepted.antt =====
-- On the list of the issues that are accepted.
use achord_review.Prelude.{◌≡◌, refl, Bool, Option, none, some, ap, subst}
use achord_review.Yaml.{
  Value, Items, Fields, absent, flag, whole, text, scalar, items, dict, nil, item,
}
use achord_review.Review.Finding.{normalize_finding}
use achord_review.Review.{add_finding, normalize_issues, accept, normalized_issues}
use achord_review.Review.Finding.Complete.{IsFinding, normalize_fields-IsFinding}

abbrev pub AreFindings : Bool → Items → Type 0
AreFindings require_severity nil = Unit
AreFindings require_severity (item (dict finding) findings) =
    IsFinding require_severity finding × AreFindings require_severity findings
AreFindings require_severity (item _ findings) = ⊥

some-injective {ℓ} : {A : Type ℓ} {x y : A} → some x ≡ some y → x ≡ y
some-injective {x} p = ap (λ o. elim o [ none ↦ x | some z ↦ z ]) p

normalize_finding-IsFinding :
    (require_severity : Bool) (issue : Value) (finding : Fields)
    → normalize_finding issue require_severity ≡ some finding
    → IsFinding require_severity finding
unfolding normalize_finding
normalize_finding-IsFinding require_severity (dict issue) finding h =
    normalize_fields-IsFinding require_severity issue finding h
normalize_finding-IsFinding require_severity absent finding h = cc h
normalize_finding-IsFinding require_severity (flag _) finding h = cc h
normalize_finding-IsFinding require_severity (whole _) finding h = cc h
normalize_finding-IsFinding require_severity (text _) finding h = cc h
normalize_finding-IsFinding require_severity (scalar _ _) finding h = cc h
normalize_finding-IsFinding require_severity (items _) finding h = cc h

add_finding-AreFindings :
    (require_severity : Bool) (first : Option Fields) (rest : Option Items) (findings : Items)
    → ((finding : Fields) → first ≡ some finding → IsFinding require_severity finding)
    → ((others : Items) → rest ≡ some others → AreFindings require_severity others)
    → add_finding first rest ≡ some findings
    → AreFindings require_severity findings
add_finding-AreFindings require_severity none rest findings p q h = cc h
add_finding-AreFindings require_severity (some finding) none findings p q h = cc h
add_finding-AreFindings require_severity (some finding) (some others) findings p q h =
    subst (AreFindings require_severity) (some-injective h) (p finding refl, q others refl)

normalize_issues-AreFindings :
    (require_severity : Bool) (issues findings : Items)
    → normalize_issues require_severity issues ≡ some findings
    → AreFindings require_severity findings
unfolding normalize_issues
normalize_issues-AreFindings require_severity nil findings h =
    subst (AreFindings require_severity) (some-injective h) tt
normalize_issues-AreFindings require_severity (item issue issues) findings h =
    add_finding-AreFindings require_severity (normalize_finding issue require_severity)
      (normalize_issues require_severity issues) findings
      (normalize_finding-IsFinding require_severity issue)
      (normalize_issues-AreFindings require_severity issues) h

-- The issues were left out, or all of them were accepted.
abbrev pub IsAccepted : Bool → Value → Option Items → Type 0
IsAccepted require_severity issues none = issues ≡ absent
IsAccepted require_severity issues (some findings) = AreFindings require_severity findings

accept-IsAccepted :
    (require_severity : Bool) (issues : Items) (o : Option Items) (findings : Option Items)
    → normalize_issues require_severity issues ≡ o
    → accept o ≡ some findings
    → IsAccepted require_severity (items issues) findings
accept-IsAccepted require_severity issues none findings e h = cc h
accept-IsAccepted require_severity issues (some others) findings e h =
    subst (IsAccepted require_severity (items issues)) (some-injective h)
      (normalize_issues-AreFindings require_severity issues others e)

pub normalized_issues-IsAccepted :
    (require_severity : Bool) (issues : Value) (findings : Option Items)
    → normalized_issues require_severity issues ≡ some findings
    → IsAccepted require_severity issues findings
unfolding normalized_issues
normalized_issues-IsAccepted require_severity absent findings h =
    subst (IsAccepted require_severity absent) (some-injective h) refl
normalized_issues-IsAccepted require_severity (items issues) findings h =
    accept-IsAccepted require_severity issues (normalize_issues require_severity issues) findings
      refl h
normalized_issues-IsAccepted require_severity (flag _) findings h = cc h
normalized_issues-IsAccepted require_severity (whole _) findings h = cc h
normalized_issues-IsAccepted require_severity (text _) findings h = cc h
normalized_issues-IsAccepted require_severity (scalar _ _) findings h = cc h
normalized_issues-IsAccepted require_severity (dict _) findings h = cc h

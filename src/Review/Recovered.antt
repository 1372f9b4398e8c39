-- ===== src/Review/Recovered.antt =====
-- On what `recover_missing_review_wrapper` returns.
use achord_review.Prelude.{
  ◌≡◌, refl, Bool, true, false, ◌&&◌, ◌||◌, not, Option, none, some, ◌⊎◌, inl, inr, Bool-cases,
  arith, ap, ◌∙◌,
}
use achord_review.Text.{Text, codes, text_eq}
use achord_review.Types.{mem_text}
use achord_review.Yaml.{
  Value, Items, Fields, absent, flag, whole, text, scalar, items, dict, nil, item, end, field, get,
  has, set,
}
use achord_review.Yaml.Laws.{get-set_same, get-set_other}
use achord_review.Review.Security.{is_explicit_security_concern}
use achord_review.Review.Accepted.{AreFindings, IsAccepted, normalized_issues-IsAccepted}
use achord_review.Review.{
  review_fields, are_review_fields, is_empty, normalized_issues, has_complete_finding, put_findings,
  wrap, recover_fields, recover_missing_review_wrapper,
}

are_review_fields-set :
    (k : Text) (v : Value) (d : Fields)
    → mem_text k review_fields ≡ true
    → are_review_fields d ≡ true
    → are_review_fields (set k v d) ≡ true
unfolding are_review_fields set
are_review_fields-set k v end h p = rw h refl
are_review_fields-set k v (field j w d) h p = elim (Bool-cases (text_eq k j)) [
  | inl same ↦ rw same p
  | inr differ ↦ rw differ (ground (arith, are_review_fields-set k v d h))
]

-- The issues of a review: left out, or a list of complete findings.
abbrev pub HasIssues : Bool → Fields → Type 0
HasIssues require_severity review =
    (get (codes "key_issues_to_review") review ≡ absent)
    ⊎ ((findings : Items) × (get (codes "key_issues_to_review") review ≡ items findings)
        × AreFindings require_severity findings)

-- A reason not to approve: a finding, or an explicit concern.
abbrev pub HasReason : Fields → Type 0
HasReason review =
    ((v : Value) × (vs : Items) × (get (codes "key_issues_to_review") review ≡ items (item v vs)))
    ⊎ (is_explicit_security_concern (get (codes "security_concerns") review) ≡ true)

-- The answer under the key `review`, with the fields of a review only.
abbrev pub IsReview : Bool → Value × Bool → Type 0
IsReview require_severity result =
    (review : Fields) × (result ≡ (dict (field (codes "review") (dict review) end), true))
    × (are_review_fields review ≡ true)
    × HasIssues require_severity review
    × HasReason review

accepted-IsReview :
    (require_severity : Bool) (d : Fields) (findings : Option Items)
    → are_review_fields d ≡ true
    → IsAccepted require_severity (get (codes "key_issues_to_review") d) findings
    → (has_complete_finding findings
        || is_explicit_security_concern (get (codes "security_concerns") d))
      ≡ true
    → IsReview require_severity
        (dict (field (codes "review") (dict (put_findings findings d)) end), true)
unfolding put_findings
accepted-IsReview require_severity d none known accepted reason =
    (d, refl, known, inl accepted, inr reason)
accepted-IsReview require_severity d (some nil) known accepted reason =
    let key = codes "key_issues_to_review" in
    (
      set key (items nil) d,
      refl,
      are_review_fields-set key (items nil) d refl known,
      inr (nil, get-set_same key (items nil) d, accepted),
      inr (
          ap is_explicit_security_concern
            (get-set_other (codes "security_concerns") key (items nil) d refl)
          ∙ reason),
    )
accepted-IsReview require_severity d (some (item v vs)) known accepted reason =
    let key = codes "key_issues_to_review" in
    (
      set key (items (item v vs)) d,
      refl,
      are_review_fields-set key (items (item v vs)) d refl known,
      inr (item v vs, get-set_same key (items (item v vs)) d, accepted),
      inl (v, vs, get-set_same key (items (item v vs)) d),
    )

wrap-IsReview :
    (require_severity : Bool) (d : Fields) (o : Option (Option Items))
    → normalized_issues require_severity (get (codes "key_issues_to_review") d) ≡ o
    → are_review_fields d ≡ true
    → (wrap d o ≡ (dict d, false)) ⊎ IsReview require_severity (wrap d o)
unfolding wrap
wrap-IsReview require_severity d none e known = inl refl
wrap-IsReview require_severity d (some findings) e known =
    elim (Bool-cases (
      not (has_complete_finding findings)
      && not (is_explicit_security_concern (get (codes "security_concerns") d)))) [
        | inl clean ↦ rw clean (inl refl)
        | inr reason ↦ rw reason (
            inr (
              accepted-IsReview require_severity d findings known
                (normalized_issues-IsAccepted require_severity _ findings e) (ground arith)))
      ]

recover_fields-IsReview :
    (require_severity : Bool) (d : Fields)
    → (recover_fields d require_severity ≡ (dict d, false))
      ⊎ IsReview require_severity (recover_fields d require_severity)
unfolding recover_fields
recover_fields-IsReview require_severity d =
    elim (Bool-cases (has (codes "review") d || is_empty d)) [
      | inl off ↦ rw off (inl refl)
      | inr on ↦ rw on (elim (Bool-cases (are_review_fields d)) [
        | inr unknown ↦ rw unknown (inl refl)
        | inl known ↦ rw known (wrap-IsReview require_severity d _ refl known)
      ])
    ]

-- Whatever the model answers, the answer is returned as it came, or what is returned is a review: a single
-- key `review` over fields of a review only, whose issues are left out or all complete findings with lines in
-- order, and which has at least one finding or an explicit security concern.
pub recover_missing_review_wrapper-IsReview :
    (answer : Value) (require_severity : Bool)
    → (recover_missing_review_wrapper answer require_severity ≡ (answer, false))
      ⊎ IsReview require_severity (recover_missing_review_wrapper answer require_severity)
unfolding recover_missing_review_wrapper
recover_missing_review_wrapper-IsReview (dict d) require_severity =
    recover_fields-IsReview require_severity d
recover_missing_review_wrapper-IsReview absent require_severity = inl refl
recover_missing_review_wrapper-IsReview (flag _) require_severity = inl refl
recover_missing_review_wrapper-IsReview (whole _) require_severity = inl refl
recover_missing_review_wrapper-IsReview (text _) require_severity = inl refl
recover_missing_review_wrapper-IsReview (scalar _ _) require_severity = inl refl
recover_missing_review_wrapper-IsReview (items _) require_severity = inl refl

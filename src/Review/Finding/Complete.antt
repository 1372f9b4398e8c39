-- ===== src/Review/Finding/Complete.antt =====
-- On the issues that `_normalize_finding` accepts.
use achord_review.Prelude.{
  ℕ, ◌≤◌, ◌<◌, ◌≡◌, refl, Bool, true, none, some, inl, inr, Bool-cases, leb→le, ltb→lt, arith, ap,
  ◌∙◌, subst,
}
use achord_review.Prelude.Int.{pos}
use achord_review.Text.{Text, codes, strip}
use achord_review.Types.{mem_text, mem_text-All}
use achord_review.Yaml.{Value, Fields, absent, flag, whole, text, scalar, items, dict, get, set}
use achord_review.Yaml.Laws.{get-set_same, get-set_other}
use achord_review.Review.Finding.{
  review_severities, upper, line_of, is_positive_line_number, end_line_of, has_texts, has_lines,
  severity_of, is_severity, put_severity, with_numbers, normalize_fields,
}

-- The texts are there, the severity is one of the four or, unless it is required, empty, and the lines are
-- numbers in order.
abbrev pub IsFinding : Bool → Fields → Type 0
IsFinding require_severity finding =
    (has_texts finding ≡ true)
    × (is_severity require_severity (severity_of finding) ≡ true)
    × ((first last : ℕ) × (get (codes "start_line") finding ≡ whole (pos first))
        × (get (codes "end_line") finding ≡ whole (pos last))
        × (0 < first)
        × (first ≤ last))

some-injective {ℓ} : {A : Type ℓ} {x y : A} → some x ≡ some y → x ≡ y
some-injective {x} p = ap (λ o. elim o [ none ↦ x | some z ↦ z ]) p

positive-line : (v : Value) → is_positive_line_number v ≡ true → 0 < line_of v
unfolding is_positive_line_number line_of
positive-line (flag b) h = cc h
positive-line absent h = ltb→lt _ _ h
positive-line (whole z) h = ltb→lt _ _ h
positive-line (text s) h = ltb→lt _ _ h
positive-line (scalar s b) h = ltb→lt _ _ h
positive-line (items vs) h = ltb→lt _ _ h
positive-line (dict d) h = ltb→lt _ _ h

upper-strip :
    (severity : Text)
    → mem_text severity review_severities ≡ true
    → upper (strip severity) ≡ severity
unfolding upper strip
upper-strip severity h =
    mem_text-All (λ s. upper (strip s) ≡ s) severity review_severities
      (refl, (refl, (refl, (refl, tt)))) h

-- A write leaves the texts that an issue needs.
has_texts-set :
    (k : Text) (v : Value) (d : Fields)
    → get (codes "relevant_file") (set k v d) ≡ get (codes "relevant_file") d
    → get (codes "issue_header") (set k v d) ≡ get (codes "issue_header") d
    → get (codes "issue_content") (set k v d) ≡ get (codes "issue_content") d
    → has_texts (set k v d) ≡ has_texts d
unfolding has_texts
has_texts-set k v d p q r = rw (p, q, r) refl

severity_of-set :
    (k : Text) (v : Value) (d : Fields)
    → get (codes "severity") (set k v d) ≡ get (codes "severity") d
    → severity_of (set k v d) ≡ severity_of d
unfolding severity_of
severity_of-set k v d p = rw p refl

set-severity :
    (d : Fields) (severity : Text)
    → mem_text severity review_severities ≡ true
    → severity_of (set (codes "severity") (text severity) d) ≡ severity
unfolding severity_of
set-severity d severity known =
    rw (get-set_same (codes "severity") (text severity) d) (upper-strip severity known)

put_severity-severity_of :
    (issue : Fields) → severity_of (put_severity (severity_of issue) issue) ≡ severity_of issue
unfolding put_severity
put_severity-severity_of issue =
    elim (Bool-cases (mem_text (severity_of issue) review_severities)) [
      | inr other ↦ rw other refl
      | inl known ↦ rw known (set-severity issue (severity_of issue) known)
    ]

put_severity-texts :
    (severity : Text) (issue : Fields) → has_texts (put_severity severity issue) ≡ has_texts issue
unfolding put_severity
put_severity-texts severity issue = elim (Bool-cases (mem_text severity review_severities)) [
  | inr other ↦ rw other refl
  | inl known ↦ rw known (
      has_texts-set (codes "severity") (text severity) issue (get-set_other _ _ _ issue refl)
        (get-set_other _ _ _ issue refl) (get-set_other _ _ _ issue refl))
]

with_numbers-IsFinding :
    (require_severity : Bool) (issue : Fields) (first last : ℕ)
    → has_texts issue ≡ true
    → is_severity require_severity (severity_of issue) ≡ true
    → 0 < first
    → first ≤ last
    → IsFinding require_severity (with_numbers (severity_of issue) first last issue)
unfolding with_numbers
with_numbers-IsFinding require_severity issue first last texts severity positive ordered =
    let d = put_severity (severity_of issue) issue in
    let e = set (codes "start_line") (whole (pos first)) d in
    let start_texts =
      has_texts-set (codes "start_line") (whole (pos first)) d (get-set_other _ _ _ d refl)
        (get-set_other _ _ _ d refl) (get-set_other _ _ _ d refl) in
    let end_texts =
      has_texts-set (codes "end_line") (whole (pos last)) e (get-set_other _ _ _ e refl)
        (get-set_other _ _ _ e refl) (get-set_other _ _ _ e refl) in
    let start_severity =
      severity_of-set (codes "start_line") (whole (pos first)) d (get-set_other _ _ _ d refl) in
    let end_severity =
      severity_of-set (codes "end_line") (whole (pos last)) e (get-set_other _ _ _ e refl) in
    let same = end_severity ∙ start_severity ∙ put_severity-severity_of issue in
    (
      end_texts ∙ start_texts ∙ put_severity-texts (severity_of issue) issue ∙ texts,
      ap (is_severity require_severity) same ∙ severity,
      (
        first,
        last,
        get-set_other _ _ _ e refl ∙ get-set_same (codes "start_line") (whole (pos first)) d,
        get-set_same (codes "end_line") (whole (pos last)) e,
        positive,
        ordered,
      ),
    )

pub normalize_fields-IsFinding :
    (require_severity : Bool) (issue finding : Fields)
    → normalize_fields issue require_severity ≡ some finding
    → IsFinding require_severity finding
unfolding normalize_fields has_lines
normalize_fields-IsFinding require_severity issue finding h = elim (Bool-cases (has_texts issue)) [
  | inr none_texts ↦ cc (rw none_texts at h)
  | inl texts ↦ elim (Bool-cases (has_lines issue)) [
    | inr none_lines ↦ cc (rw (texts, none_lines) at h)
    | inl lines ↦ elim (Bool-cases (is_severity require_severity (severity_of issue))) [
      | inr bad ↦ cc (rw (texts, lines, bad) at h)
      | inl severity ↦
          subst (IsFinding require_severity) (some-injective (rw (texts, lines, severity) at h)) (
            with_numbers-IsFinding require_severity issue _ _ texts severity
              (positive-line (get (codes "start_line") issue) (ground arith))
              (leb→le (line_of (get (codes "start_line") issue)) (line_of (end_line_of issue))
                (ground arith)))
    ]
  ]
]

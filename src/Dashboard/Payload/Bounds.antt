-- ===== src/Dashboard/Payload/Bounds.antt =====
-- On the sizes of what `_bounded_review_issues` gives.
use achord_review.Prelude.{
  ℕ, ◌+◌, ◌-◌, ◌≤◌, min, ◌≡◌, refl, ◌||◌, Option, none, some, List, [], ◌∷◌, ◌++◌, length, leb,
  ◌==◌, Bool-cases, inl, inr, leb→le, leb_false→lt, arith,
}
use achord_review.Text.{Text, codes}
use achord_review.Dashboard.Payload.{
  utf8_size, byte_size, take_bytes, truncate_text_bytes, Issue, byte_sizes, clean_issue,
  bounded_from, bounded_review_issues, max_review_findings, max_finding_file_bytes,
  max_finding_summary_bytes, max_finding_suggestion_bytes,
}

byte_size-append : (s t : Text) → byte_size (s ++ t) ≡ byte_size s + byte_size t
unfolding byte_size
byte_size-append [] t = omega arith
byte_size-append (c ∷ s) t = omega (arith, byte_size-append s t)

byte_size-take_bytes : (n : ℕ) (s : Text) → byte_size (take_bytes n s) ≤ n
unfolding byte_size take_bytes
byte_size-take_bytes n [] = omega arith
byte_size-take_bytes n (c ∷ s) = elim (Bool-cases (leb (utf8_size c) n)) [
  | inl fits ↦ rw fits (omega (arith, leb→le _ _ fits, byte_size-take_bytes (n - utf8_size c) s))
  | inr cut ↦ rw cut (omega arith)
]

dots_size : byte_size (codes "...") ≡ 3
unfolding byte_size
dots_size = refl

pub byte_size-truncate_text_bytes : (n : ℕ) (s : Text) → byte_size (truncate_text_bytes n s) ≤ n
unfolding truncate_text_bytes
byte_size-truncate_text_bytes n s = elim (Bool-cases (n == 0)) [
  | inl z ↦ rw z (omega arith)
  | inr nz ↦ rw nz (elim (Bool-cases (leb (byte_size s) n)) [
    | inl short ↦ rw short (leb→le _ _ short)
    | inr long ↦ rw long (elim (Bool-cases (leb n 3)) [
      | inl tight ↦ rw tight (byte_size-take_bytes n s)
      | inr roomy ↦ rw roomy (
          omega (
            arith,
            byte_size-append (take_bytes (n - 3) s) (codes "..."),
            dots_size,
            byte_size-take_bytes (n - 3) s,
            leb_false→lt n 3 roomy,
          ))
    ])
  ])
]

-- A text that was cut to what is left takes no more than that.
byte_size-cut :
    (limit remaining : ℕ) (s : Text)
    → byte_size (truncate_text_bytes (min limit remaining) s) ≤ remaining
byte_size-cut limit remaining s =
    omega (arith, byte_size-truncate_text_bytes (min limit remaining) s)

four_parts :
    (remaining a b c d : ℕ)
    → a ≤ remaining
    → b ≤ remaining - a
    → c ≤ remaining - a - b
    → d ≤ remaining - a - b - c
    → a + (b + (c + d)) ≤ remaining
four_parts remaining a b c d p q r s = omega arith

clean_issue-bound :
    (remaining : ℕ) (issue : Issue) → byte_sizes (clean_issue remaining issue) ≤ remaining
unfolding clean_issue byte_sizes
clean_issue-bound remaining issue =
    four_parts remaining _ _ _ _ (byte_size-cut 16 remaining issue.severity)
      (byte_size-cut max_finding_file_bytes _ issue.relevant_file)
      (byte_size-cut max_finding_summary_bytes _ issue.issue_summary)
      (byte_size-cut max_finding_suggestion_bytes _ issue.suggestion)

-- The bytes of the texts of all findings.
abbrev pub total_bytes : List Issue → ℕ
total_bytes [] = 0
total_bytes (issue ∷ issues) = byte_sizes issue + total_bytes issues

bounded_from-bound :
    (places remaining : ℕ) (issues : List (Option Issue))
    → (length (bounded_from places remaining issues) ≤ places)
      × (total_bytes (bounded_from places remaining issues) ≤ remaining)
unfolding bounded_from
bounded_from-bound places remaining [] = (omega arith, omega arith)
bounded_from-bound places remaining (none ∷ issues) =
    elim (Bool-cases ((places == 0) || (remaining == 0))) [
      | inl full ↦ rw full (omega arith, omega arith)
      | inr room ↦ rw room (bounded_from-bound places remaining issues)
    ]
bounded_from-bound places remaining (some issue ∷ issues) =
    let clean = clean_issue remaining issue in
    let (few, small) = bounded_from-bound (places - 1) (remaining - byte_sizes clean) issues in
    elim (Bool-cases ((places == 0) || (remaining == 0))) [
      | inl full ↦ rw full (omega arith, omega arith)
      | inr room ↦
          rw room (ground (arith, few), omega (arith, small, clean_issue-bound remaining issue))
    ]

-- Whatever the model wrote, at most thirty findings are stored, and their texts together take at most
-- `max_bytes` bytes in UTF-8.
pub bounded_review_issues-bound :
    (max_bytes : ℕ) (issues : List (Option Issue))
    → (length (bounded_review_issues max_bytes issues) ≤ max_review_findings)
      × (total_bytes (bounded_review_issues max_bytes issues) ≤ max_bytes)
unfolding bounded_review_issues
bounded_review_issues-bound max_bytes issues =
    bounded_from-bound max_review_findings max_bytes issues

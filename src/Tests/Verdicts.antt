-- ===== src/Tests/Verdicts.antt =====
-- Verdicts on small reviews, and two runs that publish.
use achord_review.Prelude.{ℕ, zero, suc, ◌≡◌, refl, true, false, none, some, [], ◌∷◌}
use achord_review.Text.{
  codes, strip, rstrip, lstrip, is_space, lower, lower_code, starts_with, strip_prefix, text_eq,
  join,
}
use achord_review.Text.Words.{words_from}
use achord_review.Yaml.{Fields, text, items, dict, nil, item, end, field, get, has, is_truthy}
use achord_review.Review.{
  recover_missing_review_wrapper, recover_fields, are_review_fields, normalized_issues,
  put_findings, wrap,
}
use achord_review.Review.Finding.{upper}
use achord_review.Review.Security.{
  is_explicit_security_concern, fold_spaces, is_negative_security_summary, has_word_prefix,
  partition_colon, is_generic_negative, is_concern,
}
use achord_review.Verdict.{
  Event, approve, request_changes, comment, VerdictSettings, stripped, raises_concern,
  found_severities, blocking_found, verdict_of_issues, verdict_of_review, on_review,
  determine_review_verdict, insert,
}
use achord_review.Verdict.Publish.{
  OwnVerdict, identity, Finished, Provider, state_of, verdict_is_newer, same_text, stays_silent,
  is_reviewed, is_answered, post, publish_single_review_locked,
}

abbrev settings : VerdictSettings
settings = record {
  blocking_on_security_concerns = true;
  blocking_severities = codes "P0" ∷ codes "P1" ∷ [];
}

abbrev review : Fields
review =
    field (codes "key_issues_to_review")
      (items (
        item (dict (field (codes "severity") (text (codes "p2")) end))
          (item (dict (field (codes "severity") (text (codes "p1")) end)) nil)))
      end

p1_blocks :
    verdict_of_review settings review ≡ (request_changes, codes "blocking issues found (P1)")
unfolding verdict_of_review verdict_of_issues raises_concern stripped found_severities
    blocking_found insert upper strip rstrip lstrip is_space join text_eq get
p1_blocks = refl

-- An explicit concern that names a missing control.
abbrev open_endpoint : Fields
open_endpoint =
    field (codes "security_concerns") (text (codes "No authentication: the endpoint is open")) end

is_recovered :
    recover_missing_review_wrapper (dict open_endpoint) true
    ≡ (dict (field (codes "review") (dict open_endpoint) end), true)
unfolding recover_missing_review_wrapper recover_fields are_review_fields normalized_issues
    put_findings wrap is_explicit_security_concern fold_spaces is_negative_security_summary
    has_word_prefix partition_colon is_generic_negative is_concern words_from join starts_with
    strip_prefix lower lower_code strip rstrip lstrip is_space text_eq get has
is_recovered = refl

is_approved :
    determine_review_verdict settings (field (codes "review") (dict open_endpoint) end)
    ≡ some (approve, codes "no blocking issues found")
unfolding determine_review_verdict on_review verdict_of_review verdict_of_issues raises_concern
    stripped found_severities blocking_found starts_with strip_prefix lower lower_code strip rstrip
    lstrip is_space text_eq get is_truthy
is_approved = refl

-- A host that counts the reviews of one commit and keeps the last event.
abbrev own_verdict : ℕ × Event → OwnVerdict
own_verdict (zero, event) = record { state = none; sha = none; review_id = none; read_ok = true }
own_verdict (suc n, event) = record {
  state = some (state_of event);
  sha = some (codes "abc");
  review_id = some n;
  read_ok = true;
}

abbrev host : Provider (ℕ × Event)
host = record {
  latest_own_verdict = own_verdict;
  head_commit_sha = λ _. some (codes "abc");
  mark_review_verdict_body = λ body. body;
  publish_code_suggestions = λ _ _ event w. ((suc w.0, event), true);
  submit_review_verdict = λ event _ w. ((suc w.0, event), true);
}

abbrev first : Finished
first = record {
  pr_review = codes "## Review";
  verdict_at_start = some (identity (own_verdict (0, comment)));
  comments = [];
  event = approve;
  reason = codes "no blocking issues found";
  carried_over = 0;
  is_manual = false;
}

abbrev second : Finished
second = record first { event = request_changes; is_manual = true }

first_posts : (publish_single_review_locked host (λ _. codes "Fine.") first (0, comment)).1 ≡ true
unfolding publish_single_review_locked stays_silent is_reviewed same_text post
first_posts = refl

-- The second run began before the first one posted, and is silent even if a person asked for it.
second_is_silent :
    publish_single_review_locked host (λ _. codes "Fine.") second (1, approve)
    ≡ ((1, approve), false)
unfolding publish_single_review_locked stays_silent is_reviewed is_answered verdict_is_newer
    same_text text_eq
second_is_silent = refl

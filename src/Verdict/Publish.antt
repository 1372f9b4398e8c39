-- ===== src/Verdict/Publish.antt =====
-- `_publish_single_review` of pr_agent/tools/pr_reviewer.py: the one review that carries the verdict, against
-- a git provider.
use achord_review.Prelude.{
  ℕ, Bool, true, false, ◌&&◌, not, Option, none, some, List, [], ◌++◌, map, null, take, ltb, ◌==◌,
  if◌then◌else◌,
}
use achord_review.Text.{Text, codes, join, text_eq}
use achord_review.Text.Markup.{escape}
use achord_review.Text.Numbers.{show_ℕ}
use achord_review.Verdict.{Event, approve, request_changes, comment}

-- The states of `VERDICT_EVENT_TO_STATE`
abbrev pub state_of : Event → Text
state_of approve = codes "APPROVED"
state_of request_changes = codes "CHANGES_REQUESTED"
state_of comment = codes "COMMENTED"

-- `OwnVerdict`
pub record OwnVerdict : Type 0 where
  pub state : Option Text
  pub sha : Option Text
  pub review_id : Option ℕ
  pub read_ok : Bool

-- The commit and the id of the review that stands.
abbrev pub Identity : Type 0
Identity = Option Text × Option ℕ

abbrev pub identity : OwnVerdict → Identity
identity verdict = (verdict.sha, verdict.review_id)

unfoldable pub same_text : Option Text → Option Text → Bool
unfolding text_eq
same_text none none = true
same_text (some s) (some t) = text_eq s t
same_text _ _ = false

-- `_verdict_is_newer`
unfoldable pub verdict_is_newer : Identity → Identity → Bool
unfolding same_text
verdict_is_newer (sha, some m) (snapshot_sha, some n) = ltb n m
verdict_is_newer (sha, id) (snapshot_sha, snapshot_id) = not (same_text sha snapshot_sha)

-- `_standing_verdict`; `none` is `_VERDICT_SNAPSHOT_UNSET`, and the argument is `none` where reading raised.
unfoldable pub standing_verdict : Option OwnVerdict → Option Identity
standing_verdict none = none
standing_verdict (some verdict) = if verdict.read_ok then some (identity verdict) else none

-- An inline finding.
pub record Comment : Type 0 where
  pub relevant_file : Text
  pub body : Text

-- What a run has found, when it comes to publish.
pub record Finished : Type 0 where
  pub pr_review : Text
  pub verdict_at_start : Option Identity
  pub comments : List Comment
  pub event : Event
  pub reason : Text
  pub carried_over : ℕ
  pub is_manual : Bool

-- `head_sha and reviewed_sha == head_sha`
unfoldable pub is_reviewed : Option Text → Option Text → Bool
unfolding text_eq
is_reviewed none sha = false
is_reviewed (some head) none = false
is_reviewed (some head) (some sha) = not (null head) && text_eq sha head

-- A run that began later than `snapshot` has answered.
unfoldable pub is_answered : Identity → Option Identity → Bool
unfolding verdict_is_newer
is_answered standing none = false
is_answered standing (some snapshot) = verdict_is_newer standing snapshot

-- The guards: nothing is published.
unfoldable pub stays_silent : OwnVerdict → Option Text → Finished → Bool
unfolding is_reviewed is_answered same_text
stays_silent standing head_sha run =
    if is_reviewed head_sha standing.sha && is_answered (identity standing) run.verdict_at_start
    then true
    else if run.is_manual
    then false
    else if is_reviewed head_sha standing.sha
    then true
    else null run.comments && same_text standing.state (some (state_of run.event))

abbrev pub verdict_line : Text → Text
verdict_line reason = codes "**Verdict:** " ++ (reason ++ codes ".")

abbrev pub short_sha : Option Text → Text
short_sha none = []
short_sha (some sha) = if null sha then [] else codes " `" ++ (take 8 sha ++ codes "`")

abbrev pub seed_of : Option Text → Text
seed_of none = []
seed_of (some sha) = sha

abbrev pub is_approval : Event → Bool
is_approval approve = true
is_approval _ = false

-- The last lines; `clean_review_message` picks a message by a SHA-256 digest of the commit.
unfoldable pub closing_of : (Text → Text) → Option Text → Finished → Text
unfolding show_ℕ
closing_of clean_review_message head_sha run =
    let still =
      if run.carried_over == 1
      then codes "point from the earlier review still stands"
      else codes "points from the earlier review still stand" in
    if is_approval run.event && null run.comments
    then codes "✅ " ++ clean_review_message (seed_of head_sha)
    else if null run.comments && ltb 0 run.carried_over
    then codes "🔁 Re-reviewed"
      ++ (short_sha head_sha
          ++ (codes " - no new findings on this commit. "
              ++ (show_ℕ run.carried_over
                  ++ (codes " "
                      ++ (still
                          ++ (codes "; see the inline comments already on this PR.\n\n"
                              ++ verdict_line run.reason))))))
    else verdict_line run.reason

-- The findings below the review, where they could not be placed.
unfoldable pub without_location : List Comment → Text
unfolding escape join
without_location comments =
    codes "\n\n### Findings without an inline location\n\n"
    ++ join (codes "\n\n---\n\n") (
        map (λ c. codes "<code>" ++ (escape c.relevant_file ++ (codes "</code>\n\n" ++ c.body)))
          comments)

-- The calls of a git provider, on states that are left open; a call answers whether it succeeded.
pub record Provider {ℓ} (W : Type ℓ) : Type ℓ where
  pub latest_own_verdict : W → OwnVerdict
  pub head_commit_sha : W → Option Text
  pub mark_review_verdict_body : Text → Text
  pub publish_code_suggestions : List Comment → Text → Event → W → W × Bool
  pub submit_review_verdict : Event → Text → W → W × Bool

module _ {ℓ} {W : Type ℓ} (provider : Provider W) (clean_review_message : Text → Text) where
  unfoldable pub body_of : Option Text → Finished → Text
  unfolding closing_of
  body_of head_sha run =
      provider.mark_review_verdict_body
        (run.pr_review ++ (codes "\n\n" ++ closing_of clean_review_message head_sha run))

  -- What follows the attempt to publish the findings inline.
  unfoldable pub after_suggestions : Finished → Text → W × Bool → W × Bool
  unfolding without_location
  after_suggestions run body (w, true) = (w, true)
  after_suggestions run body (w, false) =
      provider.submit_review_verdict run.event (body ++ without_location run.comments) w

  unfoldable pub post : Finished → Text → W → W × Bool
  unfolding after_suggestions
  post run body w =
      if null run.comments
      then provider.submit_review_verdict run.event body w
      else after_suggestions run body
          (provider.publish_code_suggestions run.comments body run.event w)

  -- `_publish_single_review_locked`: the new state, and whether the last call succeeded.
  unfoldable pub publish_single_review_locked : Finished → W → W × Bool
  unfolding stays_silent post body_of
  publish_single_review_locked run w =
      if stays_silent (provider.latest_own_verdict w) (provider.head_commit_sha w) run
      then (w, false)
      else post run (body_of (provider.head_commit_sha w) run) w

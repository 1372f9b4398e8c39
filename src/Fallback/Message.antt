-- ===== src/Fallback/Message.antt =====
-- `_bounded_failure_reason` and `_format_all_models_failed` of pr_agent/algo/pr_processing.py.
use achord_review.Prelude.{
  ℕ, ◌+◌, ◌-◌, ◌/◌, min, max, List, [], ◌∷◌, ◌++◌, map, length, take, ltb, null, if◌then◌else◌,
}
use achord_review.Text.{Text, codes, join, newline}
use achord_review.Text.Numbers.{show_ℕ}
use achord_review.Text.Words.{words, repr}

-- An exception: `str(error)` and the name of its class.
pub record Failure : Type 0 where
  pub text : Text
  pub class_name : Text

abbrev pub max_per_model_error_chars : ℕ
max_per_model_error_chars = 500

abbrev pub max_aggregate_error_chars : ℕ
max_aggregate_error_chars = 2000

abbrev pub max_models_in_message : ℕ
max_models_in_message = 8

abbrev pub max_model_label_chars : ℕ
max_model_label_chars = 100

abbrev pub ellipsis : Text
ellipsis = 0x2026 ∷ []

-- `reason[:500] + "…"`, for a reason that is longer
unfoldable pub cut_reason : Text → Text
cut_reason reason =
    if ltb max_per_model_error_chars (length reason)
    then take max_per_model_error_chars reason ++ ellipsis
    else reason

unfoldable pub bounded_failure_reason : Failure → Text
unfolding cut_reason
bounded_failure_reason error =
    let reason = join (codes " ") (words error.text) in
    cut_reason (if null reason then error.class_name else reason)

unfoldable pub label : Text → Text
label model =
    if ltb max_model_label_chars (length model)
    then take (max_model_label_chars - 1) model ++ ellipsis
    else model

-- The attempts that the message lists, and what it says of those it leaves out.
pub record Listing : Type 0 where
  pub listed : List (Text × Text)
  pub marker : Text

abbrev pub last_of : List (Text × Text) → List (Text × Text)
last_of [] = []
last_of (x ∷ []) = x ∷ []
last_of (x ∷ y ∷ xs) = last_of (y ∷ xs)

unfoldable pub listing : List (Text × Text) → Listing
listing reasons =
    let head = take (max_models_in_message - 1) reasons in
    if ltb max_models_in_message (length reasons)
    then record {
      listed = head ++ (codes "<…>", []) ∷ last_of reasons;
      marker =
          codes " (+"
          ++ (show_ℕ (length reasons - length head - 1) ++ codes " more, last attempt below)");
    }
    else record { listed = reasons; marker = [] }

-- `{[_label(model) for model, _ in listed]}`
abbrev pub label_list : List (Text × Text) → Text
unfolding label
label_list listed =
    codes "[" ++ (join (codes ", ") (map (λ x. repr (label x.0)) listed) ++ codes "]")

unfoldable pub header_of : Listing → Text
unfolding label_list
header_of l =
    codes "Failed to generate prediction with any model of "
    ++ (label_list l.listed ++ (l.marker ++ codes ":"))

abbrev pub prefixes_length : List (Text × Text) → ℕ
unfolding label
prefixes_length [] = 0
prefixes_length ((model, _) ∷ listed) =
    length (codes "\n- " ++ (label model ++ codes ": ")) + prefixes_length listed

-- The cap for one reason. The room may be negative in the source; the cap is 1 then as well.
unfoldable pub per_model_cap : Listing → ℕ
unfolding header_of prefixes_length
per_model_cap l =
    let reason_budget =
      max_aggregate_error_chars - length (header_of l) - prefixes_length l.listed in
    max (min (reason_budget / max (length l.listed) 1) max_per_model_error_chars) 1

unfoldable pub line_of : ℕ → Text × Text → Text
unfolding label
line_of cap (model, reason) =
    let shown =
      if null reason
      then ellipsis
      else if ltb cap (length reason)
      then take cap reason ++ ellipsis
      else reason in
    codes "- " ++ (label model ++ (codes ": " ++ shown))

unfoldable pub cut_message : Text → Text
cut_message message =
    if ltb max_aggregate_error_chars (length message)
    then take (max_aggregate_error_chars - 1) message ++ ellipsis
    else message

unfoldable pub format_all_models_failed : List (Text × Text) → Text
unfolding listing header_of per_model_cap line_of cut_message
format_all_models_failed failure_reasons =
    let l = listing failure_reasons in
    cut_message (join newline (header_of l ∷ map (line_of (per_model_cap l)) l.listed))

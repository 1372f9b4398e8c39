-- ===== src/Review/Security.antt =====
-- What a review says about security: `_is_negative_security_summary` and `_is_explicit_security_concern` of
-- pr_agent/algo/review_parser.py.
use achord_review.Prelude.{
  Bool, false, ◌&&◌, ◌||◌, not, Option, none, some, List, [], ◌∷◌, ◌++◌, null, any, ◌==◌,
  if◌then◌else◌,
}
use achord_review.Text.{Text, codes, strip, lower, join, text_eq, starts_with}
use achord_review.Text.Words.{words}
use achord_review.Yaml.{Value, text}

abbrev pub no_security_prefixes : List Text
no_security_prefixes =
    codes "none"
    ∷ codes "n/a"
    ∷ codes "no security concern"
    ∷ codes "no security concerns"
    ∷ codes "no concerns"
    ∷ codes "no finding"
    ∷ codes "no findings"
    ∷ codes "no issues"
    ∷ codes "no vulnerabilities"
    ∷ codes "no vulnerability"
    ∷ codes "not detected"
    ∷ codes "not found"
    ∷ codes "not identified"
    ∷ codes "nothing found"
    ∷ codes "nothing identified"
    ∷ codes "there are no"
    ∷ codes "there is no"
    ∷ []

abbrev pub missing_control_prefixes : List Text
missing_control_prefixes =
    codes "no access control"
    ∷ codes "no authentication"
    ∷ codes "no authorization"
    ∷ codes "no csrf protection"
    ∷ codes "no encryption"
    ∷ codes "no input validation"
    ∷ codes "no nonce validation"
    ∷ codes "no permission check"
    ∷ codes "no rate limiting"
    ∷ codes "no sanitization"
    ∷ []

-- `" ".join(value.strip().lower().split())`
unfoldable pub fold_spaces : Text → Text
unfolding strip lower join
fold_spaces value = join (codes " ") (words (lower (strip value)))

-- The text is the prefix, or goes on behind it with a space.
unfoldable pub has_word_prefix : Text → Text → Bool
unfolding text_eq starts_with
has_word_prefix s prefix = text_eq s prefix || starts_with (prefix ++ codes " ") s

-- `_is_negative_security_summary`
unfoldable pub is_negative_security_summary : Text → Bool
unfolding fold_spaces has_word_prefix
is_negative_security_summary value =
    let normalized = fold_spaces value in
    text_eq normalized (codes "no")
    || (starts_with (codes "no:") normalized
        || any
            (λ prefix.
              has_word_prefix normalized prefix || starts_with (prefix ++ codes ":") normalized)
            no_security_prefixes)

-- `s.partition(":")`: the text before the first colon, and the one behind it if there is a colon.
unfoldable pub partition_colon : Text → Text × Option Text
partition_colon [] = ([], none)
partition_colon (c ∷ s) =
    let rest = partition_colon s in if c == b':' then ([], some s) else (c ∷ rest.0, rest.1)

-- `heading.startswith("no ")`, but for the headings of a control that is missing
unfoldable pub is_generic_negative : Text → Bool
unfolding has_word_prefix
is_generic_negative heading =
    starts_with (codes "no ") heading
    && not (any (has_word_prefix heading) missing_control_prefixes)

-- The heading and the details that a colon divides.
unfoldable pub is_concern : Text × Option Text → Bool
unfolding strip is_generic_negative is_negative_security_summary
is_concern (heading, none) = false
is_concern (heading, some details) =
    not (null (strip heading))
    && (not (null (strip details))
        && (not (is_generic_negative (strip heading))
            && not (is_negative_security_summary details)))

-- `_is_explicit_security_concern`
unfoldable pub is_explicit_security_concern : Value → Bool
unfolding fold_spaces is_negative_security_summary is_concern partition_colon
is_explicit_security_concern (text value) =
    let normalized = fold_spaces value in
    if null normalized || is_negative_security_summary normalized
    then false
    else is_concern (partition_colon normalized)
is_explicit_security_concern _ = false

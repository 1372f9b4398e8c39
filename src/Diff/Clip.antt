-- ===== src/Diff/Clip.antt =====
-- `clip_tokens` of pr_agent/algo/utils.py and `get_max_tokens`.
use achord_review.Prelude.{
  ℕ, Bool, Option, none, some, List, [], ◌∷◌, ◌++◌, take, length, ltb, min, null, ◌==◌,
  if◌then◌else◌,
}
use achord_review.Prelude.Int.{ℤ, pos, leb_ℤ, ltb_ℤ}
use achord_review.Text.{Text, codes, text_eq}

-- The tokenizer package, and the floating-point product
-- `int(0.9 * (num_chars / num_input_tokens) * max_tokens)`.
pub record Tokenizer : Type 0 where
  pub encode_length : Text → ℕ
  pub output_chars : ℕ → ℕ → ℕ → ℕ

-- What stands before the last `\n`, with that line end gone; the whole text if there is none.
abbrev pub before_last_newline : Text → Option Text
before_last_newline [] = none
before_last_newline (c ∷ s) = elim (before_last_newline s) [
  | some front ↦ some (c ∷ front)
  | none ↦ if c == 10 then some [] else none
]

-- `text.rsplit('\n', 1)[0]`
abbrev pub drop_last_line : Text → Text
drop_last_line text = elim (before_last_newline text) [ none ↦ text | some front ↦ front ]

abbrev pub clip_mark : Text
clip_mark = codes "\n...(truncated)"

abbrev pub clipped : Bool → Text → Text
clipped delete_last_line front =
    (if delete_last_line then drop_last_line front else front) ++ clip_mark

-- `max_tokens` when it is not negative.
abbrev pub budget_of : ℤ → ℕ
budget_of (pos n) = n
budget_of _ = 0

-- `clip_tokens(text, max_tokens, num_input_tokens=…, delete_last_line=…)`, with `add_three_dots`.
unfoldable pub clip_tokens : Tokenizer → Text → ℤ → Option ℕ → Bool → Text
clip_tokens tokenizer text max_tokens num_input_tokens delete_last_line =
    let num_tokens : ℕ = elim num_input_tokens [
      | none ↦ tokenizer.encode_length text
      | some n ↦ n
    ] in
    let num_output_chars = tokenizer.output_chars (length text) num_tokens (budget_of max_tokens) in
    if null text
    then text
    else if leb_ℤ (pos num_tokens) max_tokens
    then text
    else if ltb_ℤ max_tokens (pos 0)
    then []
    else if ltb 0 num_output_chars
    then clipped delete_last_line (take num_output_chars text)
    else []

-- The settings that `get_max_tokens` reads: `MAX_TOKENS`, `custom_model_max_tokens` and
-- `max_model_tokens`, where 0 stands for every value that is not positive.
pub record Limits : Type 0 where
  pub max_tokens : List (Text × ℕ)
  pub custom_model_max_tokens : ℕ
  pub max_model_tokens : ℕ

abbrev pub find_limit : Text → List (Text × ℕ) → Option ℕ
find_limit model [] = none
find_limit model ((name, n) ∷ table) = if text_eq model name then some n else find_limit model table

abbrev pub cap_limit : ℕ → ℕ → ℕ
cap_limit cap n = if ltb 0 cap then min cap n else n

-- `none` is the exception that asks for a definition of the model.
unfoldable pub get_max_tokens : Limits → Text → Option ℕ
get_max_tokens limits model = elim (find_limit model limits.max_tokens) [
  | some n ↦ some (cap_limit limits.max_model_tokens n)
  | none ↦
      if ltb 0 limits.custom_model_max_tokens
      then some (cap_limit limits.max_model_tokens limits.custom_model_max_tokens)
      else none
]

-- ===== src/Types.antt =====
-- pr_agent/algo/types.py, and what pr_agent/algo/token_handler.py offers to the diff code.
use achord_review.Prelude.{
  ℕ, Bool, true, Option, List, [], ◌∷◌, arith, ◌≡◌, refl, any, All, Bool-cases, inl, inr, subst,
  sym,
}
use achord_review.Text.{Text, text_eq}

-- `class EDIT_TYPE`
pub data EditType : Type 0 where
  added deleted modified renamed unknown : EditType

-- `class FilePatchInfo`. An empty `patch` stands for `None` too; `tokens` is `none` where the source
-- has `None` or a negative number; a line count is 0 where the source has `None` or -1.
pub record FilePatchInfo : Type 0 where
  pub base_file : Text
  pub head_file : Text
  pub patch : Text
  pub filename : Text
  pub tokens : Option ℕ
  pub edit_type : EditType
  pub num_plus_lines : ℕ
  pub num_minus_lines : ℕ
  pub long_summary : Option Text

-- A `TokenHandler`: the tokens of the prompt, and the tokenizer, which is a package of its own.
pub record TokenHandler : Type 0 where
  pub prompt_tokens : ℕ
  pub count_tokens : Text → ℕ

-- `name in names`
abbrev pub mem_text : Text → List Text → Bool
mem_text name = any (text_eq name)

pub text_eq_refl : (s : Text) → text_eq s s ≡ true
unfolding text_eq
text_eq_refl [] = refl
text_eq_refl (c ∷ s) = ground (arith, text_eq_refl s)

pub text_eq→eq : (s t : Text) → text_eq s t ≡ true → s ≡ t
unfolding text_eq
text_eq→eq [] [] h = refl
text_eq→eq [] (b ∷ t) h = cc
text_eq→eq (a ∷ s) [] h = cc
text_eq→eq (a ∷ s) (b ∷ t) h = ground (arith, text_eq→eq s t)

pub mem_text-All {κ} :
    (P : Text → Type κ) (path : Text) (paths : List Text)
    → All P paths
    → mem_text path paths ≡ true
    → P path
mem_text-All P path [] h e = cc e
mem_text-All P path (other ∷ paths) (p, h) e = elim (Bool-cases (text_eq path other)) [
  | inl same ↦ subst P (sym (text_eq→eq path other same)) p
  | inr differ ↦ mem_text-All P path paths h (rw differ at e)
]

-- ===== src/Patch/Header.antt =====
-- The hunk header `RE_HUNK_HEADER` of pr_agent/algo/git_patch_processing.py and
-- `extract_hunk_headers`. The digits of the class `\d` are the ASCII ones.
pub mod RoundTrip
use achord_review.Prelude.{
  ℕ, String, Bool, ◌||◌, Option, none, some, List, [], ◌∷◌, ◌++◌, null, if◌then◌else◌, ◌==◌,
}
use achord_review.Text.{Text, codes, strip_prefix, starts_with}
use achord_review.Text.Numbers.{is_digit, int_of, show_ℕ}

-- The five groups of a match.
pub record Match : Type 0 where
  pub old_start : Text
  pub old_size : Option Text
  pub new_start : Text
  pub new_size : Option Text
  pub section : Text

infixl 5 ◌>>=◌
abbrev pub ◌>>=◌ {ℓ κ} : {A : Type ℓ} {B : Type κ} → Option A → (A → Option B) → Option B
none >>= f = none
some a >>= f = f a

-- The longest run of digits, and what follows it.
unfoldable pub span_digits : Text → Text × Text
unfolding is_digit
span_digits [] = ([], [])
span_digits (c ∷ s) =
    let (ds, rest) = span_digits s in if is_digit c then (c ∷ ds, rest) else ([], c ∷ s)

-- `(\d+)`
unfoldable pub digits : Text → Option (Text × Text)
unfolding span_digits
digits s = let (ds, rest) = span_digits s in if null ds then none else some (ds, rest)

abbrev pub optional_size : Text → Option (Text × Text) → Option Text × Text
optional_size s none = (none, s)
optional_size s (some (ds, rest)) = (some ds, rest)

-- `(?:,(\d+))?`
unfoldable pub size_group : Text → Option Text × Text
unfolding digits strip_prefix
size_group s = optional_size s (strip_prefix (codes ",") s >>= digits)

abbrev pub drop_space : Text → Text
drop_space [] = []
drop_space (c ∷ s) = if c == 32 then s else c ∷ s

-- `RE_HUNK_HEADER.match(line)`, for a line, which holds no line end
unfoldable pub match_header : Text → Option Match
unfolding strip_prefix
match_header line = do
  s ← strip_prefix (codes "@@ -") line
  (start1, s) ← digits s
  let (size1, s) = size_group s
  s ← strip_prefix (codes " +") s
  (start2, s) ← digits s
  let (size2, s) = size_group s
  s ← strip_prefix (codes " @@") s
  some (record {
    old_start = start1;
    old_size = size1;
    new_start = start2;
    new_size = size2;
    section = drop_space s;
  })

pub record HunkHeader : Type 0 where
  pub section_header : Text
  pub size1 : ℕ
  pub size2 : ℕ
  pub start1 : ℕ
  pub start2 : ℕ

-- `int(res[1]) if res[1] is not None else 1`
abbrev pub size_or_one : Option Text → ℕ
size_or_one none = 1
size_or_one (some ds) = int_of ds

unfoldable pub extract_hunk_headers : Match → HunkHeader
extract_hunk_headers m = record {
  section_header = m.section;
  size1 = size_or_one m.old_size;
  size2 = size_or_one m.new_size;
  start1 = int_of m.old_start;
  start2 = int_of m.new_start;
}

-- ===== src/DiffParsing/RoundTrip.antt =====
-- `reconstruct_base_file` against a list of changes.
use achord_review.Prelude.{
  ℕ, zero, suc, ◌+◌, ◌-◌, ◌≤◌, ◌≡◌, refl, true, false, ◌||◌, Option, none, some, List, [], ◌∷◌,
  ◌++◌, length, take, drop, get_elem?, ltb, ◌==◌, null, false, All, append-nil, append_assoc, arith,
  ap, ap₂, sym, ◌∙◌,
}
use achord_review.Text.{Text}
use achord_review.Text.Lines.{split_lines}
use achord_review.Types.{text_eq_refl}
use achord_review.DiffParsing.{
  HunkLine, context_line, added_line, removed_line, other_line, Hunk, PatchedFile, strip_ends,
  Cursor, is_at, has_line, apply_line, apply_lines, seek, apply_hunks, finish_text, rest_of,
  reconstruct_from, reconstruct_base_file,
}

-- A change of a file: the lines that stand before it, and the lines of its hunk.
pub record Change : Type 0 where
  pub kept : List Text
  pub lines : List HunkLine

abbrev pub targets : List HunkLine → List Text
targets [] = []
targets (context_line value ∷ lines) = strip_ends value ∷ targets lines
targets (added_line value ∷ lines) = strip_ends value ∷ targets lines
targets (removed_line value ∷ lines) = targets lines
targets (other_line value ∷ lines) = targets lines

abbrev pub sources : List HunkLine → List Text
sources [] = []
sources (context_line value ∷ lines) = strip_ends value ∷ sources lines
sources (added_line value ∷ lines) = sources lines
sources (removed_line value ∷ lines) = strip_ends value ∷ sources lines
sources (other_line value ∷ lines) = sources lines

-- The lines of the changed file and of the original one; `tail` stands behind the last change.
abbrev pub head_of : List Change → List Text → List Text
head_of [] tail = tail
head_of (change ∷ changes) tail = change.kept ++ (targets change.lines ++ head_of changes tail)

abbrev pub base_of : List Change → List Text → List Text
base_of [] tail = tail
base_of (change ∷ changes) tail = change.kept ++ (sources change.lines ++ base_of changes tail)

-- A hunk that has lines of the changed file starts at the first of them, one that has none at the line before.
abbrev pub target_start_of : ℕ → List Text → ℕ
target_start_of before [] = before
target_start_of before (_ ∷ _) = suc before

-- The hunks of the patch, the first line of a file being 1.
abbrev pub hunks_of : ℕ → List Change → List Hunk
hunks_of before [] = []
hunks_of before (change ∷ changes) =
    record {
      target_start = target_start_of (before + length change.kept) (targets change.lines);
      lines = change.lines;
    }
    ∷ hunks_of (before + length change.kept + length (targets change.lines)) changes

-- The hunk has a line of the changed file: one that is added or context.
abbrev pub HasTarget : Change → Type 0
HasTarget change = null (targets change.lines) ≡ false

target_start_of-filled :
    (n : ℕ) (lines : List Text) → null lines ≡ false → target_start_of n lines ≡ suc n
target_start_of-filled n [] h = absurd (cc h)
target_start_of-filled n (line ∷ lines) h = refl

get_elem?-drop :
    (i : ℕ) (xs : List Text) (v : Text) (ys : List Text)
    → drop i xs ≡ v ∷ ys
    → get_elem? xs i ≡ some v
get_elem?-drop zero [] v ys h = cc h
get_elem?-drop zero (x ∷ xs) v ys h = cc h
get_elem?-drop (suc i) [] v ys h = cc h
get_elem?-drop (suc i) (x ∷ xs) v ys h = get_elem?-drop i xs v ys h

drop-suc :
    (i : ℕ) (xs : List Text) (v : Text) (ys : List Text) → drop i xs ≡ v ∷ ys → drop (suc i) xs ≡ ys
drop-suc zero [] v ys h = cc h
drop-suc zero (x ∷ xs) v ys h = cc h
drop-suc (suc i) [] v ys h = cc h
drop-suc (suc i) (x ∷ xs) v ys h = drop-suc i xs v ys h

drop-more : (i : ℕ) (xs ys zs : List Text) → drop i xs ≡ ys ++ zs → drop (i + length ys) xs ≡ zs
drop-more i xs [] zs h = ap (λ n. drop n xs) (plus_zero i) ∙ h
  where
    plus_zero : (n : ℕ) → n + 0 ≡ n
    plus_zero n = omega arith
drop-more i xs (y ∷ ys) zs h =
    ap (λ n. drop n xs) (plus_suc i (length ys))
    ∙ drop-more (suc i) xs ys zs (drop-suc i xs y (ys ++ zs) h)
  where
    plus_suc : (m n : ℕ) → m + suc n ≡ suc m + n
    plus_suc m n = omega arith

length-drop :
    (i : ℕ) (xs ys zs : List Text)
    → i ≤ length xs
    → drop i xs ≡ ys ++ zs
    → i + length ys ≤ length xs
length-drop i xs [] zs b h = omega (arith, b)
length-drop zero [] (y ∷ ys) zs b h = cc h
length-drop (suc i) [] (y ∷ ys) zs b h = absurd (omega (arith, b))
length-drop zero (x ∷ xs) (y ∷ ys) zs b h =
    omega (arith, length-drop zero xs ys zs (omega arith) (drop-suc zero (x ∷ xs) y (ys ++ zs) h))
length-drop (suc i) (x ∷ xs) (y ∷ ys) zs b h =
    omega (arith, length-drop i xs (y ∷ ys) zs (omega (arith, b)) h)

take-length-append : (ys zs : List Text) → take (length ys) (ys ++ zs) ≡ ys
take-length-append [] zs = refl
take-length-append (y ∷ ys) zs = ap (◌∷◌ y) (take-length-append ys zs)

abbrev at : List Text → ℕ → Cursor
at base_lines head_idx = record { base_lines = base_lines; head_idx = head_idx }

at_cong :
    (base base2 : List Text) (i j : ℕ) → base ≡ base2 → i ≡ j → some (at base i) ≡ some (at base2 j)
at_cong base base2 i j p q = ap₂ (λ b n. some (at b n)) p q

has_line-drop :
    (head : List Text) (i : ℕ) (v : Text) (rest : List Text)
    → drop i head ≡ v ∷ rest
    → has_line head i v ≡ true
unfolding has_line
has_line-drop head i v rest h =
    ap (λ o. is_at o v) (get_elem?-drop i head v rest h) ∙ text_eq_refl v

-- The lines of a hunk give its source side, and the cursor moves over its target side.
apply_lines-sources :
    (head : List Text) (lines : List HunkLine) (base : List Text) (i : ℕ) (rest : List Text)
    → drop i head ≡ targets lines ++ rest
    → apply_lines head lines (at base i)
      ≡ some (at (base ++ sources lines) (i + length (targets lines)))
unfolding apply_lines apply_line
apply_lines-sources head [] base i rest h = at_cong _ _ _ _ (sym (append-nil base)) (omega arith)
apply_lines-sources head (context_line value ∷ lines) base i rest h =
    let v = strip_ends value in
    rw (has_line-drop head i v (targets lines ++ rest) h) (
      apply_lines-sources head lines (base ++ v ∷ []) (suc i) rest
        (drop-suc i head v (targets lines ++ rest) h)
      ∙ at_cong _ _ _ _ (append_assoc base (v ∷ []) (sources lines)) (omega arith))
apply_lines-sources head (added_line value ∷ lines) base i rest h =
    let v = strip_ends value in
    rw (has_line-drop head i v (targets lines ++ rest) h) (
      apply_lines-sources head lines base (suc i) rest (drop-suc i head v (targets lines ++ rest) h)
      ∙ at_cong _ _ _ _ refl (omega arith))
apply_lines-sources head (removed_line value ∷ lines) base i rest h =
    apply_lines-sources head lines (base ++ strip_ends value ∷ []) i rest h
    ∙ at_cong _ _ _ _ (append_assoc base (strip_ends value ∷ []) (sources lines)) refl
apply_lines-sources head (other_line value ∷ lines) base i rest h =
    apply_lines-sources head lines base i rest h

seek-kept :
    (head kept rest base : List Text) (i : ℕ)
    → i ≤ length head
    → drop i head ≡ kept ++ rest
    → seek head (suc (i + length kept)) (at base i) ≡ some (at (base ++ kept) (i + length kept))
unfolding seek
seek-kept head kept rest base i b h =
    let within : ((suc (i + length kept) == 0)
          || (ltb (suc (i + length kept) - 1) i || ltb (length head) (suc (i + length kept) - 1)))
        ≡ false =
      ground (arith, length-drop i head kept rest b h) in
    rw within (
      at_cong _ _ _ _
        (ap (base ++◌)
          (ap₂ (λ n xs. take n xs) (gap i (length kept)) h ∙ take-length-append kept rest))
        (omega arith))
  where
    gap : (m n : ℕ) → suc (m + n) - 1 - m ≡ n
    gap m n = omega arith

-- The whole of the original file, with what the cursor has left behind it.
rest_lines : List Text → Option Cursor → Option (List Text)
rest_lines head none = none
rest_lines head (some c) = some (c.base_lines ++ drop c.head_idx head)

apply_hunks-base_of :
    (head : List Text) (changes : List Change) (tail base : List Text) (i : ℕ)
    → i ≤ length head
    → drop i head ≡ head_of changes tail
    → All HasTarget changes
    → rest_lines head (apply_hunks head (hunks_of i changes) (at base i))
      ≡ some (base ++ base_of changes tail)
unfolding apply_hunks rest_lines
apply_hunks-base_of head [] tail base i b h t = ap (λ xs. some (base ++ xs)) h
apply_hunks-base_of head (change ∷ changes) tail base i b h (t, ts) =
    let after = targets change.lines ++ head_of changes tail in
    let start = i + length change.kept in
    let here = drop-more i head change.kept after h in
    let further = drop-more start head (targets change.lines) (head_of changes tail) here in
    let b1 = length-drop i head change.kept after b h in
    let b2 = length-drop start head (targets change.lines) (head_of changes tail) b1 here in
    rw
      (
        target_start_of-filled start (targets change.lines) t,
        seek-kept head change.kept after base i b h,
      )
      (rw
        (apply_lines-sources head change.lines (base ++ change.kept) start (head_of changes tail)
          here)
        (apply_hunks-base_of head changes tail ((base ++ change.kept) ++ sources change.lines)
            (start + length (targets change.lines)) b2 further ts
          ∙ ap some (
              append_assoc (base ++ change.kept) (sources change.lines) (base_of changes tail)
              ∙ append_assoc base change.kept (sources change.lines ++ base_of changes tail))))

rest_of-lines :
    (head_file : Text) (head lines : List Text) (o : Option Cursor)
    → rest_lines head o ≡ some lines
    → rest_of head_file head o ≡ finish_text head_file lines
unfolding rest_of rest_lines
rest_of-lines head_file head lines none h = cc h
rest_of-lines head_file head lines (some c) h =
    ap (λ o. finish_text head_file (elim o [ none ↦ [] | some xs ↦ xs ])) h

-- When the patch is that of a list of changes, each of which has a context line or an added line, and the
-- lines of the changed file are what these changes make of the original, reconstruction gives the lines of the original, with the line end of the changed file.
pub reconstruct_base_file-base_of :
    (patch_set : Text → Option (List PatchedFile)) (head_file patch : Text) (file : PatchedFile)
    (changes : List Change) (tail : List Text)
    → patch_set patch ≡ some (file ∷ [])
    → file.hunks ≡ hunks_of 0 changes
    → split_lines head_file ≡ head_of changes tail
    → All HasTarget changes
    → reconstruct_base_file patch_set head_file patch ≡ finish_text head_file (base_of changes tail)
unfolding reconstruct_base_file reconstruct_from
reconstruct_base_file-base_of patch_set head_file patch file changes tail parsed hunks lines
      targeted =
    rw (parsed, hunks)
      (rest_of-lines head_file (split_lines head_file) (base_of changes tail) _ (
        apply_hunks-base_of (split_lines head_file) changes tail [] 0 (omega arith) lines targeted))

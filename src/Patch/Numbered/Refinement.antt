-- ===== src/Patch/Numbered/Refinement.antt =====
-- The loop of `decouple_and_convert_to_hunks_with_lines_numbers` writes the blocks of the patch.
use mathlib.Core.Path.{subst₂}
use achord_review.Prelude.{
  ◌≡◌, refl, Bool, true, false, ◌&&◌, ◌||◌, Option, none, some, List, [], ◌∷◌, ◌++◌, arith, null,
  not, any, keep, keep-append, append-nil, Bool-cases, Option-cases, inl, inr, ◌⊎◌, ap, sym, ◌∙◌,
  if◌then◌else◌,
}
use achord_review.Prelude.Int.{pos}
use achord_review.Text.{Text, rstrip}
use achord_review.Patch.Header.{Match, match_header, extract_hunk_headers}
use achord_review.Patch.Numbered.{
  NumberState, is_eof_note, is_added, is_removed, marks_hunk, is_gap, flush, number_step,
  number_loop, number_start, number_hunks, last_text,
}
use achord_review.Patch.Numbered.Written.{write_hunk-render_lines}
use achord_review.Patch.Numbered.Blocks.{
  Item, opens, holds, items, is_border, Block, blocks, in_new_file, in_old_file, render_block,
  render_blocks, is_opening, first_block, render_patch,
}

abbrev is_some {ℓ} : {A : Type ℓ} → Option A → Bool
is_some none = false
is_some (some _) = true

-- The state of the loop that has read a block up to here.
abbrev state : Text → Block → Bool → NumberState
state text b skip = record {
  text = text;
  new_content_lines = keep in_new_file b.body;
  old_content_lines = keep in_old_file b.body;
  header_line = b.header;
  start2 = b.start;
  skip_hunk = skip;
}

null-kept :
    (body : List Text) → (null (keep in_new_file body) && null (keep in_old_file body)) ≡ null body
null-kept [] = refl
null-kept ([] ∷ body) = refl
null-kept ((c ∷ l) ∷ body) = ground arith

flush-state :
    (text : Text) (b : Block) (skip : Bool) → flush (state text b skip) ≡ render_block text b
unfolding flush render_block
flush-state text b skip = rw (null-kept, write_hunk-render_lines text b.header b.start b.body)

abbrev hold : Block → Text → Block
hold b line = record b { body = b.body ++ line ∷ [] }

-- Added, removed and shared lines that are held.
step-hold :
    (is_first : Bool) (text : Text) (b : Block) (line : Text) (rest : List Text)
    → is_eof_note line ≡ false
    → marks_hunk line ≡ false
    → is_gap is_first line rest ≡ false
    → number_step is_first (state text b false) line rest ≡ state text (hold b line) false
unfolding number_step
step-hold is_first text b [] rest e m g =
    rw (e, m, g, keep-append in_new_file b.body, keep-append in_old_file b.body)
step-hold is_first text b (c ∷ l) rest e m g =
    rw (e, m, keep-append in_new_file b.body, keep-append in_old_file b.body)
      (ground (arith, append-nil (keep in_new_file b.body), append-nil (keep in_old_file b.body)))

gap-shared :
    (is_first : Bool) (line : Text) (rest : List Text)
    → is_gap is_first line rest ≡ true
    → (is_added line ≡ false) × (is_removed line ≡ false)
gap-shared is_first [] rest h = (refl, refl)
gap-shared is_first (c ∷ l) rest h = cc

-- Lines that no block has.
step-drop :
    (is_first : Bool) (s : NumberState) (line : Text) (rest : List Text)
    → is_eof_note line ≡ false
    → marks_hunk line ≡ false
    → (s.skip_hunk || is_gap is_first line rest) ≡ true
    → number_step is_first s line rest ≡ s
unfolding number_step
step-drop is_first s line rest e m g = elim (Bool-cases s.skip_hunk) [
  | inl skip ↦ rw (e, m, skip)
  | inr reads ↦
      let gap : is_gap is_first line rest ≡ true = rw reads at g in
      rw (
        e,
        m,
        reads,
        (gap-shared is_first line rest gap).0,
        (gap-shared is_first line rest gap).1,
        gap,
      )
]

step-open :
    (is_first : Bool) (text : Text) (b : Block) (skip : Bool) (line : Text) (rest : List Text)
    (m : Match)
    → is_eof_note line ≡ false
    → marks_hunk line ≡ true
    → match_header line ≡ some m
    → number_step is_first (state text b skip) line rest
      ≡ state
          (render_block text b)
          (record { header = some line; start = pos ((extract_hunk_headers m).start2); body = [] })
          false
unfolding number_step
step-open is_first text b skip line rest m e k h = rw (e, k, h, flush-state)

step-broken :
    (is_first : Bool) (text : Text) (b : Block) (skip : Bool) (line : Text) (rest : List Text)
    → is_eof_note line ≡ false
    → marks_hunk line ≡ true
    → match_header line ≡ none
    → number_step is_first (state text b skip) line rest ≡ state text b true
unfolding number_step
step-broken is_first text b skip line rest e k h = rw (e, k, h)

step-note :
    (is_first : Bool) (s : NumberState) (line : Text) (rest : List Text)
    → is_eof_note line ≡ true
    → number_step is_first s line rest ≡ s
unfolding number_step
step-note is_first s line rest e = rw e

-- What the loop comes to on the rest of the patch.
abbrev EndsAs : NumberState → Text → Block → List Item → Type 0
EndsAs s text b is =
    (flush s ≡ render_blocks text (blocks b is))
    × (is_some s.header_line ≡ (is_some b.header || any is_opening is))

is_gap-border :
    (is_first : Bool) (line : Text) (rest : List Text)
    → is_gap is_first line rest ≡ (null line && not is_first && is_border rest)
is_gap-border is_first line [] = refl
is_gap-border is_first line (next ∷ rest) = refl

items-note :
    (is_first skip : Bool) (line : Text) (rest : List Text)
    → is_eof_note line ≡ true
    → items is_first skip (line ∷ rest) ≡ items false skip rest
unfolding items is_eof_note
items-note is_first skip line rest e = rw e

items-broken :
    (is_first skip : Bool) (line : Text) (rest : List Text)
    → is_eof_note line ≡ false
    → marks_hunk line ≡ true
    → match_header line ≡ none
    → items is_first skip (line ∷ rest) ≡ items false true rest
unfolding items is_eof_note
items-broken is_first skip line rest e m h = rw (e, m, h)

items-open :
    (is_first skip : Bool) (line : Text) (rest : List Text) (k : Match)
    → is_eof_note line ≡ false
    → marks_hunk line ≡ true
    → match_header line ≡ some k
    → items is_first skip (line ∷ rest)
      ≡ opens line ((extract_hunk_headers k).start2) ∷ items false false rest
unfolding items is_eof_note
items-open is_first skip line rest k e m h = rw (e, m, h)

items-drop :
    (is_first skip : Bool) (line : Text) (rest : List Text)
    → is_eof_note line ≡ false
    → marks_hunk line ≡ false
    → (skip || is_gap is_first line rest) ≡ true
    → items is_first skip (line ∷ rest) ≡ items false skip rest
unfolding items is_eof_note
items-drop is_first skip line rest e m d =
    rw (e, m, ap (skip ||◌) (sym (is_gap-border is_first line rest)) ∙ d)

items-hold :
    (is_first : Bool) (line : Text) (rest : List Text)
    → is_eof_note line ≡ false
    → marks_hunk line ≡ false
    → is_gap is_first line rest ≡ false
    → items is_first false (line ∷ rest) ≡ holds line ∷ items false false rest
unfolding items is_eof_note
items-hold is_first line rest e m d = rw (e, m, sym (is_gap-border is_first line rest) ∙ d)

-- The loop goes on from the state after this line, and the specification from the items behind it.
resume :
    {s t : NumberState} {is js : List Item} (rest : List Text) (text : Text) (b : Block)
    → t ≡ s
    → js ≡ is
    → EndsAs (number_loop false s rest) text b is
    → EndsAs (number_loop false t rest) text b js
resume rest text b p q h =
    subst₂ (λ t js. EndsAs (number_loop false t rest) text b js) (sym p) (sym q) h

abbrev opened_block : Text → Match → Block
opened_block line k = record {
  header = some line;
  start = pos ((extract_hunk_headers k).start2);
  body = [];
}

opened :
    (s : NumberState) (text : Text) (b : Block) (line : Text) (k : Match) (is : List Item)
    → EndsAs s (render_block text b) (opened_block line k) is
    → EndsAs s text b (opens line ((extract_hunk_headers k).start2) ∷ is)
unfolding blocks render_blocks
opened s text b line k is h = (h.0, h.1 ∙ ground arith)

loop-blocks :
    (lines : List Text) (is_first : Bool) (text : Text) (b : Block) (skip : Bool)
    → EndsAs (number_loop is_first (state text b skip) lines) text b (items is_first skip lines)
unfolding number_loop
loop-blocks [] is_first text b skip =
    unfold items blocks render_blocks in (flush-state text b skip, ground arith)
loop-blocks (line ∷ rest) is_first text b skip = elim (Bool-cases (is_eof_note line)) [
  | inl e ↦
      resume rest text b (step-note is_first (state text b skip) line rest e)
        (items-note is_first skip line rest e) (loop-blocks rest false text b skip)
  | inr e ↦ elim (Bool-cases (marks_hunk line)) [
    | inl m ↦ elim (Option-cases (match_header line)) [
      | inl h ↦
          resume rest text b (step-broken is_first text b skip line rest e m h)
            (items-broken is_first skip line rest e m h) (loop-blocks rest false text b true)
      | inr (k, h) ↦
          resume rest text b (step-open is_first text b skip line rest k e m h)
            (items-open is_first skip line rest k e m h)
            (opened _ text b line k (items false false rest)
              (loop-blocks rest false (render_block text b) (opened_block line k) false))
    ]
    | inr m ↦ elim (Bool-cases (skip || is_gap is_first line rest)) [
      | inl d ↦
          resume rest text b (step-drop is_first (state text b skip) line rest e m d)
            (items-drop is_first skip line rest e m d) (loop-blocks rest false text b skip)
      | inr d ↦
          hold_line line rest is_first text b skip e m d
            (loop-blocks rest false text (hold b line) false)
    ]
  ]
]
  where
    hold_line :
        (line : Text) (rest : List Text) (is_first : Bool) (text : Text) (b : Block) (skip : Bool)
        → is_eof_note line ≡ false
        → marks_hunk line ≡ false
        → (skip || is_gap is_first line rest) ≡ false
        → EndsAs
            (number_loop false (state text (hold b line) false) rest)
            text
            (hold b line)
            (items false false rest)
        → EndsAs
            (number_loop false (number_step is_first (state text b skip) line rest) rest)
            text
            b
            (items is_first skip (line ∷ rest))
    hold_line line rest is_first text b true e m d ih = cc
    hold_line line rest is_first text b false e m d ih =
        resume rest text b (step-hold is_first text b line rest e m d)
          (items-hold is_first line rest e m d) (unfold blocks in ih)

-- As long as no header has matched, nothing is written.
abbrev IsQuiet : Text → NumberState → Type 0
IsQuiet heading s = (is_some s.header_line ≡ true) ⊎ (s.text ≡ heading)

step-IsQuiet :
    (heading : Text) (is_first : Bool) (s : NumberState) (line : Text) (rest : List Text)
    → IsQuiet heading s
    → IsQuiet heading (number_step is_first s line rest)
unfolding number_step
step-IsQuiet heading is_first s line rest h = ground arith

loop-IsQuiet :
    (heading : Text) (lines : List Text) (is_first : Bool) (s : NumberState)
    → IsQuiet heading s
    → IsQuiet heading (number_loop is_first s lines)
unfolding number_loop
loop-IsQuiet heading [] is_first s h = h
loop-IsQuiet heading (line ∷ rest) is_first s h =
    loop-IsQuiet heading rest false (number_step is_first s line rest)
      (step-IsQuiet heading is_first s line rest h)

last_text-eq :
    (s : NumberState) (o : Option Text) → last_text s o ≡ (if is_some o then flush s else s.text)
last_text-eq s none = refl
last_text-eq s (some header) = refl

last_text-blocks :
    (s : NumberState) (heading : Text) (is : List Item)
    → EndsAs s heading first_block is
    → IsQuiet heading s
    → last_text s s.header_line
      ≡ (if any is_opening is then render_blocks heading (blocks first_block is) else heading)
last_text-blocks s heading is (text, seen) quiet =
    last_text-eq s s.header_line ∙ ground (arith, text, seen, quiet)

-- The text that the loop and the last flush write is that of the blocks of the patch: a hunk without lines
-- is left out, one without added and removed lines is its header, and every other one is its header and the
-- lines of the new file, the one with index `i` numbered `start + i` for the start that the header gives,
-- with the lines of the old file behind them if some line is removed. Notes on a missing line end, empty lines
-- before a header or at the end, and the lines behind a header that cannot be read are left out; without a
-- readable header there is only the heading.
pub number_hunks-render_patch :
    (heading : Text) (patch_lines : List Text)
    → number_hunks heading patch_lines ≡ render_patch heading (items true false patch_lines)
unfolding number_hunks render_patch
number_hunks-render_patch heading patch_lines = ap rstrip (
    last_text-blocks (number_loop true (number_start heading) patch_lines) heading
      (items true false patch_lines) (loop-blocks patch_lines true heading first_block false)
      (loop-IsQuiet heading patch_lines true (number_start heading) (inr refl)))

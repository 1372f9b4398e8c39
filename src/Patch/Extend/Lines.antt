-- ===== src/Patch/Extend/Lines.antt =====
-- The lines of a patch that `process_patch_lines` copies.
use mathlib.Core.List.{Sublist, sublist-append_left}
use mathlib.Core.List.Sublist
use achord_review.Prelude.{
  ◌≡◌, Bool, true, false, ◌&&◌, not, none, some, List, [], ◌∷◌, ◌++◌, append_assoc, append-nil,
  keep, Bool-cases, Option-cases, inl, inr, ltb, subst,
}
use achord_review.Text.{Text, codes, starts_with}
use achord_review.Patch.Header.{match_header}
use achord_review.Patch.Extend.{
  ExtendState, extend_step, extend_loop, finish_hunk, extend_start, lines_after,
}
use achord_review.Patch.Extend.Layout.{Context}

-- A line that is copied as it stands: any but a hunk header, which is written anew.
abbrev pub is_copied : Text → Bool
is_copied line =
    not
      (starts_with (codes "@@") line && (elim (match_header line) [ none ↦ false | some _ ↦ true ]))

-- The lines of a patch that `process_patch_lines` writes, before they are joined.
abbrev pub extended_lines : Context → List Text → List Text
extended_lines cx patch_lines = finish_hunk cx (extend_loop cx extend_start patch_lines)

finish-sublist :
    (cx : Context) (s : ExtendState) → Sublist s.extended_patch_lines (finish_hunk cx s)
unfolding finish_hunk
finish-sublist cx s = elim (Bool-cases (s.is_valid_hunk && ltb 0 cx.extra_after)) [
  | inl more ↦ rw more (sublist-append_left s.extended_patch_lines (lines_after cx s.hunk))
  | inr stop ↦ rw stop (Sublist.refl s.extended_patch_lines)
]

step-copied :
    (cx : Context) (s : ExtendState) (line : Text) (rest : List Text)
    → is_copied line ≡ true
    → (extend_step cx s line rest).extended_patch_lines ≡ s.extended_patch_lines ++ line ∷ []
unfolding extend_step
step-copied cx s line rest h = elim (Bool-cases (starts_with (codes "@@") line)) [
  | inl m ↦ elim (Option-cases (match_header line)) [
    | inl absent ↦ rw (m, absent)
    | inr (k, present) ↦ cc (rw (m, present) at h)
  ]
  | inr m ↦ rw m
]

step-sublist :
    (cx : Context) (s : ExtendState) (line : Text) (rest : List Text)
    → Sublist s.extended_patch_lines (extend_step cx s line rest).extended_patch_lines
unfolding extend_step
step-sublist cx s line rest = elim (Bool-cases (starts_with (codes "@@") line)) [
  | inl m ↦ elim (Option-cases (match_header line)) [
    | inl absent ↦ rw (m, absent) (sublist-append_left _ _)
    | inr (k, present) ↦
        rw (m, present) (Sublist.trans (finish-sublist cx s) (sublist-append_left _ _))
  ]
  | inr m ↦ rw m (sublist-append_left _ _)
]

loop-sublist :
    (cx : Context) (s : ExtendState) (lines : List Text)
    → Sublist
        (s.extended_patch_lines ++ keep is_copied lines)
        (finish_hunk cx (extend_loop cx s lines))
unfolding extend_loop
loop-sublist cx s [] = rw append-nil (finish-sublist cx s)
loop-sublist cx s (line ∷ lines) =
    let ih = loop-sublist cx (extend_step cx s line lines) lines in
    elim (Bool-cases (is_copied line)) [
      | inl copied ↦
          rw (copied, ← append_assoc s.extended_patch_lines (line ∷ []) (keep is_copied lines))
            (subst
              (λ t.
                Sublist (t ++ keep is_copied lines)
                  (finish_hunk cx (extend_loop cx (extend_step cx s line lines) lines)))
              (step-copied cx s line lines copied) ih)
      | inr rewritten ↦ rw rewritten (
          Sublist.trans
            (Sublist.append (step-sublist cx s line lines) (Sublist.refl (keep is_copied lines)))
            ih)
    ]

-- Extending a patch loses none of its lines: all lines but the hunk headers stand in the result, in
-- their order.
pub extended_lines-sublist :
    (cx : Context) (patch_lines : List Text)
    → Sublist (keep is_copied patch_lines) (extended_lines cx patch_lines)
extended_lines-sublist cx patch_lines = loop-sublist cx extend_start patch_lines

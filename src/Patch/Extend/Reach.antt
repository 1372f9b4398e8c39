-- ===== src/Patch/Extend/Reach.antt =====
-- The numbers that `_calc_context_limits` and the placing of context lines leave for a hunk.
use achord_review.Prelude.{
  ℕ, suc, ◌+◌, ◌-◌, ◌≤◌, ◌≡◌, refl, true, false, length, arith, ltb, Bool-cases, inl, inr, ap,
}
use achord_review.Prelude.Int.{ℤ, pos, negsuc, pos_part, neg_part, ◌+ℤ◌, ◌-ℤ◌, ltb_ℤ, -ℤ_parts}
use achord_review.Patch.Header.{HunkHeader}
use achord_review.Patch.Extend.Layout.{max_ℤ, Context, Extent, shift_extent, calc_context_limits}

-- The extent begins in the file and not behind the hunk, and reaches at least as far as the hunk, with at most
-- the extra lines behind it, and not over the end of the original file.
abbrev pub IsReach : Context → HunkHeader → Extent → Type 0
IsReach cx h e =
    (a : ℕ) × (b : ℕ) × (c : ℕ) × (d : ℕ) × (e
      ≡ record { start1 = pos a; size1 = pos b; start2 = pos c; size2 = pos d })
    × (1 ≤ a)
    × (a ≤ h.start1)
    × (h.size1 + h.start1 ≤ b + a)
    × (b + a ≤ h.size1 + h.start1 + cx.extra_after)
    × (b + a ≤ suc (length cx.original_lines))
    × (1 ≤ c)
    × (c ≤ h.start2)
    × (h.size2 + h.start2 ≤ d + c)
    × (d + c ≤ h.size2 + h.start2 + cx.extra_after)

max_start :
    (s before : ℕ)
    → 1 ≤ s
    → (a : ℕ) × (max_ℤ (pos 1) (pos s -ℤ pos before) ≡ pos a) × (1 ≤ a) × (a ≤ s)
unfolding ◌-ℤ◌
max_start s before h = elim (Bool-cases (ltb 1 (s - before))) [
  | inl large ↦ (s - before, ground arith, ground arith, ground arith)
  | inr small ↦ (1, ground arith, ground arith, ground arith)
]

pub sub_pos : (a i : ℕ) → i ≤ a → pos a -ℤ pos i ≡ pos (a - i)
unfolding ◌-ℤ◌
sub_pos a i h = ground arith

add_pos : (a i : ℕ) → pos a +ℤ pos i ≡ pos (a + i)
unfolding ◌+ℤ◌
add_pos a i = ground arith

max_pos :
    (x : ℤ) (n m most : ℕ)
    → m + neg_part x ≤ pos_part x
    → pos_part x ≤ most
    → n ≤ most
    → (b : ℕ) × (max_ℤ x (pos n) ≡ pos b) × (m ≤ b) × (b ≤ most)
max_pos (pos k) n m most h g f = elim (Bool-cases (ltb k n)) [
  | inl small ↦ (n, ground arith, ground arith, ground arith)
  | inr large ↦ (k, ground arith, ground arith, ground arith)
]
max_pos (negsuc k) n m most h g f = absurd (omega (arith, h))

-- A shift that stays in front of the hunk.
pub shift_extent-IsReach :
    (cx : Context) (h : HunkHeader) (e : Extent) (i : ℕ)
    → i + pos_part e.start1 ≤ h.start1
    → i + pos_part e.start2 ≤ h.start2
    → IsReach cx h e
    → IsReach cx h (shift_extent e i)
shift_extent-IsReach cx h e i left right (a, b, c, d, same, a1, a2, ab, am, al, c1, c2, cd, dm) =
    let ia : i + a ≤ h.start1 = omega (arith, ap (λ x. pos_part x.start1) same) in
    let ic : i + c ≤ h.start2 = omega (arith, ap (λ x. pos_part x.start2) same) in
    (
      a + i,
      b - i,
      c + i,
      d - i,
      rw (same, add_pos a i, add_pos c i, sub_pos b i (omega arith), sub_pos d i (omega arith))
          refl,
      omega arith,
      omega arith,
      omega arith,
      omega arith,
      omega arith,
      omega arith,
      omega arith,
      omega arith,
      omega arith,
    )

size_pos :
    (size s a after : ℕ)
    → a ≤ s
    → pos size +ℤ (pos s -ℤ pos a) +ℤ pos after ≡ pos (size + (s - a) + after)
size_pos size s a after h = rw (sub_pos s a h, add_pos, add_pos) refl

-- The lines that stand over the end of the file, of an extent that begins at `a` and has `size` lines.
delta_le :
    (a size len m : ℕ) (x : ℤ)
    → a + size ≤ len + m + 1
    → x ≡ pos a -ℤ pos 1 +ℤ pos size -ℤ pos len
    → pos_part x ≤ m + neg_part x
unfolding ◌+ℤ◌ ◌-ℤ◌
delta_le a size len m x h e = rw e (ground arith)

-- What is left of a size when these are taken away.
less_delta :
    (size m n : ℕ) (x : ℤ)
    → pos_part x ≤ m + neg_part x
    → n + m ≤ size
    → n + neg_part (pos size -ℤ x) ≤ pos_part (pos size -ℤ x)
less_delta size m n x h k = omega (arith, -ℤ_parts (pos size) x)

delta_parts :
    (a size len : ℕ)
    → pos_part (pos a -ℤ pos 1 +ℤ pos size -ℤ pos len) + 1 + len
      ≡ neg_part (pos a -ℤ pos 1 +ℤ pos size -ℤ pos len) + a + size
unfolding ◌+ℤ◌ ◌-ℤ◌
delta_parts a size len = ground arith

ltb_pos : (x : ℤ) → ltb_ℤ (pos 0) x ≡ true → neg_part x ≤ pos_part x
ltb_pos x h = ground arith

ltb_pos_false : (x : ℤ) → ltb_ℤ (pos 0) x ≡ false → pos_part x ≤ neg_part x
ltb_pos_false x h = ground arith

-- The most that is left of a size.
cut_size :
    (size : ℕ) (x : ℤ) (most : ℕ)
    → size + neg_part x ≤ most + pos_part x
    → pos_part (pos size -ℤ x) ≤ most
unfolding ◌-ℤ◌
cut_size size x most h = ground arith

module _ (cx : Context) (h : HunkHeader) (before : ℕ) where
  -- The hunk begins in both files, and ends in the original one.
  pub calc_context_limits-IsReach :
      1 ≤ h.start1
      → 1 ≤ h.start2
      → h.start1 + h.size1 ≤ suc (length cx.original_lines)
      → IsReach cx h (calc_context_limits cx h before)
  unfolding calc_context_limits
  calc_context_limits-IsReach h1 h2 inside =
      let (a, ea, a1, a2) = max_start h.start1 before h1 in
      let (c, ec, c1, c2) = max_start h.start2 before h2 in
      let len = length cx.original_lines in
      let size1 = h.size1 + (h.start1 - a) + cx.extra_after in
      let size2 = h.size2 + (h.start2 - c) + cx.extra_after in
      let delta = pos a -ℤ pos 1 +ℤ pos size1 -ℤ pos len in
      let over : pos_part delta ≤ cx.extra_after + neg_part delta =
        delta_le a size1 len cx.extra_after delta (omega arith) refl in
      let stay1 = h.size1 + (h.start1 - a) in
      let stay2 = h.size2 + (h.start2 - c) in
      let parts = delta_parts a size1 len in
      elim (Bool-cases (ltb_ℤ (pos 0) delta)) [
        | inl far ↦
            let beyond = ltb_pos delta far in
            let (b, eb, b1, b2) =
              max_pos (pos size1 -ℤ delta) h.size1 stay1 (len + 1 - a)
                (less_delta size1 cx.extra_after stay1 delta over (omega arith))
                (cut_size size1 delta (len + 1 - a) (omega (arith, parts))) (omega arith) in
            let (d, ed, d1, d2) =
              max_pos (pos size2 -ℤ delta) h.size2 stay2 size2
                (less_delta size2 cx.extra_after stay2 delta over (omega arith))
                (cut_size size2 delta size2 (omega (arith, beyond))) (omega arith) in
            rw
              (
                ea,
                ec,
                size_pos h.size1 h.start1 a cx.extra_after a2,
                size_pos h.size2 h.start2 c cx.extra_after c2,
                far,
                eb,
                ed,
              )
              (
                a,
                b,
                c,
                d,
                refl,
                a1,
                a2,
                omega arith,
                omega (arith, beyond, parts),
                omega arith,
                c1,
                c2,
                omega arith,
                omega arith,
              )
        | inr near ↦
            let within = ltb_pos_false delta near in
            rw
              (
                ea,
                ec,
                size_pos h.size1 h.start1 a cx.extra_after a2,
                size_pos h.size2 h.start2 c cx.extra_after c2,
                near,
              )
              (
                a,
                size1,
                c,
                size2,
                refl,
                a1,
                a2,
                omega arith,
                omega arith,
                omega (arith, within, parts),
                c1,
                c2,
                omega arith,
                omega arith,
              )
      ]

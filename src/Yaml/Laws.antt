-- ===== src/Yaml/Laws.antt =====
-- Reading a dictionary behind a write.
use achord_review.Prelude.{◌≡◌, refl, false, Bool-cases, inl, inr, subst}
use achord_review.Text.{Text, text_eq}
use achord_review.Types.{text_eq→eq, text_eq_refl}
use achord_review.Yaml.{Value, Fields, end, field, get, set}

pub get-set_same : (k : Text) (v : Value) (d : Fields) → get k (set k v d) ≡ v
unfolding get set
get-set_same k v end = rw (text_eq_refl k) refl
get-set_same k v (field j w d) = elim (Bool-cases (text_eq k j)) [
  | inl same ↦ rw same (rw same refl)
  | inr differ ↦ rw (differ, differ) (get-set_same k v d)
]

pub get-set_other :
    (j k : Text) (v : Value) (d : Fields) → text_eq j k ≡ false → get j (set k v d) ≡ get j d
unfolding get set
get-set_other j k v end h = rw h refl
get-set_other j k v (field i w d) h = elim (Bool-cases (text_eq k i)) [
  | inl same ↦
      let other : text_eq j i ≡ false = subst (λ n. text_eq j n ≡ false) (text_eq→eq k i same) h in
      rw same (rw other refl)
  | inr differ ↦ rw differ (elim (Bool-cases (text_eq j i)) [
    | inl found ↦ rw found refl
    | inr further ↦ rw further (get-set_other j k v d h)
  ])
]

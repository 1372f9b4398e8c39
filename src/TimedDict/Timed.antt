-- ===== src/TimedDict/Timed.antt =====
-- Which entries of the dictionary have a time, so that a refresh can find them when they are too old.
use achord_review.Prelude.{
  ℕ, Bool, ◌⊎◌, true, false, ◌&&◌, ◌||◌, not, Option, none, some, List, [], ◌∷◌, ltb, ◌≡◌, refl,
  ◌∙◌, sym, subst, arith, Bool-cases, inl, inr,
}
use achord_review.Text.{Text, text_eq}
use achord_review.Types.{mem_text, text_eq_refl, text_eq→eq}
use achord_review.TimedDict.{
  has_key, get, put, without, Policy, TimedDict, new_dict, delete_all, refresh, refresh_after,
  set_item, del_item, touch, missing, found_or_missing, get_item, kept_or_set, set_default, Use,
  sets, sets_default, reads, deletes, use_dict, use_all, expired_keys,
}

module _ {ℓ} {V : Type ℓ} where
  has_key-put :
      (n k : Text) (v : V) (es : List (Text × V))
      → has_key n (put k v es) ≡ (text_eq n k || has_key n es)
  unfolding put
  has_key-put n k v [] = refl
  has_key-put n k v ((j, w) ∷ es) = elim (Bool-cases (text_eq k j)) [
    | inl same ↦ rw same (
        subst (λ x. (text_eq n j || has_key n es) ≡ (text_eq n x || (text_eq n j || has_key n es)))
          (sym (text_eq→eq k j same)) (ground arith))
    | inr other ↦ rw other (ground (arith, has_key-put n k v es))
  ]

  has_key-without :
      (n : Text) (ks : List Text) (es : List (Text × V))
      → has_key n (without ks es) ≡ (has_key n es && not (mem_text n ks))
  has_key-without n ks [] = refl
  has_key-without n ks ((j, w) ∷ es) = elim (Bool-cases (text_eq n j)) [
    | inl same ↦
        subst
          (λ x.
            has_key n (without ks ((x, w) ∷ es)) ≡ (has_key n ((x, w) ∷ es) && not (mem_text n ks)))
          (text_eq→eq n j same) (ground (arith, text_eq_refl n, has_key-without n ks es))
    | inr other ↦ ground (arith, has_key-without n ks es)
  ]

module _ {ℓ} {V : Type ℓ} (policy : Policy V) (untimed : List (Text × V)) where
  -- Every key of the entries has a time, or is one of `untimed`.
  abbrev IsTimed : TimedDict V → Type 0
  IsTimed d =
      (n : Text) → has_key n d.entries ≡ true → (has_key n d.key_times || has_key n untimed) ≡ true

  delete_all-IsTimed :
      (ks : List Text) (d : TimedDict V) → IsTimed d → IsTimed (delete_all policy ks d)
  delete_all-IsTimed ks d t n h =
      let there = t n in
      ground (arith, h, there, has_key-without n ks d.entries, has_key-without n ks d.key_times)

  set_item-IsTimed :
      (now : ℕ) (k : Text) (v : V) (d : TimedDict V)
      → IsTimed d
      → IsTimed (set_item policy now k v d)
  unfolding set_item
  set_item-IsTimed now k v d t n h =
      let there = t n in
      ground (arith, h, there, has_key-put n k v d.entries, has_key-put n k now d.key_times)

  touch-IsTimed :
      (now : ℕ) (k : Text) (d : TimedDict V) → IsTimed d → IsTimed (touch policy now k d)
  touch-IsTimed now k d t = elim (Bool-cases policy.update_key_time_on_get) [
    | inl on ↦
        rw on (λ n h. let there = t n h in ground (arith, there, has_key-put n k now d.key_times))
    | inr off ↦ rw off t
  ]

  refresh_after-IsTimed :
      (now : ℕ) (o : Option ℕ) (d : TimedDict V)
      → IsTimed d
      → IsTimed (refresh_after policy now o d)
  refresh_after-IsTimed now none d t = t
  refresh_after-IsTimed now (some ttl) d t = elim (Bool-cases (ltb now d.due)) [
    | inl early ↦ rw early t
    | inr due ↦ rw due (delete_all-IsTimed (expired_keys policy now ttl d.key_times) d t)
  ]

  refresh-IsTimed : (now : ℕ) (d : TimedDict V) → IsTimed d → IsTimed (refresh policy now d)
  unfolding refresh
  refresh-IsTimed now d t = refresh_after-IsTimed now policy.ttl d t

  get-absent : (k : Text) (es : List (Text × V)) → get k es ≡ none → has_key k es ≡ false
  unfolding get
  get-absent k [] h = refl
  get-absent k ((j, v) ∷ es) h = elim (Bool-cases (text_eq k j)) [
    | inl same ↦ cc (rw same at h)
    | inr other ↦ rw other (get-absent k es (rw other at h))
  ]

  -- The time of a key that has no entry may go.
  drop_time-IsTimed :
      (k : Text) (d : TimedDict V)
      → has_key k d.entries ≡ false
      → IsTimed d
      → IsTimed (record d { key_times = without (k ∷ []) d.key_times })
  drop_time-IsTimed k d absent t n h = elim (Bool-cases (text_eq n k)) [
    | inl same ↦
        absurd (cc (sym absent ∙ subst (λ x. has_key x d.entries ≡ true) (text_eq→eq n k same) h))
    | inr other ↦
        let there = t n h in ground (arith, there, other, has_key-without n (k ∷ []) d.key_times)
  ]

  missing-IsTimed :
      (now : ℕ) (k : Text) (o : Option V) (d : TimedDict V)
      → has_key k d.entries ≡ false
      → IsTimed d
      → IsTimed (missing policy now k o d).1
  missing-IsTimed now k none d absent t = drop_time-IsTimed k d absent t
  missing-IsTimed now k (some v) d absent t = set_item-IsTimed now k v d t

  found_or_missing-IsTimed :
      (now : ℕ) (k : Text) (o : Option V) (d : TimedDict V)
      → get k d.entries ≡ o
      → IsTimed d
      → IsTimed (found_or_missing policy now k o d).1
  found_or_missing-IsTimed now k none d e t =
      missing-IsTimed now k policy.default_factory d (get-absent k d.entries e) t
  found_or_missing-IsTimed now k (some v) d e t = t

  kept_or_set-IsTimed :
      (now : ℕ) (k : Text) (v : V) (o : Option V) (d : TimedDict V)
      → IsTimed d
      → IsTimed (kept_or_set policy now k v o d).1
  kept_or_set-IsTimed now k v none d t = set_item-IsTimed now k v d t
  kept_or_set-IsTimed now k v (some w) d t = touch-IsTimed now k d t

  use_dict-IsTimed : (u : Use policy) (d : TimedDict V) → IsTimed d → IsTimed (use_dict policy u d)
  unfolding use_dict get_item set_default del_item
  use_dict-IsTimed (sets now k v) d t = set_item-IsTimed now k v d t
  use_dict-IsTimed (sets_default now k v) d t =
      kept_or_set-IsTimed now k v _ (refresh policy now d) (refresh-IsTimed now d t)
  use_dict-IsTimed (reads now k) d t =
      found_or_missing-IsTimed now k _ (refresh policy now (touch policy now k d)) refl
        (refresh-IsTimed now (touch policy now k d) (touch-IsTimed now k d t))
  use_dict-IsTimed (deletes k) d t = delete_all-IsTimed (k ∷ []) d t

  use_all-from :
      (us : List (Use policy)) (d : TimedDict V) → IsTimed d → IsTimed (use_all policy us d)
  unfolding use_all
  use_all-from [] d t = t
  use_all-from (u ∷ us) d t = use_all-from us (use_dict policy u d) (use_dict-IsTimed u d t)

  -- After any reads, assignments, `setdefault` calls and deletions on a new dictionary every key that has an
  -- entry has a time, or is one of the keys that the dictionary was made with.
  pub has_key-use_all :
      (us : List (Use policy)) (now : ℕ) (n : Text)
      → has_key n (use_all policy us (new_dict untimed now)).entries ≡ true
      → (has_key n (use_all policy us (new_dict untimed now)).key_times ≡ true)
        ⊎ (has_key n untimed ≡ true)
  has_key-use_all us now n h =
      either_true _ _ (use_all-from us (new_dict untimed now) (λ n h. h) n h)
    where
      either_true : (a b : Bool) → (a || b) ≡ true → (a ≡ true) ⊎ (b ≡ true)
      either_true true b h = inl refl
      either_true false b h = inr h

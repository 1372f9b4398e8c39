-- ===== src/RepoContext/Cache/Sound.antt =====
-- On the calls to the cache and what it keeps.
use achord_review.Prelude.{
  ℕ, ◌+◌, ◌≤◌, ◌<◌, ◌≡◌, refl, true, false, Option, none, some, List, [], ◌∷◌, length,
  length-append, ltb, leb, if◌then◌else◌, All, All-append, All-keep, Bool-cases, inl, inr, arith,
  ltb_false→le, leb_false→lt, ap, ◌∙◌, sym, subst,
}
use achord_review.Text.{Text}
use achord_review.RepoContext.Cache.{
  Keys, Limits, room, Entries, Call, gets, sets, lookup, remove, put_last, trim, read_entry, get,
  set_item, call, run,
}

some-injective {ℓ} : {A : Type ℓ} {x y : A} → some x ≡ some y → x ≡ y
some-injective {x} p = ap (λ o. elim o [ none ↦ x | some z ↦ z ]) p

module _ {ℓ} {K : Type ℓ} (keys : Keys K) (limits : Limits) where
  -- What the calls stored for the key last, with the time at which it expires; `known` is what was stored
  -- before them.
  abbrev pub stored : K → Option (Text × ℕ) → List (Call K) → Option (Text × ℕ)
  stored k known [] = known
  stored k known (gets _ _ ∷ cs) = stored k known cs
  stored k known (sets now j text ∷ cs) =
      stored k (if keys.same k j then some (text, now + limits.ttl_seconds) else known) cs

  -- What a store knows: for each key the last value.
  abbrev Knows : (K → Option (Text × ℕ)) → K × (Text × ℕ) → Type 0
  Knows known e = known e.0 ≡ some e.1

  abbrev after_set : ℕ → K → Text → (K → Option (Text × ℕ)) → K → Option (Text × ℕ)
  after_set now j text known k =
      if keys.same k j then some (text, now + limits.ttl_seconds) else known k

  All-trim : (P : K × (Text × ℕ) → Type 0) (es : Entries K) → All P es → All P (trim keys limits es)
  unfolding trim
  All-trim P [] h = tt
  All-trim P (e ∷ es) (p, h) = elim (Bool-cases (ltb (room limits) (length (e ∷ es)))) [
    | inl full ↦ rw full (All-trim P es h)
    | inr fits ↦ rw fits (p, h)
  ]

  length-trim : (es : Entries K) → length (trim keys limits es) ≤ room limits
  unfolding trim
  length-trim [] = omega arith
  length-trim (e ∷ es) = elim (Bool-cases (ltb (room limits) (length (e ∷ es)))) [
    | inl full ↦ rw full (length-trim es)
    | inr fits ↦ rw fits (ltb_false→le _ _ fits)
  ]

  lookup-All :
      (P : K × (Text × ℕ) → Type 0) (k : K) (x : Text × ℕ) (es : Entries K)
      → All P es
      → lookup keys limits k es ≡ some x
      → P (k, x)
  unfolding lookup
  lookup-All P k x [] h e = cc e
  lookup-All P k x ((j, y) ∷ es) (p, h) e = elim (Bool-cases (keys.same k j)) [
    | inl same ↦
        let value = some-injective (rw same at e) in
        subst (λ i. P (i, x)) (sym (keys.same→eq k j same)) (subst (λ z. P (j, z)) value p)
    | inr other ↦ lookup-All P k x es h (rw other at e)
  ]

  after_set-other :
      (now : ℕ) (j : K) (text : Text) (known : K → Option (Text × ℕ)) (e : K × (Text × ℕ))
      → keys.same j e.0 ≡ false
      → Knows known e
      → Knows (after_set now j text known) e
  after_set-other now j text known e other h = elim (Bool-cases (keys.same e.0 j)) [
    | inl same ↦ cc (
        sym other
        ∙ subst (λ i. keys.same i e.0 ≡ true) (keys.same→eq e.0 j same) (keys.same_refl e.0))
    | inr differ ↦ rw differ h
  ]

  remove-Knows :
      (now : ℕ) (j : K) (text : Text) (known : K → Option (Text × ℕ)) (es : Entries K)
      → All (Knows known) es
      → All (Knows (after_set now j text known)) (remove keys limits j es)
  remove-Knows now j text known [] h = tt
  remove-Knows now j text known (e ∷ es) (p, h) = elim (Bool-cases (keys.same j e.0)) [
    | inl same ↦ rw same (remove-Knows now j text known es h)
    | inr other ↦
        rw other (after_set-other now j text known e other p, remove-Knows now j text known es h)
  ]

  set_item-Knows :
      (now : ℕ) (j : K) (text : Text) (known : K → Option (Text × ℕ)) (es : Entries K)
      → All (Knows known) es
      → All (Knows (after_set now j text known)) (set_item keys limits now j text es)
  unfolding set_item
  set_item-Knows now j text known es h =
      All-trim (Knows (after_set now j text known))
        (put_last keys limits j (text, now + limits.ttl_seconds) es)
        (All-append (Knows (after_set now j text known)) (remove keys limits j es) _
          (remove-Knows now j text known es h) (rw (keys.same_refl j) refl, tt))

  read_entry-Knows :
      (now : ℕ) (k : K) (known : K → Option (Text × ℕ)) (es : Entries K) (o : Option (Text × ℕ))
      → lookup keys limits k es ≡ o
      → All (Knows known) es
      → All (Knows known) (read_entry keys limits now k es o).1
  unfolding read_entry
  read_entry-Knows now k known es none e h = h
  read_entry-Knows now k known es (some (v, expires_at)) e h =
      elim (Bool-cases (leb expires_at now)) [
        | inl old ↦ rw old (All-keep (Knows known) _ es h)
        | inr fresh ↦ rw fresh (
            All-append (Knows known) (remove keys limits k es) _ (All-keep (Knows known) _ es h)
              (lookup-All (Knows known) k (v, expires_at) es h e, tt))
      ]

  run-Knows :
      (cs : List (Call K)) (known : K → Option (Text × ℕ)) (es : Entries K)
      → All (Knows known) es
      → All (Knows (λ k. stored k (known k) cs)) (run keys limits cs es)
  unfolding run call get
  run-Knows [] known es h = h
  run-Knows (gets now k ∷ cs) known es h =
      run-Knows cs known (read_entry keys limits now k es (lookup keys limits k es)).1
        (read_entry-Knows now k known es _ refl h)
  run-Knows (sets now j text ∷ cs) known es h =
      run-Knows cs (after_set now j text known) (set_item keys limits now j text es)
        (set_item-Knows now j text known es h)

  read_entry-fresh :
      (now : ℕ) (k : K) (es : Entries K) (o : Option (Text × ℕ)) (text : Text)
      → (read_entry keys limits now k es o).0 ≡ some text
      → (expires_at : ℕ) × (o ≡ some (text, expires_at)) × (now < expires_at)
  unfolding read_entry
  read_entry-fresh now k es none text h = cc h
  read_entry-fresh now k es (some (v, expires_at)) text h = elim (Bool-cases (leb expires_at now)) [
    | inl old ↦ cc (rw old at h)
    | inr fresh ↦ (
      expires_at,
      ap (λ w. some (w, expires_at)) (some-injective (rw fresh at h)),
      leb_false→lt _ _ fresh,
    )
  ]

  -- After any calls on an empty cache, what `get` returns for a key is what was stored for it last, and has
  -- not expired.
  pub get-stored :
      (cs : List (Call K)) (now : ℕ) (k : K) (text : Text)
      → (get keys limits now k (run keys limits cs [])).0 ≡ some text
      → (expires_at : ℕ) × (stored k none cs ≡ some (text, expires_at)) × (now < expires_at)
  unfolding get
  get-stored cs now k text h =
      let es = run keys limits cs [] in
      let (expires_at, found, fresh) = read_entry-fresh now k es (lookup keys limits k es) text h in
      (
        expires_at,
        lookup-All (Knows (λ j. stored j none cs)) k (text, expires_at) es
            (run-Knows cs (λ _. none) [] tt) found,
        fresh,
      )

  length-remove : (k : K) (es : Entries K) → length (remove keys limits k es) ≤ length es
  length-remove k [] = omega arith
  length-remove k (e ∷ es) = ground (arith, length-remove k es)

  length-remove-found :
      (k : K) (x : Text × ℕ) (es : Entries K)
      → lookup keys limits k es ≡ some x
      → length (remove keys limits k es) + 1 ≤ length es
  unfolding lookup
  length-remove-found k x [] h = cc h
  length-remove-found k x ((j, y) ∷ es) h = elim (Bool-cases (keys.same k j)) [
    | inl same ↦ rw same (omega (arith, length-remove k es))
    | inr other ↦
        let rest = length-remove-found k x es (rw other at h) in rw other (omega (arith, rest))
  ]

  length-read_entry :
      (now : ℕ) (k : K) (es : Entries K) (o : Option (Text × ℕ))
      → lookup keys limits k es ≡ o
      → length (read_entry keys limits now k es o).1 ≤ length es
  unfolding read_entry
  length-read_entry now k es none e = omega arith
  length-read_entry now k es (some (v, expires_at)) e = elim (Bool-cases (leb expires_at now)) [
    | inl old ↦ rw old (length-remove k es)
    | inr fresh ↦ rw fresh (
        omega (
          arith,
          length-append (remove keys limits k es) ((k, (v, expires_at)) ∷ []),
          length-remove-found k (v, expires_at) es e,
        ))
  ]

  -- The cache never has more entries than its size allows.
  pub length-run :
      (cs : List (Call K)) (es : Entries K)
      → length es ≤ room limits
      → length (run keys limits cs es) ≤ room limits
  unfolding run call get set_item
  length-run [] es h = h
  length-run (gets now k ∷ cs) es h =
      length-run cs (read_entry keys limits now k es (lookup keys limits k es)).1
        (omega (arith, length-read_entry now k es (lookup keys limits k es) refl))
  length-run (sets now j text ∷ cs) es h =
      length-run cs _ (length-trim (put_last keys limits j (text, now + limits.ttl_seconds) es))

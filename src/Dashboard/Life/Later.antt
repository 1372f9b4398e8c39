-- ===== src/Dashboard/Life/Later.antt =====
-- The rows of the tables before and after a statement.
use achord_review.Prelude.{
  ◌≤◌, ◌≡◌, refl, Bool, true, not, List, [], ◌∷◌, map, if◌then◌else◌, ◌⊎◌, inl, inr, Bool-cases,
  All, All-keep, All_map, arith, sym, ◌∙◌,
}
use achord_review.Text.{Text}
use achord_review.Dashboard.Reviews.{
  Status, running, completed, failed, skipped, is_running, Review, Store, is_open, update,
}
use achord_review.Dashboard.Retention.{delete_reviews}

-- The row is the old one later: if that was closed, its end has not changed.
abbrev pub Follows : Review → Review → Type 0
Follows old row =
    (row.id ≡ old.id)
    × (row.request_id ≡ old.request_id)
    × ((old.status ≡ running)
        ⊎ ((row.status ≡ old.status)
            × (row.outcome ≡ old.outcome)
            × (row.error_message ≡ old.error_message)
            × (row.completed_at ≡ old.completed_at)))

abbrev pub Some : (Review → Type 0) → List Review → Type 0
Some P [] = ⊥
Some P (row ∷ rows) = P row ⊎ Some P rows

-- Every row is new or follows a row that was there.
abbrev pub IsLater : Store → Store → Type 0
IsLater s t =
    (s.next_id ≤ t.next_id)
    × All (λ row. (s.next_id ≤ row.id) ⊎ Some (λ old. Follows old row) s.reviews) t.reviews

pub Follows-refl : (row : Review) → Follows row row
Follows-refl row = (refl, refl, inr (refl, refl, refl, refl))

Follows-trans : (a b c : Review) → Follows a b → Follows b c → Follows a c
Follows-trans a b c (i, r, e) (j, q, f) = (
  j ∙ i,
  q ∙ r,
  elim e [
    | inl open_before ↦ inl open_before
    | inr ends ↦ elim f [
      | inl open_between ↦ inl (sym ends.0 ∙ open_between)
      | inr later ↦ inr (later.0 ∙ ends.0, later.1 ∙ ends.1, later.2 ∙ ends.2, later.3 ∙ ends.3)
    ]
  ],
)

-- What every row of a list follows, after each row was changed or left.
Some-map :
    (P Q : Review → Type 0)
    → ((row : Review) → P row → Q row)
    → (rows : List Review) → Some P rows
    → Some Q rows
Some-map P Q f [] h = h
Some-map P Q f (row ∷ rows) (inl p) = inl (f row p)
Some-map P Q f (row ∷ rows) (inr h) = inr (Some-map P Q f rows h)

map-Some :
    (f : Review → Review)
    → ((row : Review) → Follows row (f row))
    → (rows : List Review) → All (λ row. Some (λ old. Follows old row) rows) (map f rows)
map-Some f h [] = tt
map-Some f h (row ∷ rows) = (
  inl (h row),
  All_map (λ r. Some (λ old. Follows old r) (row ∷ rows)) (λ r p. inr p) (map f rows)
      (map-Some f h rows),
)

pub self-Some : (rows : List Review) → All (λ row. Some (λ old. Follows old row) rows) rows
self-Some [] = tt
self-Some (row ∷ rows) = (
  inl (Follows-refl row),
  All_map (λ r. Some (λ old. Follows old r) (row ∷ rows)) (λ r p. inr p) rows (self-Some rows),
)

pub update-IsLater :
    (here : Review → Bool) (change : Review → Review) (s : Store)
    → ((row : Review) → here row ≡ true → Follows row (change row))
    → IsLater s (update here change s).0
unfolding update
update-IsLater here change s h = (
  omega arith,
  All_map (λ row. (s.next_id ≤ row.id) ⊎ Some (λ old. Follows old row) s.reviews) (λ row p. inr p) _
      (map-Some (λ row. if here row then change row else row)
        (λ row. either here change row (h row)) s.reviews),
)
  where
    either :
        (p : Review → Bool) (f : Review → Review) (row : Review)
        → (p row ≡ true → Follows row (f row))
        → Follows row (if p row then f row else row)
    either p f row g = elim (Bool-cases (p row)) [
      | inl e ↦ rw e (g e)
      | inr e ↦ rw e (Follows-refl row)
    ]

pub is_running-running : (status : Status) → is_running status ≡ true → status ≡ running
is_running-running running h = refl
is_running-running completed h = cc h
is_running-running failed h = cc h
is_running-running skipped h = cc h

pub is_open-running :
    (request : Text) (row : Review) → is_open request row ≡ true → row.status ≡ running
unfolding is_open
is_open-running request row h = is_running-running row.status (ground arith)

pub delete_reviews-IsLater : (here : Review → Bool) (s : Store) → IsLater s (delete_reviews here s)
unfolding delete_reviews
delete_reviews-IsLater here s = (
  omega arith,
  All_map (λ row. (s.next_id ≤ row.id) ⊎ Some (λ old. Follows old row) s.reviews) (λ row p. inr p) _
      (All-keep (λ row. Some (λ old. Follows old row) s.reviews) (λ row. not (here row)) s.reviews
        (self-Some s.reviews)),
)

Some-trans :
    (s : Store) (row : Review) (between : List Review)
    → All (λ mid. (s.next_id ≤ mid.id) ⊎ Some (λ old. Follows old mid) s.reviews) between
    → Some (λ mid. Follows mid row) between
    → (s.next_id ≤ row.id) ⊎ Some (λ old. Follows old row) s.reviews
Some-trans s row [] h p = inr (absurd p)
Some-trans s row (mid ∷ between) (old, h) (inr p) = Some-trans s row between h p
Some-trans s row (mid ∷ between) (inl fresh, h) (inl p) = inl (omega (arith, fresh, p.0))
Some-trans s row (mid ∷ between) (inr old, h) (inl p) = inr (
    Some-map (λ o. Follows o mid) (λ o. Follows o row) (λ o q. Follows-trans o mid row q p)
      s.reviews old)

pub IsLater-trans : (s t u : Store) → IsLater s t → IsLater t u → IsLater s u
IsLater-trans s t u (m, h) (n, k) = (
  omega (arith, m, n),
  All_map _
      (λ row p. elim p [
        | inl fresh ↦ inl (omega (arith, m, fresh))
        | inr mid ↦ Some-trans s row t.reviews h mid
      ])
      u.reviews k,
)

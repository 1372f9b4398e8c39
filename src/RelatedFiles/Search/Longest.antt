-- ===== src/RelatedFiles/Search/Longest.antt =====
-- The binary search against a search that tries every number.
use achord_review.Prelude.{
  ℕ, zero, suc, ◌+◌, ◌-◌, ◌/◌, ◌≤◌, ◌<◌, ◌≡◌, refl, Bool, true, false, some, List, [], ◌∷◌, ◌++◌,
  length, take, drop, take-append-drop, leb, if◌then◌else◌, Bool-cases, leb→le, le→leb,
  leb_false→lt, inl, inr, ◌⊎◌, arith, ap, sym, ◌∙◌, subst,
}
use achord_review.Text.{Text}
use achord_review.RelatedFiles.Search.{
  search, keep_best, largest_fit, Sizer, fits_window, shorten, candidates_that_fit, output_buffer,
}

-- The largest of the numbers 1, …, `n` that fits, or 0, tried from `n` downwards.
unfoldable pub last_fit : (ℕ → Bool) → ℕ → ℕ
last_fit fits zero = zero
last_fit fits (suc n) = if fits (suc n) then suc n else last_fit fits n

-- No number fits behind one that does not.
abbrev pub IsDownward : (ℕ → Bool) → Type 0
IsDownward fits = (m n : ℕ) → m ≤ n → fits n ≡ true → fits m ≡ true

last_fit-at : (fits : ℕ → Bool) (n : ℕ) → (n ≡ 0) ⊎ (fits n ≡ true) → last_fit fits n ≡ n
unfolding last_fit
last_fit-at fits zero h = refl
last_fit-at fits (suc n) (inl h) = omega arith
last_fit-at fits (suc n) (inr h) = rw h refl

zero_le : (m : ℕ) → m ≤ 0 → 0 ≡ m
zero_le m h = omega arith

le_once : (n m : ℕ) → m ≤ suc n → n < m → suc n ≡ m
le_once n m h k = omega arith

last_fit-above :
    (fits : ℕ → Bool) (m high : ℕ)
    → m ≤ high
    → ((n : ℕ) → m < n → fits n ≡ false)
    → last_fit fits high ≡ last_fit fits m
unfolding last_fit
last_fit-above fits m zero h none_fits = ap (last_fit fits) (zero_le m h)
last_fit-above fits m (suc n) h none_fits = elim (Bool-cases (leb m n)) [
  | inl e ↦
      rw (none_fits (suc n) (omega (arith, leb→le m n e)))
        (last_fit-above fits m n (leb→le m n e) none_fits)
  | inr e ↦ ap (last_fit fits) (le_once n m h (leb_false→lt m n e))
]

above-false :
    (fits : ℕ → Bool)
    → IsDownward fits
    → (middle : ℕ) → fits middle ≡ false
    → (n : ℕ) → middle - 1 < n
    → fits n ≡ false
above-false fits down middle h n k = elim (Bool-cases (fits n)) [
  | inl fit ↦ cc (sym h ∙ down middle n (omega arith) fit)
  | inr unfit ↦ unfit
]

search-last_fit :
    (fuel best high : ℕ) (fits : ℕ → Bool)
    → IsDownward fits
    → best ≤ high
    → high ≤ best + fuel
    → (best ≡ 0) ⊎ (fits best ≡ true)
    → search fuel (λ n. some (fits n)) (suc best) high best ≡ some (last_fit fits high)
unfolding search
search-last_fit zero best high fits down h k seen =
    ap some (sym (last_fit-at fits best seen) ∙ ap (last_fit fits) (omega arith))
search-last_fit (suc fuel) best high fits down h k seen = elim (Bool-cases (leb (suc best) high)) [
  | inr done ↦ rw done (
      ap some (
        sym (last_fit-at fits best seen)
        ∙ ap (last_fit fits) (omega (arith, leb_false→lt _ _ done))))
  | inl goes ↦
      let middle = (suc best + high) / 2 in
      let below = leb→le (suc best) high goes in
      rw goes (elim (Bool-cases (fits middle)) [
        | inl fit ↦ rw fit (
            subst
              (λ low. search fuel (λ n. some (fits n)) low high middle ≡ some (last_fit fits high))
              (omega arith)
              (search-last_fit fuel middle high fits down (omega arith) (omega arith) (inr fit)))
        | inr unfit ↦ rw unfit (
            search-last_fit fuel best (middle - 1) fits down (omega arith) (omega arith) seen
            ∙ ap some (
                sym (
                  last_fit-above fits (middle - 1) high (omega arith)
                    (above-false fits down middle unfit))))
      ])
]

largest_fit-last_fit :
    (fits : ℕ → Bool)
    → IsDownward fits
    → (high : ℕ) → largest_fit (λ n. some (fits n)) high ≡ some (last_fit fits high)
unfolding largest_fit
largest_fit-last_fit fits down high =
    search-last_fit high 0 high fits down (omega arith) (omega arith) (inl refl)

take-take : (m n : ℕ) (xs : List Text) → m ≤ n → take m (take n xs) ≡ take m xs
take-take zero n xs h = refl
take-take (suc m) zero xs h = absurd (omega arith)
take-take (suc m) (suc n) [] h = refl
take-take (suc m) (suc n) (x ∷ xs) h = ap (◌∷◌ x) (take-take m n xs (omega arith))

take-length : (xs : List Text) → take (length xs) xs ≡ xs
take-length [] = refl
take-length (x ∷ xs) = ap (◌∷◌ x) (take-length xs)

-- More candidates make no shorter prompt.
abbrev pub IsGrowing : (List Text → ℕ) → Type 0
IsGrowing count = (xs ys : List Text) → count xs ≤ count (xs ++ ys)

abbrev prompt_fits : (List Text → ℕ) → ℕ → List Text → ℕ → Bool
prompt_fits count window candidates n = leb (count (take n candidates) + output_buffer) window

prompt_fits-IsDownward :
    (count : List Text → ℕ) (window : ℕ) (candidates : List Text)
    → IsGrowing count
    → IsDownward (prompt_fits count window candidates)
prompt_fits-IsDownward count window candidates grows m n h fit =
    let shorter = grows (take m (take n candidates)) (drop m (take n candidates)) in
    let whole = take-append-drop m (take n candidates) in
    let cut = take-take m n candidates h in
    le→leb _ _ (omega (arith, rw (whole, cut) at shorter, leb→le _ _ fit))

abbrev pub sizer_of : ℕ → (List Text → ℕ) → Sizer
sizer_of window count = record {
  max_tokens = some window;
  count_prompt = λ candidates. some (count candidates);
}

keep_best-take :
    (candidates : List Text) (best : ℕ) → keep_best candidates (some best) ≡ take best candidates
keep_best-take candidates zero = refl
keep_best-take candidates (suc best) = refl

shorten-longest :
    (window : ℕ) (count : List Text → ℕ)
    → IsGrowing count
    → (candidates : List Text) (high : ℕ) → length candidates - 1 ≡ high
    → shorten (sizer_of window count) candidates
      ≡ take (last_fit (prompt_fits count window candidates) high) candidates
unfolding shorten fits_window
shorten-longest window count grows candidates high h =
    let fits = prompt_fits count window candidates in
    ap (λ n. keep_best candidates (largest_fit (λ m. some (fits m)) n)) h
    ∙ ap (keep_best candidates)
        (largest_fit-last_fit fits (prompt_fits-IsDownward count window candidates grows) high)
    ∙ keep_best-take candidates (last_fit fits high)

last_fit-unfit :
    (fits : ℕ → Bool) (n : ℕ) → fits (suc n) ≡ false → last_fit fits (suc n) ≡ last_fit fits n
unfolding last_fit
last_fit-unfit fits n h = rw h refl

-- The candidates that the search by halves keeps are the longest prefix that fits the window, as a search
-- that tries every length finds it, when more candidates make no shorter prompt.
pub candidates_that_fit-longest :
    (window : ℕ) (count : List Text → ℕ)
    → IsGrowing count
    → (candidates : List Text)
    → candidates_that_fit (some (sizer_of window count)) candidates
      ≡ take
          (last_fit
            (λ n. leb (count (take n candidates) + output_buffer) window)
            (length candidates))
          candidates
unfolding candidates_that_fit fits_window last_fit
candidates_that_fit-longest window count grows [] = refl
candidates_that_fit-longest window count grows (path ∷ candidates) =
    let all_paths = path ∷ candidates in
    let fits = prompt_fits count window all_paths in
    let whole = take-length all_paths in
    elim (Bool-cases (leb (count all_paths + output_buffer) window)) [
      | inl fit ↦ rw fit (
          sym (
            ap (λ n. take n all_paths) (last_fit-at fits (length all_paths) (inr (rw whole fit)))
            ∙ whole))
      | inr unfit ↦ rw unfit (
          shorten-longest window count grows all_paths (length candidates) (omega arith)
          ∙ sym (
              ap (λ n. take n all_paths)
                (last_fit-unfit fits (length candidates) (rw whole unfit))))
    ]

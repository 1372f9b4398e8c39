-- ===== src/RelatedFiles/Search/Sound.antt =====
-- On the numbers that the binary search tries.
use achord_review.Prelude.{
  ℕ, zero, suc, ◌+◌, ◌-◌, ◌/◌, ◌≡◌, refl, Bool, true, false, Option, none, some, List, [], ◌∷◌,
  length, take, leb, Bool-cases, Option-cases, inl, inr, ◌⊎◌, arith, ap, sym, ◌∙◌,
}
use achord_review.Text.{Text}
use achord_review.RelatedFiles.Search.{
  search, keep_best, largest_fit, Sizer, fits_window, shorten, after_test, candidates_that_fit,
}

some-injective {ℓ} : {A : Type ℓ} {x y : A} → some x ≡ some y → x ≡ y
some-injective {x} p = ap (λ o. elim o [ none ↦ x | some z ↦ z ]) p

pub search_sound :
    (fuel : ℕ) (fits : ℕ → Option Bool) (low high best found : ℕ)
    → search fuel fits low high best ≡ some found
    → (found ≡ best) ⊎ (fits found ≡ some true)
unfolding search
search_sound zero fits low high best found h = inl (sym (some-injective h))
search_sound (suc fuel) fits low high best found h = elim (Bool-cases (leb low high)) [
  | inr done ↦ inl (sym (some-injective (rw done at h)))
  | inl goes ↦
      let middle = (low + high) / 2 in
      elim (Option-cases (fits middle)) [
        | inl failed ↦ cc (rw (goes, failed) at h)
        | inr (true, fit) ↦
            elim (search_sound fuel fits (middle + 1) high middle found (rw (goes, fit) at h)) [
              | inl e ↦ inr (ap fits e ∙ fit)
              | inr seen ↦ inr seen
            ]
        | inr (false, unfit) ↦
            search_sound fuel fits low (middle - 1) best found (rw (goes, unfit) at h)
      ]
]

keep_best_sound :
    (sizer : Sizer) (candidates kept : List Text) (o : Option ℕ)
    → ((found : ℕ)
        → o ≡ some found
        → (found ≡ 0) ⊎ (fits_window sizer (take found candidates) ≡ some true))
    → keep_best candidates o ≡ kept
    → (kept ≡ []) ⊎ (fits_window sizer kept ≡ some true)
keep_best_sound sizer candidates kept none seen h = inl (sym h)
keep_best_sound sizer candidates kept (some zero) seen h = inl (sym h)
keep_best_sound sizer candidates kept (some (suc best)) seen h = elim (seen (suc best) refl) [
  | inl e ↦ absurd (omega (arith, e))
  | inr fit ↦ inr (ap (fits_window sizer) (sym h) ∙ fit)
]

after_test_sound :
    (sizer : Sizer) (candidates kept : List Text) (o : Option Bool)
    → fits_window sizer candidates ≡ o
    → after_test sizer candidates o ≡ kept
    → (kept ≡ []) ⊎ (fits_window sizer kept ≡ some true)
unfolding after_test shorten largest_fit
after_test_sound sizer candidates kept none e h = inl (sym h)
after_test_sound sizer candidates kept (some true) e h = inr (ap (fits_window sizer) (sym h) ∙ e)
after_test_sound sizer candidates kept (some false) e h =
    keep_best_sound sizer candidates kept _
      (λ found.
        search_sound (length candidates - 1) (λ n. fits_window sizer (take n candidates)) 1
          (length candidates - 1) 0 found)
      h

-- Whatever the token counts are and whichever of them raise, the candidates that are kept are none or were
-- measured, and their prompt leaves the output buffer of the model's window free.
pub candidates_that_fit-measured :
    (sizer : Sizer) (candidates : List Text)
    → (candidates_that_fit (some sizer) candidates ≡ [])
      ⊎ (fits_window sizer (candidates_that_fit (some sizer) candidates) ≡ some true)
unfolding candidates_that_fit
candidates_that_fit-measured sizer [] = inl refl
candidates_that_fit-measured sizer (path ∷ candidates) =
    after_test_sound sizer (path ∷ candidates) _ (fits_window sizer (path ∷ candidates)) refl refl

-- ===== src/Inline/Markers/RoundTrip.antt =====
-- A marker that is added to a comment is found again in it.
use achord_review.Prelude.{
  ℕ, suc, ◌+◌, ◌-◌, ◌≡◌, refl, true, Option, none, some, List, [], ◌∷◌, ◌++◌, length, take, ltb,
  Bool-cases, inl, inr, arith, ap, ◌∙◌, sym, subst, append-nil, any-append,
}
use achord_review.Text.{Text, text_eq}
use achord_review.Types.{mem_text, text_eq_refl}
use achord_review.Inline.Markers.{
  MarkerKind, body, code, marker, find_markers, marker_fingerprints, build_markers, append_markers,
  body_with_markers,
}
use achord_review.Inline.Markers.Scan.{find-append, IsFingerprint, find-marker}

append_markers-front :
    (text markers : Text) (max_chars : Option ℕ)
    → (front : Text) × (append_markers text markers max_chars ≡ front ++ 10 ∷ 10 ∷ markers)
unfolding append_markers
append_markers-front text markers none = (text, refl)
append_markers-front text markers (some n) =
    elim (Bool-cases (ltb n (length text + suc (suc (length markers))))) [
      | inl h ↦ (take (n - suc (suc (length markers))) text, rw h refl)
      | inr h ↦ (text, rw h refl)
    ]

-- What a scan finds behind the front of a text with markers.
find-suffix :
    (kind : MarkerKind) (front markers : Text)
    → find_markers kind 0 (front ++ 10 ∷ 10 ∷ markers)
      ≡ find_markers kind 0 front ++ find_markers kind 0 markers
unfolding find_markers
find-suffix kind front markers =
    find-append kind 0 front (10 ∷ markers) (omega arith)
    ∙ ap (find_markers kind 0 front ++◌) (find-append kind 0 [] markers (omega arith))

any-behind : (fp : Text) (xs ys : List Text) → mem_text fp ys ≡ true → mem_text fp (xs ++ ys) ≡ true
any-behind fp xs ys h = ground (arith, any-append (text_eq fp) xs ys)

any-before : (fp : Text) (xs ys : List Text) → mem_text fp xs ≡ true → mem_text fp (xs ++ ys) ≡ true
any-before fp xs ys h = ground (arith, any-append (text_eq fp) xs ys)

found-first :
    (kind : MarkerKind) (fp rest : Text)
    → IsFingerprint fp
    → mem_text fp (find_markers kind 0 (marker kind fp ++ rest)) ≡ true
found-first kind fp rest h = rw (find-marker kind fp rest h, text_eq_refl fp) refl

found-body :
    (fp s : Text)
    → mem_text fp (find_markers body 0 s) ≡ true
    → mem_text fp (marker_fingerprints s) ≡ true
unfolding marker_fingerprints
found-body fp s h = any-before fp (find_markers body 0 s) _ h

found-code :
    (fp s : Text)
    → mem_text fp (find_markers code 0 s) ≡ true
    → mem_text fp (marker_fingerprints s) ≡ true
unfolding marker_fingerprints
found-code fp s h =
    any-behind fp (find_markers body 0 s) _ (any-before fp (find_markers code 0 s) _ h)

-- Both fingerprints that a comment gets are found in it by the scan of a later run, whatever the comment
-- says and however short it is clipped.
pub body_with_markers-found :
    (text body_fp code_fp : Text) (max_chars : Option ℕ)
    → IsFingerprint body_fp
    → IsFingerprint code_fp
    → (mem_text body_fp
          (marker_fingerprints (body_with_markers text body_fp (some code_fp) max_chars))
        ≡ true)
      × (mem_text code_fp
            (marker_fingerprints (body_with_markers text body_fp (some code_fp) max_chars))
          ≡ true)
unfolding body_with_markers build_markers
body_with_markers-found text body_fp code_fp max_chars hb hc =
    let markers = marker body body_fp ++ 10 ∷ marker code code_fp in
    let (front, e) = append_markers-front text markers max_chars in
    let in_body =
      any-behind body_fp (find_markers body 0 front) (find_markers body 0 markers)
        (found-first body body_fp (10 ∷ marker code code_fp) hb) in
    let last =
      subst (λ m. mem_text code_fp (find_markers code 0 m) ≡ true)
        (append-nil (marker code code_fp)) (found-first code code_fp [] hc) in
    let in_code = any-behind code_fp (find_markers code 0 front) (find_markers code 0 markers) (
      subst (λ l. mem_text code_fp l ≡ true)
        (sym (find-append code 0 (marker body body_fp) (marker code code_fp) (omega arith)))
        (any-behind code_fp (find_markers code 0 (marker body body_fp)) _ last)) in
    (
      found-body body_fp _ (rw (e, find-suffix body front markers) in_body),
      found-code code_fp _ (rw (e, find-suffix code front markers) in_code),
    )

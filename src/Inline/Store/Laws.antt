-- ===== src/Inline/Store/Laws.antt =====
-- What the store answers after releases, loads and additions in any order.
use achord_review.Prelude.{
  Bool, true, false, ◌&&◌, not, none, some, List, [], ◌∷◌, ◌++◌, any, ◌≡◌, refl, arith, any-append,
  Bool-cases, inl, inr, subst,
}
use achord_review.Text.{Text, text_eq}
use achord_review.Types.{mem_text, text_eq_refl, text_eq→eq}
use achord_review.Inline.Markers.{marker_fingerprints}
use achord_review.Inline.Store.{
  Store, Listing, minus, fingerprints_of, load, seen, add, add_body, release, Call, load_call,
  seen_call, add_call, add_body_call, release_call, on_call, run_calls,
}

-- Membership in a difference of sets.
mem-minus :
    (fp : Text) (keys released : List Text)
    → mem_text fp (minus keys released) ≡ (mem_text fp keys && not (mem_text fp released))
mem-minus fp [] released = refl
mem-minus fp (k ∷ keys) released = elim (Bool-cases (text_eq fp k)) [
  | inl same ↦
      subst
        (λ x.
          mem_text fp (minus (x ∷ keys) released)
          ≡ (mem_text fp (x ∷ keys) && not (mem_text fp released)))
        (text_eq→eq fp k same) (ground (arith, mem-minus fp keys released, text_eq_refl fp))
  | inr other ↦ ground (arith, mem-minus fp keys released)
]

-- `fp` was released, and is not among the keys.
abbrev Suppressed : Text → Store → Type 0
Suppressed fp s = (mem_text fp s.released ≡ true) × (mem_text fp s.keys ≡ false)

-- The call adds `fp` to the keys.
unfoldable pub adds : Text → Call → Bool
unfolding marker_fingerprints
adds fp (add_call none) = false
adds fp (add_call (some x)) = text_eq fp x
adds fp (add_body_call body) = mem_text fp (marker_fingerprints body)
adds fp _ = false

load-Suppressed :
    (fp : Text) (listing : Listing) (s : Store) → Suppressed fp s → Suppressed fp (load listing s)
unfolding load
load-Suppressed fp listing s (r, k) = elim (Bool-cases s.loaded) [
  | inl l ↦ rw l (r, k)
  | inr l ↦
      rw l (r, ground (arith, mem-minus fp (fingerprints_of listing.bodies ++ s.keys) s.released))
]

release-Suppressed :
    (fp : Text) (fps : List Text) (s : Store)
    → mem_text fp fps ≡ true
    → Suppressed fp (release fps s)
unfolding release
release-Suppressed fp fps s h =
    let r : mem_text fp (fps ++ s.released) ≡ true =
      ground (arith, any-append (text_eq fp) fps s.released) in
    (r, ground (arith, mem-minus fp s.keys (fps ++ s.released)))

on_call-Suppressed :
    (fp : Text) (c : Call) (s : Store)
    → adds fp c ≡ false
    → Suppressed fp s
    → Suppressed fp (on_call c s)
unfolding on_call seen add add_body release adds
on_call-Suppressed fp (load_call listing) s h k = load-Suppressed fp listing s k
on_call-Suppressed fp (seen_call listing none) s h k = k
on_call-Suppressed fp (seen_call listing (some x)) s h k = load-Suppressed fp listing s k
on_call-Suppressed fp (add_call none) s h k = k
on_call-Suppressed fp (add_call (some x)) s h (r, k) = (r, ground (arith, h, k))
on_call-Suppressed fp (add_body_call body) s h (r, k) =
    (r, ground (arith, h, k, any-append (text_eq fp) (marker_fingerprints body) s.keys))
on_call-Suppressed fp (release_call fps) s h (r, k) =
    let r' : mem_text fp (fps ++ s.released) ≡ true =
      ground (arith, any-append (text_eq fp) fps s.released) in
    (r', ground (arith, mem-minus fp s.keys (fps ++ s.released)))

run_calls-Suppressed :
    (fp : Text) (cs : List Call) (s : Store)
    → any (adds fp) cs ≡ false
    → Suppressed fp s
    → Suppressed fp (run_calls cs s)
unfolding run_calls
run_calls-Suppressed fp [] s h k = k
run_calls-Suppressed fp (c ∷ cs) s h k = elim (Bool-cases (adds fp c)) [
  | inl bad ↦ absurd (ground arith)
  | inr good ↦
      run_calls-Suppressed fp cs (on_call c s) (ground arith) (on_call-Suppressed fp c s good k)
]

-- A fingerprint that is released stays unseen, whether the comments were loaded before the release or are
-- loaded after it, through any calls that do not add it again.
pub release-unseen :
    (fp : Text) (fps : List Text) (s : Store) (cs : List Call) (listing : Listing)
    → mem_text fp fps ≡ true
    → any (adds fp) cs ≡ false
    → (seen listing (some fp) (run_calls cs (release fps s))).0 ≡ false
unfolding seen
release-unseen fp fps s cs listing h q =
    (load-Suppressed fp listing _
      (run_calls-Suppressed fp cs (release fps s) q (release-Suppressed fp fps s h))).1

-- `fp` is among the keys, and was not released.
abbrev Held : Text → Store → Type 0
Held fp s = (mem_text fp s.released ≡ false) × (mem_text fp s.keys ≡ true)

abbrev pub releases : Text → Call → Bool
releases fp (release_call fps) = mem_text fp fps
releases fp _ = false

load-Held : (fp : Text) (listing : Listing) (s : Store) → Held fp s → Held fp (load listing s)
unfolding load
load-Held fp listing s (r, k) = elim (Bool-cases s.loaded) [
  | inl l ↦ rw l (r, k)
  | inr l ↦ rw l (
    r,
    ground (
      arith,
      mem-minus fp (fingerprints_of listing.bodies ++ s.keys) s.released,
      any-append (text_eq fp) (fingerprints_of listing.bodies) s.keys,
    ),
  )
]

on_call-Held :
    (fp : Text) (c : Call) (s : Store) → releases fp c ≡ false → Held fp s → Held fp (on_call c s)
unfolding on_call seen add add_body release
on_call-Held fp (load_call listing) s h k = load-Held fp listing s k
on_call-Held fp (seen_call listing none) s h k = k
on_call-Held fp (seen_call listing (some x)) s h k = load-Held fp listing s k
on_call-Held fp (add_call none) s h k = k
on_call-Held fp (add_call (some x)) s h (r, k) = (r, ground (arith, k))
on_call-Held fp (add_body_call body) s h (r, k) =
    (r, ground (arith, k, any-append (text_eq fp) (marker_fingerprints body) s.keys))
on_call-Held fp (release_call fps) s h (r, k) =
    let r' : mem_text fp (fps ++ s.released) ≡ false =
      ground (arith, any-append (text_eq fp) fps s.released) in
    (r', ground (arith, mem-minus fp s.keys (fps ++ s.released)))

run_calls-Held :
    (fp : Text) (cs : List Call) (s : Store)
    → any (releases fp) cs ≡ false
    → Held fp s
    → Held fp (run_calls cs s)
unfolding run_calls
run_calls-Held fp [] s h k = k
run_calls-Held fp (c ∷ cs) s h k = elim (Bool-cases (releases fp c)) [
  | inl bad ↦ absurd (ground arith)
  | inr good ↦ run_calls-Held fp cs (on_call c s) (ground arith) (on_call-Held fp c s good k)
]

-- A fingerprint that is added, and never released, is seen after any calls, whatever a load lists and
-- whether it fails.
pub add-seen :
    (fp : Text) (s : Store) (cs : List Call) (listing : Listing)
    → mem_text fp s.released ≡ false
    → any (releases fp) cs ≡ false
    → (seen listing (some fp) (run_calls cs (add (some fp) s))).0 ≡ true
unfolding seen add
add-seen fp s cs listing r q =
    (load-Held fp listing _
      (run_calls-Held fp cs (add (some fp) s) q (r, ground (arith, text_eq_refl fp)))).1

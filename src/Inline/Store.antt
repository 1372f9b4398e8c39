-- ===== src/Inline/Store.antt =====
-- `class InlineCommentStore`: the fingerprints that a pull request already has.
pub mod Laws
use achord_review.Prelude.{
  Bool, true, false, ◌&&◌, ◌||◌, not, Option, none, some, List, [], ◌∷◌, ◌++◌, keep, any, ◌≡◌, refl,
  ap, ◌∙◌, arith, any-append, Bool-cases, inl, inr, if◌then◌else◌,
}
use achord_review.Text.{Text, text_eq}
use achord_review.Types.{mem_text, text_eq_refl}
use achord_review.Inline.Markers.{marker_fingerprints}

-- The private fields of a store. A set is the list of its members.
pub record Store : Type 0 where
  pub keys : List Text
  pub released : List Text
  pub loaded : Bool
  pub load_failed : Bool

abbrev pub new_store : Store
new_store = record { keys = []; released = []; loaded = false; load_failed = false }

-- `keys - released`
abbrev pub minus : List Text → List Text → List Text
minus keys released = keep (λ k. not (mem_text k released)) keys

-- What the git provider lists: the comments up to an exception, and whether there was one.
pub record Listing : Type 0 where
  pub bodies : List Text
  pub broke : Bool

abbrev pub fingerprints_of : List Text → List Text
unfolding marker_fingerprints
fingerprints_of [] = []
fingerprints_of (body ∷ bodies) = marker_fingerprints body ++ fingerprints_of bodies

-- `load`, with what the provider would list now
unfoldable pub load : Listing → Store → Store
unfolding fingerprints_of
load listing s = if s.loaded then s else record {
  keys = minus (fingerprints_of listing.bodies ++ s.keys) s.released;
  released = s.released;
  loaded = true;
  load_failed = listing.broke || s.load_failed;
}

-- `seen` gives the answer and the store after its `load`.
unfoldable pub seen : Listing → Option Text → Store → Bool × Store
unfolding load
seen listing none s = (false, s)
seen listing (some fingerprint) s = (mem_text fingerprint (load listing s).keys, load listing s)

unfoldable pub add : Option Text → Store → Store
add none s = s
add (some fingerprint) s = record {
  keys = fingerprint ∷ s.keys;
  released = s.released;
  loaded = s.loaded;
  load_failed = s.load_failed;
}

unfoldable pub add_body : Text → Store → Store
add_body body s = record {
  keys = marker_fingerprints body ++ s.keys;
  released = s.released;
  loaded = s.loaded;
  load_failed = s.load_failed;
}

unfoldable pub release : List Text → Store → Store
release fingerprints s = record {
  keys = minus s.keys (fingerprints ++ s.released);
  released = fingerprints ++ s.released;
  loaded = s.loaded;
  load_failed = s.load_failed;
}

-- The calls on a store.
pub data Call : Type 0 where
  load_call : Listing → Call
  seen_call : Listing → Option Text → Call
  add_call : Option Text → Call
  add_body_call : Text → Call
  release_call : List Text → Call

unfoldable pub on_call : Call → Store → Store
unfolding load seen add add_body release
on_call (load_call listing) s = load listing s
on_call (seen_call listing fp) s = (seen listing fp s).1
on_call (add_call fp) s = add fp s
on_call (add_body_call body) s = add_body body s
on_call (release_call fps) s = release fps s

unfoldable pub run_calls : List Call → Store → Store
unfolding on_call
run_calls [] s = s
run_calls (c ∷ cs) s = run_calls cs (on_call c s)

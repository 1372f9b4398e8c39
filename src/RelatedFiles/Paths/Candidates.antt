-- ===== src/RelatedFiles/Paths/Candidates.antt =====
-- On the paths that `_rank_candidates` offers.
use achord_review.Prelude.{
  ℕ, ◌≡◌, true, List, [], ◌∷◌, ◌++◌, All, All-append, All-take, Bool-cases, inl, inr,
}
use achord_review.Text.{Text}
use achord_review.Types.{mem_text}
use achord_review.RelatedFiles.Paths.{
  Ranked, Change, change_of, is_candidate, is_near, dirname, extension, place, place_all,
  rank_candidates,
}

abbrev IsCandidate : Change → List Text → Text → Type 0
IsCandidate change patterns path = is_candidate change patterns path ≡ true

module _ {κ} (P : Text → Type κ) where
  abbrev Each : Ranked → Type κ
  Each ranked = All P ranked.near × All P ranked.same_kind × All P ranked.rest

  place-Each :
      (change : Change) (patterns : List Text) (path : Text) (ranked : Ranked)
      → (is_candidate change patterns path ≡ true → P path)
      → Each ranked
      → Each (place change patterns path ranked)
  unfolding place
  place-Each change patterns path ranked f (near, same_kind, rest) =
      elim (Bool-cases (is_candidate change patterns path)) [
        | inr e ↦ rw e (near, same_kind, rest)
        | inl e ↦ rw e (elim (Bool-cases (is_near change (dirname path))) [
          | inl k ↦ rw k (All-append P ranked.near (path ∷ []) near (f e, tt), same_kind, rest)
          | inr k ↦ rw k (elim (Bool-cases (mem_text (extension path) change.exts)) [
            | inl l ↦
                rw l (near, All-append P ranked.same_kind (path ∷ []) same_kind (f e, tt), rest)
            | inr l ↦ rw l (near, same_kind, All-append P ranked.rest (path ∷ []) rest (f e, tt))
          ])
        ])
      ]

place_all-Each :
    (change : Change) (patterns tree : List Text) (ranked : Ranked)
    → Each (IsCandidate change patterns) ranked
    → Each (IsCandidate change patterns) (place_all change patterns tree ranked)
unfolding place_all
place_all-Each change patterns [] ranked h = h
place_all-Each change patterns (path ∷ tree) ranked h =
    place_all-Each change patterns tree (place change patterns path ranked)
      (place-Each (IsCandidate change patterns) change patterns path ranked (λ e. e) h)

pub rank_candidates-All :
    (patterns tree changed_paths : List Text) (limit : ℕ)
    → All
        (λ path. is_candidate (change_of changed_paths) patterns path ≡ true)
        (rank_candidates patterns tree changed_paths limit)
unfolding rank_candidates
rank_candidates-All patterns tree changed_paths limit =
    let change = change_of changed_paths in
    let P = IsCandidate change patterns in
    let start : Ranked = record { near = []; same_kind = []; rest = [] } in
    let ranked = place_all change patterns tree start in
    let (near, same_kind, rest) = place_all-Each change patterns tree start (tt, tt, tt) in
    All-take P limit (ranked.near ++ (ranked.same_kind ++ ranked.rest))
      (All-append P ranked.near _ near (All-append P ranked.same_kind ranked.rest same_kind rest))

-- ===== src/RelatedFiles/Collect/Safe.antt =====
-- On the files that `collect_related_files` attaches.
use achord_review.Prelude.{
  ℕ, zero, suc, ◌<◌, ◌≤◌, ◌++◌, ◌==◌, ◌⊎◌, ltb, ltb→lt, ltb_false→le, any, keep, take, length, sym,
  ap, ◌∙◌, arith, ◌≡◌, refl, Bool, true, false, ◌||◌, ◌&&◌, not, Option, none, some, List, [], ◌∷◌,
  null, All, All-take, All_map, Bool-cases, inl, inr, subst,
}
use achord_review.Text.{Text, text_eq, strip, lstrip, rstrip, lower, join, newline}
use achord_review.Text.Lines.{split_lines}
use achord_review.Types.{text_eq→eq, mem_text-All, mem_text}
use achord_review.Yaml.{Value}
use achord_review.TimedDict.{put}
use achord_review.RepoContext.Render.{Files, truncation_marker}
use achord_review.RelatedFiles.Paths.{
  change_of, is_candidate, is_sensitive_path, exclude_globs, matches_any, sensitive_globs,
  is_safe_path, is_excluded,
}
use achord_review.RelatedFiles.Paths.Candidates.{rank_candidates-All}
use achord_review.RelatedFiles.Select.Safe.{parse_selection-IsSelection}
use achord_review.RelatedFiles.Search.{
  Sizer, fits_window, keep_best, shorten, after_test, candidates_that_fit,
}
use achord_review.RelatedFiles.Collect.{
  Options, World, repo_tree, clip_lines, is_attachable, attach, attach_all, answer_paths,
  select_paths, paths_of, offered_paths, collect_related_files,
}

all_false :
    (a b c d e : Bool)
    → not (a || (not (not b && not c) || (d || e))) ≡ true
    → (a ≡ false) × (b ≡ false) × (c ≡ false) × (d ≡ false) × (e ≡ false)
all_false a b c d e h = (ground arith, ground arith, ground arith, ground arith, ground arith)

module _ {κ} (P : Text → Type κ) where
  keep_best-All : (paths : List Text) (o : Option ℕ) → All P paths → All P (keep_best paths o)
  keep_best-All paths none h = tt
  keep_best-All paths (some zero) h = tt
  keep_best-All paths (some (suc best)) h = All-take P (suc best) paths h

  after_test-All :
      (sizer : Sizer) (paths : List Text) (o : Option Bool)
      → All P paths
      → All P (after_test sizer paths o)
  unfolding after_test shorten
  after_test-All sizer paths none h = tt
  after_test-All sizer paths (some true) h = h
  after_test-All sizer paths (some false) h = keep_best-All paths _ h

  candidates_that_fit-All :
      (sizer : Option Sizer) (paths : List Text)
      → All P paths
      → All P (candidates_that_fit sizer paths)
  unfolding candidates_that_fit
  candidates_that_fit-All none paths h = h
  candidates_that_fit-All (some sizer) [] h = tt
  candidates_that_fit-All (some sizer) (path ∷ paths) h =
      after_test-All sizer (path ∷ paths) (fits_window sizer (path ∷ paths)) h

module _ (options : Options) (world : World) (changed_paths : List Text) where
  -- A path that may be shown: not changed by the pull request, neither blank nor with control characters, no
  -- name that is excluded or that the list of secret files has.
  abbrev pub IsAllowed : Text → Type 0
  IsAllowed path =
      (mem_text path changed_paths ≡ false)
      × (null (strip path) ≡ false)
      × (any (λ c. ltb c 0x20 || (c == 0x7f)) path ≡ false)
      × (matches_any path (exclude_globs options.exclude) ≡ false)
      × (matches_any (lower path) sensitive_globs ≡ false)

  -- A text that may be sent: not too long, not blank and without credentials.
  abbrev pub IsPlain : Text → Type 0
  IsPlain content =
      (length content ≤ options.max_file_bytes)
      × (null (strip content) ≡ false)
      × (world.has_credentials content ≡ false)

  -- All lines, or the first ones and the mark that the rest is left out.
  abbrev pub IsClipped : Text → Text → Type 0
  IsClipped content shown =
      ((length (split_lines content) ≤ options.max_lines_per_file)
        × (shown ≡ join newline (split_lines content)))
      ⊎ ((options.max_lines_per_file < length (split_lines content))
          × (shown
              ≡ join newline (
                  take options.max_lines_per_file (split_lines content) ++ truncation_marker ∷ [])))

  -- A file that is shown: its path, what the provider has for it, and what of that is shown.
  abbrev pub IsAttached : Text × Text → Type 0
  IsAttached (path, shown) =
      IsAllowed path
      × ((content : Text) × (world.content path ≡ some content)
          × IsPlain content
          × IsClipped content shown)

  mem_text-filled :
      (path : Text) (paths : List Text)
      → null path ≡ false
      → mem_text path (keep (λ p. not (null p)) paths) ≡ mem_text path paths
  mem_text-filled path [] h = refl
  mem_text-filled [] ([] ∷ paths) h = absurd (cc h)
  mem_text-filled (c ∷ s) ([] ∷ paths) h =
      mem_text-filled (c ∷ s) paths h ∙ (unfold text_eq in refl)
  mem_text-filled path ((d ∷ p) ∷ paths) h =
      ap (text_eq path (d ∷ p) ||◌) (mem_text-filled path paths h)

  null-blank : (path : Text) → null (strip path) ≡ false → null path ≡ false
  unfolding strip lstrip rstrip
  null-blank [] h = absurd (cc h)
  null-blank (c ∷ s) h = refl

  is_candidate-IsAllowed :
      (path : Text)
      → is_candidate (change_of changed_paths) (exclude_globs options.exclude) path ≡ true
      → IsAllowed path
  unfolding is_candidate is_safe_path is_excluded is_sensitive_path change_of
  is_candidate-IsAllowed path h =
      let (changed, filled, plain, secret, excluded) = all_false _ _ _ _ _ h in
      (
        sym (mem_text-filled path changed_paths (null-blank path filled)) ∙ changed,
        filled,
        plain,
        excluded,
        secret,
      )

  is_attachable-IsPlain :
      (content : Text) → is_attachable options world content ≡ true → IsPlain content
  unfolding is_attachable
  is_attachable-IsPlain content h = (ground arith, ground arith, ground arith)

  clip_lines-IsClipped :
      (content : Text) → IsClipped content (clip_lines options.max_lines_per_file content)
  unfolding clip_lines
  clip_lines-IsClipped content =
      elim (Bool-cases (ltb options.max_lines_per_file (length (split_lines content)))) [
        | inl long ↦ rw long (inr (ltb→lt _ _ long, refl))
        | inr short ↦ rw short (inl (ltb_false→le _ _ short, refl))
      ]

  abbrev IsOffered : Text → Type 0
  IsOffered path =
      is_candidate (change_of changed_paths) (exclude_globs options.exclude) path ≡ true

  paths_of-IsOffered :
      (sizer : Option Sizer) (o : Option (List Text))
      → All IsOffered (paths_of options sizer changed_paths o)
  unfolding paths_of
  paths_of-IsOffered sizer none = tt
  paths_of-IsOffered sizer (some tree) = candidates_that_fit-All IsOffered sizer _ (
      rank_candidates-All (exclude_globs options.exclude) tree changed_paths
        options.max_candidate_paths)

  answer_paths-IsOffered :
      (paths : List Text) (o : Option Value)
      → 0 < options.max_files
      → All IsOffered paths
      → All IsOffered (answer_paths options paths o)
  unfolding answer_paths
  answer_paths-IsOffered paths none h offered = tt
  answer_paths-IsOffered paths (some answer) h offered =
      All_map IsOffered (λ path p. mem_text-All IsOffered path paths offered p.0) _
        (parse_selection-IsSelection answer paths options.max_files h).0

  select_paths-IsOffered :
      (paths : List Text)
      → 0 < options.max_files
      → All IsOffered paths
      → All IsOffered (select_paths options world paths)
  unfolding select_paths
  select_paths-IsOffered [] h offered = tt
  select_paths-IsOffered (path ∷ paths) h offered =
      answer_paths-IsOffered (path ∷ paths) (world.chosen (path ∷ paths)) h offered

  put-IsAttached :
      (path shown : Text) (files : Files)
      → IsAttached (path, shown)
      → All IsAttached files
      → All IsAttached (put path shown files)
  unfolding put
  put-IsAttached path shown [] p h = (p, tt)
  put-IsAttached path shown ((other, old) ∷ files) p (q, h) =
      elim (Bool-cases (text_eq path other)) [
        | inl same ↦
            rw same (subst (λ name. IsAttached (name, shown)) (text_eq→eq path other same) p, h)
        | inr differ ↦ rw differ (q, put-IsAttached path shown files p h)
      ]

  attach-IsAttached :
      (path : Text) (o : Option Text) (files : Files)
      → world.content path ≡ o
      → IsOffered path
      → All IsAttached files
      → All IsAttached (attach options world path o files)
  unfolding attach
  attach-IsAttached path none files e offered h = h
  attach-IsAttached path (some content) files e offered h =
      elim (Bool-cases (is_sensitive_path path)) [
        | inl secret ↦ rw secret h
        | inr plain ↦ rw plain (elim (Bool-cases (is_attachable options world content)) [
          | inl good ↦ rw good (
              put-IsAttached path (clip_lines options.max_lines_per_file content) files
                (
                  is_candidate-IsAllowed path offered,
                  (content, e, is_attachable-IsPlain content good, clip_lines-IsClipped content),
                )
                h)
          | inr bad ↦ rw bad h
        ])
      ]

  attach_all-IsAttached :
      (paths : List Text) (files : Files)
      → All IsOffered paths
      → All IsAttached files
      → All IsAttached (attach_all options world paths files)
  unfolding attach_all
  attach_all-IsAttached [] files offered h = h
  attach_all-IsAttached (path ∷ paths) files (p, offered) h =
      attach_all-IsAttached paths _ offered
        (attach-IsAttached path (world.content path) files refl p h)

  -- If at most a positive number of files may be attached, then, whatever the model and the provider answer,
  -- the path of each attached file is none of the changed ones, not blank, without control characters, and
  -- matches neither an excluded nor a sensitive pattern; what the provider has for it is within the size, not
  -- blank and without credentials; and its lines are shown all, or, if they are more than are allowed, the
  -- first ones with the mark of truncation.
  pub collect_related_files-IsAttached :
      (sizer : Option Sizer) (diff : Text)
      → 0 < options.max_files
      → All IsAttached (collect_related_files options world sizer diff changed_paths)
  unfolding collect_related_files offered_paths
  collect_related_files-IsAttached sizer diff h =
      elim (Bool-cases (not options.enabled || (null diff || not world.supports_tree))) [
        | inl off ↦ rw off tt
        | inr on ↦ rw on (
            attach_all-IsAttached
              (select_paths options world (offered_paths options world sizer changed_paths)) []
              (select_paths-IsOffered _ h (paths_of-IsOffered sizer (repo_tree world))) tt)
      ]

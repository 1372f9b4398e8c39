-- ===== src/Languages/Complete.antt =====
-- No valid file is lost when the files are sorted by language, and none is added.
use achord_review.Prelude.{
  ℕ, Bool, true, false, ◌||◌, Option, none, some, List, [], ◌∷◌, map, keep, any, null,
  if◌then◌else◌, ◌≡◌, refl, ap, ◌∙◌, sym, subst, arith, any-append, Bool-cases, inl, inr,
}
use achord_review.Text.{Text, text_eq}
use achord_review.Types.{FilePatchInfo, mem_text, text_eq_refl, text_eq→eq}
use achord_review.Diff.Compress.{LanguageFiles}
use achord_review.Languages.{
  ExtensionMap, Buckets, is_named, append_to, set_default, place_file, selected_of, language_of,
  place_files, start_buckets, has_files, finish_buckets, selected_name,
  sort_files_by_main_languages, filter_bad_extensions, sort_languages, get_language, or_else,
  if_named,
}

-- Some file of the list has this name; some file of some language has it.
abbrev pub has_file : Text → List FilePatchInfo → Bool
has_file n = any (is_named n)

abbrev pub is_sorted_in : Text → List LanguageFiles → Bool
is_sorted_in n = any (λ b. has_file n b.files)

abbrev keys : List LanguageFiles → List Text
keys = map (λ b. b.language)

append_to-is_sorted_in :
    (n language : Text) (file : FilePatchInfo) (bs : List LanguageFiles)
    → mem_text language (keys bs) ≡ true
    → is_sorted_in n (append_to language file bs) ≡ (is_named n file || is_sorted_in n bs)
unfolding append_to
append_to-is_sorted_in n language file [] h = cc h
append_to-is_sorted_in n language file (b ∷ bs) h =
    elim (Bool-cases (text_eq language b.language)) [
      | inl same ↦ rw same (ground (arith, any-append (is_named n) b.files (file ∷ [])))
      | inr other ↦ rw other (ground (arith, append_to-is_sorted_in n language file bs))
    ]

keys-append_to :
    (language : Text) (file : FilePatchInfo) (bs : List LanguageFiles)
    → keys (append_to language file bs) ≡ keys bs
unfolding append_to
keys-append_to language file [] = refl
keys-append_to language file (b ∷ bs) = elim (Bool-cases (text_eq language b.language)) [
  | inl same ↦ rw same refl
  | inr other ↦ rw other (ap (◌∷◌ b.language) (keys-append_to language file bs))
]

set_default-has_file :
    (n : Text) (file : FilePatchInfo) (rest : List FilePatchInfo)
    → has_file n (set_default file rest) ≡ (is_named n file || has_file n rest)
unfolding set_default
set_default-has_file n file rest = elim (Bool-cases (has_file file.filename rest)) [
  | inl there ↦ elim (Bool-cases (text_eq n file.filename)) [
    | inl same ↦
        rw (there, same)
          (subst (λ m. has_file m rest ≡ true) (sym (text_eq→eq n file.filename same)) there)
    | inr other ↦ rw (there, other) refl
  ]
  | inr absent ↦ rw absent (ground (arith, any-append (is_named n) rest (file ∷ [])))
]

abbrev in_buckets : Text → Buckets → Bool
in_buckets n b = is_sorted_in n b.by_language || has_file n b.rest

some-injective : {x y : Text} → some x ≡ some y → x ≡ y
some-injective {x} p = ap (λ o. elim o [ none ↦ x | some z ↦ z ]) p

or_else-mem :
    (o : Option Text) (b : Bool) (k l : Text) (ks : List Text)
    → ((m : Text) → o ≡ some m → mem_text m ks ≡ true)
    → or_else o (if b then some k else none) ≡ some l
    → mem_text l (k ∷ ks) ≡ true
or_else-mem none true k l ks later h =
    subst (λ x. mem_text x (k ∷ ks) ≡ true) (some-injective h) (rw (text_eq_refl k) refl)
or_else-mem none false k l ks later h = cc h
or_else-mem (some m) b k l ks later h = let found = later l h in ground (arith, found)

selected_name-mem :
    (table : ExtensionMap) (languages : List Text) (configured l : Text)
    → selected_name table languages configured ≡ some l
    → mem_text l languages ≡ true
unfolding selected_name
selected_name-mem table [] configured l h = cc h
selected_name-mem table (k ∷ ks) configured l h =
    or_else-mem (selected_name table ks configured) _ k l ks
      (λ m e. selected_name-mem table ks configured m e) h

if_named-some : (o : Option Text) (l : Text) → if_named o ≡ some l → o ≡ some l
if_named-some none l h = h
if_named-some (some []) l h = cc h
if_named-some (some (c ∷ s)) l h = h

selected_of-mem :
    (table : ExtensionMap) (languages : List Text) (o : Option Text) (l : Text)
    → selected_of table languages o ≡ some l
    → mem_text l languages ≡ true
unfolding selected_of
selected_of-mem table languages none l h = cc h
selected_of-mem table languages (some configured) l h =
    selected_name-mem table languages configured l
      (if_named-some (selected_name table languages configured) l h)

language_of-mem :
    (table : ExtensionMap) (languages : List Text) (file : FilePatchInfo) (l : Text)
    → language_of table languages file ≡ some l
    → mem_text l languages ≡ true
unfolding language_of
language_of-mem table languages file l h =
    selected_of-mem table languages (get_language table file.filename) l h

place_file-in_buckets :
    (n : Text) (file : FilePatchInfo) (o : Option Text) (b : Buckets)
    → ((l : Text) → o ≡ some l → mem_text l (keys b.by_language) ≡ true)
    → in_buckets n (place_file file o b) ≡ (is_named n file || in_buckets n b)
unfolding place_file
place_file-in_buckets n file none b h = ground (arith, set_default-has_file n file b.rest)
place_file-in_buckets n file (some l) b h =
    ground (arith, append_to-is_sorted_in n l file b.by_language (h l refl))

keys-place_file :
    (file : FilePatchInfo) (o : Option Text) (b : Buckets)
    → keys (place_file file o b).by_language ≡ keys b.by_language
unfolding place_file
keys-place_file file none b = refl
keys-place_file file (some l) b = keys-append_to l file b.by_language

place_files-in_buckets :
    (table : ExtensionMap) (languages : List Text) (n : Text) (files : List FilePatchInfo)
    (b : Buckets)
    → keys b.by_language ≡ languages
    → in_buckets n (place_files table languages files b) ≡ (has_file n files || in_buckets n b)
unfolding place_files
place_files-in_buckets table languages n [] b k = refl
place_files-in_buckets table languages n (file ∷ files) b k =
    let o = language_of table languages file in
    let placed = place_file-in_buckets n file o b (λ l e.
      subst (λ ls. mem_text l ls ≡ true) (sym k) (language_of-mem table languages file l e)) in
    let later =
      place_files-in_buckets table languages n files (place_file file o b)
        (keys-place_file file o b ∙ k) in
    later
    ∙ or_swap (has_file n files) (is_named n file) (in_buckets n b)
        (in_buckets n (place_file file o b)) placed
  where
    or_swap : (x y z w : Bool) → w ≡ (y || z) → (x || w) ≡ ((y || x) || z)
    or_swap x y z w e = ground (arith, e)

keys-start : (languages : List Text) → keys (start_buckets languages).by_language ≡ languages
keys-start [] = refl
keys-start (l ∷ ls) = ap (◌∷◌ l) (keys-start ls)

start-empty : (n : Text) (languages : List Text) → in_buckets n (start_buckets languages) ≡ false
start-empty n [] = refl
start-empty n (l ∷ ls) = start-empty n ls

null-has_file : (n : Text) (fs : List FilePatchInfo) → null fs ≡ true → has_file n fs ≡ false
null-has_file n [] h = refl
null-has_file n (f ∷ fs) h = cc h

keep-is_sorted_in :
    (n : Text) (bs : List LanguageFiles) → is_sorted_in n (keep has_files bs) ≡ is_sorted_in n bs
keep-is_sorted_in n [] = refl
keep-is_sorted_in n (b ∷ bs) = elim (Bool-cases (null b.files)) [
  | inl empty ↦
      let absent = null-has_file n b.files empty in rw (empty, absent) (keep-is_sorted_in n bs)
  | inr full ↦ rw full (ap (has_file n b.files ||◌) (keep-is_sorted_in n bs))
]

finish-is_sorted_in : (n : Text) (b : Buckets) → is_sorted_in n (finish_buckets b) ≡ in_buckets n b
finish-is_sorted_in n b =
    any-append (λ g. has_file n g.files) (keep has_files b.by_language) _
    ∙ ground (arith, keep-is_sorted_in n b.by_language)

-- Whether or not the provider reports languages, a name stands under some language, or under `Other`, just
-- when a file of this name is valid: no valid file vanishes, and no file that is filtered out comes back.
pub sort_files_by_main_languages_complete :
    (table : ExtensionMap) (bad_extensions : List Text) (languages : List (Text × ℕ))
    (files : List FilePatchInfo) (n : Text)
    → is_sorted_in n (sort_files_by_main_languages table bad_extensions languages files)
      ≡ has_file n (filter_bad_extensions bad_extensions files)
unfolding sort_files_by_main_languages
sort_files_by_main_languages_complete table bad_extensions languages files n =
    elim (Bool-cases (null languages)) [
      | inl without ↦ rw without (ground arith)
      | inr some_languages ↦
          let names = map (λ l. l.0) (sort_languages languages) in
          let filtered = filter_bad_extensions bad_extensions files in
          let placed =
            place_files-in_buckets table names n filtered (start_buckets names)
              (keys-start names) in
          rw some_languages (
            finish-is_sorted_in n (place_files table names filtered (start_buckets names))
            ∙ placed
            ∙ ground (arith, start-empty n names))
    ]

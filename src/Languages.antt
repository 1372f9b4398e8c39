-- ===== src/Languages.antt =====
-- pr_agent/algo/language_handler.py: the files of a pull request by the language that they are in.
pub mod Complete
use achord_review.Prelude.{
  ℕ, Bool, true, false, ◌&&◌, ◌||◌, not, Option, none, some, List, [], ◌∷◌, ◌++◌, map, keep, any,
  all, null, reverse, leb, ◌==◌, if◌then◌else◌,
}
use achord_review.Text.{Text, codes, text_eq, lower, starts_with, join}
use achord_review.Text.Parts.{split_code, replace}
use achord_review.Types.{FilePatchInfo, mem_text}
use achord_review.Diff.Compress.{LanguageFiles}

-- `parts[-1]`
abbrev pub last_part : List Text → Text
last_part [] = []
last_part (p ∷ []) = p
last_part (p ∷ q ∷ ps) = last_part (q ∷ ps)

-- `filename.replace('\\', '/').split('/')[-1]`
unfoldable pub base_name : Text → Text
base_name filename = last_part (split_code b'/' (replace (codes "\\") (codes "/") filename))

abbrev pub ends_with : Text → Text → Bool
ends_with suffix s = starts_with (reverse suffix) (reverse s)

abbrev pub auto_generated_files_exact : List Text
auto_generated_files_exact = map codes (
    "package-lock.json" ∷ "yarn.lock" ∷ "pnpm-lock.yaml" ∷ "composer.lock" ∷ "Gemfile.lock"
    ∷ "poetry.lock" ∷ "go.sum" ∷ ".terraform.lock.hcl" ∷ "uv.lock" ∷ "Cargo.lock" ∷ "Pipfile.lock"
    ∷ "mix.lock" ∷ "pubspec.lock" ∷ "bun.lockb" ∷ [])

abbrev pub auto_generated_suffixes : List Text
auto_generated_suffixes =
    map codes (".min.js" ∷ ".min.css" ∷ ".js.map" ∷ ".ts.map" ∷ ".css.map" ∷ [])

-- `is_valid_file(filename, bad_extensions)`, where the settings have given `bad_extensions`
unfoldable pub is_valid_file : List Text → Text → Bool
unfolding base_name
is_valid_file bad_extensions filename =
    if null filename
    then false
    else if mem_text (base_name filename) auto_generated_files_exact
    then false
    else if any (λ suffix. ends_with suffix filename) auto_generated_suffixes
    then false
    else not (mem_text (last_part (split_code b'.' filename)) bad_extensions)

unfoldable pub filter_bad_extensions : List Text → List FilePatchInfo → List FilePatchInfo
unfolding is_valid_file
filter_bad_extensions bad_extensions files =
    keep (λ f. is_valid_file bad_extensions f.filename) files

-- `language_extension_map_org`
abbrev pub ExtensionMap : Type 0
ExtensionMap = List (Text × List Text)

-- `extension.lstrip("*")`
unfoldable pub strip_stars : Text → Text
strip_stars [] = []
strip_stars (c ∷ s) = if c == 42 then strip_stars s else c ∷ s

-- `exact_to_language.get(candidate)`: the first language with this extension.
unfoldable pub exact_language : ExtensionMap → Text → Option Text
unfolding strip_stars
exact_language [] candidate = none
exact_language ((language, extensions) ∷ table) candidate =
    if any (λ e. text_eq (strip_stars e) candidate) extensions
    then some language
    else exact_language table candidate

-- `folded_to_languages.get(candidate.casefold())`, with repetitions
unfoldable pub folded_languages : ExtensionMap → Text → List Text
unfolding strip_stars
folded_languages [] candidate = []
folded_languages ((language, extensions) ∷ table) candidate =
    let later = folded_languages table candidate in
    if any (λ e. text_eq (lower (strip_stars e)) (lower candidate)) extensions
    then language ∷ later
    else later

-- The member of a set that has just one.
abbrev pub only_member : List Text → Option Text
only_member [] = none
only_member (l ∷ ls) = if all (text_eq l) ls then some l else none

abbrev pub or_else : Option Text → Option Text → Option Text
or_else none b = b
or_else (some a) b = some a

-- A language whose name is empty does not count.
abbrev pub if_named : Option Text → Option Text
if_named (some (c ∷ s)) = some (c ∷ s)
if_named _ = none

unfoldable pub first_match : ExtensionMap → List Text → Option Text
unfolding exact_language folded_languages
first_match table [] = none
first_match table (candidate ∷ candidates) =
    or_else (if_named (exact_language table candidate))
      (or_else (only_member (folded_languages table candidate)) (first_match table candidates))

-- `["." + ".".join(parts[i:]) for i in range(1, len(parts))]`
abbrev pub suffixes : List Text → List Text
suffixes [] = []
suffixes (p ∷ []) = []
suffixes (p ∷ q ∷ ps) = (46 ∷ join (codes ".") (q ∷ ps)) ∷ suffixes (q ∷ ps)

unfoldable pub get_language : ExtensionMap → Text → Option Text
unfolding base_name first_match
get_language table filename =
    let name = base_name filename in first_match table (name ∷ suffixes (split_code b'.' name))

-- A language goes before the first one that has no more bytes, so that equals keep their order.
unfoldable pub insert_language : Text × ℕ → List (Text × ℕ) → List (Text × ℕ)
insert_language l [] = l ∷ []
insert_language l (k ∷ ks) = if leb k.1 l.1 then l ∷ k ∷ ks else k ∷ insert_language l ks

-- `sorted(languages.items(), key=lambda item: item[1], reverse=True)`
unfoldable pub sort_languages : List (Text × ℕ) → List (Text × ℕ)
unfolding insert_language
sort_languages [] = []
sort_languages (l ∷ ls) = insert_language l (sort_languages ls)

-- `configured_language_names.get(name)`: the last language of the map with this name in lower case.
unfoldable pub configured_name : ExtensionMap → Text → Option Text
configured_name [] name = none
configured_name ((language, _) ∷ table) name =
    or_else (configured_name table name)
      (if text_eq (lower language) name then some language else none)

abbrev pub is_name : Text → Option Text → Bool
is_name a none = false
is_name a (some b) = text_eq a b

-- `selected_language_names.get(configured)`: the last of the languages with this configured name.
unfoldable pub selected_name : ExtensionMap → List Text → Text → Option Text
unfolding configured_name
selected_name table [] configured = none
selected_name table (l ∷ ls) configured =
    or_else (selected_name table ls configured)
      (if is_name configured (configured_name table (lower l)) then some l else none)

-- `files_by_language`, in the order of the languages, and the values of `rest_files`.
pub record Buckets : Type 0 where
  pub by_language : List LanguageFiles
  pub rest : List FilePatchInfo

abbrev pub is_named : Text → FilePatchInfo → Bool
is_named name f = text_eq name f.filename

-- `files_by_language[language].append(file)`
unfoldable pub append_to : Text → FilePatchInfo → List LanguageFiles → List LanguageFiles
append_to language file [] = []
append_to language file (b ∷ bs) =
    let later = append_to language file bs in
    if text_eq language b.language
    then record b { files = b.files ++ file ∷ [] } ∷ bs
    else b ∷ later

-- `rest_files.setdefault(file.filename, file)`
unfoldable pub set_default : FilePatchInfo → List FilePatchInfo → List FilePatchInfo
set_default file rest = if any (is_named file.filename) rest then rest else rest ++ file ∷ []

unfoldable pub place_file : FilePatchInfo → Option Text → Buckets → Buckets
unfolding append_to set_default
place_file file none b = record b { rest = set_default file b.rest }
place_file file (some language) b = record b { by_language = append_to language file b.by_language }

-- `selected_language_names.get(configured)`, where an empty name does not count
unfoldable pub selected_of : ExtensionMap → List Text → Option Text → Option Text
unfolding selected_name
selected_of table languages none = none
selected_of table languages (some configured) = if_named (selected_name table languages configured)

unfoldable pub language_of : ExtensionMap → List Text → FilePatchInfo → Option Text
unfolding get_language selected_of
language_of table languages file = selected_of table languages (get_language table file.filename)

module _ (table : ExtensionMap) (languages : List Text) where
  unfoldable pub place_files : List FilePatchInfo → Buckets → Buckets
  unfolding place_file language_of
  place_files [] b = b
  place_files (file ∷ files) b =
      place_files files (place_file file (language_of table languages file) b)

abbrev pub start_buckets : List Text → Buckets
start_buckets languages = record {
  by_language = map (λ l. record { language = l; files = [] }) languages;
  rest = [];
}

abbrev pub has_files : LanguageFiles → Bool
has_files b = not (null b.files)

abbrev pub finish_buckets : Buckets → List LanguageFiles
finish_buckets b =
    keep has_files b.by_language ++ record { language = codes "Other"; files = b.rest } ∷ []

unfoldable pub sort_files_by_main_languages :
    ExtensionMap → List Text → List (Text × ℕ) → List FilePatchInfo → List LanguageFiles
unfolding filter_bad_extensions sort_languages place_files
sort_files_by_main_languages table bad_extensions languages files =
    let files_filtered = filter_bad_extensions bad_extensions files in
    let names = map (λ l. l.0) (sort_languages languages) in
    if null languages
    then record { language = codes "Other"; files = files_filtered } ∷ []
    else finish_buckets (place_files table names files_filtered (start_buckets names))

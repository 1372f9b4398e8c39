-- ===== src/RelatedFiles/Paths.antt =====
-- The paths that may be offered to the model: `_is_safe_path`, `is_sensitive_path` and `_rank_candidates`
-- of pr_agent/algo/related_files.py.
pub mod Candidates
use achord_review.Prelude.{
  ℕ, ◌-◌, Bool, true, false, ◌&&◌, ◌||◌, not, Option, none, some, List, [], ◌∷◌, ◌++◌, map, take,
  keep, any, all, null, ltb, leb, ◌==◌, if◌then◌else◌,
}
use achord_review.Text.{Text, codes, strip, lower, rstrip, text_eq, starts_with}
use achord_review.Text.Glob.{fnmatch}
use achord_review.Types.{mem_text}

-- What stands before and after the last `/`.
abbrev pub halves : Text → Text × Text
halves [] = ([], [])
halves (c ∷ s) =
    let (front, base) = halves s in
    if null front && not (c == b'/') then ([], c ∷ base) else (c ∷ front, base)

-- `front.rstrip("/")`
abbrev drop_slashes : Text → Text
drop_slashes [] = []
drop_slashes (c ∷ s) =
    let more = drop_slashes s in if null more && (c == b'/') then [] else c ∷ more

-- `os.path.dirname(path)`: the slashes at the end go, unless there is nothing else.
unfoldable pub dirname : Text → Text
dirname path =
    let (front, base) = halves path in if all (◌==◌ b'/') front then front else drop_slashes front

abbrev after_dots : Text → Text
after_dots [] = []
after_dots (c ∷ s) = if c == b'.' then after_dots s else c ∷ s

-- The text from its last dot on.
abbrev from_last_dot : Text → Text
from_last_dot [] = []
from_last_dot (c ∷ s) =
    let later = from_last_dot s in if null later then (if c == b'.' then c ∷ s else []) else later

-- `os.path.splitext(path)[1]`: dots at the front of the name start no extension.
unfoldable pub extension : Text → Text
extension path = from_last_dot (after_dots (halves path).1)

-- `_is_safe_path(path)`, for a path that is a `str`
unfoldable pub is_safe_path : Text → Bool
unfolding strip
is_safe_path path = not (null (strip path)) && not (any (λ c. ltb c 0x20 || (c == 0x7f)) path)

abbrev pub sensitive_globs : List Text
sensitive_globs =
    codes "*.pem"
    ∷ codes "*.key"
    ∷ codes "*.p12"
    ∷ codes "*.pfx"
    ∷ codes "*.jks"
    ∷ codes "*.keystore"
    ∷ codes "*.kdbx"
    ∷ codes "*.ovpn"
    ∷ codes "*.asc"
    ∷ codes "*.gpg"
    ∷ codes "*.env"
    ∷ codes ".env"
    ∷ codes ".env.*"
    ∷ codes "*.env.*"
    ∷ codes ".npmrc"
    ∷ codes ".yarnrc"
    ∷ codes ".netrc"
    ∷ codes ".pgpass"
    ∷ codes ".my.cnf"
    ∷ codes ".htpasswd"
    ∷ codes ".git-credentials"
    ∷ codes "id_rsa*"
    ∷ codes "id_dsa*"
    ∷ codes "id_ecdsa*"
    ∷ codes "id_ed25519*"
    ∷ codes "*.ppk"
    ∷ codes "*known_hosts*"
    ∷ codes "*secret*"
    ∷ codes "*credential*"
    ∷ codes "*password*"
    ∷ codes "*passwd*"
    ∷ codes "*token*"
    ∷ codes "*apikey*"
    ∷ codes "*api_key*"
    ∷ codes "service-account*.json"
    ∷ codes "serviceaccount*.json"
    ∷ codes "*-key.json"
    ∷ codes "*_key.json"
    ∷ codes "*.jks.enc"
    ∷ codes "*.tfstate"
    ∷ codes "*.tfstate.*"
    ∷ codes "*.kubeconfig"
    ∷ codes "kubeconfig*"
    ∷ []

abbrev pub default_exclude_globs : List Text
default_exclude_globs =
    codes "*.lock"
    ∷ codes "*-lock.json"
    ∷ codes "*-lock.yaml"
    ∷ codes "*.min.js"
    ∷ codes "*.min.css"
    ∷ codes "*.map"
    ∷ codes "*.svg"
    ∷ codes "*.png"
    ∷ codes "*.jpg"
    ∷ codes "*.jpeg"
    ∷ codes "*.gif"
    ∷ codes "*.ico"
    ∷ codes "*.pdf"
    ∷ codes "*.zip"
    ∷ codes "*.gz"
    ∷ codes "*.woff*"
    ∷ codes "*.ttf"
    ∷ codes "*.mp4"
    ∷ codes "*.wasm"
    ∷ codes "**/node_modules/**"
    ∷ codes "**/vendor/**"
    ∷ codes "**/dist/**"
    ∷ codes "**/build/**"
    ∷ codes "**/.git/**"
    ∷ codes "**/__pycache__/**"
    ∷ codes "**/*.snap"
    ∷ []

-- `_matches_any`
unfoldable pub matches_any : Text → List Text → Bool
unfolding fnmatch
matches_any path = any (λ pattern.
    fnmatch path pattern || (fnmatch (b'/' ∷ path) pattern || fnmatch (halves path).1 pattern))

unfoldable pub is_sensitive_path : Text → Bool
unfolding matches_any lower
is_sensitive_path path = matches_any (lower path) sensitive_globs

-- `_is_excluded`
unfoldable pub is_excluded : Text → List Text → Bool
unfolding is_sensitive_path matches_any
is_excluded path patterns = is_sensitive_path path || matches_any path patterns

-- `_exclude_globs`, with what is configured.
abbrev pub exclude_globs : List Text → List Text
exclude_globs configured = if null configured then default_exclude_globs else configured

-- The three lists of `_rank_candidates`.
pub record Ranked : Type 0 where
  pub near : List Text
  pub same_kind : List Text
  pub rest : List Text

-- What the ranking knows of the change.
pub record Change : Type 0 where
  pub paths : List Text
  pub dirs : List Text
  pub exts : List Text

unfoldable pub change_of : List Text → Change
unfolding dirname extension
change_of changed_paths =
    let changed = keep (λ path. not (null path)) changed_paths in
    record {
      paths = changed;
      dirs = map dirname changed;
      exts = keep (λ ext. not (null ext)) (map extension changed);
    }

-- `directory in changed_dirs` or below one of them
unfoldable pub is_near : Change → Text → Bool
unfolding starts_with
is_near change directory =
    mem_text directory change.dirs
    || any (λ dir. not (null dir) && starts_with (dir ++ b'/' ∷ []) directory) change.dirs

-- A path may be offered.
unfoldable pub is_candidate : Change → List Text → Text → Bool
unfolding is_safe_path is_excluded
is_candidate change patterns path =
    not (mem_text path change.paths || (not (is_safe_path path) || is_excluded path patterns))

unfoldable pub place : Change → List Text → Text → Ranked → Ranked
unfolding is_candidate is_near dirname extension
place change patterns path ranked =
    if not (is_candidate change patterns path)
    then ranked
    else if is_near change (dirname path)
    then record ranked { near = ranked.near ++ path ∷ [] }
    else if mem_text (extension path) change.exts
    then record ranked { same_kind = ranked.same_kind ++ path ∷ [] }
    else record ranked { rest = ranked.rest ++ path ∷ [] }

unfoldable pub place_all : Change → List Text → List Text → Ranked → Ranked
unfolding place
place_all change patterns [] ranked = ranked
place_all change patterns (path ∷ tree) ranked =
    place_all change patterns tree (place change patterns path ranked)

-- `_rank_candidates`
unfoldable pub rank_candidates : List Text → List Text → List Text → ℕ → List Text
unfolding place_all change_of
rank_candidates patterns tree changed_paths limit =
    let ranked =
      place_all (change_of changed_paths) patterns tree
        (record { near = []; same_kind = []; rest = [] }) in
    take limit (ranked.near ++ (ranked.same_kind ++ ranked.rest))

-- ===== src/RepoContext/Cache.antt =====
-- `class _RepoContextCache` of pr_agent/algo/repo_context.py, with the clock as an argument, and the two
-- caches that `build_repo_context` asks.
pub mod Sound
use achord_review.Prelude.{
  ℕ, ◌+◌, max, ◌≡◌, Bool, true, false, not, Option, none, some, List, [], ◌∷◌, ◌++◌, length, keep,
  ltb, leb, if◌then◌else◌,
}
use achord_review.Text.{Text}

-- The keys, which are tuples in the source, with a test for their equality.
pub record Keys {ℓ} (K : Type ℓ) : Type ℓ where
  pub same : K → K → Bool
  pub same_refl : (k : K) → same k k ≡ true
  pub same→eq : (j k : K) → same j k ≡ true → j ≡ k

-- The arguments of the constructor.
pub record Limits : Type 0 where
  pub max_size : ℕ
  pub ttl_seconds : ℕ

-- `max(1, int(max_size))`
abbrev pub room : Limits → ℕ
room limits = max 1 limits.max_size

-- `_entries`: keys, contexts and expiry times, the least recently used first.
abbrev pub Entries {ℓ} : Type ℓ → Type ℓ
Entries K = List (K × (Text × ℕ))

-- The calls on a cache.
pub data Call {ℓ} (K : Type ℓ) : Type ℓ where
  gets : ℕ → K → Call K
  sets : ℕ → K → Text → Call K

module _ {ℓ} {K : Type ℓ} (keys : Keys K) (limits : Limits) where
  unfoldable pub lookup : K → Entries K → Option (Text × ℕ)
  lookup k [] = none
  lookup k ((j, x) ∷ es) = if keys.same k j then some x else lookup k es

  -- `del self._entries[key]`
  abbrev pub remove : K → Entries K → Entries K
  remove k = keep (λ e. not (keys.same k e.0))

  -- `_entries[key] = x` and `move_to_end(key)`
  abbrev pub put_last : K → Text × ℕ → Entries K → Entries K
  put_last k x es = remove k es ++ (k, x) ∷ []

  -- `while len(self._entries) > self._max_size: self._entries.popitem(last=False)`
  unfoldable pub trim : Entries K → Entries K
  trim [] = []
  trim (e ∷ es) = let rest = trim es in if ltb (room limits) (length (e ∷ es)) then rest else e ∷ es

  -- What `get` does with the entry that it finds; `none` is the default.
  unfoldable pub read_entry : ℕ → K → Entries K → Option (Text × ℕ) → Option Text × Entries K
  read_entry now k es none = (none, es)
  read_entry now k es (some (v, expires_at)) =
      if leb expires_at now then (none, remove k es) else (some v, put_last k (v, expires_at) es)

  unfoldable pub get : ℕ → K → Entries K → Option Text × Entries K
  unfolding lookup read_entry
  get now k es = read_entry now k es (lookup k es)

  -- `__setitem__`
  unfoldable pub set_item : ℕ → K → Text → Entries K → Entries K
  unfolding trim
  set_item now k v es = trim (put_last k (v, now + limits.ttl_seconds) es)

  unfoldable pub call : Call K → Entries K → Entries K
  unfolding get set_item
  call (gets now k) es = (get now k es).1
  call (sets now k v) es = set_item now k v es

  unfoldable pub run : List (Call K) → Entries K → Entries K
  unfolding call
  run [] es = es
  run (c ∷ cs) es = run cs (call c es)

-- The cache of the process and that of the provider.
pub record Caches {ℓ} (J K : Type ℓ) : Type ℓ where
  pub process : Entries J
  pub provider : Entries K

-- What is known of a request: its key for the provider and, where it has an address, for the process.
pub record Request {ℓ} (J K : Type ℓ) : Type ℓ where
  pub process_key : Option J
  pub cache_key : K

module _ {ℓ} {J K : Type ℓ} (process_keys : Keys J) (provider_keys : Keys K) (limits : Limits) where
  unfoldable pub ask_provider : ℕ → K → Caches J K → Option Text × Caches J K
  unfolding get
  ask_provider now k c =
      let (found, provider) = get provider_keys limits now k c.provider in
      (found, record c { provider = provider })

  -- What follows the answer of the process's cache.
  abbrev pub or_provider : ℕ → K → Option Text × Caches J K → Option Text × Caches J K
  or_provider now k (some text, c) = (some text, c)
  or_provider now k (none, c) = ask_provider now k c

  abbrev pub ask_process : ℕ → Option J → Caches J K → Option Text × Caches J K
  unfolding get
  ask_process now none c = (none, c)
  ask_process now (some j) c =
      let (found, process) = get process_keys limits now j c.process in
      (found, record c { process = process })

  -- `_get_cached_repo_context`
  unfoldable pub get_cached_repo_context : ℕ → Request J K → Caches J K → Option Text × Caches J K
  unfolding ask_provider ask_process
  get_cached_repo_context now r c = or_provider now r.cache_key (ask_process now r.process_key c)

  abbrev pub store_process : ℕ → Option J → Text → Caches J K → Caches J K
  unfolding set_item
  store_process now none text c = c
  store_process now (some j) text c = record c {
    process = set_item process_keys limits now j text c.process;
  }

  -- `_store_repo_context`
  unfoldable pub store_repo_context : ℕ → Request J K → Text → Caches J K → Caches J K
  unfolding set_item store_process
  store_repo_context now r text c =
      store_process now r.process_key text
        (record c { provider = set_item provider_keys limits now r.cache_key text c.provider })

  -- What `build_repo_context` does with the result of its fetch: the context, and whether a fetch failed.
  unfoldable pub build_missed : ℕ → Request J K → Text × Bool → Caches J K → Text × Caches J K
  unfolding store_repo_context
  build_missed now r (text, had_fetch_error) c =
      (text, if had_fetch_error then c else store_repo_context now r text c)

  abbrev pub cached_or_built :
      ℕ → Request J K → Text × Bool → Option Text × Caches J K → Text × Caches J K
  unfolding build_missed
  cached_or_built now r fetched (some text, c) = (text, c)
  cached_or_built now r fetched (none, c) = build_missed now r fetched c

  -- `build_repo_context`, from its look at the caches on. `fetched` is what the provider and the renderer
  -- would give now.
  unfoldable pub build_repo_context : ℕ → Request J K → Text × Bool → Caches J K → Text × Caches J K
  unfolding get_cached_repo_context cached_or_built
  build_repo_context now r fetched c =
      cached_or_built now r fetched (get_cached_repo_context now r c)

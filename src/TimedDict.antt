-- ===== src/TimedDict.antt =====
-- `class DefaultDictWithTimeout` of pr_agent/servers/utils.py, with the clock as an argument.
pub mod Timed
use achord_review.Prelude.{
  ℕ, ◌+◌, ◌-◌, Bool, true, false, not, Option, none, some, List, [], ◌∷◌, map, keep, any, ltb,
  if◌then◌else◌,
}
use achord_review.Text.{Text, text_eq}
use achord_review.Types.{mem_text}

-- A dictionary as a list of pairs, and the tests and changes that the class uses.
module _ {ℓ} {V : Type ℓ} where
  abbrev pub has_key : Text → List (Text × V) → Bool
  has_key k = any (λ e. text_eq k e.0)

  unfoldable pub get : Text → List (Text × V) → Option V
  get k [] = none
  get k ((j, v) ∷ es) = if text_eq k j then some v else get k es

  -- `d[k] = v`
  unfoldable pub put : Text → V → List (Text × V) → List (Text × V)
  put k v [] = (k, v) ∷ []
  put k v ((j, w) ∷ es) = if text_eq k j then (j, v) ∷ es else (j, w) ∷ put k v es

  -- the entries whose key is not among `ks`
  abbrev pub without : List Text → List (Text × V) → List (Text × V)
  without ks = keep (λ e. not (mem_text e.0 ks))

-- The arguments of the constructor.
pub record Policy {ℓ} (V : Type ℓ) : Type ℓ where
  pub default_factory : Option V
  pub ttl : Option ℕ
  pub refresh_interval : ℕ
  pub update_key_time_on_get : Bool

-- The entries, the key times, and when a refresh is due, which is `last_refresh + refresh_interval`.
pub record TimedDict {ℓ} (V : Type ℓ) : Type ℓ where
  pub entries : List (Text × V)
  pub key_times : List (Text × ℕ)
  pub due : ℕ

-- `__init__`: `initial` are the entries that `*args` and `**kwargs` give to `defaultdict`; they get no time.
abbrev pub new_dict {ℓ} : {V : Type ℓ} → List (Text × V) → ℕ → TimedDict V
new_dict initial now = record { entries = initial; key_times = []; due = now }

module _ {ℓ} {V : Type ℓ} (policy : Policy V) where
  -- `del self[key]` for each of the keys
  abbrev pub delete_all : List Text → TimedDict V → TimedDict V
  delete_all ks d = record d { entries = without ks d.entries; key_times = without ks d.key_times }

  abbrev pub expired_keys : ℕ → ℕ → List (Text × ℕ) → List Text
  expired_keys now ttl times = map (λ e. e.0) (keep (λ e. ltb ttl (now - e.1)) times)

  abbrev pub refresh_after : ℕ → Option ℕ → TimedDict V → TimedDict V
  refresh_after now none d = d
  refresh_after now (some ttl) d =
      if ltb now d.due then d else record (delete_all (expired_keys now ttl d.key_times) d) {
        due = now + policy.refresh_interval;
      }

  -- `__refresh`
  unfoldable pub refresh : ℕ → TimedDict V → TimedDict V
  refresh now d = refresh_after now policy.ttl d

  -- `__setitem__`
  unfoldable pub set_item : ℕ → Text → V → TimedDict V → TimedDict V
  set_item now k v d = record d { entries = put k v d.entries; key_times = put k now d.key_times }

  -- `__delitem__`
  unfoldable pub del_item : Text → TimedDict V → TimedDict V
  del_item k d = delete_all (k ∷ []) d

  abbrev pub touch : ℕ → Text → TimedDict V → TimedDict V
  touch now k d =
      if policy.update_key_time_on_get then record d { key_times = put k now d.key_times } else d

  -- `__missing__`: the factory's value is stored, or the time of the key is dropped and `KeyError` raised.
  abbrev pub missing : ℕ → Text → Option V → TimedDict V → Option V × TimedDict V
  missing now k none d = (none, record d { key_times = without (k ∷ []) d.key_times })
  missing now k (some v) d = (some v, set_item now k v d)

  abbrev pub found_or_missing : ℕ → Text → Option V → TimedDict V → Option V × TimedDict V
  found_or_missing now k none d = missing now k policy.default_factory d
  found_or_missing now k (some v) d = (some v, d)

  -- `__getitem__`; `none` is the `KeyError`.
  unfoldable pub get_item : ℕ → Text → TimedDict V → Option V × TimedDict V
  unfolding refresh set_item get
  get_item now k d =
      let refreshed = refresh now (touch now k d) in
      found_or_missing now k (get k refreshed.entries) refreshed

  abbrev pub kept_or_set : ℕ → Text → V → Option V → TimedDict V → V × TimedDict V
  kept_or_set now k v none d = (v, set_item now k v d)
  kept_or_set now k v (some w) d = (w, touch now k d)

  -- `setdefault`
  unfoldable pub set_default : ℕ → Text → V → TimedDict V → V × TimedDict V
  unfolding refresh set_item get
  set_default now k v d =
      let refreshed = refresh now d in kept_or_set now k v (get k refreshed.entries) refreshed

  -- The calls on a dictionary.
  pub data Use : Type ℓ where
    sets sets_default : ℕ → Text → V → Use
    reads : ℕ → Text → Use
    deletes : Text → Use

  unfoldable pub use_dict : Use → TimedDict V → TimedDict V
  unfolding set_item set_default get_item del_item
  use_dict (sets now k v) d = set_item now k v d
  use_dict (sets_default now k v) d = (set_default now k v d).1
  use_dict (reads now k) d = (get_item now k d).1
  use_dict (deletes k) d = del_item k d

  unfoldable pub use_all : List Use → TimedDict V → TimedDict V
  unfolding use_dict
  use_all [] d = d
  use_all (u ∷ us) d = use_all us (use_dict u d)

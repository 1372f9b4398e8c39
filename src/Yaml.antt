-- ===== src/Yaml.antt =====
-- What `yaml.safe_load` and `json.loads` return: the data that a model's answer is read into.
pub mod Laws
use achord_review.Prelude.{
  ℕ, zero, suc, Bool, true, false, ◌&&◌, not, Option, none, some, List, [], ◌∷◌, null,
  if◌then◌else◌,
}
use achord_review.Prelude.Int.{ℤ, pos, negsuc}
use achord_review.Text.{Text, text_eq}

-- A float, a date and any other scalar is kept as its `str` and its truth.
mutual
  pub data Value : Type 0 where
    absent : Value
    flag : Bool → Value
    whole : ℤ → Value
    text : Text → Value
    scalar : Text → Bool → Value
    items : Items → Value
    dict : Fields → Value

  pub data Items : Type 0 where
    nil : Items
    item : Value → Items → Items

  pub data Fields : Type 0 where
    end : Fields
    field : Text → Value → Fields → Fields

-- `d.get(key)`; `absent` is None.
unfoldable pub get : Text → Fields → Value
unfolding text_eq
get key end = absent
get key (field k v d) = if text_eq key k then v else get key d

-- `key in d`
unfoldable pub has : Text → Fields → Bool
unfolding text_eq
has key end = false
has key (field k v d) = if text_eq key k then true else has key d

-- `d[key] = v`
unfoldable pub set : Text → Value → Fields → Fields
unfolding text_eq
set key v end = field key v end
set key v (field k w d) = if text_eq key k then field k v d else field k w (set key v d)

-- `bool(v)`
unfoldable pub is_truthy : Value → Bool
is_truthy absent = false
is_truthy (flag b) = b
is_truthy (whole (pos zero)) = false
is_truthy (whole (pos (suc n))) = true
is_truthy (whole (negsuc n)) = true
is_truthy (text s) = not (null s)
is_truthy (scalar s b) = b
is_truthy (items nil) = false
is_truthy (items (item v vs)) = true
is_truthy (dict end) = false
is_truthy (dict (field k v d)) = true

-- `v or w`
abbrev pub or_else : Value → Value → Value
unfolding is_truthy
or_else v w = if is_truthy v then v else w

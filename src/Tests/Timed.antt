-- ===== src/Tests/Timed.antt =====
-- A dictionary with a time-to-live, written and read.
use achord_review.Prelude.{ℕ, ◌≡◌, ◌⊎◌, refl, true, false, some, List, [], ◌∷◌}
use achord_review.Text.{Text, codes, text_eq}
use achord_review.TimedDict.{
  Policy, Use, sets, reads, new_dict, has_key, use_all, use_dict, set_item, get_item, refresh, get,
  put,
}
use achord_review.TimedDict.Timed.{has_key-use_all}

abbrev policy : Policy ℕ
policy = record {
  default_factory = some 0;
  ttl = some 10;
  refresh_interval = 5;
  update_key_time_on_get = true;
}

abbrev calls : List (Use policy)
calls =
    sets 3 (codes "a") 7 ∷ sets 4 (codes "b") 8 ∷ reads 12 (codes "a") ∷ reads 20 (codes "a") ∷ []

-- What the dictionary is made with.
abbrev initial : List (Text × ℕ)
initial = (codes "c", 9) ∷ []

first_stays : has_key (codes "a") (use_all policy calls (new_dict initial 0)).entries ≡ true
unfolding use_all use_dict set_item get_item refresh get put text_eq
first_stays = refl

second_goes : has_key (codes "b") (use_all policy calls (new_dict initial 0)).entries ≡ false
unfolding use_all use_dict set_item get_item refresh get put text_eq
second_goes = refl

-- The entry that the dictionary was made with has no time, and outlives every refresh.
initial_stays : has_key (codes "c") (use_all policy calls (new_dict initial 0)).entries ≡ true
unfolding use_all use_dict set_item get_item refresh get put text_eq
initial_stays = refl

initial_untimed : has_key (codes "c") (use_all policy calls (new_dict initial 0)).key_times ≡ false
unfolding use_all use_dict set_item get_item refresh get put text_eq
initial_untimed = refl

has_key-use_all_example :
    (has_key (codes "a") (use_all policy calls (new_dict initial 0)).key_times ≡ true)
    ⊎ (has_key (codes "a") initial ≡ true)
has_key-use_all_example = has_key-use_all policy initial calls 0 (codes "a") first_stays

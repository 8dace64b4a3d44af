-- ===== src/Bolt/Examples.antt =====
-- A small store that runs: JSON that turns the integers among the properties into floats, whose
-- pattern stands as the integer, and a bucket that is a list of entries.
use zigbee_go_home.Base.{
  ℕ, ◌≡◌, refl, ap, ◌∙◌, true, List, [], ◌∷◌, ◌==◌, ==_iff, if◌then◌else◌, Option, none, some,
  map_option, Bool-cases, inl, inr, arith,
}
use zigbee_go_home.Base.Int.{pos}
use zigbee_go_home.Base.Texts.{Text, same}
use zigbee_go_home.Zcl.Value.{
  Value, uint8, uint16, int, int64, float64, bytes, string, array8, numbers,
}
use zigbee_go_home.Coordinator.Devices.{Device, Store, get_key, set_key, remove_key}
use zigbee_go_home.Coordinator.Devices.Index.{get_key-remove_key, get_key-remove_key_other}
use zigbee_go_home.Coordinator.Devices.Lifecycle.{Rereading, StoreLaws}
use zigbee_go_home.Coordinator.Properties.{PropertyMap, get_property}
use zigbee_go_home.Coordinator.Reports.Stored.{UpdateLaws}
use zigbee_go_home.Bolt.{Json, Bucket, update_device, bolt_store}
use zigbee_go_home.Bolt.Laws.{JsonLaws, BucketLaws, bolt_laws, bolt_update_laws}

unfoldable pub json_value : Value → Value
json_value (uint8 n) = float64 n
json_value (uint16 n) = float64 n
json_value (int (pos n)) = float64 n
json_value (int64 (pos n)) = float64 n
json_value (bytes b) = string (0x3d ∷ b)
json_value (array8 b) = numbers b
json_value v = v

unfoldable pub json_values : PropertyMap → PropertyMap
json_values [] = []
json_values ((k, v) ∷ m) = (k, json_value v) ∷ json_values m

pub get_property-json_values :
    (x : Text) (m : PropertyMap)
    → get_property x (json_values m) ≡ map_option json_value (get_property x m)
unfolding get_property json_values
get_property-json_values x [] = refl
get_property-json_values x ((k, v) ∷ m) = elim (Bool-cases (same k x)) [
  | inl y ↦ rw y refl
  | inr n ↦ rw n (get_property-json_values x m)
]

abbrev pub through_json : Device → Device
through_json d = record d { properties = json_values d.properties }

abbrev pub small_json : Json Device
small_json = record { marshal = λ d. some (through_json d); unmarshal = λ t. some t }

abbrev pub small_rereading : Rereading
small_rereading = record {
  text = λ t. t;
  value = json_value;
  reread = through_json;
  is_reread = λ d. record {
    ieee_address = refl;
    short_address = refl;
    manufacturer = refl;
    model = refl;
    friendly_name = refl;
    endpoints = refl;
    interviewed = refl;
    joined_at = refl;
    last_seen = refl;
    lqi = refl;
    rssi = refl;
    properties = λ h x. get_property-json_values x d.properties;
  };
  nonempty = λ t h. h;
}

unfoldable pub small_json_laws : JsonLaws small_json
small_json_laws = record { rereading = small_rereading; read_back = λ d t e. ground arith }

abbrev pub small_bucket : Bucket Device (List (ℕ × Device))
small_bucket = record {
  is_open = λ b. true;
  get_entry = get_key;
  put = λ i t b. some (set_key i t b);
  delete = λ i b. some (remove_key i b);
  for_each = λ b. b;
}

pub get_key-removed :
    (i j : ℕ) (b : List (ℕ × Device))
    → get_key j (remove_key i b) ≡ (if i == j then none else get_key j b)
get_key-removed i j b = elim (Bool-cases (i == j)) [
  | inl y ↦ rw y (ap (λ k. get_key j (remove_key k b)) ((==_iff i j).0 y) ∙ get_key-remove_key j b)
  | inr n ↦ rw n (get_key-remove_key_other i j b (λ e. ground (arith, n, e)))
]

pub get_key-put :
    (i j : ℕ) (t : Device) (b : List (ℕ × Device))
    → get_key j (set_key i t b) ≡ (if i == j then some t else get_key j b)
unfolding get_key set_key
get_key-put i j t b = elim (Bool-cases (i == j)) [
  | inl y ↦ rw y refl
  | inr n ↦ rw n (get_key-removed i j b ∙ rw n refl)
]

unfoldable pub small_bucket_laws : BucketLaws small_bucket
small_bucket_laws = record {
  get_put = λ i j t b c e. ground (arith, get_key-put i j t b);
  get_delete = λ i j b c e. ground (arith, get_key-removed i j b);
}

abbrev pub disk : Store (List (ℕ × Device))
disk = bolt_store small_json small_bucket

abbrev pub update_disk : ℕ → (Device → Device) → List (ℕ × Device) → Option (List (ℕ × Device))
update_disk = update_device small_json small_bucket

abbrev pub disk_laws : StoreLaws disk
disk_laws = bolt_laws small_json small_bucket small_json_laws small_bucket_laws

abbrev pub disk_update_laws : UpdateLaws disk update_disk
disk_update_laws = bolt_update_laws small_json small_bucket small_json_laws small_bucket_laws

-- ===== src/Bolt.antt =====
-- internal/store/bolt.go: the store of devices, as JSON in a bucket of a bbolt database. The database
-- and encoding/json are parameters; an IEEE address is the number that its string spells.
pub mod Laws
pub mod Examples
use zigbee_go_home.Base.{ℕ, Bool, List, [], ◌∷◌, if◌then◌else◌, Option, none, some}
use zigbee_go_home.Coordinator.Devices.{Device, Found, found, not_found, get_failed, Store}

-- encoding/json on a device, with its errors as `none`; `J` is the type of the texts.
pub record Json (J : Type 0) : Type 0 where
  pub marshal : Device → Option J
  pub unmarshal : J → Option Device

-- The bucket of devices as it was last committed; a transaction of a database that is closed fails,
-- and so may one that writes. `for_each` gives the entries in order.
pub record Bucket (J B : Type 0) : Type 0 where
  pub is_open : B → Bool
  pub get_entry : ℕ → B → Option J
  pub put : ℕ → J → B → Option B
  pub delete : ℕ → B → Option B
  pub for_each : B → List (ℕ × J)

module _ {J B : Type 0} (json : Json J) (bucket : Bucket J B) where
  -- The end of `SaveDevice` and of `UpdateDevice`: nothing is written unless all went well.
  unfoldable pub put_device : ℕ → Device → B → Option B
  put_device ieee dev b = elim (json.marshal dev) [
    | none ↦ none
    | some text ↦ bucket.put ieee text b
  ]

  unfoldable pub save_device : Device → B → Option B
  save_device dev b = if bucket.is_open b then put_device dev.ieee_address dev b else none

  -- What is under a key.
  unfoldable pub read_device : Option J → Found
  read_device none = not_found
  read_device (some text) = elim (json.unmarshal text) [ none ↦ get_failed | some d ↦ found d ]

  unfoldable pub get_device : ℕ → B → Found
  get_device ieee b = if bucket.is_open b then read_device (bucket.get_entry ieee b) else get_failed

  -- No function that the program hands over returns an error.
  unfoldable pub update_device : ℕ → (Device → Device) → B → Option B
  update_device ieee fn b = elim (get_device ieee b) [
    | found d ↦ put_device ieee (fn d) b
    | not_found ↦ none
    | get_failed ↦ none
  ]

  unfoldable pub delete_device : ℕ → B → Option B
  delete_device ieee b = if bucket.is_open b then bucket.delete ieee b else none

  unfoldable pub unmarshal_all : List (ℕ × J) → Option (List Device)
  unmarshal_all [] = some []
  unmarshal_all ((k, text) ∷ entries) =
      let later = unmarshal_all entries in
      elim (json.unmarshal text) [
        | none ↦ none
        | some d ↦ elim later [ none ↦ none | some ds ↦ some (d ∷ ds) ]
      ]

  unfoldable pub list_devices : B → Option (List Device)
  list_devices b = if bucket.is_open b then unmarshal_all (bucket.for_each b) else none

  abbrev pub bolt_store : Store B
  bolt_store = record {
    get_device = get_device;
    save_device = save_device;
    delete_device = delete_device;
    list_devices = list_devices;
  }

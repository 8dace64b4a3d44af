-- ===== src/Coordinator/Devices.antt =====
-- internal/coordinator/device_manager.go: the address index, `HandleJoin`, `HandleLeave` and
-- `HandleAnnounce`. The store is the interface of internal/store/store.go, taken as a parameter, and
-- each of its calls may fail. An IEEE address is the number that its string of 16 hexadecimal digits
-- spells. A time is a number of nanoseconds, and one call of a handler reads the clock once. Logging
-- is left out; to start an interview is to add to a list.
pub mod Index
pub mod Lifecycle
pub mod Announce
pub mod Lookup
use zigbee_go_home.Base.{
  ℕ, ◌+◌, ◌-◌, ◌*◌, ◌≡◌, Bool, true, false, not, ◌&&◌, List, [], ◌∷◌, ◌++◌, ltb, ◌==◌,
  if◌then◌else◌, length, Option, none, some,
}
use zigbee_go_home.Base.Bytes.{Bytes}
use zigbee_go_home.Base.Int.{ℤ, pos}
use zigbee_go_home.Zcl.Value.{Value}

pub record Endpoint : Type 0 where
  pub id : ℕ
  pub profile_id : ℕ
  pub device_id : ℕ
  pub in_clusters : List ℕ
  pub out_clusters : List ℕ

pub record Device : Type 0 where
  pub ieee_address : ℕ
  pub short_address : ℕ
  pub manufacturer : Bytes
  pub model : Bytes
  pub friendly_name : Bytes
  pub endpoints : List Endpoint
  pub interviewed : Bool
  pub joined_at : ℕ
  pub last_seen : ℕ
  pub lqi : ℕ
  pub rssi : ℤ
  pub properties : List (Bytes × Value)

-- `GetDevice`: a device, ErrNotFound, or another error.
pub data Found : Type 0 where
  found : Device → Found
  not_found get_failed : Found

-- The `Store` interface, as far as the handlers call it; `none` is an error.
pub record Store (S : Type 0) : Type 0 where
  pub get_device : ℕ → S → Found
  pub save_device : Device → S → Option S
  pub delete_device : ℕ → S → Option S
  pub list_devices : S → Option (List Device)

-- A Go map as a list of its entries; to set a key takes the old entry out.
module _ {ℓ} {V : Type ℓ} where
  unfoldable pub get_key : ℕ → List (ℕ × V) → Option V
  get_key key [] = none
  get_key key ((k, v) ∷ rest) = if k == key then some v else get_key key rest

  unfoldable pub remove_key : ℕ → List (ℕ × V) → List (ℕ × V)
  remove_key key [] = []
  remove_key key ((k, v) ∷ rest) =
      let less = remove_key key rest in if k == key then less else (k, v) ∷ less

  unfoldable pub set_key : ℕ → V → List (ℕ × V) → List (ℕ × V)
  set_key key v m = (key, v) ∷ remove_key key m

-- The loop of `HandleLeave`, which ends at the first entry of the device. The list stands for the
-- order in which the map is walked, which Go leaves open.
unfoldable pub remove_first_of : ℕ → List (ℕ × ℕ) → List (ℕ × ℕ)
remove_first_of ieee [] = []
remove_first_of ieee ((a, i) ∷ rest) =
    let later = (a, i) ∷ remove_first_of ieee rest in if i == ieee then rest else later

unfoldable pub member : ℕ → List ℕ → Bool
member x [] = false
member x (y ∷ ys) = if y == x then true else member x ys

unfoldable pub without : ℕ → List ℕ → List ℕ
without x [] = []
without x (y ∷ ys) = let less = without x ys in if y == x then less else y ∷ less

-- The events that the handlers emit: without the names that the registry gives, and the source of a
-- property. An unknown address has no IEEE address.
pub data Event : Type 0 where
  device_joined device_announce : ℕ → ℕ → Event
  device_left : ℕ → Event
  attribute_report : Option ℕ → ℕ → ℕ → ℕ → ℕ → Value → Event
  cluster_command : Option ℕ → ℕ → ℕ → ℕ → ℕ → Bytes → Event
  property_update : ℕ → Bytes → Value → Event

-- `interviewing` has the keys of `interviewCancels`.
pub record Manager (S : Type 0) : Type 0 where
  pub addr_index : List (ℕ × ℕ)
  pub store : S
  pub interviewing : List ℕ
  pub last_join : List (ℕ × ℕ)
  pub events : List Event
  pub started : List ℕ

abbrev pub new_device : ℕ → ℕ → ℕ → Device
new_device now ieee short = record {
  ieee_address = ieee;
  short_address = short;
  manufacturer = [];
  model = [];
  friendly_name = [];
  endpoints = [];
  interviewed = false;
  joined_at = now;
  last_seen = now;
  lqi = 0;
  rssi = pos 0;
  properties = [];
}

abbrev pub second : ℕ
second = 1000000000

abbrev pub last_join_cache_cap : ℕ
last_join_cache_cap = 50

-- `time.Since(t) > time.Minute` takes an entry out.
unfoldable pub recent : ℕ → List (ℕ × ℕ) → List (ℕ × ℕ)
recent now [] = []
recent now ((i, t) ∷ rest) =
    let kept = recent now rest in if ltb (60 * second) (now - t) then kept else (i, t) ∷ kept

-- From `if len(dm.lastJoin) > lastJoinCacheCap` on.
unfoldable pub evict : ℕ → ℕ → List (ℕ × ℕ) → List (ℕ × ℕ)
evict now ieee m =
    if ltb last_join_cache_cap (length m)
    then if ltb last_join_cache_cap (length (recent now m)) then (ieee, now) ∷ [] else recent now m
    else m

unfoldable pub is_debounced : ℕ → Option ℕ → Bool
is_debounced now none = false
is_debounced now (some t) = ltb (now - t) (3 * second)

-- The loop that fills the index again, and what it leaves in `ieee` for the address that is asked for.
unfoldable pub index_devices : List Device → List (ℕ × ℕ) → List (ℕ × ℕ)
index_devices [] m = m
index_devices (d ∷ ds) m = index_devices ds (set_key d.short_address d.ieee_address m)

unfoldable pub last_with : ℕ → List Device → Option ℕ → Option ℕ
last_with short [] ieee = ieee
last_with short (d ∷ ds) ieee =
    last_with short ds (if d.short_address == short then some d.ieee_address else ieee)

module _ {S : Type 0} (ops : Store S) where
  unfoldable pub update_addr_index : ℕ → ℕ → Manager S → Manager S
  update_addr_index ieee short m = record m { addr_index = set_key short ieee m.addr_index }

  -- `HandleJoin` from `SaveDevice` on.
  unfoldable pub save_joined : ℕ → ℕ → Device → Manager S → Manager S
  save_joined ieee short dev m = elim (ops.save_device dev m.store) [
    | none ↦ m
    | some s ↦ record m { store = s; events = m.events ++ (device_joined ieee short ∷ []) }
  ]

  unfoldable pub handle_join : ℕ → ℕ → ℕ → Manager S → Manager S
  handle_join now ieee short m =
      let indexed = update_addr_index ieee short m in
      elim (ops.get_device ieee m.store) [
        | found d ↦
            save_joined ieee short (record d { short_address = short; last_seen = now }) indexed
        | not_found ↦ save_joined ieee short (new_device now ieee short) indexed
        | get_failed ↦ indexed
      ]

  unfoldable pub handle_leave : ℕ → Manager S → Manager S
  handle_leave ieee m = record {
    addr_index = remove_first_of ieee m.addr_index;
    store = elim (ops.delete_device ieee m.store) [ none ↦ m.store | some s ↦ s ];
    interviewing = without ieee m.interviewing;
    last_join = remove_key ieee m.last_join;
    events = m.events ++ (device_left ieee ∷ []);
    started = m.started;
  }

  -- `HandleAnnounce` from the look at `interviewCancels` on.
  unfoldable pub start_interview : ℕ → ℕ → Manager S → Manager S
  start_interview now ieee m =
      if member ieee m.interviewing
      then m
      else if is_debounced now (get_key ieee m.last_join)
      then m
      else record m {
        last_join = evict now ieee (set_key ieee now m.last_join);
        started = m.started ++ (ieee ∷ []);
      }

  -- A failed save is only logged.
  unfoldable pub save_announced : ℕ → ℕ → Device → Manager S → Manager S
  save_announced ieee short dev m = record m {
    store = elim (ops.save_device dev m.store) [ none ↦ m.store | some s ↦ s ];
    events = m.events ++ (device_announce ieee short ∷ []);
  }

  unfoldable pub handle_announce : ℕ → ℕ → ℕ → Manager S → Manager S
  handle_announce now ieee short m =
      let indexed = update_addr_index ieee short m in
      elim (ops.get_device ieee m.store) [
        | found d ↦ start_interview now ieee (
            save_announced ieee short (record d { short_address = short; last_seen = now }) indexed)
        | not_found ↦
            start_interview now ieee (save_announced ieee short (new_device now ieee short) indexed)
        | get_failed ↦ indexed
      ]

  unfoldable pub rebuild_addr_index : Manager S → Manager S
  rebuild_addr_index m = elim (ops.list_devices m.store) [
    | none ↦ m
    | some ds ↦ record m { addr_index = index_devices ds [] }
  ]

  -- `none` is the empty string.
  unfoldable pub lookup_or_rebuild : ℕ → Manager S → Option ℕ × Manager S
  lookup_or_rebuild short m = elim (get_key short m.addr_index) [
    | some ieee ↦ (some ieee, m)
    | none ↦ elim (ops.list_devices m.store) [
      | none ↦ (none, m)
      | some ds ↦ (last_with short ds none, record m { addr_index = index_devices ds [] })
    ]
  ]

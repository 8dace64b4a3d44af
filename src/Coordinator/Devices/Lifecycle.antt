-- ===== src/Coordinator/Devices/Lifecycle.antt =====
-- What joins and leaves do to the store, and the index.
use zigbee_go_home.Base.{
  ℕ, ◌≡◌, ◌≢◌, refl, sym, ◌∙◌, Bool-cases, inl, inr, ==_iff, [], ◌∷◌, ◌++◌, ◌==◌, if◌then◌else◌,
  Option, none, some, map_option, All, arith,
}
use zigbee_go_home.Base.Bytes.{Bytes}
use zigbee_go_home.Zcl.Value.{Value}
use zigbee_go_home.Coordinator.Properties.{get_property}
use zigbee_go_home.Coordinator.Devices.{
  Device, Found, found, not_found, get_failed, Store, get_key, set_key, remove_first_of,
  device_left, device_joined, Manager, new_device, update_addr_index, save_joined, handle_join,
  handle_leave,
}
use zigbee_go_home.Coordinator.Devices.Index.{
  get_key-remove_key_other, get_key-set_key, get_key-set_key_other, IsOnce, remove_first_of-IsGone,
  get_key-IsGone,
}

-- What reads back of a device that was written: numbers, flags and endpoints as they were, a text as
-- `text` makes it, and a property under its name as `value` makes it, where the names stay.
pub record IsReread (text : Bytes → Bytes) (value : Value → Value) (d e : Device) : Type 0 where
  pub ieee_address : e.ieee_address ≡ d.ieee_address
  pub short_address : e.short_address ≡ d.short_address
  pub manufacturer : e.manufacturer ≡ text d.manufacturer
  pub model : e.model ≡ text d.model
  pub friendly_name : e.friendly_name ≡ text d.friendly_name
  pub endpoints : e.endpoints ≡ d.endpoints
  pub interviewed : e.interviewed ≡ d.interviewed
  pub joined_at : e.joined_at ≡ d.joined_at
  pub last_seen : e.last_seen ≡ d.last_seen
  pub lqi : e.lqi ≡ d.lqi
  pub rssi : e.rssi ≡ d.rssi
  pub properties :
      All (λ p. text p.0 ≡ p.0) d.properties
      → (x : Bytes) → get_property x e.properties ≡ map_option value (get_property x d.properties)

-- What writing to the store and reading from it makes of a device: a text that is not empty stays so.
pub record Rereading : Type 0 where
  pub text : Bytes → Bytes
  pub value : Value → Value
  pub reread : Device → Device
  pub is_reread : (d : Device) → IsReread text value d (reread d)
  pub nonempty : (t : Bytes) → t ≢ [] → text t ≢ []

-- What the store promises: a state has contents, a read gives them, and a write that succeeds
-- changes them at one key, to what reads back of the device.
pub record StoreLaws {S : Type 0} (ops : Store S) : Type 0 where
  pub rereading : Rereading
  pub content : S → ℕ → Option Device
  pub get_found : (i : ℕ) (s : S) (d : Device) → ops.get_device i s ≡ found d → content s i ≡ some d
  pub get_missing : (i : ℕ) (s : S) → ops.get_device i s ≡ not_found → content s i ≡ none
  pub saved :
      (d : Device) (s t : S) (i : ℕ)
      → ops.save_device d s ≡ some t
      → content t i ≡ (if d.ieee_address == i then some (rereading.reread d) else content s i)
  pub deleted :
      (j : ℕ) (s t : S) (i : ℕ)
      → ops.delete_device j s ≡ some t
      → content t i ≡ (if j == i then none else content s i)

-- The device that a join leaves in the store, from the one that was there.
unfoldable pub rejoined : ℕ → ℕ → ℕ → Option Device → Device
rejoined now ieee short none = new_device now ieee short
rejoined now ieee short (some d) = record d { short_address = short; last_seen = now }

module _ {S : Type 0} (ops : Store S) (laws : StoreLaws ops) where
  handle_join_lem :
      (now ieee short : ℕ) (m : Manager S) (s : S)
      → ops.get_device ieee m.store ≢ get_failed
      → ops.save_device (rejoined now ieee short (laws.content m.store ieee)) m.store ≡ some s
      → handle_join ops now ieee short m ≡ record m {
        addr_index = set_key short ieee m.addr_index;
        store = s;
        events = m.events ++ (device_joined ieee short ∷ []);
      }
  unfolding handle_join save_joined update_addr_index rejoined
  handle_join_lem now ieee short m s g e = after (ops.get_device ieee m.store) refl
    where
      after :
          (o : Found)
          → ops.get_device ieee m.store ≡ o
          → handle_join ops now ieee short m ≡ record m {
            addr_index = set_key short ieee m.addr_index;
            store = s;
            events = m.events ++ (device_joined ieee short ∷ []);
          }
      after (found d) q = rw (q, handle_join) (ground (arith, laws.get_found ieee m.store d q, e))
      after not_found q = rw (q, handle_join) (ground (arith, laws.get_missing ieee m.store q, e))
      after get_failed q = absurd (g q)

  -- The device under the key, if there is one, has the key's address.
  abbrev pub IsKeyed : ℕ → S → Type 0
  IsKeyed ieee s = (d : Device) → laws.content s ieee ≡ some d → d.ieee_address ≡ ieee

  -- A store in which every device is under its own key stays one when a device is saved.
  pub save_device-IsKeyed :
      (d : Device) (s t : S)
      → ((i : ℕ) → IsKeyed i s)
      → ops.save_device d s ≡ some t
      → (i : ℕ) → IsKeyed i t
  save_device-IsKeyed d s t keyed e i x h = elim (Bool-cases (d.ieee_address == i)) [
    | inl y ↦
        let read : laws.content t i ≡ some (laws.rereading.reread d) =
          laws.saved d s t i e ∙ rw y refl in
        let is_x : some (laws.rereading.reread d) ≡ some x = sym read ∙ h in
        ground
          (arith, is_x, (laws.rereading.is_reread d).ieee_address, (==_iff d.ieee_address i).0 y)
    | inr n ↦
        let read : laws.content t i ≡ laws.content s i = laws.saved d s t i e ∙ rw n refl in
        keyed i x (sym read ∙ h)
  ]

  rejoined-ieee_address :
      (now ieee short : ℕ) (m : Manager S)
      → IsKeyed ieee m.store
      → ops.get_device ieee m.store ≢ get_failed
      → (rejoined now ieee short (laws.content m.store ieee)).ieee_address ≡ ieee
  unfolding rejoined
  rejoined-ieee_address now ieee short m keyed g = after (ops.get_device ieee m.store) refl
    where
      after :
          (o : Found)
          → ops.get_device ieee m.store ≡ o
          → (rejoined now ieee short (laws.content m.store ieee)).ieee_address ≡ ieee
      after (found d) q =
          ground (arith, laws.get_found ieee m.store d q, keyed d (laws.get_found ieee m.store d q))
      after not_found q = ground (arith, laws.get_missing ieee m.store q)
      after get_failed q = absurd (g q)

  -- A join whose calls of the store succeed leaves the device in the store under its new address:
  -- what reads back of the device that was there, with the address and the time of the join, or of a
  -- new one. So its endpoints and its `interviewed` stay, and its texts and properties as far as the
  -- store keeps such. Every other device is as it was; the join is announced in one event, and the
  -- index leads from the new address to the device, and from others where it led.
  pub handle_join_stores :
      (now ieee short j a : ℕ) (m : Manager S) (s : S)
      → IsKeyed ieee m.store
      → ops.get_device ieee m.store ≢ get_failed
      → ops.save_device (rejoined now ieee short (laws.content m.store ieee)) m.store ≡ some s
      → j ≢ ieee
      → a ≢ short
      → let end = handle_join ops now ieee short m in
        ((e : Device) × (laws.content end.store ieee ≡ some e)
          × IsReread laws.rereading.text laws.rereading.value
              (rejoined now ieee short (laws.content m.store ieee))
              e)
        × (laws.content end.store j ≡ laws.content m.store j)
        × (end.events ≡ m.events ++ (device_joined ieee short ∷ []))
        × (get_key short end.addr_index ≡ some ieee)
        × (get_key a end.addr_index ≡ get_key a m.addr_index)
  handle_join_stores now ieee short j a m s keyed g e nj na =
      rw (handle_join_lem now ieee short m s g e) (
        (
          laws.rereading.reread dev,
          ground (arith, address, laws.saved dev m.store s ieee e),
          laws.rereading.is_reread dev,
        ),
        ground (arith, address, laws.saved dev m.store s j e),
        refl,
        get_key-set_key short ieee m.addr_index,
        get_key-set_key_other short a ieee m.addr_index (λ q. na (sym q)),
      )
    where
      dev : Device
      dev = rejoined now ieee short (laws.content m.store ieee)

      address : dev.ieee_address ≡ ieee
      address = rejoined-ieee_address now ieee short m keyed g

  -- A leave whose deletion succeeds takes the device out of the store, and out of the index where it
  -- had one address at most: no address leads to it. Other devices stay, and one event tells of it.
  pub handle_leave_forgets :
      (ieee j a : ℕ) (m : Manager S) (s : S)
      → ops.delete_device ieee m.store ≡ some s
      → IsOnce ieee m.addr_index
      → j ≢ ieee
      → (laws.content (handle_leave ops ieee m).store ieee ≡ none)
        × (laws.content (handle_leave ops ieee m).store j ≡ laws.content m.store j)
        × (get_key a (handle_leave ops ieee m).addr_index ≢ some ieee)
        × ((handle_leave ops ieee m).events ≡ m.events ++ (device_left ieee ∷ []))
  unfolding handle_leave
  handle_leave_forgets ieee j a m s e once nj = (
    ground (arith, e, laws.deleted ieee m.store s ieee e),
    ground (arith, e, laws.deleted ieee m.store s j e),
    get_key-IsGone ieee a _ (remove_first_of-IsGone ieee m.addr_index once),
    refl,
  )

handle_join-addr_index :
    {S : Type 0} (ops : Store S) (now ieee short : ℕ) (m : Manager S)
    → (handle_join ops now ieee short m).addr_index ≡ set_key short ieee m.addr_index
unfolding handle_join save_joined update_addr_index
handle_join-addr_index ops now ieee short m = ground arith

-- After a join with one address, a join with another and a leave, whatever the store does, some
-- address still leads to the device that has left.
pub handle_leave_stale :
    {S : Type 0} (ops : Store S) (t1 t2 ieee a b : ℕ) (m : Manager S)
    → a ≢ b
    → (stale : ℕ) × (get_key stale
          (handle_leave ops ieee
            (handle_join ops t2 ieee b (handle_join ops t1 ieee a m))).addr_index
        ≡ some ieee)
unfolding handle_leave set_key remove_first_of
handle_leave_stale ops t1 t2 ieee a b m ne = (
  a,
  ground (
    arith,
    handle_join-addr_index ops t1 ieee a m,
    handle_join-addr_index ops t2 ieee b (handle_join ops t1 ieee a m),
    get_key-remove_key_other b a (set_key a ieee m.addr_index),
    get_key-set_key a ieee m.addr_index,
  ),
)

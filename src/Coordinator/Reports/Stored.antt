-- ===== src/Coordinator/Reports/Stored.antt =====
-- What the handlers of reports and commands leave in the store.
use zigbee_go_home.Base.{
  ℕ, ◌≡◌, refl, ap, ◌∙◌, [], ◌∷◌, ◌++◌, ◌==◌, ==_iff, if◌then◌else◌, Option, none, some, map_option,
  All, arith,
}
use zigbee_go_home.Base.Bytes.{Bytes}
use zigbee_go_home.Base.Texts.{Text, same}
use zigbee_go_home.Zcl.Value.{Value}
use zigbee_go_home.Zcl.Clusters.Merge.{or_else, or_else_assoc}
use zigbee_go_home.Coordinator.Devices.{Device, Store, property_update, Manager}
use zigbee_go_home.Coordinator.Devices.Lifecycle.{StoreLaws}
use zigbee_go_home.Coordinator.Properties.{PropertyMap, get_property, set_all, assign_all}
use zigbee_go_home.Coordinator.Reports.{update_stored, store_updates}

-- The last of the updates of a name.
unfoldable pub last_update : Text → PropertyMap → Option Value
last_update x [] = none
last_update x ((k, v) ∷ us) = or_else (last_update x us) (if same k x then some v else none)

get_property-append :
    (x : Text) (m n : PropertyMap)
    → get_property x (m ++ n) ≡ or_else (get_property x m) (get_property x n)
unfolding get_property
get_property-append x [] n = refl
get_property-append x ((k, v) ∷ m) n = ground (arith, get_property-append x m n)

get_property-assign_all :
    (x : Text) (us m : PropertyMap)
    → get_property x (assign_all us m) ≡ or_else (last_update x us) (get_property x m)
unfolding get_property assign_all last_update
get_property-assign_all x [] m = refl
get_property-assign_all x ((k, v) ∷ us) m = get_property-assign_all x us ((k, v) ∷ m) ∙ ground arith

-- What the store promises of `UpdateDevice`, beside the laws of the other calls: if it succeeds, there
-- was a device, and what reads back of its change is in its place.
pub record UpdateLaws {S : Type 0} (ops : Store S)
    (update_device : ℕ → (Device → Device) → S → Option S) : Type 0 where
  pub laws : StoreLaws ops
  pub updated :
      (i : ℕ) (f : Device → Device) (s t : S) (j : ℕ)
      → update_device i f s ≡ some t
      → laws.content t j ≡ (
          if i == j
          then map_option (λ d. laws.rereading.reread (f d)) (laws.content s j)
          else laws.content s j)

-- The names of the properties are such as the store keeps.
abbrev pub KeepsNames : (Bytes → Bytes) → PropertyMap → Type 0
KeepsNames text = All (λ p. text p.0 ≡ p.0)

module _ {S : Type 0} (ops : Store S) (update_device : ℕ → (Device → Device) → S → Option S)
    (laws : UpdateLaws ops update_device) where
  abbrev contents : S → ℕ → Option Device
  contents = laws.laws.content

  pub update_stored_lem :
      (ieee : ℕ) (f : Device → Device) (m : Manager S) (t : S)
      → update_device ieee f m.store ≡ some t
      → update_stored ops update_device ieee f m ≡ record m { store = t }
  unfolding update_stored
  update_stored_lem ieee f m t e = rw (e, update_stored) refl

  update_stored-content :
      (ieee : ℕ) (f : Device → Device) (d : Device) (m : Manager S) (t : S)
      → update_device ieee f m.store ≡ some t
      → contents m.store ieee ≡ some d
      → contents (update_stored ops update_device ieee f m).store ieee
        ≡ some (laws.laws.rereading.reread (f d))
  unfolding update_stored
  update_stored-content ieee f d m t e h =
      rw (e, update_stored)
        (laws.updated ieee f m.store t ieee e ∙ rw (h, (==_iff ieee ieee).1 refl) refl)

  -- After the property functions have stored their updates, what reads back under a name of the
  -- device is what the store makes of its last update; or else of the value in the copy of the device
  -- that the handler had read, even if another handler has written a newer one since; or else of what
  -- the store had. The write must succeed, and the store keep the names.
  pub store_updates_content :
      (ieee : ℕ) (dev d : Device) (u : Text × Value) (us : PropertyMap) (m : Manager S) (t : S)
      → update_device ieee
          (λ d. record d { properties = set_all (assign_all (u ∷ us) dev.properties) d.properties })
          m.store
        ≡ some t
      → contents m.store ieee ≡ some d
      → KeepsNames laws.laws.rereading.text
          (set_all (assign_all (u ∷ us) dev.properties) d.properties)
      → (e : Device) × (contents (store_updates ops update_device ieee dev (u ∷ us) m).store ieee
          ≡ some e)
        × ((x : Text)
            → get_property x e.properties
              ≡ map_option laws.laws.rereading.value (
                  or_else
                    (last_update x (u ∷ us))
                    (or_else (get_property x dev.properties) (get_property x d.properties))))
  unfolding store_updates set_all
  store_updates_content ieee dev d u us m t e h names =
      let written : Device = record d {
        properties = set_all (assign_all (u ∷ us) dev.properties) d.properties;
      } in
      (
        laws.laws.rereading.reread written,
        update_stored-content ieee _ d _ t e h,
        λ x.
            (laws.laws.rereading.is_reread written).properties names x
            ∙ ap (map_option laws.laws.rereading.value) (
                get_property-append x (assign_all (u ∷ us) dev.properties) d.properties
                ∙ ap (λ o. or_else o (get_property x d.properties))
                    (get_property-assign_all x (u ∷ us) dev.properties)
                ∙ or_else_assoc (last_update x (u ∷ us)) (get_property x dev.properties)
                    (get_property x d.properties)),
      )

  pub updates_emitted :
      (ieee : ℕ) (dev : Device) (name : Text) (v : Value) (m : Manager S)
      → (store_updates ops update_device ieee dev ((name, v) ∷ []) m).events
        ≡ m.events ++ (property_update ieee name v ∷ [])
  unfolding store_updates update_stored
  updates_emitted ieee dev name v m = refl

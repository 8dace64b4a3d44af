-- ===== src/Coordinator/Devices/Lookup.antt =====
-- `lookupOrRebuild` and the index that it leaves.
use zigbee_go_home.Base.{
  ℕ, ◌≡◌, ◌≢◌, refl, ap, ◌∙◌, List, [], ◌∷◌, ◌++◌, All, Option, none, some, Option-cases, inl, inr,
  arith,
}
use zigbee_go_home.Coordinator.Devices.{
  Device, Store, get_key, set_key, Manager, index_devices, last_with, rebuild_addr_index,
  lookup_or_rebuild,
}
use zigbee_go_home.Coordinator.Devices.Index.{get_key-set_key, get_key-set_key_other}

get_key-index_devices :
    (short : ℕ) (ds : List Device) (m : List (ℕ × ℕ))
    → get_key short (index_devices ds m) ≡ last_with short ds (get_key short m)
unfolding index_devices last_with
get_key-index_devices short [] m = refl
get_key-index_devices short (d ∷ ds) m =
    get_key-index_devices short ds (set_key d.short_address d.ieee_address m)
    ∙ ap (last_with short ds) (
        ground (
          arith,
          get_key-set_key d.short_address d.ieee_address m,
          get_key-set_key_other d.short_address short d.ieee_address m,
        ))

last_with_other :
    (short : ℕ) (ds : List Device) (o : Option ℕ)
    → All (λ e. e.short_address ≢ short) ds
    → last_with short ds o ≡ o
unfolding last_with
last_with_other short [] o h = refl
last_with_other short (d ∷ ds) o (ne, h) = ground (arith, last_with_other short ds o h)

last_with-last :
    (d : Device) (before after : List Device) (o : Option ℕ)
    → All (λ e. e.short_address ≢ d.short_address) after
    → last_with d.short_address (before ++ (d ∷ after)) o ≡ some d.ieee_address
unfolding last_with
last_with-last d [] after o h = last_with_other d.short_address after _ h ∙ ground arith
last_with-last d (b ∷ before) after o h = last_with-last d before after _ h

-- On every branch, a hit, a miss and a failure of the store, what `lookupOrRebuild` returns is what
-- the index then says, so that a second look-up in the index agrees with the first.
pub lookup_or_rebuild_agrees :
    {S : Type 0} (ops : Store S) (short : ℕ) (m : Manager S)
    → get_key short (lookup_or_rebuild ops short m).1.addr_index ≡ (lookup_or_rebuild ops short m).0
unfolding lookup_or_rebuild get_key
lookup_or_rebuild_agrees ops short m = elim (Option-cases (get_key short m.addr_index)) [
  | inl miss ↦ elim (Option-cases (ops.list_devices m.store)) [
    | inl bad ↦ ground (arith, miss, bad)
    | inr (ds, listed) ↦ ground (arith, miss, listed, get_key-index_devices short ds [])
  ]
  | inr (ieee, hit) ↦ ground (arith, hit)
]

-- On a miss, a device of the store is found by its address, if the store lists no later one with the
-- same address; and so it is in the index that `RebuildAddrIndex` makes.
pub lookup_or_rebuild_finds :
    {S : Type 0} (ops : Store S) (m : Manager S) (d : Device) (before after : List Device)
    → get_key d.short_address m.addr_index ≡ none
    → ops.list_devices m.store ≡ some (before ++ (d ∷ after))
    → All (λ e. e.short_address ≢ d.short_address) after
    → ((lookup_or_rebuild ops d.short_address m).0 ≡ some d.ieee_address)
      × (get_key d.short_address (rebuild_addr_index ops m).addr_index ≡ some d.ieee_address)
unfolding lookup_or_rebuild rebuild_addr_index get_key
lookup_or_rebuild_finds ops m d before after miss listed last =
    let hit = last_with-last d before after none last in
    (
      ground (arith, miss, listed, hit),
      ground (arith, listed, hit, get_key-index_devices d.short_address (before ++ (d ∷ after)) []),
    )

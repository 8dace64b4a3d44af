-- ===== src/Mqtt/Bridge/Departure.antt =====
-- What the broker retains of a device that has left.
use zigbee_go_home.Base.{
  ℕ, ◌≡◌, false, refl, ap, ◌∙◌, List, [], ◌∷◌, ◌++◌, if◌then◌else◌, All, All-map, ◌⊎◌, inl, inr,
  Bool-cases, sym, Option, none, some, arith,
}
use zigbee_go_home.Base.Texts.{Text, same, same_refl}
use zigbee_go_home.Zcl.Clusters.Merge.{or_else}
use zigbee_go_home.Coordinator.Devices.{Device, get_key, new_device}
use zigbee_go_home.Coordinator.Devices.Index.{get_key-remove_key}
use zigbee_go_home.Mqtt.Discovery.{
  DiscoveryMsg, removals, components, build_discovery, build_remove_discovery,
}
use zigbee_go_home.Mqtt.Discovery.Removal.{IsDeletedBy, build_remove_discovery_complete}
use zigbee_go_home.Mqtt.Bridge.{
  Body, empty, Publication, Bridge, BridgeOps, state_topic, publications, handle_device_left,
}

-- What a broker retains under a topic: the last of its messages; the empty one deletes.
unfoldable pub retained : Text → List Publication → Option Body
retained t [] = none
retained t (p ∷ ps) = or_else (retained t ps) (if same p.topic t then some p.body else none)

retained-append :
    (t : Text) (ps qs : List Publication)
    → retained t (ps ++ qs) ≡ or_else (retained t qs) (retained t ps)
unfolding retained
retained-append t [] qs = ground arith
retained-append t (p ∷ ps) qs = ground (arith, retained-append t ps qs)

abbrev HasNoPayload : List DiscoveryMsg → Type 0
HasNoPayload ms = All (λ m. m.payload ≡ none) ms

removals-HasNoPayload :
    (node_id : Text) (cs : List (Text × Text)) → HasNoPayload (removals node_id cs)
unfolding removals
removals-HasNoPayload node_id [] = tt
removals-HasNoPayload node_id ((c, o) ∷ cs) = (refl, removals-HasNoPayload node_id cs)

build_remove_discovery-HasNoPayload :
    (ieee : ℕ) → HasNoPayload (build_remove_discovery (new_device 0 ieee 0))
unfolding build_remove_discovery
build_remove_discovery-HasNoPayload ieee = removals-HasNoPayload _ components

-- Messages without a payload leave nothing, or the empty message, under any topic.
retained-quiet :
    (t : Text) (ms : List DiscoveryMsg)
    → HasNoPayload ms
    → (retained t (publications ms) ≡ none) ⊎ (retained t (publications ms) ≡ some empty)
unfolding retained publications
retained-quiet t [] h = inl refl
retained-quiet t (m ∷ ms) h = elim (retained-quiet t ms h.1) [
  | inl e ↦ elim (Bool-cases (same m.topic t)) [
    | inl y ↦ inr (rw (e, y, h.0) refl)
    | inr n ↦ inl (rw (e, n) refl)
  ]
  | inr e ↦ inr (rw e refl)
]

-- A topic that is among those without a payload is emptied.
retained-emptied :
    (t : Text) (ms : List DiscoveryMsg)
    → HasNoPayload ms
    → IsDeletedBy ms t
    → retained t (publications ms) ≡ some empty
unfolding retained publications
retained-emptied t [] h d = elim d [ ]
retained-emptied t (m ∷ ms) h (inr d) = rw (retained-emptied t ms h.1 d) refl
retained-emptied t (m ∷ ms) h (inl (e, p)) = elim (retained-quiet t ms h.1) [
  | inl q ↦ rw (q, e, same_refl t, h.0) refl
  | inr q ↦ rw q refl
]

-- Messages of other topics change nothing under a topic.
retained-other :
    (t : Text) (ms : List DiscoveryMsg)
    → All (λ m. same m.topic t ≡ false) ms
    → retained t (publications ms) ≡ none
unfolding retained publications
retained-other t [] h = refl
retained-other t (m ∷ ms) h = rw (retained-other t ms h.1, h.0) refl

-- After a device has left, the broker retains the empty message, which deletes, under the topic that
-- the bridge then has for the device's state and under every topic that discovery has ever published
-- for its address, with whatever clusters, name and prefix; and the bridge has no state and no cached
-- topic of the device. What the broker retains under any other topic stays, and that may be a state
-- of the device that was published while the bridge had another topic for it.
pub handle_device_left_clears :
    (ops : BridgeOps) (ieee : ℕ) (dev : Option Device) (b : Bridge) (was : Device)
    (prefix other : Text)
    → was.ieee_address ≡ ieee
    → same (state_topic ops ieee dev b) other ≡ false
    → All (λ m. same m.topic other ≡ false) (build_remove_discovery (new_device 0 ieee 0))
    → let after = handle_device_left ops ieee dev b in
      All
        (λ m. retained m.topic after.published ≡ some empty)
        (build_discovery ops.runes was prefix)
      × (retained (state_topic ops ieee dev b) after.published ≡ some empty)
      × (get_key ieee after.states ≡ none)
      × (get_key ieee after.topic_names ≡ none)
      × (retained other after.published ≡ retained other b.published)
unfolding handle_device_left publications
handle_device_left_clears ops ieee dev b was prefix other e ne nes = (
  All-map (build_discovery ops.runes was prefix) (λ m d. last m.topic (inr d))
      (build_remove_discovery_complete ops.runes was (new_device 0 ieee 0) prefix (sym e)),
  last (state_topic ops ieee dev b) (inl (refl, refl)),
  get_key-remove_key ieee b.states,
  get_key-remove_key ieee b.topic_names,
  retained-append other b.published (publications gone)
      ∙ ap (λ o. or_else o (retained other b.published)) (retained-other other gone (ne, nes)),
)
  where
    gone : List DiscoveryMsg
    gone =
        record { topic = state_topic ops ieee dev b; payload = none }
        ∷ build_remove_discovery (new_device 0 ieee 0)

    last :
        (t : Text) → IsDeletedBy gone t → retained t (b.published ++ publications gone) ≡ some empty
    last t d =
        retained-append t b.published (publications gone)
        ∙ ap (λ o. or_else o (retained t b.published))
            (retained-emptied t gone (refl, build_remove_discovery-HasNoPayload ieee) d)

-- ===== src/Mqtt/Discovery/Removal.antt =====
-- What discovery publishes, and what a removal takes back.
use zigbee_go_home.Base.{
  ℕ, ◌<◌, ◌≡◌, ◌≢◌, refl, ap, sym, ◌∙◌, take, drop, take-append-drop, Bool, true, false, not, ◌||◌,
  List, [], ◌∷◌, ◌++◌, map, All, none, if◌then◌else◌, ◌⊎◌, inl, inr, arith,
}
use mathlib.Core.Path.{subst}
use zigbee_go_home.Base.Bytes.{Bytes}
use zigbee_go_home.Base.Texts.{Text}
use zigbee_go_home.Coordinator.Devices.{Device}
use zigbee_go_home.Coordinator.Interview.{is_empty}
use zigbee_go_home.Coordinator.Reports.{hex_text}
use zigbee_go_home.Mqtt.Discovery.{
  DiscoveryMsg, RuneOps, DeviceContext, config_topic, build_sensor, build_binary_sensor,
  build_light, build_switch, chosen, candidates, build_discovery, removals, build_remove_discovery,
  device_identifier, components, safe_rune, device_topic_name, ieee_text,
}

-- A message that deletes the topic is in a list.
abbrev pub IsDeletedBy : List DiscoveryMsg → Text → Type 0
IsDeletedBy [] topic = ⊥
IsDeletedBy (m ∷ ms) topic = ((m.topic ≡ topic) × (m.payload ≡ none)) ⊎ IsDeletedBy ms topic

abbrev AllDeletedBy : List DiscoveryMsg → List DiscoveryMsg → Type 0
AllDeletedBy ms = All (λ m. IsDeletedBy ms m.topic)

chosen-AllDeletedBy :
    (ms : List DiscoveryMsg) (parts : List (Bool × DiscoveryMsg))
    → All (λ p. IsDeletedBy ms p.1.topic) parts
    → AllDeletedBy ms (chosen parts)
unfolding chosen
chosen-AllDeletedBy ms [] h = tt
chosen-AllDeletedBy ms ((true, m) ∷ parts) h = (h.0, chosen-AllDeletedBy ms parts h.1)
chosen-AllDeletedBy ms ((false, m) ∷ parts) h = chosen-AllDeletedBy ms parts h.1

-- The place of a component in the list of those that are removed.
removed_at :
    (node_id component object_id : Text) (before after : List (Text × Text))
    → IsDeletedBy
        (removals node_id (before ++ ((component, object_id) ∷ after)))
        (config_topic component node_id object_id)
unfolding removals
removed_at node_id component object_id [] after = inl (refl, refl)
removed_at node_id component object_id ((c, o) ∷ before) after =
    inr (removed_at node_id component object_id before after)

-- The component at a place of the list.
removed_component :
    (node_id : Text) (n : ℕ) (component object_id : Text) (after : List (Text × Text))
    → drop n components ≡ (component, object_id) ∷ after
    → IsDeletedBy (removals node_id components) (config_topic component node_id object_id)
removed_component node_id n component object_id after e =
    subst (λ cs. IsDeletedBy (removals node_id cs) (config_topic component node_id object_id))
      (ap (λ cs. take n components ++ cs) (sym e) ∙ take-append-drop n components)
      (removed_at node_id component object_id (take n components) after)

candidates-AllDeletedBy :
    (c : DeviceContext) (has : ℕ → Bool) (battery : Bool)
    → All (λ p. IsDeletedBy (removals c.node_id components) p.1.topic) (candidates c has battery)
unfolding candidates build_sensor build_binary_sensor build_light build_switch
candidates-AllDeletedBy c has battery = (
  at 0 refl,
  (
    at 1 refl,
    (
      at 2 refl,
      (
        at 3 refl,
        (
          at 4 refl,
          (
            at 5 refl,
            (at 9 refl, (at 10 refl, (at 6 refl, (at 6 refl, (at 7 refl, (at 8 refl, tt)))))),
          ),
        ),
      ),
    ),
  ),
)
  where
    at :
        (n : ℕ) {component object_id : Text} {after : List (Text × Text)}
        → drop n components ≡ (component, object_id) ∷ after
        → IsDeletedBy (removals c.node_id components) (config_topic component c.node_id object_id)
    at n {component = component} {object_id = object_id} {after = after} e =
        removed_component c.node_id n component object_id after e

-- Whatever discovery has published for a device, the removal of its IEEE address deletes: each of
-- its topics is among those that are emptied, even if the device has other clusters and another name
-- by then, or is gone from the store.
pub build_remove_discovery_complete :
    (ops : RuneOps) (dev gone : Device) (prefix : Text)
    → gone.ieee_address ≡ dev.ieee_address
    → AllDeletedBy (build_remove_discovery gone) (build_discovery ops dev prefix)
unfolding build_discovery build_remove_discovery device_identifier
build_remove_discovery_complete ops dev gone prefix e = rw e (
    either (not dev.interviewed || is_empty dev.endpoints) _
      (chosen-AllDeletedBy _ _ (candidates-AllDeletedBy _ _ _)))
  where
    either :
        (b : Bool) (ms : List DiscoveryMsg)
        → AllDeletedBy (removals (device_identifier dev) components) ms
        → AllDeletedBy (removals (device_identifier dev) components) (if b then [] else ms)
    either true ms h = tt
    either false ms h = h

-- Neither the separator of topics nor a wildcard of MQTT.
abbrev pub IsTopicByte : ℕ → Type 0
IsTopicByte b = (b ≢ 0x2f) × (b ≢ 0x2b) × (b ≢ 0x23)

safe_rune-IsTopicByte : (r : ℕ) → IsTopicByte (safe_rune r)
unfolding safe_rune
safe_rune-IsTopicByte r = (λ e. ground arith, λ e. ground arith, λ e. ground arith)

map-safe_rune : (rs : List ℕ) → All IsTopicByte (map safe_rune rs)
map-safe_rune [] = tt
map-safe_rune (r ∷ rs) = (safe_rune-IsTopicByte r, map-safe_rune rs)

hex_text-IsTopicByte : (bs : Bytes) → All (λ b. b < 256) bs → All IsTopicByte (hex_text bs)
unfolding hex_text
hex_text-IsTopicByte [] h = tt
hex_text-IsTopicByte (b ∷ bs) h = (
  (λ e. ground arith, λ e. ground arith, λ e. ground arith),
  ((λ e. ground arith, λ e. ground arith, λ e. ground arith), hex_text-IsTopicByte bs h.1),
)

-- The topic name of a device has no separator and no wildcard of MQTT, whatever its friendly name
-- is.
pub device_topic_name_safe :
    (ops : RuneOps) (dev : Device) → All IsTopicByte (device_topic_name ops dev)
unfolding device_topic_name ieee_text
device_topic_name_safe ops dev = either (is_empty dev.friendly_name)
  where
    digits : All IsTopicByte (ieee_text dev.ieee_address)
    digits = hex_text-IsTopicByte _ (
      omega arith,
      (
        omega arith,
        (
          omega arith,
          (omega arith, (omega arith, (omega arith, (omega arith, (omega arith, tt))))),
        ),
      ),
    )

    either :
        (b : Bool)
        → All IsTopicByte (
            if not b
            then map safe_rune (ops.lower_runes dev.friendly_name)
            else ieee_text dev.ieee_address)
    either true = digits
    either false = map-safe_rune (ops.lower_runes dev.friendly_name)

-- ===== src/Mqtt/Bridge.antt =====
-- internal/mqtt/bridge.go: the states that the bridge accumulates and publishes, its cache of topic
-- names, and what it does when a device leaves. `published` lists what was handed to the MQTT client,
-- all of it retained; that the client delivers it in order is left to that package.
pub mod Departure
pub mod Commands
pub mod Levels
use zigbee_go_home.Base.{
  ℕ, Bool, true, false, not, ◌&&◌, ◌||◌, List, [], ◌∷◌, ◌++◌, ◌==◌, if◌then◌else◌, Option, none,
  some,
}
use zigbee_go_home.Base.Int.{ℤ, pos, negsuc}
use zigbee_go_home.Base.Texts.{Text, ascii, same}
use zigbee_go_home.Zcl.Value.{
  FloatOps, Value, bool, uint8, uint16, uint32, int, int64, float32, float64, string, is_nonzero,
}
use zigbee_go_home.Coordinator.Devices.{
  Device, Endpoint, get_key, set_key, remove_key, member, new_device,
}
use zigbee_go_home.Coordinator.Properties.{PropertyMap}
use zigbee_go_home.Mqtt.Discovery.{
  HaDiscovery, DiscoveryMsg, RuneOps, ieee_text, device_topic_name, device_identifier,
  build_remove_discovery, build_discovery,
}

-- A payload: none, the JSON of a state, in which the first entry of a key counts, or a discovery
-- message.
pub data Body : Type 0 where
  empty : Body
  state_json : PropertyMap → Body
  discovery_json : HaDiscovery → Body

pub record Publication : Type 0 where
  pub topic : Text
  pub body : Body

pub record Bridge : Type 0 where
  pub prefix : Text
  pub states : List (ℕ × PropertyMap)
  pub topic_names : List (ℕ × Text)
  pub published : List Publication

-- `LastSeen.Format(time.RFC3339)` is the library's.
pub record BridgeOps : Type 0 where
  pub runes : RuneOps
  pub format_time : ℕ → Text

abbrev any_of : Text → Text → Text → Bool
any_of name a b = same name a || same name b

-- `mapAttributeToProperty`; the empty text is no property.
unfoldable pub map_attribute_to_property : ℕ → Text → Text
map_attribute_to_property cluster name =
    if (cluster == 0x0006) && any_of name (ascii "OnOff") (ascii "on_off")
    then ascii "state"
    else if (cluster == 0x0008) && any_of name (ascii "CurrentLevel") (ascii "current_level")
    then ascii "brightness"
    else if (cluster == 0x0402) && any_of name (ascii "MeasuredValue") (ascii "measured_value")
    then ascii "temperature"
    else if (cluster == 0x0405) && any_of name (ascii "MeasuredValue") (ascii "measured_value")
    then ascii "humidity"
    else if (cluster == 0x0403) && any_of name (ascii "MeasuredValue") (ascii "measured_value")
    then ascii "pressure"
    else if (cluster == 0x0400) && any_of name (ascii "MeasuredValue") (ascii "measured_value")
    then ascii "illuminance"
    else if (cluster == 0x0406) && any_of name (ascii "Occupancy") (ascii "occupancy")
    then ascii "occupancy"
    else if (cluster == 0x0500) && any_of name (ascii "ZoneStatus") (ascii "zone_status")
    then ascii "zone_status"
    else if (cluster == 0x0001)
        && any_of name (ascii "BatteryPercentageRemaining") (ascii "battery_percentage_remaining")
    then ascii "battery"
    else []

abbrev is_not_zero : ℤ → Bool
is_not_zero (pos n) = not (n == 0)
is_not_zero (negsuc n) = true

-- The bridge's own `toBool`.
unfoldable pub truth : Value → Bool
truth (bool b) = b
truth (uint8 n) = not (n == 0)
truth (uint16 n) = not (n == 0)
truth (uint32 n) = not (n == 0)
truth (int i) = is_not_zero i
truth (int64 i) = is_not_zero i
truth (float64 f) = is_nonzero f
truth _ = false

abbrev on_off_text : Value → Value
on_off_text (bool b) = string (if b then ascii "ON" else ascii "OFF")
on_off_text v = v

-- What `handleAttributeReport` makes of a value for Home Assistant.
unfoldable pub normalise : Text → Value → Value
normalise prop v =
    if same prop (ascii "state")
    then on_off_text v
    else if same prop (ascii "occupancy") || same prop (ascii "zone_status")
    then bool (truth v)
    else v

-- `findEndpointWithCluster`
abbrev first_endpoint : List Endpoint → ℕ
first_endpoint [] = 1
first_endpoint (ep ∷ eps) = ep.id

unfoldable pub endpoint_with : ℕ → List Endpoint → Option ℕ
endpoint_with id [] = none
endpoint_with id (ep ∷ eps) =
    let later = endpoint_with id eps in if member id ep.in_clusters then some ep.id else later

unfoldable pub find_endpoint_with_cluster : ℕ → List Endpoint → ℕ
find_endpoint_with_cluster id eps = elim (endpoint_with id eps) [
  | none ↦ first_endpoint eps
  | some n ↦ n
]

abbrev pub body_of : Option HaDiscovery → Body
body_of none = empty
body_of (some h) = discovery_json h

unfoldable pub publications : List DiscoveryMsg → List Publication
publications [] = []
publications (m ∷ ms) = record { topic = m.topic; body = body_of m.payload } ∷ publications ms

module _ (ops : BridgeOps) where
  -- `cachedTopicName`: `dev` is what the store has.
  unfoldable pub cached_topic_name : ℕ → Option Device → Bridge → Text × Bridge
  cached_topic_name ieee none b = elim (get_key ieee b.topic_names) [
    | some name ↦ (name, b)
    | none ↦ (ieee_text ieee, b)
  ]
  cached_topic_name ieee (some d) b = elim (get_key ieee b.topic_names) [
    | some name ↦ (name, b)
    | none ↦ (
      device_topic_name ops.runes d,
      record b { topic_names = set_key ieee (device_topic_name ops.runes d) b.topic_names },
    )
  ]

  abbrev pub state_topic : ℕ → Option Device → Bridge → Text
  state_topic ieee dev b = b.prefix ++ (0x2f ∷ (cached_topic_name ieee dev b).0)

  abbrev known_state : ℕ → Bridge → PropertyMap
  known_state ieee b = elim (get_key ieee b.states) [ none ↦ [] | some m ↦ m ]

  abbrev with_device : Option Device → PropertyMap → PropertyMap
  with_device none m = m
  with_device (some d) m =
      (ascii "last_seen", string (ops.format_time d.last_seen))
      ∷ (ascii "linkquality", uint8 d.lqi)
      ∷ m

  unfoldable pub update_and_publish_state : ℕ → Option Device → Text → Value → Bridge → Bridge
  update_and_publish_state ieee dev prop v b =
      let state = with_device dev ((prop, v) ∷ known_state ieee b) in
      let (name, named) = cached_topic_name ieee dev b in
      record named {
        states = set_key ieee state b.states;
        published =
            b.published
            ++ (record { topic = b.prefix ++ (0x2f ∷ name); body = state_json state } ∷ []);
      }

  -- `handleAttributeReport` and `handlePropertyUpdate`, of an event that names a device.
  unfoldable pub handle_attribute_report : ℕ → Option Device → ℕ → Text → Value → Bridge → Bridge
  handle_attribute_report ieee dev cluster attr_name v b =
      let prop = map_attribute_to_property cluster attr_name in
      let coloured =
        update_and_publish_state ieee dev (ascii "color_mode") (string (ascii "brightness")) b in
      if same prop []
      then b
      else if same prop (ascii "brightness")
      then update_and_publish_state ieee dev prop v coloured
      else update_and_publish_state ieee dev prop (normalise prop v) b

  unfoldable pub handle_property_update : ℕ → Option Device → Text → Value → Bridge → Bridge
  handle_property_update ieee dev prop v b =
      if same prop [] then b else update_and_publish_state ieee dev prop v b

  -- `publishDeviceDiscovery`
  unfoldable pub publish_device_discovery : Device → Bridge → Bridge
  publish_device_discovery dev b = record b {
    published = b.published ++ publications (build_discovery ops.runes dev b.prefix);
  }

  -- `handleDeviceLeft`: the device that it removes has only its address.
  unfoldable pub handle_device_left : ℕ → Option Device → Bridge → Bridge
  handle_device_left ieee dev b = record b {
    states = remove_key ieee b.states;
    topic_names = remove_key ieee b.topic_names;
    published =
        b.published
        ++ (record { topic = state_topic ieee dev b; body = empty }
            ∷ publications (build_remove_discovery (new_device 0 ieee 0)));
  }

-- ===== src/Mqtt/Discovery.antt =====
-- internal/mqtt/discovery.go: the discovery messages of a device, and those that remove it. A
-- payload stands for its JSON. A name's runes and their lower case are the library's, a parameter.
pub mod Removal
use zigbee_go_home.Base.{
  ℕ, ◌+◌, ◌-◌, ◌/◌, ◌%◌, ◌^◌, Bool, true, false, not, ◌&&◌, ◌||◌, List, [], ◌∷◌, ◌++◌, ◌==◌, leb,
  if◌then◌else◌, map, Option, none, some,
}
use zigbee_go_home.Base.Bytes.{Bytes}
use zigbee_go_home.Base.Texts.{Text, ascii, same}
use zigbee_go_home.Coordinator.Devices.{Device, Endpoint, member}
use zigbee_go_home.Coordinator.Interview.{is_empty}
use zigbee_go_home.Coordinator.Properties.{get_property}
use zigbee_go_home.Coordinator.Reports.{hex_text}

-- `haDiscovery` and its device block: the fields that are empty are left out of the JSON.
pub record HaDiscovery : Type 0 where
  pub name : Text
  pub unique_id : Text
  pub state_topic : Text
  pub command_topic : Text
  pub availability_topic : Text
  pub value_template : Text
  pub unit_of_measurement : Text
  pub device_class : Text
  pub state_class : Text
  pub payload_on : Text
  pub payload_off : Text
  pub brightness_scale : ℕ
  pub supported_color_modes : List Text
  pub schema : Text
  pub device_identifiers : List Text
  pub device_manufacturer : Text
  pub device_model : Text
  pub device_name : Text

-- `discoveryMsg`: no payload deletes.
pub record DiscoveryMsg : Type 0 where
  pub topic : Text
  pub payload : Option HaDiscovery

-- The string of an IEEE address: sixteen upper-case digits.
unfoldable pub ieee_text : ℕ → Text
ieee_text n = hex_text (
    n / 2 ^ 56 % 256
    ∷ n / 2 ^ 48 % 256
    ∷ n / 2 ^ 40 % 256
    ∷ n / 2 ^ 32 % 256
    ∷ n / 2 ^ 24 % 256
    ∷ n / 2 ^ 16 % 256
    ∷ n / 2 ^ 8 % 256
    ∷ n % 256
    ∷ [])

unfoldable pub device_display_name : Device → Text
device_display_name dev =
    if not (is_empty dev.friendly_name)
    then dev.friendly_name
    else if not (is_empty dev.manufacturer) && not (is_empty dev.model)
    then dev.manufacturer ++ (0x20 ∷ dev.model)
    else if not (is_empty dev.model)
    then dev.model
    else ieee_text dev.ieee_address

unfoldable pub device_identifier : Device → Text
device_identifier dev = ascii "zigbee_" ++ ieee_text dev.ieee_address

-- The runes of `strings.ToLower(name)`.
pub record RuneOps : Type 0 where
  pub lower_runes : Bytes → List ℕ

abbrev pub is_safe_rune : ℕ → Bool
is_safe_rune r =
    (leb 0x61 r && leb r 0x7a) || ((leb 0x30 r && leb r 0x39) || ((r == 0x5f) || (r == 0x2d)))

unfoldable pub safe_rune : ℕ → ℕ
safe_rune r = if is_safe_rune r then r else 0x5f

-- The runes that are left are ASCII, so the text is their bytes.
unfoldable pub device_topic_name : RuneOps → Device → Text
device_topic_name ops dev =
    if not (is_empty dev.friendly_name)
    then map safe_rune (ops.lower_runes dev.friendly_name)
    else ieee_text dev.ieee_address

-- `hasCluster[id]`
unfoldable pub has_cluster : ℕ → List Endpoint → Bool
has_cluster id [] = false
has_cluster id (ep ∷ eps) = member id ep.in_clusters || has_cluster id eps

-- `fmt.Sprintf("homeassistant/%s/%s/%s/config", component, nodeID, objectID)`
unfoldable pub config_topic : Text → Text → Text → Text
config_topic component node_id object_id =
    ascii "homeassistant/"
    ++ (component ++ (ascii "/" ++ (node_id ++ (ascii "/" ++ (object_id ++ ascii "/config")))))

-- What the messages of one device share.
pub record DeviceContext : Type 0 where
  pub node_id : Text
  pub display_name : Text
  pub state_topic : Text
  pub avail : Text
  pub command_topic : Text
  pub dev : Device

abbrev pub blank : DeviceContext → HaDiscovery
blank c = record {
  name = c.display_name;
  unique_id = c.node_id;
  state_topic = c.state_topic;
  command_topic = [];
  availability_topic = c.avail;
  value_template = [];
  unit_of_measurement = [];
  device_class = [];
  state_class = [];
  payload_on = [];
  payload_off = [];
  brightness_scale = 0;
  supported_color_modes = [];
  schema = [];
  device_identifiers = c.node_id ∷ [];
  device_manufacturer = c.dev.manufacturer;
  device_model = c.dev.model;
  device_name = c.display_name;
}

unfoldable pub build_sensor : DeviceContext → Text → Text → Text → Text → Text → Text → DiscoveryMsg
build_sensor c object_id suffix device_class unit state_class value_tmpl = record {
  topic = config_topic (ascii "sensor") c.node_id object_id;
  payload = some (record (blank c) {
    name = c.display_name ++ (0x20 ∷ suffix);
    unique_id = c.node_id ++ (0x5f ∷ object_id);
    value_template = value_tmpl;
    unit_of_measurement = unit;
    device_class = device_class;
    state_class = state_class;
  });
}

unfoldable pub build_binary_sensor : DeviceContext → Text → Text → Text → Text → DiscoveryMsg
build_binary_sensor c object_id suffix device_class value_tmpl = record {
  topic = config_topic (ascii "binary_sensor") c.node_id object_id;
  payload = some (record (blank c) {
    name = c.display_name ++ (0x20 ∷ suffix);
    unique_id = c.node_id ++ (0x5f ∷ object_id);
    value_template = value_tmpl;
    device_class = device_class;
    payload_on = ascii "ON";
    payload_off = ascii "OFF";
  });
}

unfoldable pub build_light : DeviceContext → DiscoveryMsg
build_light c = record {
  topic = config_topic (ascii "light") c.node_id (ascii "light");
  payload = some (record (blank c) {
    unique_id = c.node_id ++ ascii "_light";
    command_topic = c.command_topic;
    supported_color_modes = ascii "brightness" ∷ [];
    brightness_scale = 254;
    schema = ascii "json";
  });
}

unfoldable pub build_switch : DeviceContext → DiscoveryMsg
build_switch c = record {
  topic = config_topic (ascii "switch") c.node_id (ascii "switch");
  payload = some (record (blank c) {
    unique_id = c.node_id ++ ascii "_switch";
    command_topic = c.command_topic;
    value_template = ascii "{{ value_json.state }}";
    payload_on = ascii "ON";
    payload_off = ascii "OFF";
  });
}

-- The messages that are appended: those whose condition holds, in order.
unfoldable pub chosen : List (Bool × DiscoveryMsg) → List DiscoveryMsg
chosen [] = []
chosen ((b, msg) ∷ rest) = let later = chosen rest in if b then msg ∷ later else later

-- A sensor with the state class "measurement", whose template reads the field of its object id.
abbrev pub measured : DeviceContext → Text → Text → Text → Text → DiscoveryMsg
measured c object_id suffix device_class unit =
    build_sensor c object_id suffix device_class unit (ascii "measurement")
      (ascii "{{ value_json." ++ (object_id ++ ascii " }}"))

abbrev has_battery : Device → Bool
has_battery dev = elim (get_property (ascii "battery") dev.properties) [
  | none ↦ false
  | some v ↦ true
]

-- Every message of `buildDiscovery` with its condition.
unfoldable pub candidates : DeviceContext → (ℕ → Bool) → Bool → List (Bool × DiscoveryMsg)
candidates c has battery_property =
    (has 0x0006 && has 0x0008, build_light c)
    ∷ (has 0x0006 && not (has 0x0008), build_switch c)
    ∷ (
      has 0x0402,
      measured c (ascii "temperature") (ascii "Temperature") (ascii "temperature")
          (0xc2 ∷ 0xb0 ∷ 0x43 ∷ []),
    )
    ∷ (has 0x0405, measured c (ascii "humidity") (ascii "Humidity") (ascii "humidity") (ascii "%"))
    ∷ (
      has 0x0403,
      measured c (ascii "pressure") (ascii "Pressure") (ascii "pressure") (ascii "hPa"),
    )
    ∷ (
      has 0x0400,
      measured c (ascii "illuminance") (ascii "Illuminance") (ascii "illuminance") (ascii "lx"),
    )
    ∷ (
      has 0x0406,
      build_binary_sensor c (ascii "occupancy") (ascii "Occupancy") (ascii "occupancy")
          (ascii "{{ 'ON' if value_json.occupancy else 'OFF' }}"),
    )
    ∷ (
      has 0x0500,
      build_binary_sensor c (ascii "zone") (ascii "Zone") (ascii "safety")
          (ascii "{{ 'ON' if value_json.zone_status else 'OFF' }}"),
    )
    ∷ (has 0x0001, measured c (ascii "battery") (ascii "Battery") (ascii "battery") (ascii "%"))
    ∷ (
      battery_property && not (has 0x0001),
      measured c (ascii "battery") (ascii "Battery") (ascii "battery") (ascii "%"),
    )
    ∷ (has 0x000c, measured c (ascii "analog") (ascii "Analog Input") [] [])
    ∷ (true, measured c (ascii "linkquality") (ascii "Link Quality") [] (ascii "lqi"))
    ∷ []

unfoldable pub build_discovery : RuneOps → Device → Text → List DiscoveryMsg
build_discovery ops dev prefix =
    let topic = prefix ++ (0x2f ∷ device_topic_name ops dev) in
    if not dev.interviewed || is_empty dev.endpoints
    then []
    else chosen (
        candidates
          (record {
            node_id = device_identifier dev;
            display_name = device_display_name dev;
            state_topic = topic;
            avail = prefix ++ ascii "/bridge/state";
            command_topic = topic ++ ascii "/set";
            dev = dev;
          })
          (λ id. has_cluster id dev.endpoints) (has_battery dev))

abbrev pub components : List (Text × Text)
components =
    (ascii "light", ascii "light")
    ∷ (ascii "switch", ascii "switch")
    ∷ (ascii "sensor", ascii "temperature")
    ∷ (ascii "sensor", ascii "humidity")
    ∷ (ascii "sensor", ascii "pressure")
    ∷ (ascii "sensor", ascii "illuminance")
    ∷ (ascii "sensor", ascii "battery")
    ∷ (ascii "sensor", ascii "analog")
    ∷ (ascii "sensor", ascii "linkquality")
    ∷ (ascii "binary_sensor", ascii "occupancy")
    ∷ (ascii "binary_sensor", ascii "zone")
    ∷ []

unfoldable pub removals : Text → List (Text × Text) → List DiscoveryMsg
removals node_id [] = []
removals node_id ((component, object_id) ∷ rest) =
    record { topic = config_topic component node_id object_id; payload = none }
    ∷ removals node_id rest

unfoldable pub build_remove_discovery : Device → List DiscoveryMsg
build_remove_discovery dev = removals (device_identifier dev) components

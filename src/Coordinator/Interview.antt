-- ===== src/Coordinator/Interview.antt =====
-- internal/coordinator/device_manager.go: `Interview`, `readBasicAttributes`, `configureDevice` and
-- `encodeReportChange`. What an interview uses outside itself is a world, taken as a parameter: the
-- driver's requests, the store, and the context. Other goroutines run between its calls, so every
-- call may change the world. The table of running interviews, which cancels an earlier interview of
-- the device, is behind `is_done`.
pub mod Change
pub mod Untouched
pub mod Outcomes
use zigbee_go_home.Base.{
  ℕ, zero, suc, ◌+◌, ◌-◌, ◌*◌, ◌/◌, ◌%◌, ◌^◌, Bool, true, false, not, ◌&&◌, ◌||◌, List, [], ◌∷◌,
  ◌++◌, ◌==◌, leb, if◌then◌else◌, Option, none, some, Outcome, ok, err, panic,
}
use zigbee_go_home.Base.Bytes.{Bytes}
use zigbee_go_home.Base.Int.{ℤ, pos, negsuc, pattern_of}
use zigbee_go_home.Base.Texts.{Text}
use zigbee_go_home.Zcl.Types.{put_le, decode_value}
use zigbee_go_home.Zcl.Value.{Value, string}
use zigbee_go_home.Ncp.Zcl.{AttributeResponse}
use zigbee_go_home.Ncp.Commands.Zdo.{SimpleDescriptor}
use zigbee_go_home.Coordinator.Devices.{
  Endpoint, Device, Found, found, not_found, get_failed, member,
}
use zigbee_go_home.Coordinator.DeviceDb.{DeviceDb, DeviceDefinition, ReportingEntry, lookup}

-- The test of a data type against the list of a `case`.
abbrev is_one_of : ℕ → List ℕ → Bool
is_one_of t [] = false
is_one_of t (x ∷ xs) = (t == x) || is_one_of t xs

-- `value <= n`
abbrev at_most : ℕ → ℤ → Bool
at_most n (pos v) = leb v n
at_most n (negsuc v) = true

-- `byte(value)`, `byte(value >> 8)` and so on are the bytes of the int64's pattern.
abbrev change_bytes : ℕ → ℤ → Bytes
change_bytes size value = put_le size (pattern_of (2 ^ 64) value)

unfoldable pub encode_report_change : ℕ → ℤ → Bytes
encode_report_change data_type value =
    if is_one_of data_type (0x08 ∷ 0x10 ∷ 0x18 ∷ 0x20 ∷ 0x28 ∷ 0x30 ∷ [])
    then change_bytes 1 value
    else if is_one_of data_type (0x09 ∷ 0x19 ∷ 0x21 ∷ 0x29 ∷ 0x31 ∷ [])
    then change_bytes 2 value
    else if is_one_of data_type (0x0b ∷ 0x1b ∷ 0x23 ∷ 0x2b ∷ 0x39 ∷ [])
    then change_bytes 4 value
    else if is_one_of data_type (0x25 ∷ 0x2d ∷ [])
    then change_bytes 6 value
    else if is_one_of data_type (0x27 ∷ 0x2f ∷ 0x3a ∷ [])
    then change_bytes 8 value
    else if at_most 0xff value
    then change_bytes 1 value
    else if at_most 0xffff value
    then change_bytes 2 value
    else change_bytes 4 value

unfoldable pub has_out_cluster : Endpoint → ℕ → Bool
has_out_cluster ep cluster = member cluster ep.out_clusters

unfoldable pub has_in_cluster : Endpoint → ℕ → Bool
has_in_cluster ep cluster = member cluster ep.in_clusters

-- A bind request from the device's endpoint to the coordinator's endpoint 1.
pub record BindCall : Type 0 where
  pub target : ℕ
  pub src_ieee : ℕ
  pub src_ep : ℕ
  pub cluster_id : ℕ
  pub dst_ieee : ℕ

pub record ReportingCall : Type 0 where
  pub dst_addr : ℕ
  pub dst_ep : ℕ
  pub entry : ReportingEntry
  pub change_bytes_sent : Bytes

-- The calls of an interview. The results of `Bind` and `ConfigureReporting` are only logged;
-- `wait` is the pause before a retry, which ends early when the context is done.
pub record World (W : Type 0) : Type 0 where
  pub get_device : ℕ → W → Found × W
  pub active_endpoints : ℕ → W → Option (List ℕ) × W
  pub read_attributes : ℕ → ℕ → W → Option (List AttributeResponse) × W
  pub simple_descriptor : ℕ → ℕ → W → Option SimpleDescriptor × W
  pub bind : BindCall → W → W
  pub configure_reporting : ReportingCall → W → W
  pub wait : W → W
  pub is_done : W → Bool
  pub update_device : ℕ → (Device → Device) → W → W
  pub local_ieee : ℕ

-- The loop over the attributes that were read: 0x0004 and 0x0005, with status 0 and a value that
-- decodes to a string.
unfoldable pub set_basic : ℕ → Outcome Text Value → Device → Device
set_basic attr_id (ok (string s)) dev =
    if attr_id == 0x0004
    then record dev { manufacturer = s }
    else if attr_id == 0x0005
    then record dev { model = s }
    else dev
set_basic attr_id _ dev = dev

abbrev pub is_empty {ℓ} : {A : Type ℓ} → List A → Bool
is_empty [] = true
is_empty (x ∷ xs) = false

abbrev decoded : ℕ → Bytes → Outcome Text Value
decoded data_type value = elim (decode_value data_type value) [
  | ok (v, consumed) ↦ ok v
  | err e ↦ err []
  | panic ↦ panic
]

unfoldable pub take_basic : List AttributeResponse → Device → Device
take_basic [] dev = dev
take_basic (r ∷ rs) dev =
    let skipped = take_basic rs dev in
    let taken = take_basic rs (set_basic r.attr_id (decoded r.data_type r.value) dev) in
    if not (r.status == 0) || is_empty r.value then skipped else taken

-- A field that is still empty is taken from the store.
unfoldable pub fill_in : Device → Device → Device
fill_in fresh dev = record dev {
  manufacturer = if is_empty dev.manufacturer then fresh.manufacturer else dev.manufacturer;
  model = if is_empty dev.model then fresh.model else dev.model;
}

-- The name that `Interview` gives: the definition's, or else the model if there is no name.
unfoldable pub model_as_name : Device → Device
model_as_name dev =
    if is_empty dev.friendly_name && not (is_empty dev.model)
    then record dev { friendly_name = dev.model }
    else dev

unfoldable pub set_friendly_name : Option DeviceDefinition → Device → Device
set_friendly_name none dev = model_as_name dev
set_friendly_name (some def) dev =
    if not (is_empty def.friendly_name)
    then record dev { friendly_name = def.friendly_name }
    else model_as_name dev

-- What an interview writes into the device that the store has at that moment.
unfoldable pub merge_interview : Device → Device → Device
merge_interview dev d = record d {
  endpoints = dev.endpoints;
  interviewed = true;
  friendly_name = dev.friendly_name;
  manufacturer = if is_empty dev.manufacturer then d.manufacturer else dev.manufacturer;
  model = if is_empty dev.model then d.model else dev.model;
}

module _ {W : Type 0} (world : World W) where
  unfoldable pub read_store : Device → W → Device × W
  read_store dev w =
      let (f, w') = world.get_device dev.ieee_address w in
      if is_empty dev.manufacturer || is_empty dev.model
      then (elim f [ found fresh ↦ fill_in fresh dev | not_found ↦ dev | get_failed ↦ dev ], w')
      else (dev, w)

  unfoldable pub read_basic_attributes : Device → ℕ → W → Device × W
  read_basic_attributes dev ep w =
      let (answer, w') = world.read_attributes dev.short_address ep w in
      elim answer [ none ↦ read_store dev w' | some rs ↦ read_store (take_basic rs dev) w' ]

  unfoldable pub bind_clusters : Device → Endpoint → List ℕ → W → W
  bind_clusters dev ep [] w = w
  bind_clusters dev ep (c ∷ cs) w = bind_clusters dev ep cs (
      if has_out_cluster ep c
      then world.bind
          (record {
            target = dev.short_address;
            src_ieee = dev.ieee_address;
            src_ep = ep.id;
            cluster_id = c;
            dst_ieee = world.local_ieee;
          })
          w
      else w)

  unfoldable pub configure_entries : Device → Endpoint → List ReportingEntry → W → W
  configure_entries dev ep [] w = w
  configure_entries dev ep (r ∷ rs) w = configure_entries dev ep rs (
      if has_in_cluster ep r.cluster
      then world.configure_reporting
          (record {
            dst_addr = dev.short_address;
            dst_ep = ep.id;
            entry = r;
            change_bytes_sent = encode_report_change r.data_type r.change;
          })
          w
      else w)

  -- `configureDevice`: the IEEE address of a stored device parses.
  unfoldable pub configure_device : Device → DeviceDefinition → List Endpoint → W → W
  configure_device dev def [] w = w
  configure_device dev def (ep ∷ eps) w =
      configure_device dev def eps
        (configure_entries dev ep def.reporting (bind_clusters dev ep def.bind w))

  -- The endpoints whose descriptor is read; an error leaves the endpoint out.
  unfoldable pub describe : Device → List ℕ → W → List Endpoint × W
  describe dev [] w = ([], w)
  describe dev (ep ∷ eps) w =
      let (answer, w1) = world.simple_descriptor dev.short_address ep w in
      let (rest, w2) = describe dev eps w1 in
      elim answer [
        | none ↦ (rest, w2)
        | some sd ↦ (
          record {
            id = ep;
            profile_id = sd.profile_id;
            device_id = sd.device_id;
            in_clusters = sd.in_clusters;
            out_clusters = sd.out_clusters;
          }
              ∷ rest,
          w2,
        )
      ]

  -- `if len(endpoints) > 0 { dm.readBasicAttributes(ctx, dev, endpoints[0]) }`
  unfoldable pub read_first : Device → List ℕ → W → Device × W
  read_first dev [] w = (dev, w)
  read_first dev (ep ∷ eps) w = read_basic_attributes dev ep w

  -- An attempt whose endpoints were read, up to the check of the context: the device to save.
  unfoldable pub inspect : DeviceDb → Device → List ℕ → W → Device × W
  inspect db dev eps w =
      let (read, w1) = read_first dev eps w in
      let def = lookup read.manufacturer read.model db in
      let named = set_friendly_name def read in
      let (endpoints, w2) = describe named eps w1 in
      let complete = record named { endpoints = endpoints } in
      elim def [
        | none ↦ (complete, w2)
        | some d ↦ (complete, configure_device complete d endpoints w2)
      ]

  -- No endpoints: the next attempt follows a pause, unless the context is done or none is left.
  unfoldable pub after_failure : ℕ → (W → Option Device × W) → W → Option Device × W
  after_failure left again w =
      if world.is_done w
      then (none, w)
      else if left == 0
      then (none, w)
      else if world.is_done (world.wait w)
      then (none, world.wait w)
      else again (world.wait w)

  unfoldable pub after_endpoints : DeviceDb → Device → List ℕ → W → Option Device × W
  after_endpoints db dev eps w =
      let (complete, w') = inspect db dev eps w in
      if world.is_done w' then (none, w') else (some complete, w')

  unfoldable pub ask_endpoints :
      DeviceDb → ℕ → (W → Option Device × W) → Device → W → Option Device × W
  ask_endpoints db left again dev w =
      let (answer, w') = world.active_endpoints dev.short_address w in
      elim answer [ none ↦ after_failure left again w' | some eps ↦ after_endpoints db dev eps w' ]

  -- The attempts that are left: the device that the interview goes on to save, if it does, and the
  -- world by then.
  unfoldable pub attempt : ℕ → DeviceDb → ℕ → W → Option Device × W
  attempt zero db ieee w = (none, w)
  attempt (suc left) db ieee w =
      let (f, w') = world.get_device ieee w in
      elim f [
        | found dev ↦ ask_endpoints db left (attempt left db ieee) dev w'
        | not_found ↦ (none, w')
        | get_failed ↦ (none, w')
      ]

  unfoldable pub interview : DeviceDb → ℕ → W → W
  interview db ieee w =
      let (o, w') = attempt 3 db ieee w in
      elim o [ none ↦ w' | some dev ↦ world.update_device ieee (merge_interview dev) w' ]

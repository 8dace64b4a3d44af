-- ===== src/Coordinator/Reports.antt =====
-- internal/coordinator/device_manager.go: `HandleAttributeReport`, `HandleClusterCommand`,
-- `emitStandardProperty` and `RemoveDevice`, with the parts of properties.go that write to the store.
-- `UpdateDevice` joins the store's calls; `none` is its error, which is only logged.
pub mod Stored
pub mod Tuya
use zigbee_go_home.Base.{
  ℕ, ◌+◌, ◌/◌, ◌%◌, Bool, true, false, not, ◌&&◌, ◌||◌, List, [], ◌∷◌, ◌++◌, ◌==◌, ltb,
  if◌then◌else◌, Option, none, some, Outcome, ok, err, panic,
}
use zigbee_go_home.Base.Bytes.{Bytes}
use zigbee_go_home.Base.Int.{ℤ}
use zigbee_go_home.Base.Texts.{Text}
use zigbee_go_home.Zcl.Value.{Value, nil, string}
use zigbee_go_home.Zcl.Types.{decode_value}
use zigbee_go_home.Ncp.Zcl.{Report}
use zigbee_go_home.Ncp.Indication.{Source}
use zigbee_go_home.Coordinator.DeviceDb.{DeviceDb, DeviceDefinition, PropertySource, lookup}
use zigbee_go_home.Coordinator.Decoders.{Assignments}
use zigbee_go_home.Coordinator.Devices.{
  Device, Found, found, not_found, get_failed, Store, Event, device_left, attribute_report,
  cluster_command, property_update, Manager, remove_first_of, without, lookup_or_rebuild,
}
use zigbee_go_home.Coordinator.Interview.{is_empty}
use zigbee_go_home.Coordinator.Properties.{
  FloatMath, PropertyMap, standard_property, report_source, command_source, property_updates,
  assign_all, set_all,
}

-- `fmt.Sprintf("%X", bytes)`
abbrev hex_digit : ℕ → ℕ
hex_digit n = if ltb n 10 then 0x30 + n else 55 + n

unfoldable pub hex_text : Bytes → Text
hex_text [] = []
hex_text (b ∷ bs) = hex_digit (b / 16) ∷ hex_digit (b % 16) ∷ hex_text bs

-- What `HandleAttributeReport` makes of the bytes of a value.
unfoldable pub decoded_report : Report → Value
decoded_report r = if is_empty r.value then nil else elim (decode_value r.data_type r.value) [
  | ok (v, consumed) ↦ v
  | err e ↦ string (hex_text r.value)
  | panic ↦ nil
]

-- `LastSeen`, and the link quality if the event has one.
unfoldable pub touch : ℕ → Source → Device → Device
touch now source d =
    if ltb 0 source.lqi
    then record d { last_seen = now; lqi = source.lqi; rssi = source.rssi }
    else record d { last_seen = now }

-- A Basic cluster report names the manufacturer or the model of a device that has none yet.
unfoldable pub name_device : ℕ → Text → Device → Device
name_device attr_id s d =
    if is_empty s
    then d
    else if attr_id == 0x0004
    then if is_empty d.manufacturer then record d { manufacturer = s } else d
    else if attr_id == 0x0005
    then if is_empty d.model then record d { model = s } else d
    else d

unfoldable pub capture_basic : Source → ℕ → Value → Device → Device
capture_basic source attr_id (string s) d =
    if source.cluster_id == 0x0000 then name_device attr_id s d else d
capture_basic source attr_id _ d = d

abbrev is_nil : Value → Bool
is_nil nil = true
is_nil _ = false

abbrev updates_of : ℕ → PropertyMap → List Event
updates_of ieee [] = []
updates_of ieee ((name, v) ∷ us) = property_update ieee name v ∷ updates_of ieee us

abbrev device_of : Found → Option Device
device_of (found d) = some d
device_of not_found = none
device_of get_failed = none

-- The sources of a device's definition, if it has a manufacturer and a model.
abbrev sources_of : DeviceDb → Device → List PropertySource
sources_of db d =
    if is_empty d.manufacturer || is_empty d.model
    then []
    else elim (lookup d.manufacturer d.model db) [ none ↦ [] | some def ↦ def.properties ]

module _ {S : Type 0} (ops : Store S) (update_device : ℕ → (Device → Device) → S → Option S) where
  unfoldable pub update_stored : ℕ → (Device → Device) → Manager S → Manager S
  update_stored ieee f m = record m {
    store = elim (update_device ieee f m.store) [ none ↦ m.store | some s ↦ s ];
  }

  abbrev emit_all : List Event → Manager S → Manager S
  emit_all es m = record m { events = m.events ++ es }

  -- The end of the two property functions: every name that the handler's copy of the device has is
  -- written, if there was an update.
  unfoldable pub store_updates : ℕ → Device → PropertyMap → Manager S → Manager S
  store_updates ieee dev [] m = m
  store_updates ieee dev (u ∷ us) m =
      let collected = assign_all (u ∷ us) dev.properties in
      update_stored ieee (λ d. record d { properties = set_all collected d.properties })
        (emit_all (updates_of ieee (u ∷ us)) m)

  -- `processProperties` and `processClusterCommandProperties`, which differ in how a source decodes.
  unfoldable pub process_properties :
      FloatMath
      → DeviceDb
      → (PropertySource → Option Assignments)
      → ℕ
      → Option Device
      → Manager S
      → Manager S
  process_properties math db source ieee none m = m
  process_properties math db source ieee (some dev) m =
      store_updates ieee dev (property_updates math source (sources_of db dev)) m

  -- `emitStandardProperty`: the value is stored if the device was read, and emitted anyway.
  unfoldable pub store_standard : ℕ → Text → Value → Option Device → Manager S → Manager S
  store_standard ieee name v none m = m
  store_standard ieee name v (some dev) m =
      update_stored ieee (λ d. record d { properties = (name, v) ∷ d.properties }) m

  unfoldable pub emit_standard_property :
      ℕ → Option Device → Source → ℕ → Value → Manager S → Manager S
  emit_standard_property ieee dev source attr_id v m =
      if is_nil v then m else elim (standard_property source.cluster_id attr_id) [
        | none ↦ m
        | some name ↦ emit_all (property_update ieee name v ∷ []) (store_standard ieee name v dev m)
      ]

  -- From `UpdateDevice` on, of a device that is known.
  unfoldable pub report_known :
      FloatMath → DeviceDb → ℕ → Source → Report → ℕ → Manager S → Manager S
  report_known math db now source r ieee m =
      let v = decoded_report r in
      let touched =
        update_stored ieee (λ d. capture_basic source r.attr_id v (touch now source d)) m in
      let dev = device_of (ops.get_device ieee touched.store) in
      process_properties math db (report_source source.cluster_id r.attr_id v) ieee dev (
        emit_standard_property ieee dev source r.attr_id v (
          emit_all
            (attribute_report (some ieee) source.src_addr source.src_ep source.cluster_id r.attr_id
                v
              ∷ [])
            touched))

  unfoldable pub handle_attribute_report :
      FloatMath → DeviceDb → ℕ → Source → Report → Manager S → Manager S
  handle_attribute_report math db now source r m =
      let (o, indexed) = lookup_or_rebuild ops source.src_addr m in
      elim o [
        | some ieee ↦ report_known math db now source r ieee indexed
        | none ↦
            emit_all
              (attribute_report none source.src_addr source.src_ep source.cluster_id r.attr_id
                  (decoded_report r)
                ∷ [])
              indexed
      ]

  unfoldable pub command_known :
      FloatMath → DeviceDb → ℕ → Source → ℕ → Bytes → ℕ → Manager S → Manager S
  command_known math db now source cmd_id payload ieee m =
      let touched = update_stored ieee (touch now source) m in
      let dev = device_of (ops.get_device ieee touched.store) in
      process_properties math db (command_source source.cluster_id payload) ieee dev (
        emit_all
          (cluster_command (some ieee) source.src_addr source.src_ep source.cluster_id cmd_id
              payload
            ∷ [])
          touched)

  unfoldable pub handle_cluster_command :
      FloatMath → DeviceDb → ℕ → Source → ℕ → Bytes → Manager S → Manager S
  handle_cluster_command math db now source cmd_id payload m =
      let (o, indexed) = lookup_or_rebuild ops source.src_addr m in
      elim o [
        | some ieee ↦ command_known math db now source cmd_id payload ieee indexed
        | none ↦
            emit_all
              (cluster_command none source.src_addr source.src_ep source.cluster_id cmd_id payload
                ∷ [])
              indexed
      ]

  -- `RemoveDevice`, and whether it returns without an error. The leave request's error is only logged.
  unfoldable pub remove_device : ℕ → Manager S → Bool × Manager S
  remove_device ieee m =
      let left = record m {
        interviewing = without ieee m.interviewing;
        addr_index = remove_first_of ieee m.addr_index;
      } in
      elim (ops.get_device ieee m.store) [
        | not_found ↦ (false, m)
        | get_failed ↦ (false, m)
        | found d ↦ elim (ops.delete_device ieee m.store) [
          | none ↦ (false, left)
          | some s ↦ (true, record left { store = s; events = m.events ++ (device_left ieee ∷ []) })
        ]
      ]

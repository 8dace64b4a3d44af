-- ===== src/Coordinator/Examples/Reports.antt =====
-- A Tuya thermometer reports a data point, over a small store.
use zigbee_go_home.Base.{ℕ, ◌≡◌, refl, false, [], List, ◌∷◌, ◌++◌, some, map_option, arith}
use zigbee_go_home.Base.Int.{pos}
use zigbee_go_home.Base.Texts.{Text, same}
use zigbee_go_home.Zcl.Value.{int64}
use zigbee_go_home.Zcl.Clusters.Merge.{or_else}
use zigbee_go_home.Ncp.Indication.{Source}
use zigbee_go_home.Coordinator.DeviceDb.{
  DeviceDb, DeviceDefinition, new_device_db, device_key, add, lookup,
}
use zigbee_go_home.Coordinator.Decoders.Tuya.{Dp, number, meaning, all_bytes}
use zigbee_go_home.Coordinator.Devices.{
  Device, found, get_key, set_key, cluster_command, property_update, Manager, new_device,
}
use zigbee_go_home.Coordinator.Interview.{is_empty}
use zigbee_go_home.Coordinator.Properties.{
  FloatMath, PropertyMap, get_property, set_all, assign_all, apply_transform,
}
use zigbee_go_home.Coordinator.Reports.{touch, store_updates, handle_cluster_command}
use zigbee_go_home.Coordinator.Reports.Stored.{KeepsNames, last_update, store_updates_content}
use zigbee_go_home.Coordinator.Reports.Tuya.{dp_source, tuya_property_stored}
use zigbee_go_home.Coordinator.Examples.{no_floats}
use zigbee_go_home.Bolt.{get_device, read_device, put_device, update_device}
use zigbee_go_home.Bolt.Laws.{bolt_laws, bolt_update_laws}
use zigbee_go_home.Bolt.Examples.{
  disk, update_disk, disk_laws, disk_update_laws, through_json, small_json_laws, json_values,
}

abbrev maths : FloatMath
maths = record { ops = no_floats; divide = λ a b. a; times = λ a b. a; is_above = λ a b. false }

abbrev thermometer : Device
thermometer = record (new_device 1 7 0x1111) {
  manufacturer = 0x54 ∷ [];
  model = 0x55 ∷ [];
  properties = ((0x68 ∷ []), int64 (pos 40)) ∷ [];
}

abbrev hub : Manager (List (ℕ × Device))
hub = record {
  addr_index = (0x1111, 7) ∷ [];
  store = (7, thermometer) ∷ [];
  interviewing = [];
  last_join = [];
  events = [];
  started = [];
}

abbrev command_source_addr : Source
command_source_addr = record {
  src_addr = 0x1111;
  src_ep = 1;
  cluster_id = 0xef00;
  lqi = 90;
  rssi = pos 0;
}

abbrev temperature_dp : Dp
temperature_dp = record { id = 1; value = number 215 }

abbrev definition : DeviceDefinition
definition = record {
  manufacturer = 0x54 ∷ [];
  model = 0x55 ∷ [];
  friendly_name = [];
  bind = [];
  reporting = [];
  properties = dp_source 0xef00 0 (0x74 ∷ []) 1 [] ∷ [];
}

abbrev db : DeviceDb
db = add definition new_device_db

-- The humidity of 40 is a float once it has been stored.
abbrev touched : Device
touched = through_json (touch 9 command_source_addr thermometer)

abbrev touched_store : List (ℕ × Device)
touched_store = set_key 7 touched hub.store

is_touched : update_disk 7 (touch 9 command_source_addr) hub.store ≡ some touched_store
unfolding update_device get_device read_device put_device get_key touch
is_touched = refl

is_read : disk.get_device 7 touched_store ≡ found touched
unfolding get_device read_device get_key set_key touch
is_read = refl

named : (is_empty touched.manufacturer ≡ false) × (is_empty touched.model ≡ false)
unfolding touch
named = (refl, refl)

defined : lookup touched.manufacturer touched.model db ≡ some definition
unfolding lookup add device_key same touch
defined = refl

abbrev with_temperature : PropertyMap → Device → Device
with_temperature kept d = record d {
  properties =
      set_all
        (assign_all (((0x74 ∷ []), apply_transform maths [] (meaning temperature_dp.value)) ∷ [])
          kept)
        d.properties;
}

abbrev after_write : List (ℕ × Device)
after_write = set_key 7 (through_json (with_temperature touched.properties touched)) touched_store

is_written : update_disk 7 (with_temperature touched.properties) touched_store ≡ some after_write
unfolding update_device get_device read_device put_device get_key set_key touch
is_written = refl

keeps_names :
    KeepsNames disk_laws.rereading.text (with_temperature touched.properties touched).properties
unfolding bolt_laws small_json_laws set_all assign_all touch json_values
keeps_names = (refl, (refl, (refl, tt)))

abbrev payload : List ℕ
payload = 0 ∷ 1 ∷ all_bytes ([] ++ (temperature_dp ∷ []))

abbrev after_command : Manager (List (ℕ × Device))
after_command = handle_cluster_command disk update_disk maths db 9 command_source_addr 1 payload hub

indexed : get_key 0x1111 hub.addr_index ≡ some 7
unfolding get_key
indexed = refl

tuya_property_stored_example :
    (e : Device) × (disk_laws.content after_command.store 7 ≡ some e)
    × (get_property (0x74 ∷ []) e.properties
        ≡ some (disk_laws.rereading.value (apply_transform maths [] (meaning (number 215)))))
    × (after_command.events
        ≡ ([] ++ (cluster_command (some 7) 0x1111 1 0xef00 1 payload ∷ []))
          ++ (property_update 7 (0x74 ∷ []) (apply_transform maths [] (meaning (number 215))) ∷ []))
unfolding bolt_update_laws
tuya_property_stored_example =
    tuya_property_stored disk update_disk disk_update_laws maths db 9 command_source_addr 1 0 1
      temperature_dp [] [] 7 0 (0x74 ∷ []) [] touched definition hub touched_store after_write
      (omega arith, tt) tt indexed is_touched is_read named.0 named.1 defined refl is_written
      keeps_names

-- The handler read a humidity of 40; by now the store has 55, and the update is of another name.
abbrev newer : Device
newer = record thermometer { properties = ((0x68 ∷ []), int64 (pos 55)) ∷ [] }

abbrev raced : Manager (List (ℕ × Device))
raced = record hub { store = (7, newer) ∷ [] }

abbrev overlay : Device → Device
overlay d = record d {
  properties =
      set_all (assign_all (((0x74 ∷ []), int64 (pos 215)) ∷ []) thermometer.properties)
        d.properties;
}

abbrev overlaid : List (ℕ × Device)
overlaid = set_key 7 (through_json (overlay newer)) raced.store

is_overlaid : update_disk 7 overlay raced.store ≡ some overlaid
unfolding update_device get_device read_device put_device get_key
is_overlaid = refl

is_stored : disk_laws.content raced.store 7 ≡ some newer
unfolding bolt_laws get_key
is_stored = refl

overlay_names : KeepsNames disk_laws.rereading.text (overlay newer).properties
unfolding bolt_laws small_json_laws set_all assign_all
overlay_names = (refl, (refl, (refl, tt)))

store_updates_content_example :
    (e : Device) × (disk_laws.content
        (store_updates disk update_disk 7 thermometer
          (((0x74 ∷ []), int64 (pos 215)) ∷ [])
          raced).store
        7
      ≡ some e)
    × ((x : Text)
        → get_property x e.properties
          ≡ map_option disk_laws.rereading.value (
              or_else (last_update x (((0x74 ∷ []), int64 (pos 215)) ∷ [])) (
                or_else (get_property x thermometer.properties) (get_property x newer.properties))))
unfolding bolt_update_laws
store_updates_content_example =
    store_updates_content disk update_disk disk_update_laws 7 thermometer newer
      ((0x74 ∷ []), int64 (pos 215)) [] raced overlaid is_overlaid is_stored overlay_names

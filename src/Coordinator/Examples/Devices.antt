-- ===== src/Coordinator/Examples/Devices.antt =====
-- Runs of the device manager over a small store.
use zigbee_go_home.Base.{
  ℕ, ◌+◌, ◌*◌, ◌≡◌, ◌≢◌, refl, true, List, [], ◌∷◌, ◌++◌, Option, none, some, arith,
}
use zigbee_go_home.Bolt.{get_device, read_device, save_device, put_device, delete_device}
use zigbee_go_home.Bolt.Laws.{bolt_laws}
use zigbee_go_home.Bolt.Examples.{disk, disk_laws, through_json}
use zigbee_go_home.Coordinator.Devices.{
  Device, Found, found, not_found, get_failed, get_key, set_key, remove_key, device_left,
  device_joined, Manager, new_device, second, handle_join, handle_leave, handle_announce,
}
use zigbee_go_home.Coordinator.Devices.Announce.{Step, join, announce}
use zigbee_go_home.Coordinator.Devices.Index.{IsOnce}
use zigbee_go_home.Coordinator.Devices.Lifecycle.{
  IsReread, rejoined, handle_join_stores, handle_leave_forgets, handle_leave_stale,
}

unfoldable pub as_found : Option Device → Found
as_found none = not_found
as_found (some d) = found d

-- A plug that has been interviewed, and left its address 0x1111.
abbrev pub plug : Device
plug = record (new_device 1 7 0x1111) { model = 0x54 ∷ []; interviewed = true }

abbrev home : Manager (List (ℕ × Device))
home = record {
  addr_index = (0x1111, 7) ∷ (0x2222, 8) ∷ [];
  store = (7, plug) ∷ (8, new_device 2 8 0x2222) ∷ [];
  interviewing = [];
  last_join = [];
  events = [];
  started = [];
}

reads_plug : disk.get_device 7 home.store ≡ found plug
unfolding get_device read_device get_key
reads_plug = refl

not_failed : disk.get_device 7 home.store ≢ get_failed
not_failed = λ e. cc (reads_plug, e)

keyed : (d : Device) → disk_laws.content home.store 7 ≡ some d → d.ieee_address ≡ 7
unfolding bolt_laws get_key
keyed d e = ground arith

abbrev after_join : Manager (List (ℕ × Device))
after_join = handle_join disk 5 7 0x1234 home

abbrev rejoined_plug : Device
rejoined_plug = rejoined 5 7 0x1234 (disk_laws.content home.store 7)

abbrev saved_plug : List (ℕ × Device)
saved_plug = set_key 7 (through_json (rejoined 5 7 0x1234 (some plug))) home.store

is_saved : disk.save_device rejoined_plug home.store ≡ some saved_plug
unfolding save_device put_device bolt_laws get_key rejoined
is_saved = refl

handle_join_stores_example :
    ((e : Device) × (disk_laws.content after_join.store 7 ≡ some e)
      × IsReread disk_laws.rereading.text disk_laws.rereading.value rejoined_plug e)
    × (disk_laws.content after_join.store 8 ≡ disk_laws.content home.store 8)
    × (after_join.events ≡ [] ++ (device_joined 7 0x1234 ∷ []))
    × (get_key 0x1234 after_join.addr_index ≡ some 7)
    × (get_key 0x2222 after_join.addr_index ≡ get_key 0x2222 home.addr_index)
handle_join_stores_example =
    handle_join_stores disk disk_laws 5 7 0x1234 8 0x2222 home saved_plug keyed not_failed is_saved
      (omega arith) (omega arith)

once : IsOnce 7 home.addr_index
once = ((λ e. (omega arith, tt)), ((λ e. tt), tt))

is_deleted : disk.delete_device 7 home.store ≡ some (remove_key 7 home.store)
unfolding delete_device
is_deleted = refl

handle_leave_forgets_example :
    (disk_laws.content (handle_leave disk 7 home).store 7 ≡ none)
    × (disk_laws.content (handle_leave disk 7 home).store 8 ≡ disk_laws.content home.store 8)
    × (get_key 0x1111 (handle_leave disk 7 home).addr_index ≢ some 7)
    × ((handle_leave disk 7 home).events ≡ [] ++ (device_left 7 ∷ []))
handle_leave_forgets_example =
    handle_leave_forgets disk disk_laws 7 8 0x1111 home (remove_key 7 home.store) is_deleted once
      (omega arith)

handle_leave_stale_example :
    (stale : ℕ) × (get_key stale
        (handle_leave disk 7
          (handle_join disk 9 7 0x2000 (handle_join disk 5 7 0x1000 home))).addr_index
      ≡ some 7)
handle_leave_stale_example = handle_leave_stale disk 5 9 7 0x1000 0x2000 home (omega arith)

abbrev announced : Manager (List (ℕ × Device))
announced = handle_announce disk 5 7 0x1234 home

-- Another device announces itself, and the plug again after two seconds.
abbrev meanwhile : List Step
meanwhile =
    announce (5 + second) 8 0x2222
    ∷ join (5 + second) 7 0x1235
    ∷ announce (5 + 2 * second) 7 0x1235
    ∷ []

-- The index is empty, as after a start.
abbrev restarted : Manager (List (ℕ × Device))
restarted = record home { addr_index = [] }

index_empty : get_key plug.short_address restarted.addr_index ≡ none
unfolding get_key
index_empty = refl

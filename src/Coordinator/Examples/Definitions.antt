-- ===== src/Coordinator/Examples/Definitions.antt =====
-- Cluster definitions and device definitions on concrete input.
use zigbee_go_home.Base.{ℕ, ◌≡◌, ◌≢◌, [], List, ◌∷◌, none, some, All, arith}
use zigbee_go_home.Base.Texts.{Text}
use zigbee_go_home.Zcl.Clusters.{AttributeDef, ClusterDef, new_registry}
use zigbee_go_home.Zcl.Clusters.Merge.{
  register_all, first_defined, registered_attribute, register_all_first,
}
use zigbee_go_home.Coordinator.DeviceDb.{
  DeviceDefinition, FileContent, malformed, parsed, lookup, load_device_dir, of_group,
}
use zigbee_go_home.Coordinator.DeviceDb.Load.{
  definitions, last_definition, first_error, load_device_dir_last, group_definitions,
}

abbrev attribute : ℕ → Text → AttributeDef
attribute id name = record { id = id; name = name; data_type = 0x20; access = 1 }

-- A standard cluster, and an overlay that names attribute 0 anew and adds attribute 0x4000.
abbrev basic : ClusterDef
basic = record {
  id = 0;
  name = 0x42 ∷ [];
  attributes = attribute 0 (0x5a ∷ []) ∷ [];
  commands = record { id = 0; name = 0x52 ∷ []; direction = 1 ∷ [] } ∷ [];
}

abbrev overlay : ClusterDef
overlay = record {
  id = 0;
  name = [];
  attributes = attribute 0 (0x59 ∷ []) ∷ attribute 0x4000 (0x53 ∷ []) ∷ [];
  commands = [];
}

register_all_first_example :
    registered_attribute 0 0 (register_all (basic ∷ overlay ∷ []) new_registry)
    ≡ first_defined 0 0 (basic ∷ overlay ∷ [])
register_all_first_example = register_all_first 0 0 (basic ∷ overlay ∷ [])

abbrev sensor : Text → ℕ → DeviceDefinition
sensor friendly_name cluster = record {
  manufacturer = 0x4c ∷ [];
  model = 0x57 ∷ [];
  friendly_name = friendly_name;
  bind = cluster ∷ [];
  reporting = [];
  properties = [];
}

-- The sensor is defined by itself and again in a group; then a file cannot be parsed.
abbrev files : List FileContent
files =
    parsed (record {
      clusters = overlay ∷ [];
      devices = sensor (0x61 ∷ []) 6 ∷ [];
      manufacturers = record { name = 0x4c ∷ []; models = sensor (0x62 ∷ []) 8 ∷ [] } ∷ [];
    })
    ∷ malformed
    ∷ []

files_plain : All (λ d. All (λ b. b ≢ 0) d.manufacturer) (definitions files)
unfolding definitions group_definitions of_group
files_plain = ((λ e. omega (arith, e), tt), ((λ e. omega (arith, e), tt), tt))

load_device_dir_last_example :
    (lookup (0x4c ∷ []) (0x57 ∷ []) (load_device_dir (some files) new_registry).db
      ≡ last_definition (0x4c ∷ []) (0x57 ∷ []) none (definitions files))
    × ((load_device_dir (some files) new_registry).error ≡ first_error files)
load_device_dir_last_example =
    load_device_dir_last files new_registry (0x4c ∷ []) (0x57 ∷ []) (λ e. omega (arith, e), tt)
      files_plain

-- ===== src/Coordinator/DeviceDb.antt =====
-- internal/coordinator/devicedb.go: device definitions by manufacturer and model, and the files
-- that they are loaded from. The path pattern, the reads and encoding/json are not under src/:
-- a file stands for what they return.
pub mod Load
use zigbee_go_home.Base.{
  ℕ, Bool, true, false, List, [], ◌∷◌, ◌++◌, if◌then◌else◌, Option, none, some,
}
use zigbee_go_home.Base.Int.{ℤ}
use zigbee_go_home.Base.Texts.{Text, same}
use zigbee_go_home.Zcl.Clusters.{ClusterDef, Registry, register}

pub record PropertyDef : Type 0 where
  pub tag : ℤ
  pub name : Text
  pub transform : Text

pub record PropertySource : Type 0 where
  pub cluster : ℕ
  pub attribute : ℕ
  pub decoder : Text
  pub values : List PropertyDef

pub record ReportingEntry : Type 0 where
  pub cluster : ℕ
  pub attribute : ℕ
  pub data_type : ℕ
  pub min_interval : ℕ
  pub max_interval : ℕ
  pub change : ℤ

pub record DeviceDefinition : Type 0 where
  pub manufacturer : Text
  pub model : Text
  pub friendly_name : Text
  pub bind : List ℕ
  pub reporting : List ReportingEntry
  pub properties : List PropertySource

pub record ManufacturerGroup : Type 0 where
  pub name : Text
  pub models : List DeviceDefinition

pub record DeviceFile : Type 0 where
  pub clusters : List ClusterDef
  pub devices : List DeviceDefinition
  pub manufacturers : List ManufacturerGroup

-- `manufacturer + "\x00" + model`
unfoldable pub device_key : Text → Text → Text
device_key manufacturer model = manufacturer ++ (0 ∷ model)

-- The map of definitions.
abbrev pub DeviceDb : Type 0
DeviceDb = Text → Option DeviceDefinition

abbrev pub new_device_db : DeviceDb
new_device_db key = none

unfoldable pub add : DeviceDefinition → DeviceDb → DeviceDb
add def db key = if same (device_key def.manufacturer def.model) key then some def else db key

unfoldable pub lookup : Text → Text → DeviceDb → Option DeviceDefinition
lookup manufacturer model db = db (device_key manufacturer model)

-- What `os.ReadFile` and `json.Unmarshal` make of a path.
pub data FileContent : Type 0 where
  unreadable malformed : FileContent
  parsed : DeviceFile → FileContent

pub data LoadError : Type 0 where
  glob_failed read_failed parse_failed : LoadError

unfoldable pub add_all : List DeviceDefinition → DeviceDb → DeviceDb
add_all [] db = db
add_all (d ∷ ds) db = add_all ds (add d db)

-- `d.Manufacturer = mg.Name`
unfoldable pub of_group : Text → List DeviceDefinition → List DeviceDefinition
of_group name [] = []
of_group name (d ∷ ds) = record d { manufacturer = name } ∷ of_group name ds

unfoldable pub add_groups : List ManufacturerGroup → DeviceDb → DeviceDb
add_groups [] db = db
add_groups (g ∷ gs) db = add_groups gs (add_all (of_group g.name g.models) db)

unfoldable pub register_clusters : List ClusterDef → Registry → Registry
register_clusters [] r = r
register_clusters (c ∷ cs) r = register_clusters cs (register c r)

-- The database so far, the registry and the error, if a file has one.
pub record Loaded : Type 0 where
  pub db : DeviceDb
  pub registry : Registry
  pub error : Option LoadError

unfoldable pub load_files : List FileContent → DeviceDb → Registry → Loaded
load_files [] db r = record { db = db; registry = r; error = none }
load_files (unreadable ∷ files) db r = record { db = db; registry = r; error = some read_failed }
load_files (malformed ∷ files) db r = record { db = db; registry = r; error = some parse_failed }
load_files (parsed f ∷ files) db r =
    load_files files (add_groups f.manufacturers (add_all f.devices db))
      (register_clusters f.clusters r)

-- `LoadDeviceDir`; `none` is an error of `filepath.Glob`.
unfoldable pub load_device_dir : Option (List FileContent) → Registry → Loaded
load_device_dir none r = record { db = new_device_db; registry = r; error = some glob_failed }
load_device_dir (some files) r = load_files files new_device_db r

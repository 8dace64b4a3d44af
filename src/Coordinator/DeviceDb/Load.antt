-- ===== src/Coordinator/DeviceDb/Load.antt =====
-- The database that the files are loaded into answers with the last definition of a device.
use zigbee_go_home.Base.{
  ◌≡◌, ◌≢◌, refl, ap, ◌∙◌, sym, ◌&&◌, List, [], ◌∷◌, ◌++◌, if◌then◌else◌, Option, none, some, All,
  arith,
}
use zigbee_go_home.Base.Texts.{Text, same}
use zigbee_go_home.Zcl.Clusters.{Registry}
use zigbee_go_home.Coordinator.DeviceDb.{
  DeviceDefinition, ManufacturerGroup, DeviceDb, new_device_db, device_key, add, lookup,
  FileContent, unreadable, malformed, parsed, LoadError, read_failed, parse_failed, add_all,
  of_group, add_groups, load_files, load_device_dir,
}

-- A string without the byte that separates the parts of a key.
abbrev pub IsPlain : Text → Type 0
IsPlain text = All (λ b. b ≢ 0) text

-- Keys are compared part by part, if manufacturers have no NUL byte.
same-device_key :
    (m n x y : Text)
    → IsPlain m
    → IsPlain n
    → same (device_key m x) (device_key n y) ≡ (same m n && same x y)
unfolding device_key same
same-device_key [] [] x y p q = ground arith
same-device_key [] (b ∷ n) x y p q = ground (arith, q.0)
same-device_key (a ∷ m) [] x y p q = ground (arith, p.0)
same-device_key (a ∷ m) (b ∷ n) x y p q = ground (arith, same-device_key m n x y p.1 q.1)

-- The definitions of the files up to the first that cannot be read or parsed, in order.
unfoldable pub group_definitions : List ManufacturerGroup → List DeviceDefinition
group_definitions [] = []
group_definitions (g ∷ gs) = of_group g.name g.models ++ group_definitions gs

unfoldable pub definitions : List FileContent → List DeviceDefinition
definitions (parsed f ∷ files) =
    f.devices ++ (group_definitions f.manufacturers ++ definitions files)
definitions _ = []

-- The last definition for a manufacturer and a model, or else a default.
unfoldable pub last_definition :
    Text → Text → Option DeviceDefinition → List DeviceDefinition → Option DeviceDefinition
last_definition m x found [] = found
last_definition m x found (d ∷ ds) =
    last_definition m x (if same d.manufacturer m && same d.model x then some d else found) ds

add_all-append :
    (ds es : List DeviceDefinition) (db : DeviceDb)
    → add_all (ds ++ es) db ≡ add_all es (add_all ds db)
unfolding add_all
add_all-append [] es db = refl
add_all-append (d ∷ ds) es db = add_all-append ds es (add d db)

add_groups-add_all :
    (gs : List ManufacturerGroup) (db : DeviceDb)
    → add_groups gs db ≡ add_all (group_definitions gs) db
unfolding add_groups group_definitions add_all
add_groups-add_all [] db = refl
add_groups-add_all (g ∷ gs) db =
    add_groups-add_all gs (add_all (of_group g.name g.models) db)
    ∙ sym (add_all-append (of_group g.name g.models) (group_definitions gs) db)

load_files-add_all :
    (files : List FileContent) (db : DeviceDb) (r : Registry)
    → (load_files files db r).db ≡ add_all (definitions files) db
unfolding load_files definitions add_all
load_files-add_all [] db r = refl
load_files-add_all (unreadable ∷ files) db r = refl
load_files-add_all (malformed ∷ files) db r = refl
load_files-add_all (parsed f ∷ files) db r =
    load_files-add_all files _ _
    ∙ ap (add_all (definitions files)) (add_groups-add_all f.manufacturers (add_all f.devices db))
    ∙ sym (
        add_all-append f.devices (group_definitions f.manufacturers ++ definitions files) db
        ∙ add_all-append (group_definitions f.manufacturers) (definitions files)
            (add_all f.devices db))

lookup-add_all :
    (m x : Text) (ds : List DeviceDefinition) (db : DeviceDb)
    → IsPlain m
    → All (λ d. IsPlain d.manufacturer) ds
    → lookup m x (add_all ds db) ≡ last_definition m x (lookup m x db) ds
unfolding add_all add lookup last_definition
lookup-add_all m x [] db plain h = refl
lookup-add_all m x (d ∷ ds) db plain h =
    lookup-add_all m x ds (add d db) plain h.1
    ∙ rw (same-device_key d.manufacturer m d.model x h.0 plain) refl

-- Whether a file of the list cannot be read or parsed, and how the first one fails.
unfoldable pub first_error : List FileContent → Option LoadError
first_error [] = none
first_error (unreadable ∷ files) = some read_failed
first_error (malformed ∷ files) = some parse_failed
first_error (parsed f ∷ files) = first_error files

load_files-error :
    (files : List FileContent) (db : DeviceDb) (r : Registry)
    → (load_files files db r).error ≡ first_error files
unfolding load_files first_error
load_files-error [] db r = refl
load_files-error (unreadable ∷ files) db r = refl
load_files-error (malformed ∷ files) db r = refl
load_files-error (parsed f ∷ files) db r = load_files-error files _ _

-- After `LoadDeviceDir`, a device is looked up as the last definition of its manufacturer and model
-- in the files up to the first that fails, devices before groups in each file, if no manufacturer
-- has a NUL byte; and the error is that of the first file that fails.
pub load_device_dir_last :
    (files : List FileContent) (r : Registry) (m x : Text)
    → IsPlain m
    → All (λ d. IsPlain d.manufacturer) (definitions files)
    → (lookup m x (load_device_dir (some files) r).db
        ≡ last_definition m x none (definitions files))
      × ((load_device_dir (some files) r).error ≡ first_error files)
unfolding load_device_dir lookup
load_device_dir_last files r m x plain h = (
  ap (lookup m x) (load_files-add_all files new_device_db r)
      ∙ lookup-add_all m x (definitions files) new_device_db plain h,
  load_files-error files new_device_db r,
)

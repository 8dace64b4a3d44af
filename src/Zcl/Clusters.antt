-- ===== src/Zcl/Clusters.antt =====
-- internal/zcl/cluster.go and registry.go: definitions of clusters, their look-up and merge, and the
-- registry, a map from the cluster id. `DeepCopy` copies a value that the model does not share.
pub mod Merge
use zigbee_go_home.Base.{
  ℕ, Bool, true, false, not, ◌&&◌, List, [], ◌∷◌, ◌++◌, ◌==◌, if◌then◌else◌, bit_and, Option, none,
  some,
}
use zigbee_go_home.Base.Texts.{Text, same}

pub record AttributeDef : Type 0 where
  pub id : ℕ
  pub name : Text
  pub data_type : ℕ
  pub access : ℕ

unfoldable pub is_readable : AttributeDef → Bool
is_readable a = not (bit_and a.access 0x01 == 0)

unfoldable pub is_writable : AttributeDef → Bool
is_writable a = not (bit_and a.access 0x02 == 0)

unfoldable pub is_reportable : AttributeDef → Bool
is_reportable a = not (bit_and a.access 0x04 == 0)

pub record CommandDef : Type 0 where
  pub id : ℕ
  pub name : Text
  pub direction : Text

pub record ClusterDef : Type 0 where
  pub id : ℕ
  pub name : Text
  pub attributes : List AttributeDef
  pub commands : List CommandDef

-- The first entry that passes a test.
unfoldable pub find {ℓ} : {A : Type ℓ} → (A → Bool) → List A → Option A
find p [] = none
find p (x ∷ xs) = let rest = find p xs in if p x then some x else rest

abbrev pub has_id : ℕ → AttributeDef → Bool
has_id id a = a.id == id

abbrev pub has_key : ℕ → Text → CommandDef → Bool
has_key id direction c = (c.id == id) && same c.direction direction

unfoldable pub find_attribute : ℕ → ClusterDef → Option AttributeDef
find_attribute id c = find (has_id id) c.attributes

unfoldable pub find_command : ℕ → Text → ClusterDef → Option CommandDef
find_command id direction c = find (has_key id direction) c.commands

-- One loop of `Merge`: `test x` looks for an entry with the key of `x`.
unfoldable pub add_missing {ℓ} : {A : Type ℓ} → (A → A → Bool) → List A → List A → List A
add_missing test [] current = current
add_missing test (x ∷ xs) current =
    let kept = add_missing test xs current in
    let added = add_missing test xs (current ++ (x ∷ [])) in
    elim (find (test x) current) [ none ↦ added | some y ↦ kept ]

unfoldable pub merge : ClusterDef → ClusterDef → ClusterDef
merge c other = record c {
  attributes = add_missing (λ a. has_id a.id) other.attributes c.attributes;
  commands = add_missing (λ d. has_key d.id d.direction) other.commands c.commands;
}

abbrev pub Registry : Type 0
Registry = ℕ → Option ClusterDef

abbrev pub new_registry : Registry
new_registry id = none

-- What the registry holds under the id of `c` after `c` is registered.
unfoldable pub registered : ClusterDef → Option ClusterDef → Option ClusterDef
registered c none = some c
registered c (some existing) = some (merge existing c)

unfoldable pub register : ClusterDef → Registry → Registry
register c r id = if c.id == id then registered c (r id) else r id

unfoldable pub get : ℕ → Registry → Option ClusterDef
get id r = r id

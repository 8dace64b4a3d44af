-- ===== src/Coordinator/Reports/Tuya.antt =====
-- A Tuya data point on its way from the device's command to the store.
use zigbee_go_home.Base.{
  ℕ, ◌≡◌, ◌≢◌, refl, ap, ◌∙◌, false, List, [], ◌∷◌, ◌++◌, ==_iff, Option, some, All, arith,
}
use zigbee_go_home.Base.Bytes.{Bytes}
use zigbee_go_home.Base.Int.{ℤ, pos}
use zigbee_go_home.Base.Texts.{Text, same_refl}
use zigbee_go_home.Zcl.Value.{Value}
use zigbee_go_home.Ncp.Indication.{Source}
use zigbee_go_home.Coordinator.DeviceDb.{DeviceDb, DeviceDefinition, PropertySource, lookup}
use zigbee_go_home.Coordinator.Decoders.{Assignments, complete, decode_tuya_dps}
use zigbee_go_home.Coordinator.Decoders as Decoders
use zigbee_go_home.Coordinator.Decoders.Tuya.{
  Dp, meaning, all_bytes, IsDp, decode_tuya_dps-all_bytes,
}
use zigbee_go_home.Coordinator.Devices.{
  Device, found, Store, get_key, cluster_command, property_update, Manager, lookup_or_rebuild,
}
use zigbee_go_home.Coordinator.Interview.{is_empty}
use zigbee_go_home.Coordinator.Properties.{
  FloatMath, PropertyMap, tag_value, get_property, property_updates, property_values,
  command_source, apply_transform, tuya_dp_name, set_all, assign_all,
}
use zigbee_go_home.Coordinator.Reports.Stored.{
  UpdateLaws, KeepsNames, last_update, update_stored_lem, store_updates_content, updates_emitted,
}
use zigbee_go_home.Coordinator.Reports.{
  touch, update_stored, store_updates, process_properties, command_known, handle_cluster_command,
}

command_source_lem :
    (cluster : ℕ) (payload : Bytes) (ps : PropertySource) (result : Assignments)
    → ps.cluster ≡ cluster
    → ps.decoder ≡ tuya_dp_name
    → decode_tuya_dps payload ≡ complete result
    → command_source cluster payload ps ≡ some result
unfolding command_source
command_source_lem cluster payload ps result c t e =
    rw (c, t, (==_iff cluster cluster).1 refl, same_refl tuya_dp_name, e) refl

-- The one source of a Tuya device, with one property for a data point.
abbrev pub dp_source : ℕ → ℕ → Text → ℕ → Text → PropertySource
dp_source cluster attribute name tag transform = record {
  cluster = cluster;
  attribute = attribute;
  decoder = tuya_dp_name;
  values = record { tag = pos tag; name = name; transform = transform } ∷ [];
}

property_values_lem :
    (math : FloatMath) (result : Assignments) (tag : ℤ) (name transform : Text) (raw : Value)
    → tag_value tag result ≡ some raw
    → property_values math result (record { tag = tag; name = name; transform = transform } ∷ [])
      ≡ (name, apply_transform math transform raw) ∷ []
unfolding property_values
property_values_lem math result tag name transform raw h = rw (h, property_values) refl

dp_updates :
    (math : FloatMath) (cluster attribute : ℕ) (name transform : Text) (payload : Bytes) (d : Dp)
    (result : Assignments)
    → decode_tuya_dps payload ≡ complete result
    → Decoders.lookup d.id result ≡ some (meaning d.value)
    → property_updates math
        (command_source cluster payload)
        (dp_source cluster attribute name d.id transform ∷ [])
      ≡ (name, apply_transform math transform (meaning d.value)) ∷ []
unfolding property_updates
dp_updates math cluster attribute name transform payload d result e h =
    rw (decodes, property_updates) (rw one_value refl)
  where
    decodes :
        command_source cluster payload (dp_source cluster attribute name d.id transform)
        ≡ some result
    decodes = command_source_lem cluster payload _ result refl refl e

    one_value :
        property_values math result (dp_source cluster attribute name d.id transform).values
        ≡ (name, apply_transform math transform (meaning d.value)) ∷ []
    one_value = property_values_lem math result (pos d.id) name transform (meaning d.value) h

module _ {S : Type 0} (ops : Store S) (update_device : ℕ → (Device → Device) → S → Option S)
    (laws : UpdateLaws ops update_device) where
  command_known_lem :
      (math : FloatMath) (db : DeviceDb) (now : ℕ) (source : Source) (cmd_id : ℕ) (payload : Bytes)
      (ieee : ℕ) (dev : Device) (m : Manager S) (s : S)
      → update_device ieee (touch now source) m.store ≡ some s
      → ops.get_device ieee s ≡ found dev
      → command_known ops update_device math db now source cmd_id payload ieee m
        ≡ process_properties ops update_device math db
            (command_source source.cluster_id payload)
            ieee
            (some dev)
            (record m {
              store = s;
              events =
                  m.events
                  ++ (cluster_command
                        (some ieee)
                        source.src_addr
                        source.src_ep
                        source.cluster_id
                        cmd_id
                        payload
                      ∷ []);
            })
  unfolding command_known
  command_known_lem math db now source cmd_id payload ieee dev m s touched read =
      rw (stored, read) refl
    where
      stored : update_stored ops update_device ieee (touch now source) m ≡ record m { store = s }
      stored = update_stored_lem ops update_device laws ieee (touch now source) m s touched

  lookup_or_rebuild-indexed :
      (short ieee : ℕ) (m : Manager S)
      → get_key short m.addr_index ≡ some ieee
      → lookup_or_rebuild ops short m ≡ (some ieee, m)
  unfolding lookup_or_rebuild
  lookup_or_rebuild-indexed short ieee m e = rw (e, lookup_or_rebuild) refl

  handle_indexed :
      (math : FloatMath) (db : DeviceDb) (now : ℕ) (source : Source) (cmd_id : ℕ) (payload : Bytes)
      (ieee : ℕ) (m : Manager S)
      → get_key source.src_addr m.addr_index ≡ some ieee
      → handle_cluster_command ops update_device math db now source cmd_id payload m
        ≡ command_known ops update_device math db now source cmd_id payload ieee m
  unfolding handle_cluster_command
  handle_indexed math db now source cmd_id payload ieee m e =
      let looked_up = lookup_or_rebuild-indexed source.src_addr ieee m e in
      rw (looked_up, handle_cluster_command)
        (ap (λ r. command_known ops update_device math db now source cmd_id payload ieee r.1)
          looked_up)

  process_one_source :
      (math : FloatMath) (db : DeviceDb) (decode : PropertySource → Option Assignments) (ieee : ℕ)
      (dev : Device) (def : DeviceDefinition) (ps : PropertySource) (us : PropertyMap)
      (m : Manager S)
      → is_empty dev.manufacturer ≡ false
      → is_empty dev.model ≡ false
      → lookup dev.manufacturer dev.model db ≡ some def
      → def.properties ≡ ps ∷ []
      → property_updates math decode (ps ∷ []) ≡ us
      → process_properties ops update_device math db decode ieee (some dev) m
        ≡ store_updates ops update_device ieee dev us m
  unfolding process_properties
  process_one_source math db decode ieee dev def ps us m e1 e2 e3 e4 e5 =
      rw (e1, e2, e3, e4, e5) refl

  module _ (math : FloatMath) (db : DeviceDb) (now : ℕ) (source : Source) (cmd_id : ℕ) where
    -- A Tuya data point reaches the store: a command with well-formed data points, from a device
    -- whose address is in the index and whose definition has one property for one data point, leaves
    -- what the store makes of the transformed value of the last such data point in the stored device
    -- under the property's name, after one event for the command and one for the property, which has
    -- the transformed value itself. The store's three calls must succeed, and it must keep the names.
    pub tuya_property_stored :
        (s0 s1 : ℕ) (d : Dp) (before after : List Dp) (ieee attribute : ℕ) (name transform : Text)
        (dev : Device) (def : DeviceDefinition) (m : Manager S) (s t : S)
        → All IsDp (before ++ (d ∷ after))
        → All (λ e. e.id ≢ d.id) after
        → get_key source.src_addr m.addr_index ≡ some ieee
        → update_device ieee (touch now source) m.store ≡ some s
        → ops.get_device ieee s ≡ found dev
        → is_empty dev.manufacturer ≡ false
        → is_empty dev.model ≡ false
        → lookup dev.manufacturer dev.model db ≡ some def
        → def.properties ≡ dp_source source.cluster_id attribute name d.id transform ∷ []
        → update_device ieee
            (λ d'. record d' {
              properties =
                  set_all
                    (assign_all
                      ((name, apply_transform math transform (meaning d.value)) ∷ [])
                      dev.properties)
                    d'.properties;
            })
            s
          ≡ some t
        → KeepsNames laws.laws.rereading.text (
            set_all
              (assign_all
                ((name, apply_transform math transform (meaning d.value)) ∷ [])
                dev.properties)
              dev.properties)
        → let payload = s0 ∷ s1 ∷ all_bytes (before ++ (d ∷ after)) in
          let end = handle_cluster_command ops update_device math db now source cmd_id payload m in
          let v = apply_transform math transform (meaning d.value) in
          (e : Device) × (laws.laws.content end.store ieee ≡ some e)
          × (get_property name e.properties ≡ some (laws.laws.rereading.value v))
          × (end.events
              ≡ (m.events
                  ++ (cluster_command
                        (some ieee)
                        source.src_addr
                        source.src_ep
                        source.cluster_id
                        cmd_id
                        payload
                      ∷ []))
                ++ (property_update ieee name v ∷ []))
    unfolding last_update
    tuya_property_stored s0 s1 d before after ieee attribute name transform dev def m s t dps last
          index touched read has_manufacturer has_model looked_up one_source written names =
        let payload = s0 ∷ s1 ∷ all_bytes (before ++ (d ∷ after)) in
        let v = apply_transform math transform (meaning d.value) in
        let (result, decoded, value) = decode_tuya_dps-all_bytes s0 s1 d before after dps last in
        let updates =
          dp_updates math source.cluster_id attribute name transform payload d result decoded
            value in
        let told : Manager S = record m {
          store = s;
          events =
              m.events
              ++ (cluster_command (some ieee) source.src_addr source.src_ep source.cluster_id cmd_id
                    payload
                  ∷ []);
        } in
        let whole =
          handle_indexed math db now source cmd_id payload ieee m index
          ∙ command_known_lem math db now source cmd_id payload ieee dev m s touched read
          ∙ process_one_source math db (command_source source.cluster_id payload) ieee dev def _ _
              told has_manufacturer has_model looked_up one_source updates in
        let (e, stored, properties) =
          store_updates_content ops update_device laws ieee dev dev (name, v) [] told t written
            (laws.laws.get_found ieee s dev read) names in
        (
          e,
          ap (λ n. laws.laws.content n.store ieee) whole ∙ stored,
          properties name ∙ ground (arith, same_refl name),
          ap (λ n. n.events) whole ∙ updates_emitted ops update_device laws ieee dev name v told,
        )

-- ===== src/Coordinator/Interview/Untouched.antt =====
-- The attempts of an interview make no call of `UpdateDevice`.
use zigbee_go_home.Base.{
  ℕ, zero, suc, ◌≡◌, refl, ◌∙◌, Bool, true, false, List, [], ◌∷◌, ◌||◌, ◌==◌, if◌then◌else◌, Option,
  none, some, Bool-cases, inl, inr,
}
use zigbee_go_home.Ncp.Zcl.{AttributeResponse}
use zigbee_go_home.Ncp.Commands.Zdo.{SimpleDescriptor}
use zigbee_go_home.Coordinator.Devices.{Device, Endpoint, Found, found, not_found, get_failed}
use zigbee_go_home.Coordinator.DeviceDb.{DeviceDb, DeviceDefinition, ReportingEntry, lookup}
use zigbee_go_home.Coordinator.Interview.{
  World, BindCall, ReportingCall, is_empty, read_store, take_basic, read_basic_attributes,
  has_out_cluster, has_in_cluster, bind_clusters, configure_entries, configure_device, describe,
  read_first, set_friendly_name, inspect, after_failure, after_endpoints, ask_endpoints, attempt,
}

-- What only `UpdateDevice` can change: no other call of the interview does, nor another goroutine
-- meanwhile.
pub record Untouched {W X : Type 0} (world : World W) (f : W → X) : Type 0 where
  pub get_device : (i : ℕ) (w : W) → f (world.get_device i w).1 ≡ f w
  pub active_endpoints : (s : ℕ) (w : W) → f (world.active_endpoints s w).1 ≡ f w
  pub read_attributes : (s ep : ℕ) (w : W) → f (world.read_attributes s ep w).1 ≡ f w
  pub simple_descriptor : (s ep : ℕ) (w : W) → f (world.simple_descriptor s ep w).1 ≡ f w
  pub bind : (c : BindCall) (w : W) → f (world.bind c w) ≡ f w
  pub configure_reporting : (c : ReportingCall) (w : W) → f (world.configure_reporting c w) ≡ f w
  pub wait : (w : W) → f (world.wait w) ≡ f w

module _ {W X : Type 0} (world : World W) (f : W → X) (calls : Untouched world f) where
  -- `f` after a call that gives a value or a device is what it was.
  abbrev AtEnd : W → Device × W → Type 0
  AtEnd w r = f r.1 ≡ f w

  abbrev AtEndOfAttempt : W → Option Device × W → Type 0
  AtEndOfAttempt w r = f r.1 ≡ f w

  abbrev AtEndOfList : W → List Endpoint × W → Type 0
  AtEndOfList w r = f r.1 ≡ f w

  read_store-Untouched : (dev : Device) (w : W) → f (read_store world dev w).1 ≡ f w
  unfolding read_store
  read_store-Untouched dev w = elim (Bool-cases (is_empty dev.manufacturer || is_empty dev.model)) [
    | inl y ↦ rw (y, read_store) (calls.get_device dev.ieee_address w)
    | inr n ↦ rw (n, read_store) refl
  ]

  read_basic_attributes-Untouched :
      (dev : Device) (ep : ℕ) (w : W) → f (read_basic_attributes world dev ep w).1 ≡ f w
  unfolding read_basic_attributes
  read_basic_attributes-Untouched dev ep w =
      after (world.read_attributes dev.short_address ep w)
      ∙ calls.read_attributes dev.short_address ep w
    where
      after :
          (a : Option (List AttributeResponse) × W)
          → AtEnd a.1 (elim a.0 [
            | none ↦ read_store world dev a.1
            | some rs ↦ read_store world (take_basic rs dev) a.1
          ])
      after (none, v) = read_store-Untouched dev v
      after (some rs, v) = read_store-Untouched (take_basic rs dev) v

  bind_clusters-Untouched :
      (dev : Device) (ep : Endpoint) (cs : List ℕ) (w : W)
      → f (bind_clusters world dev ep cs w) ≡ f w
  unfolding bind_clusters
  bind_clusters-Untouched dev ep [] w = refl
  bind_clusters-Untouched dev ep (c ∷ cs) w =
      bind_clusters-Untouched dev ep cs _ ∙ either (has_out_cluster ep c) (calls.bind _ w)
    where
      either : {v : W} (b : Bool) → f v ≡ f w → f (if b then v else w) ≡ f w
      either true e = e
      either false e = refl

  configure_entries-Untouched :
      (dev : Device) (ep : Endpoint) (rs : List ReportingEntry) (w : W)
      → f (configure_entries world dev ep rs w) ≡ f w
  unfolding configure_entries
  configure_entries-Untouched dev ep [] w = refl
  configure_entries-Untouched dev ep (r ∷ rs) w =
      configure_entries-Untouched dev ep rs _
      ∙ either (has_in_cluster ep r.cluster) (calls.configure_reporting _ w)
    where
      either : {v : W} (b : Bool) → f v ≡ f w → f (if b then v else w) ≡ f w
      either true e = e
      either false e = refl

  configure_device-Untouched :
      (dev : Device) (def : DeviceDefinition) (eps : List Endpoint) (w : W)
      → f (configure_device world dev def eps w) ≡ f w
  unfolding configure_device
  configure_device-Untouched dev def [] w = refl
  configure_device-Untouched dev def (ep ∷ eps) w =
      configure_device-Untouched dev def eps _
      ∙ configure_entries-Untouched dev ep def.reporting _
      ∙ bind_clusters-Untouched dev ep def.bind w

  describe-Untouched : (dev : Device) (eps : List ℕ) (w : W) → f (describe world dev eps w).1 ≡ f w
  unfolding describe
  describe-Untouched dev [] w = refl
  describe-Untouched dev (ep ∷ eps) w =
      let answered = calls.simple_descriptor dev.short_address ep w in
      let later = describe-Untouched dev eps (world.simple_descriptor dev.short_address ep w).1 in
      after (world.simple_descriptor dev.short_address ep w).0 (later ∙ answered)
    where
      rest : List Endpoint × W
      rest = describe world dev eps (world.simple_descriptor dev.short_address ep w).1

      after :
          (a : Option SimpleDescriptor)
          → f rest.1 ≡ f w
          → AtEndOfList w (elim a [
            | none ↦ (rest.0, rest.1)
            | some sd ↦ (
              record {
                id = ep;
                profile_id = sd.profile_id;
                device_id = sd.device_id;
                in_clusters = sd.in_clusters;
                out_clusters = sd.out_clusters;
              }
                  ∷ rest.0,
              rest.1,
            )
          ])
      after none e = e
      after (some sd) e = e

  read_first-Untouched :
      (dev : Device) (eps : List ℕ) (w : W) → f (read_first world dev eps w).1 ≡ f w
  unfolding read_first
  read_first-Untouched dev [] w = refl
  read_first-Untouched dev (ep ∷ eps) w = read_basic_attributes-Untouched dev ep w

  inspect-Untouched :
      (db : DeviceDb) (dev : Device) (eps : List ℕ) (w : W) → f (inspect world db dev eps w).1 ≡ f w
  unfolding inspect
  inspect-Untouched db dev eps w =
      after (lookup read.manufacturer read.model db)
      ∙ describe-Untouched named eps (read_first world dev eps w).1
      ∙ read_first-Untouched dev eps w
    where
      read : Device
      read = (read_first world dev eps w).0

      named : Device
      named = set_friendly_name (lookup read.manufacturer read.model db) read

      described : List Endpoint × W
      described = describe world named eps (read_first world dev eps w).1

      complete : Device
      complete = record named { endpoints = described.0 }

      after :
          (def : Option DeviceDefinition)
          → AtEnd described.1 (elim def [
            | none ↦ (complete, described.1)
            | some d ↦ (complete, configure_device world complete d described.0 described.1)
          ])
      after none = refl
      after (some d) = configure_device-Untouched complete d described.0 described.1

  after_failure-Untouched :
      (left : ℕ) (again : W → Option Device × W) (w : W)
      → ((v : W) → f (again v).1 ≡ f v)
      → f (after_failure world left again w).1 ≡ f w
  unfolding after_failure
  after_failure-Untouched left again w h =
      either (world.is_done w) (left == 0) (world.is_done (world.wait w))
    where
      either :
          (a b c : Bool)
          → AtEndOfAttempt w (
              if a
              then (none, w)
              else if b
              then (none, w)
              else if c
              then (none, world.wait w)
              else again (world.wait w))
      either true b c = refl
      either false true c = refl
      either false false true = calls.wait w
      either false false false = h (world.wait w) ∙ calls.wait w

  after_endpoints-Untouched :
      (db : DeviceDb) (dev : Device) (eps : List ℕ) (w : W)
      → f (after_endpoints world db dev eps w).1 ≡ f w
  unfolding after_endpoints
  after_endpoints-Untouched db dev eps w =
      either (world.is_done (inspect world db dev eps w).1) ∙ inspect-Untouched db dev eps w
    where
      either :
          (b : Bool)
          → AtEndOfAttempt (inspect world db dev eps w).1 (
              if b
              then (none, (inspect world db dev eps w).1)
              else (some (inspect world db dev eps w).0, (inspect world db dev eps w).1))
      either true = refl
      either false = refl

  ask_endpoints-Untouched :
      (left : ℕ) (db : DeviceDb) (again : W → Option Device × W) (dev : Device) (w : W)
      → ((v : W) → f (again v).1 ≡ f v)
      → f (ask_endpoints world db left again dev w).1 ≡ f w
  unfolding ask_endpoints
  ask_endpoints-Untouched left db again dev w h =
      after (world.active_endpoints dev.short_address w)
      ∙ calls.active_endpoints dev.short_address w
    where
      after :
          (a : Option (List ℕ) × W)
          → AtEndOfAttempt a.1 (elim a.0 [
            | none ↦ after_failure world left again a.1
            | some eps ↦ after_endpoints world db dev eps a.1
          ])
      after (none, v) = after_failure-Untouched left again v h
      after (some eps, v) = after_endpoints-Untouched db dev eps v

  pub attempt-Untouched :
      (left : ℕ) (db : DeviceDb) (ieee : ℕ) (w : W) → f (attempt world left db ieee w).1 ≡ f w
  unfolding attempt
  attempt-Untouched zero db ieee w = refl
  attempt-Untouched (suc left) db ieee w =
      after (world.get_device ieee w) (attempt-Untouched left db ieee) ∙ calls.get_device ieee w
    where
      after :
          (a : Found × W)
          → ((v : W) → f (attempt world left db ieee v).1 ≡ f v)
          → AtEndOfAttempt a.1 (elim a.0 [
            | found dev ↦ ask_endpoints world db left (attempt world left db ieee) dev a.1
            | not_found ↦ (none, a.1)
            | get_failed ↦ (none, a.1)
          ])
      after (found dev, v) h = ask_endpoints-Untouched left db _ dev v h
      after (not_found, v) h = refl
      after (get_failed, v) h = refl

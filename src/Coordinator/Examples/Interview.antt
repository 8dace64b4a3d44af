-- ===== src/Coordinator/Examples/Interview.antt =====
-- An interview of a plug, over a store in memory.
use zigbee_go_home.Base.{
  ℕ, ◌+◌, ◌≡◌, refl, false, [], ◌∷◌, ◌==◌, if◌then◌else◌, Option, none, some, map_option,
}
use zigbee_go_home.Zcl.Types.{type_size}
use zigbee_go_home.Coordinator.Devices.{Device}
use zigbee_go_home.Coordinator.Interview.{World}
use zigbee_go_home.Bolt.Examples.{through_json}
use zigbee_go_home.Coordinator.Examples.Devices.{as_found, plug}

-- A store in memory, with JSON, and the number of writes to it.
pub record Shelf : Type 0 where
  pub on_shelf : ℕ → Option Device
  pub writes : ℕ

-- A device with one endpoint, which answers at once and leaves its attributes unread.
abbrev quiet : World Shelf
quiet = record {
  get_device = λ i w. (as_found (w.on_shelf i), w);
  active_endpoints = λ short w. (some (1 ∷ []), w);
  read_attributes = λ short ep w. (none, w);
  simple_descriptor = λ short ep w. (
    some (record {
      endpoint = 1;
      profile_id = 0x0104;
      device_id = 0x0051;
      in_clusters = 6 ∷ [];
      out_clusters = [];
    }),
    w,
  );
  bind = λ call w. w;
  configure_reporting = λ call w. w;
  wait = λ w. w;
  is_done = λ w. false;
  update_device = λ i f w. record {
    on_shelf =
        λ j. if i == j then map_option (λ d. through_json (f d)) (w.on_shelf j) else w.on_shelf j;
    writes = w.writes + 1;
  };
  local_ieee = 1;
}

abbrev shelf : Shelf
shelf = record { on_shelf = λ i. if i == 7 then some plug else none; writes = 0 }

three_bytes : type_size 0x22 ≡ some 3
unfolding type_size
three_bytes = refl

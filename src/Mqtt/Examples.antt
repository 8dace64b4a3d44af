-- ===== src/Mqtt/Examples.antt =====
-- A thermometer with a name that is unfit for a topic, which is announced, reports and leaves.
use zigbee_go_home.Base.{ℕ, ◌≤◌, ◌≡◌, refl, true, false, arith, [], ◌∷◌, length, All, none, some}
use zigbee_go_home.Base.Int.{pos}
use zigbee_go_home.Base.Texts.{ascii, same}
use zigbee_go_home.Zcl.Value.{float64, is_below_zero, uint8, int64, string}
use zigbee_go_home.Coordinator.Devices.{Device, new_device, get_key, set_key, remove_key, member}
use zigbee_go_home.Coordinator.Properties.{get_property}
use zigbee_go_home.Mqtt.Bridge.Commands.{
  CommandOps, Sender, level_of, handle_command, handle_command_refused,
}
use zigbee_go_home.Mqtt.Bridge.Levels.{level_of_at_most}
use zigbee_go_home.Mqtt.Discovery.{
  RuneOps, device_topic_name, build_discovery, build_remove_discovery, removals, config_topic,
  device_identifier, chosen, candidates, has_cluster, safe_rune,
}
use zigbee_go_home.Mqtt.Bridge.{
  empty, Bridge, BridgeOps, cached_topic_name, publications, map_attribute_to_property,
  update_and_publish_state, state_topic, publish_device_discovery, handle_property_update,
  handle_attribute_report, handle_device_left,
}
use zigbee_go_home.Mqtt.Bridge.Departure.{retained, handle_device_left_clears}

-- Names of bytes that are lower-case ASCII already.
abbrev plain_runes : RuneOps
plain_runes = record { lower_runes = λ bs. bs }

abbrev plain : BridgeOps
plain = record { runes = plain_runes; format_time = λ n. ascii "t" }

abbrev thermometer : Device
thermometer = record (new_device 7 0x00158d0001a2b3c4 0x1a2b) {
  friendly_name = ascii "attic/+ #1";
  interviewed = true;
  endpoints =
      record {
        id = 1;
        profile_id = 0x0104;
        device_id = 0x0302;
        in_clusters = 0x0000 ∷ 0x0001 ∷ 0x0402 ∷ [];
        out_clusters = [];
      }
      ∷ [];
}

abbrev quiet : Bridge
quiet = record { prefix = ascii "zigbee"; states = []; topic_names = []; published = [] }

topic_of_thermometer : device_topic_name plain_runes thermometer ≡ ascii "attic____1"
unfolding device_topic_name safe_rune
topic_of_thermometer = refl

-- Temperature, battery and link quality.
thermometer_discovery : length (build_discovery plain_runes thermometer (ascii "zigbee")) ≡ 3
unfolding build_discovery chosen candidates has_cluster member get_property
thermometer_discovery = refl

-- A report of an attribute that has no property publishes nothing.
thermometer_unmapped :
    handle_attribute_report plain 0x00158d0001a2b3c4
      (some thermometer)
      0x0402
      (ascii "MinMeasuredValue")
      (int64 (pos 3))
      quiet
    ≡ quiet
unfolding handle_attribute_report same map_attribute_to_property
thermometer_unmapped = refl

abbrev announced : Bridge
announced =
    handle_property_update plain 0x00158d0001a2b3c4 (some thermometer) (ascii "temperature")
      (int64 (pos 21)) (publish_device_discovery plain thermometer quiet)

thermometer_state :
    (length announced.published ≡ 4)
    × (get_key 0x00158d0001a2b3c4 announced.states
        ≡ some (
            (ascii "last_seen", string (ascii "t"))
            ∷ (ascii "linkquality", uint8 0)
            ∷ (ascii "temperature", int64 (pos 21))
            ∷ []))
    × (get_key 0x00158d0001a2b3c4 announced.topic_names ≡ some (ascii "attic____1"))
unfolding handle_property_update same update_and_publish_state cached_topic_name
    publish_device_discovery publications build_discovery chosen candidates has_cluster member
    get_property get_key set_key remove_key device_topic_name safe_rune
thermometer_state = (refl, refl, refl)

-- The state under the address, from before the thermometer had a name, is another topic.
other_topics :
    (same (state_topic plain 0x00158d0001a2b3c4 (some thermometer) announced) (ascii "zigbee/0")
      ≡ false)
    × All
        (λ m. same m.topic (ascii "zigbee/0") ≡ false)
        (build_remove_discovery (new_device 0 0x00158d0001a2b3c4 0))
unfolding same cached_topic_name handle_property_update update_and_publish_state
    publish_device_discovery get_key set_key remove_key device_topic_name safe_rune
    build_remove_discovery removals config_topic device_identifier
other_topics = (
  refl,
  (refl, (refl, (refl, (refl, (refl, (refl, (refl, (refl, (refl, (refl, (refl, tt))))))))))),
)

handle_device_left_clears_example :
    let after = handle_device_left plain 0x00158d0001a2b3c4 (some thermometer) announced in
    All
      (λ m. retained m.topic after.published ≡ some empty)
      (build_discovery plain_runes thermometer (ascii "zigbee"))
    × (retained (state_topic plain 0x00158d0001a2b3c4 (some thermometer) announced) after.published
        ≡ some empty)
    × (get_key 0x00158d0001a2b3c4 after.states ≡ none)
    × (get_key 0x00158d0001a2b3c4 after.topic_names ≡ none)
    × (retained (ascii "zigbee/0") after.published
        ≡ retained (ascii "zigbee/0") announced.published)
handle_device_left_clears_example =
    handle_device_left_clears plain 0x00158d0001a2b3c4 (some thermometer) announced thermometer
      (ascii "zigbee") (ascii "zigbee/0") refl other_topics.0 other_topics.1

-- JSON with a brightness of 1000.0, and a driver that refuses.
abbrev commands : CommandOps
commands = record {
  bridge = plain;
  floats = record {
    widen = λ f. f;
    narrow = λ f. f;
    of_int = λ i. 0;
    to_uint64_wild = λ f. 0;
    to_int64_wild = λ f. pos 0;
  };
  unmarshal = λ bs. some ((ascii "brightness", float64 0x408f400000000000) ∷ []);
  to_upper = λ t. t;
  to_uint8_wild = λ f. 0;
}

abbrev refusing : Sender ℕ
refusing = record { send = λ c n. (false, n) }

level_of_at_most_example : level_of commands 0x408f400000000000 ≤ 254
level_of_at_most_example = level_of_at_most commands 0x408f400000000000 (omega arith)

-- 127.9 is cut to 127.
level_cut : level_of commands 0x405ff9999999999a ≡ 127
unfolding level_of is_below_zero
level_cut = refl

handle_command_refused_example :
    (handle_command commands refusing thermometer (0x7b ∷ 0x7d ∷ []) (announced, 0)).0 ≡ announced
handle_command_refused_example =
    handle_command_refused commands refusing thermometer (0x7b ∷ 0x7d ∷ []) (announced, 0)
      (λ c n. refl)

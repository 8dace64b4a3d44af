-- ===== src/Ncp/Examples/Commands.antt =====
-- Runs of the network commands on concrete answers of the dongle.
use zigbee_go_home.Base.{
  ℕ, suc, if◌then◌else◌, ◌==◌, ◌+◌, ◌^◌, ◌<◌, ◌≡◌, refl, true, false, List, [], ◌∷◌, ◌++◌, length,
  get_or, some, map_option, arith, ok, drop,
}
use zigbee_go_home.Base.Bytes.{Bytes, le16}
use zigbee_go_home.Base.Int.{negsuc}
use zigbee_go_home.Ncp.Frame.{LlHeader, ll_is_ack}
use zigbee_go_home.Ncp.Zcl.{record_bytes, parse_attribute_reports}
use zigbee_go_home.Ncp.Zcl.Parse.{response_bytes}
use zigbee_go_home.Ncp.Transport.{Ncp, receive, received, parsed, read_result, handle_frame}
use zigbee_go_home.Ncp.Commands.{
  Call, Reply, answered, refused, Dongle, Session, done, NetworkConfig, result_of, request, go_on,
  keep_key, set_nwk_key, form_attempts, form_network, build_simple_desc_payload,
}
use zigbee_go_home.Ncp.Commands.Formation.{formation, form_network_sequence}
use zigbee_go_home.Ncp.Commands.Zdo.{
  NetworkScanResult, SimpleDescriptor, read_clusters, descriptor_of, networks_of,
}
use zigbee_go_home.Ncp.Commands.Descriptors.{descriptor_of-build_simple_desc}
use zigbee_go_home.Ncp.Commands.Scan.{networks_bytes, networks_of-networks_bytes}
use zigbee_go_home.Ncp.Commands.Read.{
  Target, write_attributes, write_attributes_sends, begin_read, response_frame,
  read_attributes_answered,
}
use zigbee_go_home.Ncp.Examples.Requests.{
  temperature, model, both-IsReport, responses, responses-IsResponse, header, idle,
}

abbrev config : NetworkConfig
config = record { channel = 15; pan_id = 0x1a62; ext_pan_id = 1 ∷ 2 ∷ 3 ∷ 4 ∷ 5 ∷ 6 ∷ 7 ∷ 8 ∷ [] }

-- A dongle that refuses the first attempt to form, as it does after a factory reset.
abbrev answers : List Call → Call → Reply
answers [] request = answered []
answers (last ∷ before) request = if last.0 == 0x001b then refused 3 0xc8 else answered []

abbrev dongle : Dongle
dongle = record { answer = answers; is_cancelled = λ sent. false }

abbrev start : Session
start = record {
  sent = [];
  info = record { fw_version = 1; stack_version = []; protocol_version = 1; network_key = [] };
}

abbrev formed : Session
formed = record {
  sent = formation config (9 ∷ 9 ∷ []) 2 [];
  info = record {
    fw_version = 1;
    stack_version = [];
    protocol_version = 1;
    network_key = 9 ∷ 9 ∷ [];
  };
}

forms : form_network config (some (9 ∷ 9 ∷ [])) dongle start ≡ (done tt, formed)
unfolding form_network go_on request result_of keep_key set_nwk_key form_attempts
forms = refl

form_network_sequence_example :
    (key : Bytes) × (tries : ℕ) × (some (9 ∷ 9 ∷ []) ≡ some key)
    × (tries < 3)
    × (formed.sent ≡ formation config key (suc tries) [])
    × (formed.info ≡ record start.info { network_key = key })
form_network_sequence_example =
    form_network_sequence config (some (9 ∷ 9 ∷ [])) dongle start formed forms

-- An on/off light, with the address that the dongle appends.
descriptor_of-build_simple_desc_example :
    descriptor_of (
      build_simple_desc_payload 1 0x0104 0x0100 1 (0 ∷ 6 ∷ 0x0300 ∷ []) (0x0019 ∷ [])
      ++ (0x34 ∷ 0x12 ∷ []))
    ≡ done (record {
      endpoint = 1;
      profile_id = 0x0104;
      device_id = 0x0100;
      in_clusters = 0 ∷ 6 ∷ 0x0300 ∷ [];
      out_clusters = 0x0019 ∷ [];
    })
descriptor_of-build_simple_desc_example =
    descriptor_of-build_simple_desc 1 0x0104 0x0100 1 (0 ∷ 6 ∷ 0x0300 ∷ []) (0x0019 ∷ [])
      (0x34 ∷ 0x12 ∷ []) (omega arith) (omega arith)
      (omega arith, (omega arith, (omega arith, (omega arith, tt))))
      (omega arith, (omega arith, tt))

-- A payload that ends inside the input clusters.
abbrev cut_payload : Bytes
cut_payload = 1 ∷ 4 ∷ 1 ∷ 0 ∷ 1 ∷ 1 ∷ 3 ∷ 1 ∷ 6 ∷ 0 ∷ 8 ∷ []

abbrev cut_descriptor : SimpleDescriptor
cut_descriptor = record {
  endpoint = 1;
  profile_id = 0x0104;
  device_id = 0x0100;
  in_clusters = 6 ∷ [];
  out_clusters = [];
}

cut_read : descriptor_of cut_payload ≡ done cut_descriptor
unfolding descriptor_of read_clusters
cut_read = refl

abbrev neighbour : NetworkScanResult
neighbour = record {
  ext_pan_id = 8 ∷ 7 ∷ 6 ∷ 5 ∷ 4 ∷ 3 ∷ 2 ∷ 1 ∷ [];
  pan_id = 0x1a62;
  update_id = 0;
  channel = 15;
  permit_join = false;
  router_cap = true;
  ed_cap = true;
  stack_profile = 2;
  lqi = 180;
  rssi = negsuc 59;
}

networks_of-networks_bytes_example :
    networks_of ((1 + 1) ∷ (networks_bytes ((0, neighbour) ∷ []) ++ (1 ∷ 2 ∷ []))) ≡ neighbour ∷ []
networks_of-networks_bytes_example =
    networks_of-networks_bytes ((0, neighbour) ∷ []) 1 (1 ∷ 2 ∷ [])
      ((refl, omega arith, omega arith, refl), tt) (omega arith)

abbrev target : Target
target = record { dst_addr = 0x1234; dst_ep = 1; cluster_id = 0x0402 }

few_bytes : length (record_bytes (temperature ∷ model ∷ [])) + 3 < 2 ^ 16
unfolding record_bytes
few_bytes = omega arith

write_attributes_sends_example :
    (le16
        (get_or (write_attributes target (temperature ∷ model ∷ []) idle).1 1 0)
        (get_or (write_attributes target (temperature ∷ model ∷ []) idle).1 2 0)
      ≡ length (drop 24 (write_attributes target (temperature ∷ model ∷ []) idle).1))
    × (le16
          (get_or (write_attributes target (temperature ∷ model ∷ []) idle).1 3 0)
          (get_or (write_attributes target (temperature ∷ model ∷ []) idle).1 4 0)
        ≡ 0x1234)
    × (le16
          (get_or (write_attributes target (temperature ∷ model ∷ []) idle).1 13 0)
          (get_or (write_attributes target (temperature ∷ model ∷ []) idle).1 14 0)
        ≡ 0x0402)
    × (get_or (write_attributes target (temperature ∷ model ∷ []) idle).1 15 0 ≡ 1)
    × (parse_attribute_reports (drop 27 (write_attributes target (temperature ∷ model ∷ []) idle).1)
        ≡ some (temperature ∷ model ∷ []))
write_attributes_sends_example =
    write_attributes_sends target (temperature ∷ model ∷ []) idle (omega arith, omega arith)
      both-IsReport few_bytes

abbrev not_an_ack : LlHeader
not_an_ack = record { size = 60; packet_type = 6; flags = 0xc4 }

is_no_ack : ll_is_ack not_an_ack.flags ≡ false
unfolding ll_is_ack
is_no_ack = refl

few_responses : length (response_bytes responses) + 5 < 2 ^ 16
unfolding response_bytes
few_responses = omega arith

read_attributes_answered_example :
    (m : Ncp) × (handle_frame
        (response_frame not_an_ack 0 header true 0x5f 0x11
          (begin_read target (0 ∷ 7 ∷ []) idle).1
          responses)
        (begin_read target (0 ∷ 7 ∷ []) idle).0
      ≡ ok m)
    × (map_option (λ r. read_result (received r)) (receive (m.zcl_pending.chan 0))
        ≡ some (parsed (some responses)))
read_attributes_answered_example =
    read_attributes_answered target (0 ∷ 7 ∷ []) idle not_an_ack 0 header true 0x5f 0x11 responses
      is_no_ack (omega arith, omega arith) responses-IsResponse few_responses

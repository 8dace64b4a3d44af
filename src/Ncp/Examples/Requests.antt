-- ===== src/Ncp/Examples/Requests.antt =====
-- Runs of the ZCL parsers, the indication handler and the pending requests on concrete input.
use zigbee_go_home.Base.{
  ◌+◌, ℕ, ◌^◌, ◌<◌, ◌≡◌, ◌≢◌, refl, true, false, [], List, ◌∷◌, ◌++◌, map, none, some, inl, inr,
  length, ok, All, arith,
}
use zigbee_go_home.Base.Bytes.{Bytes}
use zigbee_go_home.Ncp.Frame.{ll_is_ack, Frame}
use zigbee_go_home.Ncp.Zcl.{
  fixed, type_size, AttributeResponse, Report, parse_attribute_responses, parse_attribute_reports,
  record_bytes,
}
use zigbee_go_home.Ncp.Zcl.Parse.{
  IsReport, IsResponse, response_bytes, parse_attribute_responses-response_bytes,
}
use zigbee_go_home.Ncp.Zcl.Truncated.{parsers-ne-none, parse_attribute_responses_reads_on}
use zigbee_go_home.Ncp.Indication.{Handlers, reported, emit, zcl_response, handle_apsde_data_ind}
use zigbee_go_home.Ncp.Indication.Reports.{
  ApsHeader, aps_indication, source_of, zcl_header, handle_apsde_data_ind_global,
}
use zigbee_go_home.Ncp.Transport.{
  fresh, Pending, Ncp, register, begin_request, receive, reset_state, Woken, Ready, request_result,
  read_result,
}
use zigbee_go_home.Ncp.Transport.Routing.{IsLive, IsSafe, register-IsLive}
use zigbee_go_home.Ncp.Transport.Loop.{IsOther, is_response}
use zigbee_go_home.Ncp.Transport.Reset.{
  IsRequestError, IsReadEmpty, reset_state_cancels, reset_state_empties_reads,
}

-- A temperature of 23.45 degrees, and a model name.
abbrev pub temperature : Report
temperature = record { attr_id = 0; data_type = 0x29; value = 0x29 ∷ 0x09 ∷ [] }

abbrev pub model : Report
model = record { attr_id = 5; data_type = 0x42; value = 2 ∷ 0x54 ∷ 0x31 ∷ [] }

pub both-IsReport : All IsReport (temperature ∷ model ∷ [])
unfolding type_size
both-IsReport = ((omega arith, refl), ((omega arith, refl), tt))

-- A value, and an attribute that the device does not support.
abbrev pub responses : List AttributeResponse
responses =
    record { attr_id = 0; status = 0; data_type = 0x29; value = 0x29 ∷ 0x09 ∷ [] }
    ∷ record { attr_id = 7; status = 0x86; data_type = 0; value = [] }
    ∷ []

pub responses-IsResponse : All IsResponse responses
unfolding type_size
responses-IsResponse =
    ((omega arith, inl (refl, refl)), ((omega arith, inr (omega arith, refl, refl)), tt))

parse_attribute_responses-response_bytes_example :
    parse_attribute_responses (response_bytes responses) ≡ some responses
parse_attribute_responses-response_bytes_example =
    parse_attribute_responses-response_bytes responses responses-IsResponse

parsers-ne-none_example :
    (parse_attribute_responses (1 ∷ 2 ∷ []) ≢ none) × (parse_attribute_reports (1 ∷ 2 ∷ []) ≢ none)
parsers-ne-none_example = parsers-ne-none (1 ∷ 2 ∷ [])

int16-IsValue : type_size 0x29 ≡ fixed 2
unfolding type_size
int16-IsValue = refl

uint32-IsValue : type_size 0x23 ≡ fixed 4
unfolding type_size
uint32-IsValue = refl

parse_attribute_responses_reads_on_example :
    parse_attribute_responses (4 ∷ 0 ∷ 0 ∷ 0x23 ∷ 1 ∷ 2 ∷ 3 ∷ [])
    ≡ some (
        record { attr_id = 4; status = 0; data_type = 0x23; value = [] }
        ∷ record { attr_id = 0x0201; status = 3; data_type = 0; value = [] }
        ∷ [])
parse_attribute_responses_reads_on_example =
    parse_attribute_responses_reads_on 4 0 0x23 4 1 2 3 uint32-IsValue (omega arith) (omega arith)

abbrev all_handlers : Handlers
all_handlers = record {
  on_joined = true;
  on_left = true;
  on_announce = true;
  on_report = true;
  on_cluster_cmd = true;
  on_nwk_addr_update = true;
  on_reset = true;
}

abbrev pub header : ApsHeader
header = record {
  param_len = 24;
  aps_fc = 0;
  src_addr = 0x1234;
  dst_and_group = (0, 0, 0, 0, 1);
  src_ep = 1;
  cluster_id = 0x0402;
  profile_and_counter = (4, 1, 9);
  macs = (0, 0, 0, 0);
  lqi = 200;
  rssi = 0xc4;
  key_attr = 0;
}

short : length (record_bytes (temperature ∷ model ∷ [])) + 5 < 2 ^ 16
unfolding record_bytes
short = omega arith

handle_apsde_data_ind_global_example :
    (handle_apsde_data_ind all_handlers (
        aps_indication header
          (zcl_header true 0x5f 0x11 9 0x0a ++ record_bytes (temperature ∷ model ∷ [])))
      ≡ map (λ r. emit (reported (source_of header) r)) (temperature ∷ model ∷ []))
    × (handle_apsde_data_ind all_handlers (
          aps_indication header
            (zcl_header true 0x5f 0x11 9 0x01 ++ record_bytes (temperature ∷ model ∷ [])))
        ≡ zcl_response 9 (record_bytes (temperature ∷ model ∷ [])) ∷ [])
handle_apsde_data_ind_global_example =
    handle_apsde_data_ind_global all_handlers header true 0x5f 0x11 9 (temperature ∷ model ∷ [])
      (omega arith, omega arith) both-IsReport short refl

abbrev no_pending {ℓ} : {A : Type ℓ} → Pending A
no_pending = record { entry = λ seq. none; chan = λ c. fresh; next = 0 }

no_pending-IsLive {ℓ} : {A : Type ℓ} → IsLive {A = A} no_pending
no_pending-IsLive = record { made = λ s c e. cc; is_open = λ s c e. refl; own = λ s t c e e'. cc }

abbrev pub idle : Ncp
idle = record {
  hl_tsn = 6;
  zcl_seq = 0;
  ll_pkt_seq_now = 0;
  hl_pending = no_pending;
  zcl_pending = no_pending;
  acks = [];
  reset_ind = false;
  written = [];
  events = [];
  handlers = all_handlers;
}

abbrev response : ℕ → Frame
response tsn = record {
  ll = record { size = 14; packet_type = 6; flags = 0xc4 };
  hl = record {
    version = 0;
    packet_type = 1;
    call_id = 2;
    tsn = tsn;
    status_cat = 0;
    status_code = 0;
  };
  payload = [];
}

others_first : All (IsOther (begin_request idle).1) (response 3 ∷ [])
unfolding begin_request ll_is_ack
others_first = (refl, tt)

own_response : is_response (response 7) ≡ true
unfolding ll_is_ack
own_response = refl

tsn_is : (response 7).hl.tsn ≡ (begin_request idle).1
unfolding begin_request
tsn_is = refl

-- Requests 7 wait on their channels.
abbrev busy : Ncp
busy = record idle { hl_pending = register 7 no_pending; zcl_pending = register 7 no_pending }

busy-IsSafe : IsSafe busy
busy-IsSafe =
    (register-IsLive 7 no_pending no_pending-IsLive, register-IsLive 7 no_pending no_pending-IsLive)

reset_state_cancels_example :
    (m : Ncp) × (reset_state busy ≡ ok m)
    × IsSafe m
    × (m.hl_pending.entry 7 ≡ none)
    × (receive (m.hl_pending.chan 0) ≡ some none)
    × ((w : Woken Frame)
        → Ready false false (m.hl_pending.chan 0) w
        → IsRequestError false false (request_result w))
unfolding register
reset_state_cancels_example =
    reset_state_cancels busy 7 0 false false busy-IsSafe (omega arith) refl refl

reset_state_empties_reads_example :
    (m : Ncp) × (reset_state busy ≡ ok m)
    × (m.zcl_pending.entry 7 ≡ none)
    × (receive (m.zcl_pending.chan 0) ≡ some none)
    × ((w : Woken Bytes)
        → Ready false false (m.zcl_pending.chan 0) w
        → IsReadEmpty false false (read_result w))
unfolding register
reset_state_empties_reads_example =
    reset_state_empties_reads busy 7 0 false false busy-IsSafe (omega arith) refl refl

-- ===== src/Ncp/Commands/Read.antt =====
-- nrf52840.go, the ZCL requests: `ReadAttributes`, `WriteAttributes`, `SendCommand` and
-- `ConfigureReporting` number their frame and hand one APSDE data request to `request`;
-- `ReadAttributes` also registers a channel, on which it waits for the records of the response.
use zigbee_go_home.Base.{
  ℕ, ◌+◌, ◌%◌, ◌^◌, ◌<◌, ◌≡◌, refl, ap, true, false, List, [], ◌∷◌, ◌++◌, length, get_or, drop, All,
  some, map_option, ok, arith, Bool,
}
use zigbee_go_home.Base.Bytes.{Bytes, le16}
use zigbee_go_home.Ncp.Frame.{Frame, LlHeader, ll_is_ack, ll_pkt_seq, encode_ack}
use zigbee_go_home.Ncp.Frame.RoundTrip.{le16-put_le16}
use zigbee_go_home.Ncp.Zcl.{
  Report, AttributeResponse, parse_attribute_reports, zcl_build_read_attributes,
  zcl_build_write_attributes, zcl_build_cluster_command, zcl_build_configure_reporting,
  build_apsde_data_req, record_bytes,
}
use zigbee_go_home.Ncp.Zcl.Parse.{
  IsReport, IsResponse, response_bytes, parse_attribute_reports-record_bytes,
  parse_attribute_responses-response_bytes,
}
use zigbee_go_home.Ncp.Indication.{Handlers, zcl_response, handle_zcl, handle_indication}
use zigbee_go_home.Ncp.Indication.Reports.{
  ApsHeader, IsApsHeader, aps_indication, zcl_header, handle_global,
}
use zigbee_go_home.Ncp.Transport.{
  Ncp, Pending, fresh, register, receive, deliver, received, parsed, read_result, handle_frame,
  apply_effects, apply_effect,
}
use zigbee_go_home.Ncp.Transport.Routing.{deliver_lem, update_self}

-- Where a request goes: `DstAddr`, `DstEP`, `ClusterID`.
pub record Target : Type 0 where
  pub dst_addr : ℕ
  pub dst_ep : ℕ
  pub cluster_id : ℕ

-- `nextZCLSeq`
unfoldable pub next_zcl_seq : Ncp → Ncp × ℕ
next_zcl_seq n = let seq = (n.zcl_seq + 1) % 2 ^ 32 in (record n { zcl_seq = seq }, seq % 256)

abbrev pub data_request : Target → Bytes → Bytes
data_request t zcl_frame =
    build_apsde_data_req t.dst_addr t.dst_ep 1 t.cluster_id 0x0104 30 zcl_frame

-- `ReadAttributes` up to its `request`: the sequence number and the payload.
unfoldable pub begin_read : Target → List ℕ → Ncp → Ncp × ℕ × Bytes
begin_read t attr_ids n =
    let (m, seq) = next_zcl_seq n in
    (
      record m { zcl_pending = register seq m.zcl_pending },
      seq,
      data_request t (zcl_build_read_attributes seq attr_ids),
    )

-- The payload of the one request of each.
unfoldable pub write_attributes : Target → List Report → Ncp → Ncp × Bytes
write_attributes t records n =
    let (m, seq) = next_zcl_seq n in (m, data_request t (zcl_build_write_attributes seq records))

unfoldable pub send_command : Target → ℕ → Bytes → Ncp → Ncp × Bytes
send_command t command_id payload n =
    let (m, seq) = next_zcl_seq n in
    (m, data_request t (zcl_build_cluster_command seq command_id payload))

-- Attribute, type, intervals and the encoded change.
unfoldable pub configure_reporting : Target → ℕ → ℕ → ℕ → ℕ → Bytes → Ncp → Ncp × Bytes
configure_reporting t attr_id data_type min_interval max_interval report_change n =
    let (m, seq) = next_zcl_seq n in
    (
      m,
      data_request t (
          zcl_build_configure_reporting seq attr_id data_type min_interval max_interval
            report_change),
    )

-- `sendOTANoImageAvailable`: the frame control is cluster | server to client | no default response.
unfoldable pub ota_no_image_payload : ℕ → ℕ → ℕ → Bytes
ota_no_image_payload dst_addr dst_ep zcl_seq =
    data_request (record { dst_addr = dst_addr; dst_ep = dst_ep; cluster_id = 0x0019 })
      (0x19 ∷ zcl_seq ∷ 0x02 ∷ 0x98 ∷ [])

-- The request of `WriteAttributes` says where it goes and how long its data is, and behind the 24
-- bytes of parameters and the ZCL header stand the records, which the report parser reads back:
-- for uint16 addresses, records in the form of their types, and data that a uint16 can count.
pub write_attributes_sends :
    (t : Target) (records : List Report) (n : Ncp)
    → (t.dst_addr < 2 ^ 16) × (t.cluster_id < 2 ^ 16)
    → All IsReport records
    → length (record_bytes records) + 3 < 2 ^ 16
    → let payload = (write_attributes t records n).1 in
      (le16 (get_or payload 1 0) (get_or payload 2 0) ≡ length (drop 24 payload))
      × (le16 (get_or payload 3 0) (get_or payload 4 0) ≡ t.dst_addr)
      × (le16 (get_or payload 13 0) (get_or payload 14 0) ≡ t.cluster_id)
      × (get_or payload 15 0 ≡ t.dst_ep)
      × (parse_attribute_reports (drop 27 payload) ≡ some records)
unfolding write_attributes build_apsde_data_req zcl_build_write_attributes next_zcl_seq
write_attributes_sends t records n (ha, hc) hr l = (
  omega arith,
  le16-put_le16 t.dst_addr ha,
  le16-put_le16 t.cluster_id hc,
  refl,
  parse_attribute_reports-record_bytes records hr,
)

-- The frame of an APS data indication with a Read Attributes response.
abbrev pub response_frame :
    LlHeader → ℕ → ApsHeader → Bool → ℕ → ℕ → ℕ → List AttributeResponse → Frame
response_frame ll tsn a specific mfr0 mfr1 seq rs = record {
  ll = ll;
  hl = record {
    version = 0;
    packet_type = 0x02;
    call_id = 0x0306;
    tsn = tsn;
    status_cat = 0;
    status_code = 0;
  };
  payload = aps_indication a (zcl_header specific mfr0 mfr1 seq 0x01 ++ response_bytes rs);
}

response_effect :
    (h : Handlers) (ll : LlHeader) (tsn : ℕ) (a : ApsHeader) (specific : Bool) (mfr0 mfr1 seq : ℕ)
    (rs : List AttributeResponse)
    → IsApsHeader a
    → length (response_bytes rs) + 5 < 2 ^ 16
    → handle_indication h (response_frame ll tsn a specific mfr0 mfr1 seq rs)
      ≡ zcl_response seq (response_bytes rs) ∷ []
unfolding handle_indication handle_zcl
response_effect h ll tsn a true mfr0 mfr1 seq rs ha l =
    handle_global h a true mfr0 mfr1 seq 0x01 (response_bytes rs) ha l
response_effect h ll tsn a false mfr0 mfr1 seq rs ha l =
    handle_global h a false mfr0 mfr1 seq 0x01 (response_bytes rs) ha l

-- A channel that was just registered takes what is delivered under its number.
deliver-register :
    (seq : ℕ) (v : Bytes) (p : Pending Bytes)
    → (q : Pending Bytes) × (deliver seq v (register seq p) ≡ ok q)
      × (receive (q.chan p.next) ≡ some (some v))
unfolding register receive
deliver-register seq v p = (
  _,
  deliver_lem seq p.next v (register seq p) (update_self p.entry seq (some p.next))
      (ap (λ c. c.is_closed) (update_self p.chan p.next fresh)),
  rw (update_self (register seq p).chan p.next, update_self p.chan p.next fresh) refl,
)

-- `ReadAttributes` returns what the device answered: after its request, a response with its
-- sequence number is routed by the read loop to the channel that it registered, and parsed from
-- there to exactly the records that the device wrote, with a manufacturer code or without.
pub read_attributes_answered :
    (t : Target) (attr_ids : List ℕ) (n : Ncp) (ll : LlHeader) (tsn : ℕ) (a : ApsHeader)
    (specific : Bool) (mfr0 mfr1 : ℕ) (rs : List AttributeResponse)
    → ll_is_ack ll.flags ≡ false
    → IsApsHeader a
    → All IsResponse rs
    → length (response_bytes rs) + 5 < 2 ^ 16
    → let begun = begin_read t attr_ids n in
      (m : Ncp) × (handle_frame (response_frame ll tsn a specific mfr0 mfr1 begun.1 rs) begun.0
        ≡ ok m)
      × (map_option
            (λ r. read_result (received r))
            (receive (m.zcl_pending.chan n.zcl_pending.next))
          ≡ some (parsed (some rs)))
unfolding begin_read next_zcl_seq handle_frame apply_effects apply_effect read_result
read_attributes_answered t attr_ids n ll tsn a specific mfr0 mfr1 rs not_ack ha hr l =
    let seq = (n.zcl_seq + 1) % 2 ^ 32 % 256 in
    let (q, delivered, got) = deliver-register seq (response_bytes rs) n.zcl_pending in
    let effect = response_effect n.handlers ll tsn a specific mfr0 mfr1 seq rs ha l in
    (
      record (begin_read t attr_ids n).0 {
        written = n.written ++ (encode_ack (ll_pkt_seq ll.flags) ∷ []);
        zcl_pending = q;
      },
      rw (not_ack, effect, delivered) refl,
      rw got (ap (λ o. some (parsed o)) (parse_attribute_responses-response_bytes rs hr)),
    )

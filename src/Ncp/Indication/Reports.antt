-- ===== src/Ncp/Indication/Reports.antt =====
-- An APS data indication with attribute reports, or with a response, reaches who it is for.
use zigbee_go_home.Base.{
  ℕ, ◌+◌, ◌/◌, ◌%◌, ◌^◌, ◌<◌, ◌≡◌, ◌∙◌, Bool, true, false, List, [], ◌∷◌, ◌++◌, map, length,
  take-length, All, if◌then◌else◌, arith,
}
use zigbee_go_home.Base.Bytes.{Bytes}
use zigbee_go_home.Base.Int.{signed}
use zigbee_go_home.Ncp.Frame.RoundTrip.{le16-put_le16}
use zigbee_go_home.Ncp.Zcl.{Report, record_bytes}
use zigbee_go_home.Ncp.Zcl.Parse.{IsReport, parse_attribute_reports-record_bytes}
use zigbee_go_home.Ncp.Indication.{
  Handlers, Source, reported, emit, zcl_response, handle_zcl, handle_apsde_data_ind,
}

-- The 24 bytes of parameters that the NCP puts before the data; the fields that the driver does not
-- read are arbitrary.
pub record ApsHeader : Type 0 where
  pub param_len : ℕ
  pub aps_fc : ℕ
  pub src_addr : ℕ
  pub dst_and_group : ℕ × ℕ × ℕ × ℕ × ℕ
  pub src_ep : ℕ
  pub cluster_id : ℕ
  pub profile_and_counter : ℕ × ℕ × ℕ
  pub macs : ℕ × ℕ × ℕ × ℕ
  pub lqi : ℕ
  pub rssi : ℕ
  pub key_attr : ℕ

-- param_len, data_len, aps_fc, src_nwk_addr, dst_nwk_addr, group_addr, dst_endpoint, src_endpoint,
-- cluster_id, profile_id, aps_counter, src_mac_addr, dst_mac_addr, lqi, rssi, aps_key_attr, data.
unfoldable pub aps_indication : ApsHeader → Bytes → Bytes
aps_indication a zcl_data =
    let (d0, d1, g0, g1, dst_ep) = a.dst_and_group in
    let (p0, p1, counter) = a.profile_and_counter in
    let (m0, m1, m2, m3) = a.macs in
    a.param_len
    ∷ length zcl_data % 256
    ∷ length zcl_data / 256 % 256
    ∷ a.aps_fc
    ∷ a.src_addr % 256
    ∷ a.src_addr / 256 % 256
    ∷ d0
    ∷ d1
    ∷ g0
    ∷ g1
    ∷ dst_ep
    ∷ a.src_ep
    ∷ a.cluster_id % 256
    ∷ a.cluster_id / 256 % 256
    ∷ p0
    ∷ p1
    ∷ counter
    ∷ m0
    ∷ m1
    ∷ m2
    ∷ m3
    ∷ a.lqi
    ∷ a.rssi
    ∷ a.key_attr
    ∷ zcl_data

abbrev pub source_of : ApsHeader → Source
source_of a = record {
  src_addr = a.src_addr;
  src_ep = a.src_ep;
  cluster_id = a.cluster_id;
  lqi = a.lqi;
  rssi = signed 128 a.rssi;
}

-- A header whose addresses are uint16.
abbrev pub IsApsHeader : ApsHeader → Type 0
IsApsHeader a = (a.src_addr < 2 ^ 16) × (a.cluster_id < 2 ^ 16)

-- The ZCL header: frame control, perhaps a manufacturer code, sequence number, command.
unfoldable pub zcl_header : Bool → ℕ → ℕ → ℕ → ℕ → Bytes
zcl_header true mfr0 mfr1 seq cmd = 0x1c ∷ mfr0 ∷ mfr1 ∷ seq ∷ cmd ∷ []
zcl_header false mfr0 mfr1 seq cmd = 0x18 ∷ seq ∷ cmd ∷ []

pub handle_global :
    (h : Handlers) (a : ApsHeader) (specific : Bool) (mfr0 mfr1 seq cmd : ℕ) (records : Bytes)
    → IsApsHeader a
    → length records + 5 < 2 ^ 16
    → handle_apsde_data_ind h (aps_indication a (zcl_header specific mfr0 mfr1 seq cmd ++ records))
      ≡ handle_zcl h (source_of a) (if specific then 0x1c else 0x18) seq cmd records
unfolding handle_apsde_data_ind aps_indication zcl_header
handle_global h a true mfr0 mfr1 seq cmd records (ha, hc) l =
    ground (arith, le16-put_le16 a.src_addr ha, le16-put_le16 a.cluster_id hc, take-length records)
handle_global h a false mfr0 mfr1 seq cmd records (ha, hc) l =
    ground (arith, le16-put_le16 a.src_addr ha, le16-put_le16 a.cluster_id hc, take-length records)

-- Every record of an attribute report gives one event, in the order of the frame, with the source
-- that the indication names, from frames with and without a manufacturer code; and a Read
-- Attributes response goes whole to the request of its sequence number.
pub handle_apsde_data_ind_global :
    (h : Handlers) (a : ApsHeader) (specific : Bool) (mfr0 mfr1 seq : ℕ) (records : List Report)
    → IsApsHeader a
    → All IsReport records
    → length (record_bytes records) + 5 < 2 ^ 16
    → h.on_report ≡ true
    → (handle_apsde_data_ind h
          (aps_indication a (zcl_header specific mfr0 mfr1 seq 0x0a ++ record_bytes records))
        ≡ map (λ r. emit (reported (source_of a) r)) records)
      × (handle_apsde_data_ind h
            (aps_indication a (zcl_header specific mfr0 mfr1 seq 0x01 ++ record_bytes records))
          ≡ zcl_response seq (record_bytes records) ∷ [])
unfolding handle_zcl
handle_apsde_data_ind_global h a true mfr0 mfr1 seq records ha hr l on = (
  handle_global h a true mfr0 mfr1 seq 0x0a (record_bytes records) ha l
      ∙ rw (on, parse_attribute_reports-record_bytes records hr),
  handle_global h a true mfr0 mfr1 seq 0x01 (record_bytes records) ha l,
)
handle_apsde_data_ind_global h a false mfr0 mfr1 seq records ha hr l on = (
  handle_global h a false mfr0 mfr1 seq 0x0a (record_bytes records) ha l
      ∙ rw (on, parse_attribute_reports-record_bytes records hr),
  handle_global h a false mfr0 mfr1 seq 0x01 (record_bytes records) ha l,
)

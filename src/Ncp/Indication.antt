-- ===== src/Ncp/Indication.antt =====
-- nrf52840.go, `handleIndication` and `handleAPSDEDataInd`: what one indication frame makes the NCP
-- driver do. The callbacks are nil or not; what they do is not the driver's. Logging is left out.
pub mod Reports
use zigbee_go_home.Base.{
  ℕ, zero, suc, ◌+◌, ◌-◌, ◌*◌, Bool, true, false, not, ◌&&◌, ◌||◌, List, [], ◌∷◌, ◌++◌, map, ltb,
  leb, ◌==◌, if◌then◌else◌, bit_and, length, get_or, take, drop, slice, Option, none, some,
}
use zigbee_go_home.Base.Bytes.{Bytes, le16}
use zigbee_go_home.Base.Int.{ℤ, signed}
use zigbee_go_home.Ncp.Frame.{Frame}
use zigbee_go_home.Ncp.Zcl.{Report, parse_attribute_reports}

-- Which callbacks are set.
pub record Handlers : Type 0 where
  pub on_joined : Bool
  pub on_left : Bool
  pub on_announce : Bool
  pub on_report : Bool
  pub on_cluster_cmd : Bool
  pub on_nwk_addr_update : Bool
  pub on_reset : Bool

-- Where an APS frame came from.
pub record Source : Type 0 where
  pub src_addr : ℕ
  pub src_ep : ℕ
  pub cluster_id : ℕ
  pub lqi : ℕ
  pub rssi : ℤ

-- A callback's call, with the event's fields.
pub data Event : Type 0 where
  announced : ℕ → Bytes → ℕ → Event
  joined : ℕ → Bytes → Event
  left : ℕ → Bytes → Event
  reported : Source → Report → Event
  cluster_command : Source → ℕ → Bytes → Event
  nwk_addr_update : ℕ → Event
  ncp_reset : Event

-- What the driver does: a callback, a signal on `resetIndCh`, ZCL records for the pending request of
-- a sequence number, or `go sendOTANoImageAvailable`.
pub data Effect : Type 0 where
  emit : Event → Effect
  reset_signal : Effect
  zcl_response : ℕ → Bytes → Effect
  ota_no_image : ℕ → ℕ → ℕ → Effect

abbrev pub when : Bool → List Effect → List Effect
when true effects = effects
when false effects = []

-- Little-endian uint16 at an index.
abbrev pub u16_at : Bytes → ℕ → ℕ
u16_at bytes i = le16 (get_or bytes i 0) (get_or bytes (i + 1) 0)

abbrev report_effects : Source → List Report → List Effect
report_effects source = map (λ r. emit (reported source r))

-- The reports of a frame. The fuel of the parser is enough, so `none` does not occur.
abbrev pub reports_of : Source → Option (List Report) → List Effect
reports_of source none = []
reports_of source (some rs) = report_effects source rs

-- From `frameType := frameCtrl & 0x03` on.
unfoldable pub handle_zcl : Handlers → Source → ℕ → ℕ → ℕ → Bytes → List Effect
handle_zcl h source frame_ctrl zcl_seq cmd_id records =
    let frame_type = bit_and frame_ctrl 0x03 in
    if frame_type == 0x01
    then if source.cluster_id == 0x0019 && cmd_id == 0x01
      then ota_no_image source.src_addr source.src_ep zcl_seq ∷ []
      else when h.on_cluster_cmd (emit (cluster_command source cmd_id records) ∷ [])
    else if not (frame_type == 0x00)
    then []
    else if cmd_id == 0x01
    then zcl_response zcl_seq records ∷ []
    else if cmd_id == 0x0a
    then when h.on_report (reports_of source (parse_attribute_reports records))
    else []

abbrev pub aps_hdr_size : ℕ
aps_hdr_size = 24

unfoldable pub handle_apsde_data_ind : Handlers → Bytes → List Effect
handle_apsde_data_ind h payload =
    let data_len = u16_at payload 1 in
    let source : Source = record {
      src_addr = u16_at payload 4;
      src_ep = get_or payload 11 0;
      cluster_id = u16_at payload 12;
      lqi = get_or payload 21 0;
      rssi = signed 128 (get_or payload 22 0);
    } in
    let zcl_data = slice aps_hdr_size (aps_hdr_size + data_len) payload in
    let frame_ctrl = get_or zcl_data 0 0 in
    let hdr_len = if not (bit_and frame_ctrl 0x04 == 0) then 3 + 2 else 3 in
    if ltb (length payload) 25
    then []
    else if data_len == 0 || ltb (length payload) (aps_hdr_size + data_len)
    then []
    else if ltb (length zcl_data) 3
    then []
    else if ltb (length zcl_data) hdr_len
    then []
    else handle_zcl h source frame_ctrl (get_or zcl_data (hdr_len - 2) 0)
        (get_or zcl_data (hdr_len - 1) 0) (drop hdr_len zcl_data)

-- `case zbossCmdZDODevUpdateInd`, from the switch on the status.
abbrev dev_update : Handlers → ℕ → Bytes → ℕ → List Effect
dev_update h short ieee status =
    if status == 0x00 || status == 0x01 || status == 0x03
    then when h.on_joined (emit (joined short ieee) ∷ [])
    else if status == 0x02
    then when h.on_left (emit (left short ieee) ∷ [])
    else []

-- `case zbossCmdNwkLeaveInd`: a device that will rejoin has not left.
abbrev nwk_leave : Handlers → Bytes → List Effect
nwk_leave h payload =
    let n = length payload in
    let rejoin = leb 9 n && not (get_or payload 8 0 == 0) in
    when (leb 8 n && (h.on_left && not rejoin)) (emit (left 0 (slice 0 8 payload)) ∷ [])

unfoldable pub handle_indication : Handlers → Frame → List Effect
handle_indication h f =
    let payload = f.payload in
    let n = length payload in
    let call_id = f.hl.call_id in
    if call_id == 0x020c
    then when (h.on_announce && leb 11 n)
        (emit (announced (u16_at payload 0) (slice 2 10 payload) (get_or payload 10 0)) ∷ [])
    else if call_id == 0x0215
    then when (leb 11 n) (dev_update h (u16_at payload 8) (slice 0 8 payload) (get_or payload 10 0))
    else if call_id == 0x040b
    then nwk_leave h payload
    else if call_id == 0x0306
    then handle_apsde_data_ind h payload
    else if call_id == 0x002b
    then reset_signal ∷ when h.on_reset (emit ncp_reset ∷ [])
    else if call_id == 0x041c
    then when (leb 2 n && h.on_nwk_addr_update) (emit (nwk_addr_update (u16_at payload 0)) ∷ [])
    else []

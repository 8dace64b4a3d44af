-- ===== src/Ncp/Commands/Zdo.antt =====
-- nrf52840.go, the commands whose answers are parsed: `NetworkInfo`, `NetworkScan`,
-- `GetLocalIEEE`, `ActiveEndpoints`, `SimpleDescriptor`, and `Bind` and `Unbind`. A parser walks
-- the part of the payload that it has not read.
use zigbee_go_home.Base.{
  ℕ, zero, suc, ◌+◌, ◌/◌, ◌^◌, Bool, not, List, [], ◌∷◌, ◌++◌, ◌&&◌, ◌==◌, leb, ltb, length, get_or,
  take, drop, slice, if◌then◌else◌, Option, none, some, bit_and,
}
use zigbee_go_home.Base.Bytes.{Bytes, le16, put_le16}
use zigbee_go_home.Base.Int.{ℤ, signed}
use zigbee_go_home.Ncp.Commands.{
  Exchange, Result, done, failed, CommandError, status, too_short, truncated, all_failed, ◌>>=◌,
  return, request, send, go_on, put_le32,
}

-- `NetworkInfo`: a query that fails, or whose answer is too short, leaves its field zero.
pub record NetworkInfo : Type 0 where
  pub channel : ℕ
  pub pan_id : ℕ
  pub ext_pan_id : Bytes

abbrev answer_or {ℓ} : {A : Type ℓ} → ℕ → A → (Bytes → A) → Result Bytes → A
answer_or n default read (done payload) = if leb n (length payload) then read payload else default
answer_or n default read (failed e) = default

abbrev later_error : Option CommandError → Result Bytes → Option CommandError
later_error last (done payload) = last
later_error last (failed e) = some e

unfoldable pub network_info_of : Result Bytes → Result Bytes → Result Bytes → Result NetworkInfo
network_info_of channel_answer pan_answer ext_answer =
    let info : NetworkInfo = record {
      channel = answer_or 2 0 (λ p. get_or p 1 0) channel_answer;
      pan_id = answer_or 2 0 (λ p. le16 (get_or p 0 0) (get_or p 1 0)) pan_answer;
      ext_pan_id = answer_or 8 (0 ∷ 0 ∷ 0 ∷ 0 ∷ 0 ∷ 0 ∷ 0 ∷ 0 ∷ []) (take 8) ext_answer;
    } in
    let last = later_error (later_error (later_error none channel_answer) pan_answer) ext_answer in
    elim last [
      | none ↦ done info
      | some e ↦ if (info.channel == 0) && (info.pan_id == 0) then failed all_failed else done info
    ]

unfoldable pub network_info : Exchange NetworkInfo
network_info d s =
    let (a, s1) = request 0x0008 [] d s in
    let (b, s2) = request 0x0009 [] d s1 in
    let (c, s3) = request 0x0023 [] d s2 in (network_info_of a b c, s3)

-- `NetworkScanResult`; `rssi` is the int8 of its byte.
pub record NetworkScanResult : Type 0 where
  pub ext_pan_id : Bytes
  pub pan_id : ℕ
  pub update_id : ℕ
  pub channel : ℕ
  pub permit_join : Bool
  pub router_cap : Bool
  pub ed_cap : Bool
  pub stack_profile : ℕ
  pub lqi : ℕ
  pub rssi : ℤ

-- A descriptor of sixteen bytes.
unfoldable pub scan_result : Bytes → NetworkScanResult
scan_result d = record {
  ext_pan_id = take 8 d;
  pan_id = le16 (get_or d 8 0) (get_or d 9 0);
  update_id = get_or d 10 0;
  channel = get_or d 12 0;
  permit_join = not (bit_and (get_or d 13 0) 0x01 == 0);
  router_cap = not (bit_and (get_or d 13 0) 0x02 == 0);
  ed_cap = not (bit_and (get_or d 13 0) 0x04 == 0);
  stack_profile = bit_and (get_or d 13 0 / 2 ^ 4) 0x0f;
  lqi = get_or d 14 0;
  rssi = signed 128 (get_or d 15 0);
}

-- The loop over the `count` that the answer names; it breaks at a descriptor that is cut.
unfoldable pub scan_results : ℕ → Bytes → List NetworkScanResult
scan_results zero rest = []
scan_results (suc n) rest =
    let others = scan_results n (drop 16 rest) in
    if leb 16 (length rest) then scan_result (take 16 rest) ∷ others else []

unfoldable pub networks_of : Bytes → List NetworkScanResult
networks_of [] = []
networks_of (count ∷ rest) = scan_results count rest

-- A status of category 2 (MAC) and code 0xEA (no beacon): the scan found no network.
unfoldable pub scan_end : Result Bytes → Result (List NetworkScanResult)
scan_end (done payload) = done (networks_of payload)
scan_end (failed (status category code)) =
    if (category == 2) && (code == 0xea) then done [] else failed (status category code)
scan_end (failed e) = failed e

unfoldable pub network_scan : Exchange (List NetworkScanResult)
network_scan d s =
    let (r, s') = request 0x0402 (0x01 ∷ 0x00 ∷ (put_le32 0x07fff800 ++ (0x05 ∷ []))) d s in
    (scan_end r, s')

-- `GetLocalIEEE`: an answer that is too short gives the zero address.
unfoldable pub local_ieee_of : Bytes → Bytes
local_ieee_of payload =
    if leb 9 (length payload) then slice 1 9 payload else 0 ∷ 0 ∷ 0 ∷ 0 ∷ 0 ∷ 0 ∷ 0 ∷ 0 ∷ []

unfoldable pub get_local_ieee : Exchange Bytes
get_local_ieee = do payload ← request 0x000b (0x00 ∷ []); return (local_ieee_of payload)

-- `ActiveEndpoints`
unfoldable pub endpoints_of : Bytes → Result (List ℕ)
endpoints_of [] = failed too_short
endpoints_of (count ∷ rest) =
    if ltb (length (count ∷ rest)) (1 + count) then failed truncated else done (take count rest)

unfoldable pub active_endpoints : ℕ → Exchange (List ℕ)
active_endpoints short_addr d s =
    go_on (request 0x0206 (put_le16 short_addr) d s) (λ payload d' s'. (endpoints_of payload, s')) d

pub record SimpleDescriptor : Type 0 where
  pub endpoint : ℕ
  pub profile_id : ℕ
  pub device_id : ℕ
  pub in_clusters : List ℕ
  pub out_clusters : List ℕ

-- One of the two loops: the clusters, and what is left.
unfoldable pub read_clusters : ℕ → Bytes → List ℕ × Bytes
read_clusters zero rest = ([], rest)
read_clusters (suc n) (lo ∷ hi ∷ rest) =
    let (cs, rest') = read_clusters n rest in (le16 lo hi ∷ cs, rest')
read_clusters (suc n) rest = ([], rest)

unfoldable pub descriptor_of : Bytes → Result SimpleDescriptor
descriptor_of payload =
    let (ins, rest) = read_clusters (get_or payload 6 0) (drop 8 payload) in
    let (outs, rest') = read_clusters (get_or payload 7 0) rest in
    if ltb (length payload) 8
    then failed too_short
    else done (record {
      endpoint = get_or payload 0 0;
      profile_id = le16 (get_or payload 1 0) (get_or payload 2 0);
      device_id = le16 (get_or payload 3 0) (get_or payload 4 0);
      in_clusters = ins;
      out_clusters = outs;
    })

unfoldable pub simple_descriptor : ℕ → ℕ → Exchange SimpleDescriptor
simple_descriptor short_addr endpoint d s =
    go_on (request 0x0205 (put_le16 short_addr ++ (endpoint ∷ [])) d s)
      (λ payload d' s'. (descriptor_of payload, s')) d

-- `BindRequest`; an IEEE address has eight bytes.
pub record BindRequest : Type 0 where
  pub target_short_addr : ℕ
  pub src_ieee : Bytes
  pub src_ep : ℕ
  pub cluster_id : ℕ
  pub dst_ieee : Bytes
  pub dst_ep : ℕ

unfoldable pub bind_payload : BindRequest → Bytes
bind_payload r =
    put_le16 r.target_short_addr
    ++ (r.src_ieee
        ++ (r.src_ep ∷ (put_le16 r.cluster_id ++ (0x03 ∷ (r.dst_ieee ++ (r.dst_ep ∷ []))))))

unfoldable pub bind : BindRequest → Exchange (Unit {0})
bind r = send 0x0208 (bind_payload r)

unfoldable pub unbind : BindRequest → Exchange (Unit {0})
unbind r = send 0x0209 (bind_payload r)

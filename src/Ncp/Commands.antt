-- ===== src/Ncp/Commands.antt =====
-- nrf52840.go, the commands that manage the network: `Init`, `FormNetwork`, `StartNetwork`,
-- `PermitJoin`, `MgmtLeave`, `NetworkInfo`. A command is an exchange with the dongle: it sends
-- requests in order and goes on from their answers. The texts that wrap an error are left out.
pub mod Formation
pub mod Zdo
pub mod Descriptors
pub mod Scan
pub mod Read
use zigbee_go_home.Base.{
  ℕ, zero, suc, ◌+◌, ◌*◌, ◌/◌, ◌%◌, ◌^◌, Bool, List, [], ◌∷◌, ◌++◌, ◌&&◌, ◌==◌, leb, length, get_or,
  take, drop, if◌then◌else◌, Option, none, some,
}
use zigbee_go_home.Base.Bytes.{Bytes, le16, put_le16}
use zigbee_go_home.Ncp.Transport.{
  RequestResult, responded, status_error, request_cancelled, context_error, ncp_closed,
}

-- A request: the call id and the payload.
abbrev pub Call : Type 0
Call = ℕ × Bytes

-- How `request` ends: with a response, with a response whose status is not zero, or with an error
-- and no response.
pub data Reply : Type 0 where
  answered : Bytes → Reply
  refused : ℕ → ℕ → Reply
  unanswered : Reply

unfoldable pub reply_of : RequestResult → Reply
reply_of (responded f) = answered f.payload
reply_of (status_error f) = refused f.hl.status_cat f.hl.status_code
reply_of request_cancelled = unanswered
reply_of context_error = unanswered
reply_of ncp_closed = unanswered

-- What stands outside the driver: the answer to a request after those that went before, newest
-- first, and whether the context is done by then.
pub record Dongle : Type 0 where
  pub answer : List Call → Call → Reply
  pub is_cancelled : List Call → Bool

-- `NCPInfo`; the four numbers that print the stack version are kept apart.
pub record NcpInfo : Type 0 where
  pub fw_version : ℕ
  pub stack_version : List ℕ
  pub protocol_version : ℕ
  pub network_key : Bytes

pub record Session : Type 0 where
  pub sent : List Call
  pub info : NcpInfo

pub data CommandError : Type 0 where
  status : ℕ → ℕ → CommandError
  no_answer cancelled no_random_key too_short truncated all_failed : CommandError

pub data Result {ℓ} (A : Type ℓ) : Type ℓ where
  done : A → Result A
  failed : CommandError → Result A

abbrev pub Exchange {ℓ} : Type ℓ → Type ℓ
Exchange A = Dongle → Session → Result A × Session

unfoldable pub go_on {ℓ κ} :
    {A : Type ℓ} {B : Type κ} → Result A × Session → (A → Exchange B) → Dongle → Result B × Session
go_on (done a, s) f d = f a d s
go_on (failed e, s) f d = (failed e, s)

infixl 5 ◌>>=◌ ◌>>◌
abbrev pub ◌>>=◌ {ℓ κ} : {A : Type ℓ} {B : Type κ} → Exchange A → (A → Exchange B) → Exchange B
(m >>= f) d s = go_on (m d s) f d

abbrev pub ◌>>◌ {ℓ} : {B : Type ℓ} → Exchange (Unit {0}) → Exchange B → Exchange B
m >> k = m >>= λ _. k

abbrev pub return {ℓ} : {A : Type ℓ} → A → Exchange A
return a d s = (done a, s)

abbrev pub fail {ℓ} : {A : Type ℓ} → CommandError → Exchange A
fail e d s = (failed e, s)

-- A step whose error is only logged.
abbrev pub ignore {ℓ} : {A : Type ℓ} → Exchange A → Exchange (Unit {0})
ignore m d s = (done tt, (m d s).1)

unfoldable pub result_of : Reply → Result Bytes
result_of (answered payload) = done payload
result_of (refused category code) = failed (status category code)
result_of unanswered = failed no_answer

-- `n.request(ctx, cmd, payload)`
unfoldable pub request : ℕ → Bytes → Exchange Bytes
request cmd payload d s =
    (result_of (d.answer s.sent (cmd, payload)), record s { sent = (cmd, payload) ∷ s.sent })

abbrev pub send : ℕ → Bytes → Exchange (Unit {0})
send cmd payload = request cmd payload >>= λ _. return tt

-- `binary.LittleEndian.PutUint32` and `Uint32`.
abbrev pub put_le32 : ℕ → Bytes
put_le32 v = put_le16 (v % 2 ^ 16) ++ put_le16 (v / 2 ^ 16)

abbrev pub le32 : ℕ → Bytes → ℕ
le32 i b =
    le16 (get_or b i 0) (get_or b (i + 1) 0)
    + le16 (get_or b (i + 2) 0) (get_or b (i + 3) 0) * 2 ^ 16

-- `Init`
unfoldable pub read_version : Bytes → Exchange (Unit {0})
read_version payload d s =
    if leb 12 (length payload)
    then (
      done tt,
      record s {
        info = record {
          fw_version = le32 0 payload;
          stack_version =
              get_or payload 7 0
              ∷ get_or payload 6 0
              ∷ get_or payload 5 0
              ∷ get_or payload 4 0
              ∷ [];
          protocol_version = le32 8 payload;
          network_key = [];
        };
      },
    )
    else (done tt, s)

unfoldable pub set_tc_policy : ℕ → ℕ → Exchange (Unit {0})
set_tc_policy policy_type value = send 0x0032 (put_le16 policy_type ++ (value ∷ []))

unfoldable pub set_tc_policies : List (ℕ × ℕ) → Exchange (Unit {0})
set_tc_policies [] = return tt
set_tc_policies (p ∷ ps) = do set_tc_policy p.0 p.1; set_tc_policies ps

-- The types are those of nrf52840_zboss.go.
abbrev pub tc_policies : List (ℕ × ℕ)
tc_policies = (0, 0) ∷ (1, 0) ∷ (2, 1) ∷ (3, 0) ∷ (4, 0) ∷ (5, 0) ∷ []

unfoldable pub init : Exchange (Unit {0})
init = do payload ← request 0x0001 []; read_version payload; set_tc_policies tc_policies

-- `NetworkConfig`; an extended PAN id has eight bytes.
pub record NetworkConfig : Type 0 where
  pub channel : ℕ
  pub pan_id : ℕ
  pub ext_pan_id : Bytes

-- `1 << uint(cfg.Channel)` as a uint32.
abbrev pub channel_mask : ℕ → ℕ
channel_mask channel = 2 ^ channel % 2 ^ 32

abbrev pub formation_payload : NetworkConfig → Bytes
formation_payload cfg =
    0x01
    ∷ 0x00
    ∷ (put_le32 (channel_mask cfg.channel) ++ (0x05 ∷ 0x00 ∷ (put_le16 0x0000 ++ cfg.ext_pan_id)))

-- The attempts of step 5 that are left, and the error of the last one.
unfoldable pub form_attempts : ℕ → CommandError → Bytes → Exchange (Unit {0})
form_attempts zero e buf d s = (failed e, s)
form_attempts (suc k) e buf d s =
    let s' = record s { sent = (0x0401, buf) ∷ s.sent } in
    let again = λ (e' : CommandError). form_attempts k e' buf d s' in
    elim (result_of (d.answer s.sent (0x0401, buf))) [
      | done _ ↦ (done tt, s')
      | failed e' ↦ if d.is_cancelled s'.sent then (failed cancelled, s') else again e'
    ]

unfoldable pub keep_key : Bytes → Exchange (Unit {0})
keep_key key d s = (done tt, record s { info = record s.info { network_key = key } })

-- `FormNetwork`; `random_key` is what `rand.Read` fills in, or its error.
unfoldable pub set_nwk_key : Option Bytes → Exchange (Unit {0})
set_nwk_key none = fail no_random_key
set_nwk_key (some key) = do send 0x001b (key ++ (0x00 ∷ [])); keep_key key

unfoldable pub form_network : NetworkConfig → Option Bytes → Exchange (Unit {0})
form_network cfg random_key = do
  send 0x0005 (0x00 ∷ [])
  send 0x0033 cfg.ext_pan_id
  send 0x0007 (0x00 ∷ put_le32 (channel_mask cfg.channel))
  set_nwk_key random_key
  form_attempts 3 no_answer (formation_payload cfg)
  send 0x000a (put_le16 cfg.pan_id)
  send 0x0013 (0x01 ∷ [])
  ignore (request 0x0017 (0x08 ∷ []))
  ignore (request 0x0034 (100 ∷ []))

-- `buildSimpleDescPayload`
unfoldable pub cluster_bytes : List ℕ → Bytes
cluster_bytes [] = []
cluster_bytes (c ∷ cs) = put_le16 c ++ cluster_bytes cs

unfoldable pub build_simple_desc_payload : ℕ → ℕ → ℕ → ℕ → List ℕ → List ℕ → Bytes
build_simple_desc_payload ep profile_id device_id dev_version in_clusters out_clusters =
    ep
    ∷ (put_le16 profile_id
        ++ (put_le16 device_id
            ++ (dev_version
                ∷ length in_clusters % 256
                ∷ length out_clusters % 256
                ∷ (cluster_bytes in_clusters ++ cluster_bytes out_clusters))))

unfoldable pub start_network : Exchange (Unit {0})
start_network = do send 0x041d []; send 0x0101 (build_simple_desc_payload 1 0x0104 0x0005 0 [] [])

unfoldable pub permit_join : ℕ → Exchange (Unit {0})
permit_join duration = send 0x020b (0x00 ∷ 0x00 ∷ duration ∷ 0x01 ∷ [])

unfoldable pub mgmt_leave : ℕ → Bytes → Exchange (Unit {0})
mgmt_leave short_addr ieee_addr = send 0x020a (put_le16 short_addr ++ (ieee_addr ++ (0x00 ∷ [])))

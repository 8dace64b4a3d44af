-- ===== src/Mqtt/Bridge/Commands.antt =====
-- internal/mqtt/bridge.go, handleCommand: what a message on a device's command topic sends to the
-- device, and what the bridge publishes of it. JSON and the upper case of a text are the library's.
use zigbee_go_home.Base.{
  ℕ, ◌≡◌, refl, ◌∙◌, ◌%◌, ◌^◌, Bool, false, not, ◌&&◌, [], ◌∷◌, ltb, leb, if◌then◌else◌, Option,
  none, some, Bool-cases, inl, inr,
}
use zigbee_go_home.Base.Int.{pos}
use zigbee_go_home.Base.Bytes.{Bytes}
use zigbee_go_home.Base.Texts.{Text, ascii, same}
use zigbee_go_home.Zcl.Value.{
  FloatOps, Value, uint8, uint16, float64, float32, int, int64, string, is_below_zero,
  is_negative_pattern, magnitude, infinity, truncated,
}
use zigbee_go_home.Coordinator.Devices.{Device}
use zigbee_go_home.Coordinator.Interview.{is_empty}
use zigbee_go_home.Coordinator.Properties.{PropertyMap, get_property}
use zigbee_go_home.Mqtt.Bridge.{
  Bridge, BridgeOps, find_endpoint_with_cluster, update_and_publish_state,
}

-- `json.Unmarshal` into a map, `strings.ToUpper`, and `uint8(v)` of a NaN, which Go leaves open and
-- JSON cannot write.
pub record CommandOps : Type 0 where
  pub bridge : BridgeOps
  pub floats : FloatOps
  pub unmarshal : Bytes → Option PropertyMap
  pub to_upper : Text → Text
  pub to_uint8_wild : ℕ → ℕ

-- What `SendClusterCommand` is given; the interface tells whether the command was accepted.
pub record Command : Type 0 where
  pub short_addr : ℕ
  pub endpoint : ℕ
  pub cluster_id : ℕ
  pub command_id : ℕ
  pub payload : Bytes

pub record Sender (N : Type 0) : Type 0 where
  pub send : Command → N → Bool × N

-- `toFloat64` of the bridge.
unfoldable pub as_float64 : FloatOps → Value → Option ℕ
as_float64 ops (float64 f) = some f
as_float64 ops (float32 f) = some (ops.widen f)
as_float64 ops (int i) = some (ops.of_int i)
as_float64 ops (int64 i) = some (ops.of_int i)
as_float64 ops (uint8 n) = some (ops.of_int (pos n))
as_float64 ops (uint16 n) = some (ops.of_int (pos n))
as_float64 ops _ = none

-- `brightness > 254`; 0x406fc00000000000 is 254.
abbrev is_above_254 : ℕ → Bool
is_above_254 f =
    not (is_negative_pattern f)
    && (ltb 0x406fc00000000000 (magnitude f) && leb (magnitude f) infinity)

-- The level of a brightness: clamped, then cut to an integer.
unfoldable pub level_of : CommandOps → ℕ → ℕ
level_of ops f =
    if is_below_zero f
    then 0
    else if is_above_254 f
    then 254
    else if ltb infinity (magnitude f)
    then ops.to_uint8_wild f % 2 ^ 8
    else truncated f

abbrev text_of : Option Value → Option Text
text_of (some (string t)) = some t
text_of _ = none

abbrev float_of : FloatOps → Option Value → Option ℕ
float_of ops none = none
float_of ops (some v) = as_float64 ops v

module _ {N : Type 0} (ops : CommandOps) (sender : Sender N) (dev : Device) where
  abbrev publish_state : Text → Value → Bridge → Bridge
  publish_state = update_and_publish_state ops.bridge dev.ieee_address (some dev)

  -- A command to the device, and what follows if it was accepted.
  unfoldable pub attempt_command : ℕ → ℕ → Bytes → (Bridge → Bridge) → Bridge × N → Bridge × N
  attempt_command cluster command payload then_publish (b, n) =
      let (sent, after) =
        sender.send
          (record {
            short_addr = dev.short_address;
            endpoint = find_endpoint_with_cluster cluster dev.endpoints;
            cluster_id = cluster;
            command_id = command;
            payload = payload;
          })
          n in
      ((if sent then then_publish b else b), after)

  abbrev turned : Text → Bridge → Bridge
  turned on_off = publish_state (ascii "state") (string on_off)

  unfoldable pub switch_state : Option Text → Bridge × N → Bridge × N
  switch_state none w = w
  switch_state (some t) w =
      let upper = ops.to_upper t in
      if same upper (ascii "ON")
      then attempt_command 0x0006 0x01 [] (turned (ascii "ON")) w
      else if same upper (ascii "OFF")
      then attempt_command 0x0006 0x00 [] (turned (ascii "OFF")) w
      else if same upper (ascii "TOGGLE")
      then attempt_command 0x0006 0x02 [] (λ b. b) w
      else w

  unfoldable pub move_level : Option ℕ → Bridge × N → Bridge × N
  move_level none w = w
  move_level (some f) w =
      attempt_command 0x0008 0x04 (level_of ops f ∷ 0x05 ∷ 0x00 ∷ [])
        (λ b.
          publish_state (ascii "color_mode") (string (ascii "brightness"))
            (publish_state (ascii "brightness") (uint8 (level_of ops f)) b))
        w

  -- What a message that has been parsed does; `none` is invalid JSON.
  unfoldable pub follow : Option PropertyMap → Bridge × N → Bridge × N
  follow none w = w
  follow (some cmd) w =
      move_level (float_of ops.floats (get_property (ascii "brightness") cmd))
        (switch_state (text_of (get_property (ascii "state") cmd)) w)

  -- `handleCommand` of a device that the store has; for another it returns at once.
  unfoldable pub handle_command : Bytes → Bridge × N → Bridge × N
  handle_command payload w = if is_empty dev.endpoints then w else follow (ops.unmarshal payload) w

  -- No command is accepted.
  abbrev pub RefusesAll : Type 0
  RefusesAll = (c : Command) (n : N) → (sender.send c n).0 ≡ false

  attempt_command_refused :
      (cluster command : ℕ) (payload : Bytes) (then_publish : Bridge → Bridge) (w : Bridge × N)
      → RefusesAll
      → (attempt_command cluster command payload then_publish w).0 ≡ w.0
  unfolding attempt_command
  attempt_command_refused cluster command payload then_publish w r = rw (r _ w.1) refl

  switch_state_refused :
      (t : Option Text) (w : Bridge × N) → RefusesAll → (switch_state t w).0 ≡ w.0
  unfolding switch_state
  switch_state_refused none w r = refl
  switch_state_refused (some t) w r = elim (Bool-cases (same (ops.to_upper t) (ascii "ON"))) [
    | inl on ↦ rw on (attempt_command_refused 0x0006 0x01 [] (turned (ascii "ON")) w r)
    | inr not_on ↦ rw not_on (elim (Bool-cases (same (ops.to_upper t) (ascii "OFF"))) [
      | inl off ↦ rw off (attempt_command_refused 0x0006 0x00 [] (turned (ascii "OFF")) w r)
      | inr not_off ↦ rw not_off (elim (Bool-cases (same (ops.to_upper t) (ascii "TOGGLE"))) [
        | inl toggle ↦ rw toggle (attempt_command_refused 0x0006 0x02 [] (λ b. b) w r)
        | inr other ↦ rw other refl
      ])
    ])
  ]

  move_level_refused : (f : Option ℕ) (w : Bridge × N) → RefusesAll → (move_level f w).0 ≡ w.0
  unfolding move_level
  move_level_refused none w r = refl
  move_level_refused (some f) w r = attempt_command_refused _ _ _ _ w r

  follow_refused : (o : Option PropertyMap) (w : Bridge × N) → RefusesAll → (follow o w).0 ≡ w.0
  unfolding follow
  follow_refused none w r = refl
  follow_refused (some cmd) w r = move_level_refused _ _ r ∙ switch_state_refused _ w r

  -- If the device accepts no command, a message on its command topic, whatever it holds, leaves the
  -- bridge as it was: no state is set and nothing is published that the device has not accepted.
  pub handle_command_refused :
      (payload : Bytes) (w : Bridge × N) → RefusesAll → (handle_command payload w).0 ≡ w.0
  unfolding handle_command
  handle_command_refused payload w r = elim (Bool-cases (is_empty dev.endpoints)) [
    | inl y ↦ rw y refl
    | inr n ↦ rw n (follow_refused (ops.unmarshal payload) w r)
  ]

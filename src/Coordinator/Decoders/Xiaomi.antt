-- ===== src/Coordinator/Decoders/Xiaomi.antt =====
-- Xiaomi entries: what `EncodeValue` writes behind a tag and a type is what the map holds.
use zigbee_go_home.Base.{
  ℕ, zero, suc, ◌+◌, ◌<◌, ◌≡◌, ◌≢◌, refl, List, [], ◌∷◌, ◌++◌, length, length-append, length-drop,
  take, drop, drop-append, All, Outcome, ok, err, panic, ◌>>=◌, arith,
}
use zigbee_go_home.Base.Bytes.{Bytes}
use zigbee_go_home.Zcl.Value.{FloatOps, Value}
use zigbee_go_home.Zcl.Types.{EncodeError, DecodeError, encode_value, decode_value}
use zigbee_go_home.Zcl.Types.RoundTrip.{IsCanonical, decode_value-encode_value}
use zigbee_go_home.Coordinator.Decoders.{
  Assignments, be16, dp_value, assign, complete, starved, tuya_loop, decode_tuya_dps, xiaomi_loop,
  decode_xiaomi_tlv,
}

pub record Entry : Type 0 where
  pub tag : ℕ
  pub type_id : ℕ
  pub value : Value

-- The entries as a device writes them.
unfoldable pub entry_bytes : FloatOps → List Entry → Outcome EncodeError Bytes
entry_bytes ops [] = ok []
entry_bytes ops (e ∷ es) = encode_value ops e.type_id e.value >>= λ raw.
    entry_bytes ops es >>= λ rest. ok (e.tag ∷ e.type_id ∷ (raw ++ rest))

-- The map that holds the entries, a later one before an earlier one.
unfoldable pub assigned : List Entry → Assignments → Assignments
assigned [] result = result
assigned (e ∷ es) result = assigned es ((e.tag, e.value) ∷ result)

abbrev pub IsEntry : FloatOps → Entry → Type 0
IsEntry ops e = IsCanonical ops e.type_id e.value

xiaomi_loop_end :
    (fuel : ℕ) (result : Assignments) → 0 < fuel → xiaomi_loop fuel [] result ≡ complete result
unfolding xiaomi_loop
xiaomi_loop_end zero result h = absurd (omega arith)
xiaomi_loop_end (suc fuel) result h = refl

-- One turn, where the value is decoded and the rest is done.
xiaomi_loop_step :
    (tag type_id : ℕ) (v : Value) (raw rest : Bytes) (result final : Assignments)
    → decode_value type_id (raw ++ rest) ≡ ok (v, length raw)
    → ((fuel : ℕ) → length rest < fuel → xiaomi_loop fuel rest ((tag, v) ∷ result) ≡ complete final)
    → (fuel : ℕ) → length (raw ++ rest) + 2 < fuel
    → xiaomi_loop fuel (tag ∷ type_id ∷ (raw ++ rest)) result ≡ complete final
unfolding xiaomi_loop
xiaomi_loop_step tag type_id v raw rest result final d again zero l = absurd (omega arith)
xiaomi_loop_step tag type_id v raw rest result final d again (suc fuel) l =
    rw (d, xiaomi_loop)
      (rw (drop-append raw rest) (again fuel (omega (arith, length-append raw rest))))

xiaomi_loop-entry_bytes :
    (ops : FloatOps) (es : List Entry) (result : Assignments)
    → All (IsEntry ops) es
    → (raw : Bytes) × (entry_bytes ops es ≡ ok raw)
      × ((fuel : ℕ)
          → length raw < fuel
          → xiaomi_loop fuel raw result ≡ complete (assigned es result))
unfolding entry_bytes assigned
xiaomi_loop-entry_bytes ops [] result h = ([], refl, λ fuel l. xiaomi_loop_end fuel result l)
xiaomi_loop-entry_bytes ops (e ∷ es) result (he, hes) =
    let (rest, w, d) = xiaomi_loop-entry_bytes ops es ((e.tag, e.value) ∷ result) hes in
    let (raw, w', d') = decode_value-encode_value ops e.type_id e.value rest he in
    (
      e.tag ∷ e.type_id ∷ (raw ++ rest),
      rw w' (rw w refl),
      λ fuel l.
          xiaomi_loop_step e.tag e.type_id e.value raw rest result
            (assigned es ((e.tag, e.value) ∷ result)) d' d fuel (omega arith),
    )

-- `decodeXiaomiTLV` reads every run of entries whose values are in the form of their types, with no
-- error, and fills the map with exactly these values.
pub decode_xiaomi_tlv-entry_bytes :
    (ops : FloatOps) (es : List Entry)
    → All (IsEntry ops) es
    → (raw : Bytes) × (entry_bytes ops es ≡ ok raw)
      × (decode_xiaomi_tlv raw ≡ complete (assigned es []))
unfolding decode_xiaomi_tlv
decode_xiaomi_tlv-entry_bytes ops es h =
    let (raw, w, d) = xiaomi_loop-entry_bytes ops es [] h in
    (raw, w, d (suc (length raw)) (omega arith))

tuya_loop-ne-starved :
    (fuel : ℕ) (raw : Bytes) (result : Assignments)
    → length raw < fuel
    → tuya_loop fuel raw result ≢ starved
unfolding tuya_loop
tuya_loop-ne-starved zero raw result h = absurd (omega arith)
tuya_loop-ne-starved (suc fuel) (dp_id ∷ dp_type ∷ hi ∷ lo ∷ rest) result h = ground (
  arith,
  tuya_loop-ne-starved fuel (drop (be16 hi lo) rest)
      (assign dp_id (dp_value dp_type (take (be16 hi lo) rest)) result)
      (omega (arith, length-drop (be16 hi lo) rest)),
)
tuya_loop-ne-starved (suc fuel) _ result h = λ e. cc

xiaomi_loop-ne-starved :
    (fuel : ℕ) (raw : Bytes) (result : Assignments)
    → length raw < fuel
    → xiaomi_loop fuel raw result ≢ starved
unfolding xiaomi_loop
xiaomi_loop-ne-starved zero raw result h = absurd (omega arith)
xiaomi_loop-ne-starved (suc fuel) (tag ∷ type_id ∷ rest) result h =
    after (decode_value type_id rest) refl (λ v n.
      xiaomi_loop-ne-starved fuel (drop n rest) ((tag, v) ∷ result)
        (omega (arith, length-drop n rest)))
  where
    after :
        (o : Outcome DecodeError (Value × ℕ))
        → decode_value type_id rest ≡ o
        → ((v : Value) (n : ℕ) → xiaomi_loop fuel (drop n rest) ((tag, v) ∷ result) ≢ starved)
        → xiaomi_loop (suc fuel) (tag ∷ type_id ∷ rest) result ≢ starved
    after (ok (v, n)) d again = rw (d, xiaomi_loop) (again v n)
    after (err e) d again = rw (d, xiaomi_loop) (λ e'. cc)
    after panic d again = rw (d, xiaomi_loop) (λ e'. cc)
xiaomi_loop-ne-starved (suc fuel) _ result h = λ e. cc

-- On any bytes both decoders end: the fuel they are given is enough.
pub decoders-ne-starved :
    (raw : Bytes) → (decode_tuya_dps raw ≢ starved) × (decode_xiaomi_tlv raw ≢ starved)
unfolding decode_tuya_dps decode_xiaomi_tlv
decoders-ne-starved (s0 ∷ s1 ∷ raw) = (
  tuya_loop-ne-starved (suc (length raw)) raw [] (omega arith),
  xiaomi_loop-ne-starved _ (s0 ∷ s1 ∷ raw) [] (omega arith),
)
decoders-ne-starved raw = (λ e. cc, xiaomi_loop-ne-starved (suc (length raw)) raw [] (omega arith))

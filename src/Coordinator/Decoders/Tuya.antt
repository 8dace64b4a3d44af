-- ===== src/Coordinator/Decoders/Tuya.antt =====
-- Tuya data points: what a device writes is what the map holds.
use zigbee_go_home.Base.{
  ℕ, zero, suc, ◌/◌, ◌%◌, ◌^◌, ◌≤◌, ◌<◌, ◌≡◌, ◌≢◌, refl, sym, ap, ◌∙◌, Bool, true, false, List, [],
  ◌∷◌, ◌++◌, ltb, if◌then◌else◌, length, length-append, take-append, drop-append, All, some,
  append_assoc, append-nil, arith,
}
use zigbee_go_home.Base.Bytes.{Bytes, IsByte}
use zigbee_go_home.Base.Int.{pos}
use zigbee_go_home.Zcl.Value.{Value, bool, int64, string, bytes}
use zigbee_go_home.Coordinator.Decoders.{
  Assignments, lookup, complete, failed, be16, bitmap_value, dp_bool, dp_number, dp_enum, dp_value,
  assign, tuya_loop, decode_tuya_dps,
}

-- The values of the Tuya protocol.
pub data DpValue : Type 0 where
  raw : Bytes → DpValue
  switch : Bool → DpValue
  number : ℕ → DpValue
  text : Bytes → DpValue
  choice : ℕ → DpValue
  flags : ℕ → DpValue

abbrev pub be32 : ℕ → Bytes
be32 n = n / 2 ^ 24 % 256 ∷ n / 2 ^ 16 % 256 ∷ n / 256 % 256 ∷ n % 256 ∷ []

-- Type byte and data on the wire.
unfoldable pub wire : DpValue → ℕ × Bytes
wire (raw bs) = (0, bs)
wire (switch b) = (1, (if b then 1 else 0) ∷ [])
wire (number n) = (2, be32 n)
wire (text s) = (3, s)
wire (choice n) = (4, n ∷ [])
wire (flags n) = (5, be32 n)

-- The Go value that stands for it.
unfoldable pub meaning : DpValue → Value
meaning (raw bs) = bytes bs
meaning (switch b) = bool b
meaning (number n) = int64 (pos n)
meaning (text s) = string s
meaning (choice n) = int64 (pos n)
meaning (flags n) = int64 (pos n)

abbrev pub IsDpValue : DpValue → Type 0
IsDpValue (raw bs) = length bs < 2 ^ 16
IsDpValue (switch b) = Unit
IsDpValue (number n) = n < 2 ^ 32
IsDpValue (text s) = length s < 2 ^ 16
IsDpValue (choice n) = IsByte n
IsDpValue (flags n) = n < 2 ^ 32

pub record Dp : Type 0 where
  pub id : ℕ
  pub value : DpValue

dp_value-wire : (d : DpValue) → IsDpValue d → dp_value (wire d).0 (wire d).1 ≡ some (meaning d)
unfolding dp_value wire meaning dp_bool dp_number dp_enum bitmap_value
dp_value-wire (raw bs) h = refl
dp_value-wire (switch true) h = refl
dp_value-wire (switch false) h = refl
dp_value-wire (number n) h = ap (λ t. some (int64 (pos t))) (omega arith)
dp_value-wire (text s) h = refl
dp_value-wire (choice n) h = refl
dp_value-wire (flags n) h = ap (λ t. some (int64 (pos t))) (omega arith)

length-wire : (d : DpValue) → IsDpValue d → length (wire d).1 < 2 ^ 16
unfolding wire
length-wire (raw bs) h = h
length-wire (switch true) h = omega arith
length-wire (switch false) h = omega arith
length-wire (number n) h = omega arith
length-wire (text s) h = h
length-wire (choice n) h = omega arith
length-wire (flags n) h = omega arith

-- One data point as a device writes it.
unfoldable pub dp_bytes : Dp → Bytes
dp_bytes d =
    let (dp_type, content) = wire d.value in
    d.id ∷ dp_type ∷ length content / 256 % 256 ∷ length content % 256 ∷ content

length-dp_bytes : (d : Dp) → 4 ≤ length (dp_bytes d)
unfolding dp_bytes
length-dp_bytes d = omega arith

unfoldable pub all_bytes : List Dp → Bytes
all_bytes [] = []
all_bytes (d ∷ ds) = dp_bytes d ++ all_bytes ds

-- The map after the data points, from the one before.
unfoldable pub assigned : List Dp → Assignments → Assignments
assigned [] result = result
assigned (d ∷ ds) result = assigned ds ((d.id, meaning d.value) ∷ result)

abbrev pub IsDp : Dp → Type 0
IsDp d = IsDpValue d.value

tuya_loop_step :
    (fuel : ℕ) (d : Dp) (rest : Bytes) (result : Assignments)
    → IsDp d
    → tuya_loop (suc fuel) (dp_bytes d ++ rest) result
      ≡ tuya_loop fuel rest ((d.id, meaning d.value) ∷ result)
unfolding tuya_loop dp_bytes assign
tuya_loop_step fuel d rest result h =
    rw (same, take-append content rest, drop-append content rest, dp_value-wire d.value h, fits)
      refl
  where
    content : Bytes
    content = (wire d.value).1

    same : be16 (length content / 256 % 256) (length content % 256) ≡ length content
    same = omega (arith, length-wire d.value h)

    fits : ltb (length (content ++ rest)) (length content) ≡ false
    fits = ground (arith, length-append content rest)

tuya_loop-all_bytes :
    (fuel : ℕ) (ds : List Dp) (rest : Bytes) (result : Assignments)
    → length (all_bytes ds ++ rest) < fuel
    → All IsDp ds
    → (left : ℕ) × (length rest < left)
      × (tuya_loop fuel (all_bytes ds ++ rest) result ≡ tuya_loop left rest (assigned ds result))
unfolding all_bytes assigned
tuya_loop-all_bytes zero ds rest result l h = absurd (omega arith)
tuya_loop-all_bytes (suc fuel) [] rest result l h = (suc fuel, l, refl)
tuya_loop-all_bytes (suc fuel) (d ∷ ds) rest result l (hd, hds) =
    let (left, enough, e) =
      tuya_loop-all_bytes fuel ds rest ((d.id, meaning d.value) ∷ result) shorter hds in
    (left, enough, whole ∙ tuya_loop_step fuel d (all_bytes ds ++ rest) result hd ∙ e)
  where
    shorter : length (all_bytes ds ++ rest) < fuel
    shorter = omega (
      arith,
      length-append (dp_bytes d ++ all_bytes ds) rest,
      length-append (dp_bytes d) (all_bytes ds),
      length-append (all_bytes ds) rest,
      length-dp_bytes d,
    )

    whole :
        tuya_loop (suc fuel) ((dp_bytes d ++ all_bytes ds) ++ rest) result
        ≡ tuya_loop (suc fuel) (dp_bytes d ++ (all_bytes ds ++ rest)) result
    whole = ap (λ t. tuya_loop (suc fuel) t result) (append_assoc (dp_bytes d) (all_bytes ds) rest)

-- A data point that is not assigned again keeps its value.
lookup-assigned_other :
    (key : ℕ) (ds : List Dp) (result : Assignments)
    → All (λ d. d.id ≢ key) ds
    → lookup key (assigned ds result) ≡ lookup key result
unfolding assigned lookup
lookup-assigned_other key [] result h = refl
lookup-assigned_other key (d ∷ ds) result (ne, hs) =
    lookup-assigned_other key ds ((d.id, meaning d.value) ∷ result) hs ∙ ground arith

lookup-assigned :
    (d : Dp) (before after : List Dp) (result : Assignments)
    → All (λ e. e.id ≢ d.id) after
    → lookup d.id (assigned (before ++ (d ∷ after)) result) ≡ some (meaning d.value)
unfolding assigned lookup
lookup-assigned d [] after result h =
    lookup-assigned_other d.id after ((d.id, meaning d.value) ∷ result) h ∙ ground arith
lookup-assigned d (b ∷ before) after result h =
    lookup-assigned d before after ((b.id, meaning b.value) ∷ result) h

tuya_loop_end :
    (left : ℕ) (result : Assignments) → 0 < left → tuya_loop left [] result ≡ complete result
unfolding tuya_loop
tuya_loop_end zero result h = absurd (omega arith)
tuya_loop_end (suc left) result h = refl

tuya_loop_cut :
    (left dp_id dp_type hi lo : ℕ) (part : Bytes) (result : Assignments)
    → 0 < left
    → length part < be16 hi lo
    → tuya_loop left (dp_id ∷ dp_type ∷ hi ∷ lo ∷ part) result ≡ failed result
unfolding tuya_loop
tuya_loop_cut zero dp_id dp_type hi lo part result h short = absurd (omega arith)
tuya_loop_cut (suc left) dp_id dp_type hi lo part result h short = ground arith

-- `decodeTuyaDPs` reads a frame of well-formed data points with no error, and the map holds for each
-- identifier the value of the last data point that has it.
pub decode_tuya_dps-all_bytes :
    (s0 s1 : ℕ) (d : Dp) (before after : List Dp)
    → All IsDp (before ++ (d ∷ after))
    → All (λ e. e.id ≢ d.id) after
    → (result : Assignments) × (decode_tuya_dps (s0 ∷ s1 ∷ all_bytes (before ++ (d ∷ after)))
        ≡ complete result)
      × (lookup d.id result ≡ some (meaning d.value))
unfolding decode_tuya_dps
decode_tuya_dps-all_bytes s0 s1 d before after h last =
    (assigned ds [], done, lookup-assigned d before after [] last)
  where
    ds : List Dp
    ds = before ++ (d ∷ after)

    done : tuya_loop (suc (length (all_bytes ds))) (all_bytes ds) [] ≡ complete (assigned ds [])
    done =
        let (left, enough, e) =
          tuya_loop-all_bytes (suc (length (all_bytes ds))) ds [] []
            (omega (arith, length-append {A = ℕ} (all_bytes ds) [])) h in
        ap (λ t. tuya_loop (suc (length (all_bytes ds))) t []) (sym (append-nil (all_bytes ds)))
        ∙ e
        ∙ tuya_loop_end left (assigned ds []) (omega (arith, enough))

-- A frame that is cut off inside a data point gives an error, and beside it the data points before.
pub decode_tuya_dps_cut :
    (s0 s1 dp_id dp_type hi lo : ℕ) (part : Bytes) (ds : List Dp)
    → All IsDp ds
    → length part < be16 hi lo
    → decode_tuya_dps (s0 ∷ s1 ∷ (all_bytes ds ++ (dp_id ∷ dp_type ∷ hi ∷ lo ∷ part)))
      ≡ failed (assigned ds [])
unfolding decode_tuya_dps
decode_tuya_dps_cut s0 s1 dp_id dp_type hi lo part ds h short =
    let rest : Bytes = dp_id ∷ dp_type ∷ hi ∷ lo ∷ part in
    let (left, enough, e) =
      tuya_loop-all_bytes (suc (length (all_bytes ds ++ rest))) ds rest [] (omega arith) h in
    e ∙ tuya_loop_cut left dp_id dp_type hi lo part (assigned ds []) (omega (arith, enough)) short

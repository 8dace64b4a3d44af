-- ===== src/Ncp/RawReader.antt =====
-- nrf52840_hdlc.go, `readRawZBOSSFrame`: finds the next raw frame in the serial stream. The stream
-- is the list of the bytes that the reader will deliver before its next error. Every turn of the
-- loop takes a byte, and a turn that unreads one has taken two; the fuel counts turns.
pub mod Framing
pub mod Resync
use zigbee_go_home.Base.{
  ℕ, zero, suc, ◌+◌, ◌-◌, Bool, not, ◌||◌, List, [], ◌∷◌, ◌++◌, ltb, ◌==◌, if◌then◌else◌, length,
  take, drop,
}
use zigbee_go_home.Base.Bytes.{Bytes, le16}
use zigbee_go_home.Ncp.Frame.{sig0, sig1}

abbrev pub max_frame_size : ℕ
max_frame_size = 4096

-- `stuck` is no result of the source: the fuel ran out.
pub data Read : Type 0 where
  got : Bytes → Bytes → Read
  read_failed : Read
  stuck : Read

-- Behind a signature. `remaining` is an int in the source; where the size is 0 or 1 it is negative,
-- and stops at 0 here: less than 3 both times.
unfoldable pub read_body : (Bytes → Read) → Bytes → Read
read_body again [] = read_failed
read_body again (lo ∷ []) = read_failed
read_body again (lo ∷ hi ∷ rest) =
    let remaining = le16 lo hi - 2 in
    let next = again rest in
    if ltb remaining 3 || ltb max_frame_size remaining
    then next
    else if ltb (length rest) remaining
    then read_failed
    else got (sig0 ∷ sig1 ∷ lo ∷ hi ∷ take remaining rest) (drop remaining rest)

-- Behind a first byte 0xDE. Where the next byte is 0xDE again it is put back.
unfoldable pub after_sig0 : (Bytes → Read) → Bytes → Read
after_sig0 again [] = read_failed
after_sig0 again (b2 ∷ rest) =
    if not (b2 == sig1)
    then again (if b2 == sig0 then b2 ∷ rest else rest)
    else read_body again rest

-- One turn of the loop.
unfoldable pub scan : (Bytes → Read) → Bytes → Read
scan again [] = read_failed
scan again (b ∷ rest) = if not (b == sig0) then again rest else after_sig0 again rest

unfoldable pub read_raw_fuel : ℕ → Bytes → Read
read_raw_fuel zero stream = stuck
read_raw_fuel (suc fuel) stream = scan (read_raw_fuel fuel) stream

unfoldable pub read_raw_frame : Bytes → Read
read_raw_frame stream = read_raw_fuel (suc (length stream)) stream

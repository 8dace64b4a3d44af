-- ===== src/Base/Bytes.antt =====
-- Bytes, and the 16-bit words of `binary.LittleEndian`.
use Prim.Native.Nat.{ℕ, ◌+◌, ◌*◌, ◌/◌, ◌%◌, ◌<◌}
use mathlib.Core.List.{List, [], ◌∷◌}

abbrev pub Bytes : Type 0
Bytes = List ℕ

abbrev pub IsByte : ℕ → Type 0
IsByte b = b < 256

-- `binary.LittleEndian.Uint16` of two bytes.
abbrev pub le16 : ℕ → ℕ → ℕ
le16 lo hi = lo + hi * 256

-- `binary.LittleEndian.PutUint16`: the low byte, then the high byte of a uint16.
abbrev pub put_le16 : ℕ → Bytes
put_le16 v = v % 256 ∷ v / 256 % 256 ∷ []

-- ===== src/Base/ByteStrings.antt =====
-- Byte strings, and the little-endian numbers of the wire formats.
use Prim.Native.Nat.{ℕ, ◌+◌, ◌*◌, ◌/◌, ◌%◌, ◌^◌, ◌<◌}
use mathlib.Core.Path.{◌≡◌}
use mathlib.Core.List.{List, [], ◌∷◌}
use native.Mathlib.Omega.{arith}

abbrev pub Bytes : Type 0
Bytes = List ℕ

-- `u16::to_le_bytes` and `u32::to_le_bytes`
abbrev pub u16_to_le_bytes : ℕ → Bytes
u16_to_le_bytes n = n % 256 ∷ n / 256 % 256 ∷ []

abbrev pub u32_to_le_bytes : ℕ → Bytes
u32_to_le_bytes n = n % 256 ∷ n / 256 % 256 ∷ n / 65536 % 256 ∷ n / 16777216 % 256 ∷ []

-- `from_le_bytes`, at any width
abbrev pub from_le_bytes : Bytes → ℕ
from_le_bytes [] = 0
from_le_bytes (b ∷ bs) = b + 256 * from_le_bytes bs

pub u16_le_bytes_lem : (n : ℕ) → n < 2 ^ 16 → from_le_bytes (u16_to_le_bytes n) ≡ n
u16_le_bytes_lem n h = omega arith

pub u32_le_bytes_lem : (n : ℕ) → n < 2 ^ 32 → from_le_bytes (u32_to_le_bytes n) ≡ n
u32_le_bytes_lem n h = omega arith

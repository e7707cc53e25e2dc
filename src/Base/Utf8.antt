-- ===== src/Base/Utf8.antt =====
-- `std::str::from_utf8`: the byte sequences that are well-formed UTF-8, read by an automaton that
-- keeps how many continuation bytes are due and the range of the next one.
use Prim.Native.Nat.{ℕ, zero, suc}
use mathlib.Core.Bool.{Bool, true, false, ◌&&◌}
use mathlib.Core.Option.{Option, none, some}
use mathlib.Core.List.{[], ◌∷◌}
use elbus.Base.Tests.{◌==◌, ltb, leb, if◌then◌else◌}
use elbus.Base.ByteStrings.{Bytes}

pub data Due : Type 0 where
  start : Due
  continuation : ℕ → ℕ → ℕ → Due

abbrev within : ℕ → ℕ → ℕ → Bool
within lo hi b = leb lo b && leb b hi

-- the lead byte of a character
first_byte : ℕ → Option Due
first_byte b =
    if ltb b 0x80
    then some start
    else if within 0xc2 0xdf b
    then some (continuation 0 0x80 0xbf)
    else if b == 0xe0
    then some (continuation 1 0xa0 0xbf)
    else if b == 0xed
    then some (continuation 1 0x80 0x9f)
    else if within 0xe1 0xef b
    then some (continuation 1 0x80 0xbf)
    else if b == 0xf0
    then some (continuation 2 0x90 0xbf)
    else if within 0xf1 0xf3 b
    then some (continuation 2 0x80 0xbf)
    else if b == 0xf4
    then some (continuation 2 0x80 0x8f)
    else none

next_byte : Due → ℕ → Option Due
unfolding first_byte
next_byte start b = first_byte b
next_byte (continuation zero lo hi) b = if within lo hi b then some start else none
next_byte (continuation (suc n) lo hi) b =
    if within lo hi b then some (continuation n 0x80 0xbf) else none

valid_from : Option Due → Bytes → Bool
unfolding next_byte
valid_from none bs = false
valid_from (some start) [] = true
valid_from (some (continuation _ _ _)) [] = false
valid_from (some d) (b ∷ bs) = valid_from (next_byte d b) bs

unfoldable pub valid_utf8 : Bytes → Bool
unfolding valid_from
valid_utf8 = valid_from (some start)

-- ===== src/Base/Pieces.antt =====
-- Text in pieces: `str::split`, `str::contains` and `str::trim`, on UTF-8 bytes.
use Prim.Native.Nat.{ℕ, zero, suc}
use mathlib.Core.Path.{◌≡◌, refl}
use mathlib.Core.Logic.{◌≢◌}
use mathlib.Core.Bool.{Bool, true, false}
use mathlib.Core.Option.{Option, none, some}
use mathlib.Core.List.{List, [], ◌∷◌, ◌++◌, map}
use native.Mathlib.Omega.{arith}
use elbus.Base.Tests.{◌==◌, if◌then◌else◌}
use elbus.Base.Lists.{length, drop, All}
use elbus.Base.ByteStrings.{Bytes}
use elbus.Base.Text.{starts_with}

cons_head : ℕ → List Bytes → List Bytes
cons_head c [] = (c ∷ []) ∷ []
cons_head c (t ∷ ts) = (c ∷ t) ∷ ts

-- `str::split` at a character of one byte: never empty
unfoldable pub split_on : ℕ → Bytes → List Bytes
unfolding cons_head
split_on sep [] = [] ∷ []
split_on sep (c ∷ cs) =
    let rest = split_on sep cs in if c == sep then [] ∷ rest else cons_head c rest

-- A piece has no separator in it.
abbrev pub Lacks : ℕ → Bytes → Type 0
Lacks sep = All λ c. c ≢ sep

pub split_on-append :
    (sep : ℕ) (t rest : Bytes)
    → Lacks sep t
    → split_on sep (t ++ (sep ∷ rest)) ≡ t ∷ split_on sep rest
unfolding split_on
split_on-append sep [] rest h = ground arith
split_on-append sep (c ∷ cs) rest h = ground (arith, split_on-append sep cs rest h.1)

pub split_on-none : (sep : ℕ) (t : Bytes) → Lacks sep t → split_on sep t ≡ t ∷ []
unfolding split_on
split_on-none sep [] h = refl
split_on-none sep (c ∷ cs) h = ground (arith, split_on-none sep cs h.1)

has_byte : ℕ → Bytes → Bool
has_byte b [] = false
has_byte b (c ∷ cs) = let rest = has_byte b cs in if b == c then true else rest

-- `str::contains` for any of some characters of one byte
unfoldable pub has_any : Bytes → Bytes → Bool
unfolding has_byte
has_any cs [] = false
has_any cs (b ∷ bs) = let rest = has_any cs bs in if has_byte b cs then true else rest

reverse_onto : Bytes → Bytes → Bytes
reverse_onto [] acc = acc
reverse_onto (b ∷ bs) acc = reverse_onto bs (b ∷ acc)

unfoldable pub reversed : Bytes → Bytes
unfolding reverse_onto
reversed bs = reverse_onto bs []

-- The first of the characters, written out in bytes, that the text begins with, taken off it.
unfoldable pub strip_any : List Bytes → Bytes → Option Bytes
unfolding starts_with
strip_any [] s = none
strip_any (c ∷ cs) s =
    let rest = strip_any cs s in if starts_with c s then some (drop (length c) s) else rest

strip_all : ℕ → List Bytes → Bytes → Bytes
unfolding strip_any
strip_all zero cs s = s
strip_all (suc fuel) cs s = elim (strip_any cs s) [ none ↦ s | some rest ↦ strip_all fuel cs rest ]

-- the characters of Unicode's property White_Space, in UTF-8
abbrev pub white_space : List Bytes
white_space =
    (9 ∷ [])
    ∷ (10 ∷ [])
    ∷ (11 ∷ [])
    ∷ (12 ∷ [])
    ∷ (13 ∷ [])
    ∷ (32 ∷ [])
    ∷ (0xC2 ∷ 0x85 ∷ [])
    ∷ (0xC2 ∷ 0xA0 ∷ [])
    ∷ (0xE1 ∷ 0x9A ∷ 0x80 ∷ [])
    ∷ (0xE2 ∷ 0x80 ∷ 0x80 ∷ [])
    ∷ (0xE2 ∷ 0x80 ∷ 0x81 ∷ [])
    ∷ (0xE2 ∷ 0x80 ∷ 0x82 ∷ [])
    ∷ (0xE2 ∷ 0x80 ∷ 0x83 ∷ [])
    ∷ (0xE2 ∷ 0x80 ∷ 0x84 ∷ [])
    ∷ (0xE2 ∷ 0x80 ∷ 0x85 ∷ [])
    ∷ (0xE2 ∷ 0x80 ∷ 0x86 ∷ [])
    ∷ (0xE2 ∷ 0x80 ∷ 0x87 ∷ [])
    ∷ (0xE2 ∷ 0x80 ∷ 0x88 ∷ [])
    ∷ (0xE2 ∷ 0x80 ∷ 0x89 ∷ [])
    ∷ (0xE2 ∷ 0x80 ∷ 0x8A ∷ [])
    ∷ (0xE2 ∷ 0x80 ∷ 0xA8 ∷ [])
    ∷ (0xE2 ∷ 0x80 ∷ 0xA9 ∷ [])
    ∷ (0xE2 ∷ 0x80 ∷ 0xAF ∷ [])
    ∷ (0xE2 ∷ 0x81 ∷ 0x9F ∷ [])
    ∷ (0xE3 ∷ 0x80 ∷ 0x80 ∷ [])
    ∷ []

-- `str::trim`: a text has no more characters than bytes, which are the fuel of either side
unfoldable pub trim : Bytes → Bytes
unfolding strip_all reversed
trim s =
    let front = strip_all (length s) white_space s in
    reversed (strip_all (length front) (map reversed white_space) (reversed front))

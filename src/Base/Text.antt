-- ===== src/Base/Text.antt =====
-- Text as its UTF-8 bytes: literals, equality, search, and `splitn(2, |c| *c == 0)`.
use Prim.Native.Nat.{ℕ, suc}
use Prim.Native.Char.{code}
use Prim.Native.String.{String}
use mathlib.Core.Path.{◌≡◌, refl}
use mathlib.Core.Logic.{◌↔◌, ◌≢◌}
use mathlib.Core.Bool.{Bool, true, false, ◌&&◌}
use mathlib.Core.Option.{Option, none, some}
use mathlib.Core.Option
use mathlib.Core.List.{[], ◌∷◌, ◌++◌}
use native.Mathlib.Omega.{arith}
use elbus.Base.Tests.{◌==◌, if◌then◌else◌}
use elbus.Base.Lists.{length, drop, All}
use elbus.Base.ByteStrings.{Bytes}

-- The bytes of an ASCII literal.
abbrev pub codes : String → Bytes
codes String.[] = []
codes (String.◌∷◌ c s) = code c ∷ codes s

-- `==` on byte strings
unfoldable pub eq_bytes : Bytes → Bytes → Bool
eq_bytes [] [] = true
eq_bytes (x ∷ xs) (y ∷ ys) = x == y && eq_bytes xs ys
eq_bytes _ _ = false

pub eq_bytes_refl : (xs : Bytes) → eq_bytes xs xs ≡ true
unfolding eq_bytes
eq_bytes_refl [] = refl
eq_bytes_refl (x ∷ xs) = ground (arith, eq_bytes_refl xs)

pub eq_bytes→eq : (xs ys : Bytes) → eq_bytes xs ys ≡ true → xs ≡ ys
unfolding eq_bytes
eq_bytes→eq [] [] h = refl
eq_bytes→eq [] (y ∷ ys) h = cc
eq_bytes→eq (x ∷ xs) [] h = cc
eq_bytes→eq (x ∷ xs) (y ∷ ys) h = ground (arith, eq_bytes→eq xs ys)

pub eq_bytes_iff : (xs ys : Bytes) → (eq_bytes xs ys ≡ true) ↔ (xs ≡ ys)
eq_bytes_iff xs ys = (eq_bytes→eq xs ys, λ e. ground (arith, e, eq_bytes_refl xs))

-- `str::starts_with`
unfoldable pub starts_with : Bytes → Bytes → Bool
starts_with [] ys = true
starts_with (x ∷ xs) [] = false
starts_with (x ∷ xs) (y ∷ ys) = x == y && starts_with xs ys

pub starts_with-append : (p s : Bytes) → starts_with p (p ++ s) ≡ true
unfolding starts_with
starts_with-append [] s = refl
starts_with-append (x ∷ xs) s = ground (arith, starts_with-append xs s)

pub starts_with→append : (p s : Bytes) → starts_with p s ≡ true → p ++ drop (length p) s ≡ s
unfolding starts_with
starts_with→append [] s h = refl
starts_with→append (x ∷ xs) [] h = cc
starts_with→append (x ∷ xs) (y ∷ ys) h = ground (arith, starts_with→append xs ys)

-- `str::find` of a text that is not empty
unfoldable pub find : Bytes → Bytes → Option ℕ
unfolding starts_with
find p [] = none
find p (c ∷ cs) =
    let later = find p cs in if starts_with p (c ∷ cs) then some 0 else Option.map suc later

-- `buf.splitn(2, |c| *c == 0)`: what stands before the first zero byte, and, if there is one, what
-- stands behind it.
unfoldable pub split_zero : Bytes → Bytes × Option Bytes
split_zero [] = ([], none)
split_zero (c ∷ cs) =
    let (head, rest) = split_zero cs in if c == 0 then ([], some cs) else (c ∷ head, rest)

abbrev pub NoZero : Bytes → Type 0
NoZero = All λ c. c ≢ 0

pub split_zero-append : (t rest : Bytes) → NoZero t → split_zero (t ++ 0 ∷ rest) ≡ (t, some rest)
unfolding split_zero
split_zero-append [] rest h = refl
split_zero-append (c ∷ cs) rest h = ground (arith, split_zero-append cs rest h.1)

pub split_zero-none : (t : Bytes) → NoZero t → split_zero t ≡ (t, none)
unfolding split_zero
split_zero-none [] h = refl
split_zero-none (c ∷ cs) h = ground (arith, split_zero-none cs h.1)

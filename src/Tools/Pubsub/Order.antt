-- ===== src/Tools/Pubsub/Order.antt =====
-- src/tools/pubsub.rs: the entries of a map of topics stay in the order of their keys.
use elbus.Base.{
  ℕ, ◌≤◌, ◌≡◌, refl, arith, true, false, Bytes, [], ◌∷◌, none, length, All, starts_with, eq_bytes,
  Bool-cases, inl, inr,
}
use elbus.Broker.Db.{lookup}
use elbus.Tools.Pubsub.{less, Entries, insert_entry}

pub less_trans : (x y z : Bytes) → less x y ≡ true → less y z ≡ true → less x z ≡ true
unfolding less
less_trans x y [] h k = cc
less_trans x [] (c ∷ z) h k = cc
less_trans [] (b ∷ y) (c ∷ z) h k = refl
less_trans (a ∷ x) (b ∷ y) (c ∷ z) h k = ground (arith, less_trans x y z)

-- Two different texts are in order one way or the other.
pub less_total : (x y : Bytes) → less x y ≡ false → eq_bytes y x ≡ false → less y x ≡ true
unfolding less eq_bytes
less_total [] [] h k = cc
less_total (a ∷ x) [] h k = refl
less_total [] (b ∷ y) h k = cc
less_total (a ∷ x) (b ∷ y) h k = ground (arith, less_total x y)

-- Of two prefixes of one text, the lesser one is not longer.
pub length-less :
    (p q t : Bytes)
    → less p q ≡ true
    → starts_with p t ≡ true
    → starts_with q t ≡ true
    → length p ≤ length q
unfolding less starts_with
length-less [] q t h hp hq = omega arith
length-less (a ∷ p) [] t h hp hq = cc
length-less (a ∷ p) (b ∷ q) [] h hp hq = cc
length-less (a ∷ p) (b ∷ q) (c ∷ t) h hp hq = ground (arith, length-less p q t)

-- All keys of the map come behind `k`.
abbrev pub Above : Bytes → Entries → Type 0
Above k m = All (λ (e : Bytes × ℕ). less k e.0 ≡ true) m

abbrev pub IsSorted : Entries → Type 0
IsSorted [] = Unit {0}
IsSorted (e ∷ m) = Above e.0 m × IsSorted m

Above-trans : (j k : Bytes) (m : Entries) → less j k ≡ true → Above k m → Above j m
Above-trans j k [] h a = tt
Above-trans j k (e ∷ m) h a = (less_trans j k e.0 h a.0, Above-trans j k m h a.1)

Above-insert_entry :
    (j k : Bytes) (tx : ℕ) (m : Entries)
    → less j k ≡ true
    → Above j m
    → Above j (insert_entry k tx m)
unfolding insert_entry
Above-insert_entry j k tx [] h a = (h, tt)
Above-insert_entry j k tx ((i, ty) ∷ m) h a = elim (Bool-cases (less k i)) [
  | inl e ↦ rw (e, insert_entry) (h, a)
  | inr e ↦ rw (e, insert_entry) (a.0, Above-insert_entry j k tx m h a.1)
]

-- A new key goes into its place.
pub insert_entry-IsSorted :
    (k : Bytes) (tx : ℕ) (m : Entries)
    → lookup k m ≡ none
    → IsSorted m
    → IsSorted (insert_entry k tx m)
unfolding insert_entry lookup
insert_entry-IsSorted k tx [] n s = (tt, tt)
insert_entry-IsSorted k tx ((j, ty) ∷ m) n s = elim (Bool-cases (less k j)) [
  | inl e ↦ rw (e, insert_entry) ((e, Above-trans k j m e s.0), s)
  | inr e ↦
      rw (e, insert_entry)
        (
          Above-insert_entry j k tx m (less_total k j e (ground (arith, n))) s.0,
          insert_entry-IsSorted k tx m (ground (arith, n)) s.1,
        )
]

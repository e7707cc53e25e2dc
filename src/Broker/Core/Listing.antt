-- ===== src/Broker/Core/Listing.antt =====
-- src/broker.rs, the core method `client.list`: which clients it lists, and in which order.
use elbus.Base.{
  ℕ, ◌≡◌, refl, ◌∙◌, arith, true, false, Bytes, List, [], ◌∷◌, Option, none, some, if◌then◌else◌,
  All, eq_bytes, eq_bytes→eq, eq_bytes_refl, Bool-cases, inl, inr,
}
use elbus.Tools.Pubsub.{less}
use elbus.Tools.Pubsub.Order.{less_trans, less_total}
use elbus.Broker.Client.{ElbusClient}
use elbus.Broker.Maps.{Maps}
use elbus.Broker.Db.{Db, lookup, AreUnique}
use elbus.Broker.Registry.Invariant.{Inv}
use elbus.Broker.Core.{ClientInfo, info_of, insert_info, sort_infos, primary_infos, client_list}

less_irrefl : (x : Bytes) → less x x ≡ false
unfolding less
less_irrefl [] = refl
less_irrefl (a ∷ x) = ground (arith, less_irrefl x)

-- No client comes behind one with a greater name.
abbrev pub InOrder : List ClientInfo → Type 0
InOrder [] = Unit {0}
InOrder (c ∷ cs) = All (λ (d : ClientInfo). less d.name c.name ≡ false) cs × InOrder cs

-- all entries of a name
unfoldable pub infos_named : Bytes → List ClientInfo → List ClientInfo
infos_named n [] = []
infos_named n (c ∷ cs) = let rest = infos_named n cs in if eq_bytes c.name n then c ∷ rest else rest

infos_named-insert_info :
    (n : Bytes) (c : ClientInfo) (cs : List ClientInfo)
    → infos_named n (insert_info c cs)
      ≡ (if eq_bytes c.name n then c ∷ infos_named n cs else infos_named n cs)
unfolding infos_named insert_info
infos_named-insert_info n c [] = refl
infos_named-insert_info n c (d ∷ ds) = ground (
  arith,
  infos_named-insert_info n c ds,
  eq_bytes→eq c.name n,
  eq_bytes→eq d.name n,
  less_irrefl n,
)

pub infos_named-sort_infos :
    (n : Bytes) (cs : List ClientInfo) → infos_named n (sort_infos cs) ≡ infos_named n cs
unfolding infos_named sort_infos
infos_named-sort_infos n [] = refl
infos_named-sort_infos n (c ∷ cs) =
    ground (arith, infos_named-insert_info n c (sort_infos cs), infos_named-sort_infos n cs)

All-insert_info :
    (n : Bytes) (c : ClientInfo) (cs : List ClientInfo)
    → less c.name n ≡ false
    → All (λ (d : ClientInfo). less d.name n ≡ false) cs
    → All (λ (d : ClientInfo). less d.name n ≡ false) (insert_info c cs)
unfolding insert_info
All-insert_info n c [] h v = (h, tt)
All-insert_info n c (d ∷ ds) h v = elim (Bool-cases (less d.name c.name)) [
  | inl e ↦ rw (e, insert_info) (v.0, All-insert_info n c ds h v.1)
  | inr e ↦ rw (e, insert_info) (h, v)
]

-- Names that do not come before a name do not come before a lesser one either.
less_back : (x y z : Bytes) → less y x ≡ false → less z y ≡ false → less z x ≡ false
less_back x y z h k = elim (Bool-cases (less z x)) [
  | inr e ↦ e
  | inl e ↦ elim (Bool-cases (eq_bytes x y)) [
    | inl g ↦ ground (arith, eq_bytes→eq x y g)
    | inr g ↦ ground (arith, less_trans z x y e (less_total y x h g))
  ]
]

All-back :
    (x y : Bytes) (cs : List ClientInfo)
    → less y x ≡ false
    → All (λ (d : ClientInfo). less d.name y ≡ false) cs
    → All (λ (d : ClientInfo). less d.name x ≡ false) cs
All-back x y [] h v = tt
All-back x y (c ∷ cs) h v = (less_back x y c.name h v.0, All-back x y cs h v.1)

less_asym : (x y : Bytes) → less x y ≡ true → less y x ≡ false
less_asym x y h = elim (Bool-cases (less y x)) [
  | inr e ↦ e
  | inl e ↦ ground (arith, less_trans x y x h e, less_irrefl x)
]

insert_info-InOrder :
    (c : ClientInfo) (cs : List ClientInfo) → InOrder cs → InOrder (insert_info c cs)
unfolding insert_info
insert_info-InOrder c [] v = (tt, tt)
insert_info-InOrder c (d ∷ ds) v = elim (Bool-cases (less d.name c.name)) [
  | inl e ↦
      rw (e, insert_info)
        (All-insert_info d.name c ds (less_asym d.name c.name e) v.0, insert_info-InOrder c ds v.1)
  | inr e ↦ rw (e, insert_info) ((e, All-back c.name d.name ds e v.0), v)
]

sort_infos-InOrder : (cs : List ClientInfo) → InOrder (sort_infos cs)
unfolding sort_infos
sort_infos-InOrder [] = tt
sort_infos-InOrder (c ∷ cs) = insert_info-InOrder c (sort_infos cs) (sort_infos-InOrder cs)

-- the entry of a primary client that is registered
abbrev pub primaries : (ℕ → ElbusClient) → Option ℕ → List ClientInfo
primaries heap none = []
primaries heap (some id) = if (heap id).primary then info_of (heap id) ∷ [] else []

infos_named-primary_infos :
    (n : Bytes) (heap : ℕ → ElbusClient) (m : List (Bytes × ℕ))
    → ((k : Bytes) (id : ℕ) → lookup k m ≡ some id → (heap id).name ≡ k)
    → AreUnique m
    → infos_named n (primary_infos heap m) ≡ primaries heap (lookup n m)
unfolding infos_named primary_infos lookup
infos_named-primary_infos n heap [] named u = refl
infos_named-primary_infos n heap ((k, id) ∷ rest) named (fresh, u) =
    let same =
      infos_named-primary_infos n heap rest
        (λ j i h. named j i (ground (arith, h, fresh, eq_bytes→eq k j))) u in
    let name = named k id (ground (arith, eq_bytes_refl k)) in
    ground (arith, same, name, fresh, eq_bytes→eq k n)

module _ (X : Maps) where
  -- The core method lists clients in the order of their names; under a name it lists the primary
  -- client that is registered under it and nothing else, if the maps are consistent.
  pub client_list-Lists :
      (db : Db X)
      → Inv X db
      → InOrder (client_list X db)
        × ((n : Bytes) → infos_named n (client_list X db) ≡ primaries db.heap (lookup n db.clients))
  unfolding client_list
  client_list-Lists db v = (
    sort_infos-InOrder (primary_infos db.heap db.clients),
    λ n.
        infos_named-sort_infos n (primary_infos db.heap db.clients)
        ∙ infos_named-primary_infos n db.heap db.clients v.names v.unique,
  )

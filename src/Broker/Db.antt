-- ===== src/Broker/Db.antt =====
-- src/broker.rs: `BrokerDb`, with the client objects that it shares with the connections' tasks.
use elbus.Base.{
  ℕ, Bytes, List, [], ◌∷◌, Option, none, some, ◌==◌, if◌then◌else◌, eq_bytes, eq_bytes→eq,
  eq_bytes_refl, ◌≡◌, arith, Bool-cases, inl, inr,
}
use elbus.Broker.Client.{ElbusClient}
use elbus.Broker.Maps.{Maps, Ref}

-- the map from names to clients: `get`, `remove` and `insert` of a `HashMap`
unfoldable pub lookup : Bytes → List (Bytes × ℕ) → Option ℕ
lookup n [] = none
lookup n ((m, id) ∷ rest) = let later = lookup n rest in if eq_bytes m n then some id else later

unfoldable pub remove : Bytes → List (Bytes × ℕ) → List (Bytes × ℕ)
remove n [] = []
remove n ((m, id) ∷ rest) =
    let later = remove n rest in if eq_bytes m n then later else (m, id) ∷ later

abbrev pub insert : Bytes → ℕ → List (Bytes × ℕ) → List (Bytes × ℕ)
insert n id m = (n, id) ∷ remove n m

pub lookup-remove :
    (k n : Bytes) (m : List (Bytes × ℕ))
    → lookup n (remove k m) ≡ (if eq_bytes k n then none else lookup n m)
unfolding lookup remove
lookup-remove k n [] = ground arith
lookup-remove k n ((j, id) ∷ rest) = ground (
  arith,
  lookup-remove k n rest,
  eq_bytes→eq j k,
  eq_bytes→eq j n,
  eq_bytes→eq k n,
  eq_bytes_refl k,
  eq_bytes_refl j,
  eq_bytes_refl n,
)

pub lookup-insert :
    (k n : Bytes) (id : ℕ) (m : List (Bytes × ℕ))
    → lookup n (insert k id m) ≡ (if eq_bytes k n then some id else lookup n m)
unfolding lookup
lookup-insert k n id m = ground (arith, lookup-remove k n m)

-- No name is entered twice.
abbrev pub AreUnique : List (Bytes × ℕ) → Type 0
AreUnique [] = Unit {0}
AreUnique ((n, id) ∷ rest) = (lookup n rest ≡ none) × AreUnique rest

pub AreUnique-remove : (k : Bytes) (m : List (Bytes × ℕ)) → AreUnique m → AreUnique (remove k m)
unfolding remove
AreUnique-remove k [] u = tt
AreUnique-remove k ((n, id) ∷ rest) (fresh, u) = elim (Bool-cases (eq_bytes n k)) [
  | inl e ↦ rw (e, remove) (AreUnique-remove k rest u)
  | inr e ↦
      rw (e, remove) (ground (arith, lookup-remove k n rest, fresh), AreUnique-remove k rest u)
]

pub AreUnique-insert :
    (k : Bytes) (id : ℕ) (m : List (Bytes × ℕ)) → AreUnique m → AreUnique (insert k id m)
AreUnique-insert k id m u =
    (ground (arith, lookup-remove k k m, eq_bytes_refl k), AreUnique-remove k m u)

-- `clients` maps names to objects, which live in `heap`; `core` is the object of the core RPC
-- client, if it is set.
pub record Db (X : Maps) : Type 0 where
  pub clients : List (Bytes × ℕ)
  pub heap : ℕ → ElbusClient
  pub broadcasts : X.Casts
  pub subscriptions : X.Subs
  pub core : Option ℕ
  pub r_frames : ℕ
  pub r_bytes : ℕ
  pub w_frames : ℕ
  pub w_bytes : ℕ

abbrev pub update : (ℕ → ElbusClient) → ℕ → (ElbusClient → ElbusClient) → ℕ → ElbusClient
update heap id f i = if id == i then f (heap i) else heap i

module _ {X : Maps} where
  abbrev pub modify : Db X → ℕ → (ElbusClient → ElbusClient) → Db X
  modify db id f = record db { heap = update db.heap id f }

  abbrev pub ref : Db X → ℕ → Ref
  ref db id = record { id = id; name = (db.heap id).name }

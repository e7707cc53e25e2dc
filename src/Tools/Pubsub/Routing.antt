-- ===== src/Tools/Pubsub/Routing.antt =====
-- src/tools/pubsub.rs: which handler gets a publication.
use elbus.Base.{
  ℕ, ◌≤◌, ◌≡◌, refl, arith, true, false, Bytes, [], ◌∷◌, Option, none, some, if◌then◌else◌, length,
  starts_with, eq_bytes, eq_bytes→eq, eq_bytes_refl, Bool-cases, Option-cases, inl, inr,
}
use elbus.Broker.Db.{lookup}
use elbus.Tools.Pubsub.{less, Entries, insert_entry, TopicBroker, find_prefix, route}
use elbus.Tools.Pubsub.Order.{length-less, Above, IsSorted}

Above-lookup :
    (j q : Bytes) (ty : ℕ) (m : Entries) → Above j m → lookup q m ≡ some ty → less j q ≡ true
unfolding lookup
Above-lookup j q ty [] a h = cc
Above-lookup j q ty ((i, tx) ∷ m) a h =
    ground (arith, a.0, Above-lookup j q ty m a.1, eq_bytes→eq i q)

pub lookup-insert_entry :
    (k n : Bytes) (tx : ℕ) (m : Entries)
    → lookup k m ≡ none
    → lookup n (insert_entry k tx m) ≡ (if eq_bytes k n then some tx else lookup n m)
unfolding lookup insert_entry
lookup-insert_entry k n tx [] h = refl
lookup-insert_entry k n tx ((j, ty) ∷ m) h = ground (
  arith,
  lookup-insert_entry k n tx m,
  eq_bytes→eq j n,
  eq_bytes→eq k n,
  eq_bytes→eq j k,
  eq_bytes_refl j,
)

-- No prefix of the topic in the map is shorter than `p`.
abbrev pub IsShortest : Bytes → Bytes → Entries → Type 0
IsShortest topic p m =
    (q : Bytes) (ty : ℕ) → lookup q m ≡ some ty → starts_with q topic ≡ true → length p ≤ length q

abbrev pub NoPrefix : Bytes → Entries → Type 0
NoPrefix topic m = (q : Bytes) (ty : ℕ) → lookup q m ≡ some ty → starts_with q topic ≡ false

find_prefix-none : (topic : Bytes) (m : Entries) → find_prefix topic m ≡ none → NoPrefix topic m
unfolding find_prefix lookup
find_prefix-none topic [] h q ty l = cc
find_prefix-none topic ((j, tx) ∷ m) h q ty l =
    ground (arith, find_prefix-none topic m (ground (arith, h)) q ty, eq_bytes→eq j q)

find_prefix-some :
    (topic : Bytes) (m : Entries) (p : Bytes) (tx : ℕ)
    → IsSorted m
    → find_prefix topic m ≡ some (p, tx)
    → (lookup p m ≡ some tx) × (starts_with p topic ≡ true) × IsShortest topic p m
unfolding find_prefix lookup
find_prefix-some topic [] p tx s h = cc
find_prefix-some topic ((j, ty) ∷ m) p tx (a, s) h = elim (Bool-cases (starts_with j topic)) [
  | inl e ↦
      let hp : j ≡ p = ground (arith, h) in
      (
        ground (arith, h, eq_bytes_refl p),
        ground (arith, h),
        λ q tz l k.
            ground (arith, hp, eq_bytes→eq j q, Above-lookup j q tz m a, length-less p q topic),
      )
  | inr e ↦
      let (l, k, least) = find_prefix-some topic m p tx s (ground (arith, h)) in
      (
        ground (arith, l, k, eq_bytes→eq j p),
        k,
        λ q tz lq kq. ground (arith, least q tz, eq_bytes→eq j q),
      )
]

-- Where a topic goes, whatever the order of the maps: to the channel of the topic itself; or else to
-- the channel of the shortest prefix of it; or else nowhere.
pub data Goes (b : TopicBroker) (topic : Bytes) : Option (ℕ × ℕ) → Type 0 where
  exactly : (tx : ℕ) → lookup topic b.topics ≡ some tx → Goes b topic (some (tx, 0))
  by_prefix :
      (p : Bytes) (tx : ℕ)
      → lookup topic b.topics ≡ none
      → lookup p b.prefixes ≡ some tx
      → starts_with p topic ≡ true
      → IsShortest topic p b.prefixes
      → Goes b topic (some (tx, length p))
  nowhere : lookup topic b.topics ≡ none → NoPrefix topic b.prefixes → Goes b topic none

-- A topic goes to the channel that is registered for it, or else to the one of the shortest prefix of
-- it that is registered, or else nowhere, if the map of prefixes is in order.
pub route-Goes :
    (b : TopicBroker) (topic : Bytes) → IsSorted b.prefixes → Goes b topic (route b topic)
unfolding route
route-Goes b topic s = elim (Option-cases (lookup topic b.topics)) [
  | inr (tx, h) ↦ rw (h, route) (exactly tx h)
  | inl h ↦ elim (Option-cases (find_prefix topic b.prefixes)) [
    | inl g ↦ rw (h, g, route) (nowhere h (find_prefix-none topic b.prefixes g))
    | inr ((p, tx), g) ↦
        let (l, k, least) = find_prefix-some topic b.prefixes p tx s g in
        rw (h, g, route) (by_prefix p tx h l k least)
  ]
]

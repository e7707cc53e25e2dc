-- ===== src/Broker/Registry/Effects.antt =====
-- src/broker.rs, `BrokerDb`: which names come and go when a client is registered or dropped.
use elbus.Base.{
  ℕ, ◌≡◌, refl, ◌∙◌, ap, arith, true, false, Bytes, List, [], ◌∷◌, Option, none, some,
  if◌then◌else◌, eq_bytes, eq_bytes→eq, eq_bytes_refl, ◌&&◌, ◌||◌, Option-cases, Bool-cases, inl,
  inr,
}
use elbus.Proto.{Result, ok, err}
use elbus.Broker.Client.{has_name}
use elbus.Broker.Maps.{Maps}
use elbus.Broker.Db.{Db, lookup, remove, lookup-remove, lookup-insert}
use elbus.Broker.Registry.{
  join_primary, join_maps, fill_entry, take_entry, insert_client, leave_maps, trigger_secondary,
  drop_secondaries, leave_primary, drop_to_depth, drop_client,
}

module _ (X : Maps) where
  clients-join_primary :
      (db : Db X) (n : Bytes) (pc : Option ℕ) → (join_primary X db n pc).clients ≡ db.clients
  unfolding join_primary
  clients-join_primary db n none = refl
  clients-join_primary db n (some p) = refl

  name-join_primary :
      (db : Db X) (n : Bytes) (pc : Option ℕ) (i : ℕ)
      → ((join_primary X db n pc).heap i).name ≡ (db.heap i).name
  unfolding join_primary
  name-join_primary db n none i = refl
  name-join_primary db n (some p) i = ground arith

  -- What a registration comes to: an error that leaves the broker as it was, or, for a name that was
  -- free, the name with the new client and every other name as before.
  abbrev pub Registers : Db X → ℕ → Result (Unit {0}) × Db X → Type 0
  Registers db id (err e, after) = after ≡ db
  Registers db id (ok u, after) =
      (lookup (db.heap id).name db.clients ≡ none)
      × ((n : Bytes)
          → lookup n after.clients
            ≡ (if eq_bytes (db.heap id).name n then some id else lookup n db.clients))

  Registers-take_entry :
      (db : Db X) (id : ℕ) (pc : Option ℕ) → Registers db id (take_entry X db id pc)
  unfolding take_entry fill_entry join_maps
  Registers-take_entry db id pc = elim (Option-cases (lookup (db.heap id).name db.clients)) [
    | inl h ↦
        rw (h, take_entry)
          (
            h,
            λ n.
                rw
                  (
                    clients-join_primary db (db.heap id).name pc,
                    name-join_primary db (db.heap id).name pc id,
                  )
                  (lookup-insert (db.heap id).name n id db.clients),
          )
    | inr (i, h) ↦ rw (h, take_entry) refl
  ]

  -- Registering either fails and changes nothing, or takes a name that was free and no other.
  pub insert_client-Registers : (db : Db X) (id : ℕ) → Registers db id (insert_client X db id)
  unfolding insert_client
  insert_client-Registers db id = elim (Bool-cases (db.heap id).primary) [
    | inl h ↦ rw (h, insert_client) (Registers-take_entry db id none)
    | inr h ↦ elim (Option-cases (lookup (db.heap id).primary_name db.clients)) [
      | inl g ↦ rw (h, g, insert_client) refl
      | inr (p, g) ↦ rw (h, g, insert_client) (Registers-take_entry db id (some p))
    ]
  ]

  -- One secondary client goes: nothing but its name disappears, and no object changes its name or
  -- its rank.
  abbrev drop_one : Db X → ℕ → Db X
  drop_one db i = drop_to_depth X 1 (trigger_secondary X db i) i

  clients-drop_one :
      (db : Db X) (i : ℕ)
      → (db.heap i).primary ≡ false
      → (drop_one db i).clients ≡ remove (db.heap i).name db.clients
  unfolding drop_to_depth trigger_secondary leave_maps leave_primary
  clients-drop_one db i h = ground arith

  heap-drop_one :
      (db : Db X) (i j : ℕ)
      → (db.heap i).primary ≡ false
      → (((drop_one db i).heap j).name ≡ (db.heap j).name)
        × (((drop_one db i).heap j).primary ≡ (db.heap j).primary)
  unfolding drop_to_depth trigger_secondary leave_maps leave_primary
  heap-drop_one db i j h = ground arith

  -- The names in `ss` that are registered belong to secondary clients.
  pub record AreSecondary (db : Db X) (ss : List Bytes) : Type 0 where
    pub named : (n : Bytes) (i : ℕ) → lookup n db.clients ≡ some i → (db.heap i).name ≡ n
    pub ranked :
        (n : Bytes) (i : ℕ)
        → has_name n ss ≡ true
        → lookup n db.clients ≡ some i
        → (db.heap i).primary ≡ false

  AreSecondary-drop_one :
      (db : Db X) (s : Bytes) (ss : List Bytes) (i : ℕ)
      → AreSecondary db (s ∷ ss)
      → lookup s db.clients ≡ some i
      → AreSecondary (drop_one db i) ss
  unfolding has_name
  AreSecondary-drop_one db s ss i a e = record {
    named = λ n j l. name j ∙ a.named n j (before n j l);
    ranked = λ n j m l. rank j ∙ a.ranked n j (ground (arith, m)) (before n j l);
  }
    where
      secondary : (db.heap i).primary ≡ false
      secondary = a.ranked s i (ground (arith, eq_bytes_refl s)) e

      name : (j : ℕ) → ((drop_one db i).heap j).name ≡ (db.heap j).name
      name j = (heap-drop_one db i j secondary).0

      rank : (j : ℕ) → ((drop_one db i).heap j).primary ≡ (db.heap j).primary
      rank j = (heap-drop_one db i j secondary).1

      before :
          (n : Bytes) (j : ℕ)
          → lookup n (drop_one db i).clients ≡ some j
          → lookup n db.clients ≡ some j
      before n j l =
          ground
            (arith, clients-drop_one db i secondary, lookup-remove (db.heap i).name n db.clients)

  lookup-drop_secondaries :
      (ss : List Bytes) (db : Db X)
      → AreSecondary db ss
      → (n : Bytes)
      → lookup n (drop_secondaries X (drop_to_depth X 1) db ss).clients
        ≡ (if has_name n ss then none else lookup n db.clients)
  unfolding drop_secondaries has_name
  lookup-drop_secondaries [] db a n = refl
  lookup-drop_secondaries (s ∷ ss) db a n = elim (Option-cases (lookup s db.clients)) [
    | inl h ↦
        rw (h, drop_secondaries)
          (lookup-drop_secondaries ss db
              (record { named = a.named; ranked = λ m i k. a.ranked m i (ground (arith, k)) }) n
            ∙ ground (arith, eq_bytes→eq s n))
    | inr (i, h) ↦
        rw (h, drop_secondaries)
          (lookup-drop_secondaries ss (drop_one db i) (AreSecondary-drop_one db s ss i a h) n
            ∙ ground (
              arith,
              clients-drop_one db i (a.ranked s i (ground (arith, eq_bytes_refl s)) h),
              lookup-remove (db.heap i).name n db.clients,
              a.named s i h,
            ))
  ]

  AreSecondary-leave_maps :
      (db : Db X) (id : ℕ) (ss : List Bytes)
      → AreSecondary db ss
      → AreSecondary (leave_maps X db id) ss
  unfolding leave_maps
  AreSecondary-leave_maps db id ss a = record {
    named = λ n i l. a.named n i (before n i l);
    ranked = λ n i m l. a.ranked n i m (before n i l);
  }
    where
      before :
          (n : Bytes) (i : ℕ)
          → lookup n (leave_maps X db id).clients ≡ some i
          → lookup n db.clients ≡ some i
      before n i l = ground (arith, lookup-remove (db.heap id).name n db.clients)

  lookup-leave_maps :
      (db : Db X) (id : ℕ) (n : Bytes)
      → lookup n (leave_maps X db id).clients
        ≡ (if eq_bytes (db.heap id).name n then none else lookup n db.clients)
  unfolding leave_maps
  lookup-leave_maps db id n = lookup-remove (db.heap id).name n db.clients

  clients-leave_primary : (db : Db X) (id : ℕ) → (leave_primary X db id).clients ≡ db.clients
  unfolding leave_primary
  clients-leave_primary db id = ground arith

  -- Dropping a client frees its name and, if it is a primary client, the names of its secondary
  -- clients, and no other name. The names that it lists as secondary ones are taken to belong to
  -- secondary clients, as far as they are registered.
  pub lookup-drop_client :
      (db : Db X) (id : ℕ) (n : Bytes)
      → AreSecondary db (db.heap id).secondaries
      → lookup n (drop_client X db id).clients ≡ (
          if eq_bytes (db.heap id).name n
            || ((db.heap id).primary && has_name n (db.heap id).secondaries)
          then none
          else lookup n db.clients)
  unfolding drop_client drop_to_depth
  lookup-drop_client db id n a = elim (Bool-cases (db.heap id).primary) [
    | inl h ↦
        rw (h, drop_client)
          (lookup-drop_secondaries (db.heap id).secondaries (leave_maps X db id)
              (AreSecondary-leave_maps db id (db.heap id).secondaries a) n
            ∙ ground (arith, lookup-leave_maps db id n))
    | inr h ↦
        rw (h, drop_client)
          (ap (lookup n) (clients-leave_primary (leave_maps X db id) id)
            ∙ ground (arith, lookup-leave_maps db id n))
  ]

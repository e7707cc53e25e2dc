-- ===== src/Broker/Registry/Invariant.antt =====
-- src/broker.rs, `BrokerDb`: the three maps hold the same clients, under their own names.
use elbus.Base.{
  eq_bytes_refl, ℕ, zero, suc, ◌≡◌, refl, arith, Bool, true, false, Bytes, List, [], ◌∷◌, Option,
  none, some, eq_bytes→eq, Option-cases, Bool-cases, inl, inr,
}
use elbus.Broker.Client.{
  set_registered, is_internal, ElbusClient, add_secondary, remove_secondary, clear_secondaries,
  set_disconnect,
}
use elbus.Broker.Maps.{Maps}
use elbus.Broker.Db.{
  Db, lookup, AreUnique, AreUnique-remove, AreUnique-insert, modify, ref, lookup-remove,
  lookup-insert,
}
use elbus.Broker.Registry.{
  join_primary, join_maps, fill_entry, take_entry, insert_client, leave_maps, trigger_secondary,
  drop_secondaries, leave_primary, drop_to_depth, drop_client, broker_warn_topic,
}

abbrev pub is_some {ℓ} : {A : Type ℓ} → Option A → Bool
is_some none = false
is_some (some _) = true

module _ (X : Maps) where
  -- A name is in the map of clients exactly if it is in the other two; its object has that name and
  -- is marked as registered. No name is entered twice.
  pub record Inv (db : Db X) : Type 0 where
    pub subs : (n : Bytes) → X.has db.subscriptions n ≡ is_some (lookup n db.clients)
    pub casts : (n : Bytes) → X.knows db.broadcasts n ≡ is_some (lookup n db.clients)
    pub names : (n : Bytes) (id : ℕ) → lookup n db.clients ≡ some id → (db.heap id).name ≡ n
    pub flags :
        (n : Bytes) (id : ℕ) → lookup n db.clients ≡ some id → (db.heap id).registered ≡ true
    pub unique : AreUnique db.clients

  -- A change of objects that leaves names and marks alone keeps the invariant.
  pub Inv-modify :
      (db : Db X) (id : ℕ) (f : ElbusClient → ElbusClient)
      → ((c : ElbusClient) → (f c).name ≡ c.name)
      → ((c : ElbusClient) → (f c).registered ≡ c.registered)
      → Inv db
      → Inv (modify db id f)
  Inv-modify db id f hn hr v = record {
    subs = v.subs;
    casts = v.casts;
    names = λ n i e. ground (arith, v.names n i e, hn (db.heap i));
    flags = λ n i e. ground (arith, v.flags n i e, hr (db.heap i));
    unique = v.unique;
  }

  Inv-leave_maps : (db : Db X) (id : ℕ) → Inv db → Inv (leave_maps X db id)
  unfolding leave_maps
  Inv-leave_maps db id v = record {
    subs = λ n. ground (
      arith,
      v.subs n,
      X.has-unregister db.subscriptions (ref db id) n,
      lookup-remove (db.heap id).name n db.clients,
    );
    casts = λ n. ground (
      arith,
      v.casts n,
      X.knows-unregister db.broadcasts (db.heap id).name (ref db id) n,
      lookup-remove (db.heap id).name n db.clients,
    );
    names = λ n i e. ground (arith, v.names n i, lookup-remove (db.heap id).name n db.clients);
    flags = λ n i e. ground (arith, v.flags n i, lookup-remove (db.heap id).name n db.clients);
    unique = AreUnique-remove (db.heap id).name db.clients v.unique;
  }

  Inv-trigger_secondary : (db : Db X) (id : ℕ) → Inv db → Inv (trigger_secondary X db id)
  unfolding trigger_secondary
  Inv-trigger_secondary db id v = elim (Bool-cases (is_internal (db.heap id).kind)) [
    | inl h ↦ rw (h, trigger_secondary) v
    | inr h ↦ rw (h, trigger_secondary) (Inv-modify db id set_disconnect (λ c. refl) (λ c. refl) v)
  ]

  Inv-leave_primary : (db : Db X) (id : ℕ) → Inv db → Inv (leave_primary X db id)
  unfolding leave_primary
  Inv-leave_primary db id v = elim (Option-cases (lookup (db.heap id).primary_name db.clients)) [
    | inl h ↦ rw (h, leave_primary) v
    | inr (p, h) ↦
        rw (h, leave_primary)
          (Inv-modify db p (remove_secondary (db.heap id).name) (λ c. refl) (λ c. refl) v)
  ]

  Inv-drop_secondaries :
      (dropping : Db X → ℕ → Db X)
      → ((db : Db X) (id : ℕ) → Inv db → Inv (dropping db id))
      → (ss : List Bytes) (db : Db X) → Inv db
      → Inv (drop_secondaries X dropping db ss)
  unfolding drop_secondaries
  Inv-drop_secondaries dropping keep [] db v = v
  Inv-drop_secondaries dropping keep (s ∷ ss) db v = elim (Option-cases (lookup s db.clients)) [
    | inl h ↦ rw (h, drop_secondaries) (Inv-drop_secondaries dropping keep ss db v)
    | inr (i, h) ↦
        rw (h, drop_secondaries)
          (Inv-drop_secondaries dropping keep ss (dropping (trigger_secondary X db i) i)
            (keep (trigger_secondary X db i) i (Inv-trigger_secondary db i v)))
  ]

  -- Once the client has left the maps, what is left of dropping it keeps the invariant.
  Inv-leaving :
      (depth : ℕ) (db : Db X) (id : ℕ)
      → ((d : Db X) (i : ℕ) → Inv d → Inv (drop_to_depth X depth d i))
      → Inv (leave_maps X db id)
      → Inv (drop_to_depth X (suc depth) db id)
  unfolding drop_to_depth
  Inv-leaving depth db id k v = elim (Bool-cases (db.heap id).primary) [
    | inl h ↦
        rw (h, drop_to_depth)
          (Inv-modify
            (drop_secondaries X (drop_to_depth X depth) (leave_maps X db id)
              (db.heap id).secondaries)
            id clear_secondaries (λ c. refl) (λ c. refl)
            (Inv-drop_secondaries (drop_to_depth X depth) k (db.heap id).secondaries
              (leave_maps X db id) v))
    | inr h ↦ rw (h, drop_to_depth) (Inv-leave_primary (leave_maps X db id) id v)
  ]

  Inv-drop_to_depth : (depth : ℕ) (db : Db X) (id : ℕ) → Inv db → Inv (drop_to_depth X depth db id)
  unfolding drop_to_depth
  Inv-drop_to_depth zero db id v = v
  Inv-drop_to_depth (suc depth) db id v =
      Inv-leaving depth db id (Inv-drop_to_depth depth) (Inv-leave_maps db id v)

  -- Dropping a client, registered or not, keeps the invariant.
  pub Inv-drop_client : (db : Db X) (id : ℕ) → Inv db → Inv (drop_client X db id)
  unfolding drop_client
  Inv-drop_client = Inv-drop_to_depth 2

  -- A client whose mark has been taken away leaves the maps, and takes the inconsistency with it.
  pub Inv-drop_unmarked :
      (db : Db X) (id : ℕ) → Inv db → Inv (drop_client X (modify db id (set_registered false)) id)
  unfolding drop_client leave_maps
  Inv-drop_unmarked db id v =
      Inv-leaving 1 (modify db id (set_registered false)) id (Inv-drop_to_depth 1) (record {
        subs = λ n. ground (arith, w.subs n);
        casts = λ n. ground (arith, w.casts n);
        names = λ n i e. ground (arith, w.names n i);
        flags = λ n i e. ground (
          arith,
          v.flags n i,
          v.names n i,
          lookup-remove (db.heap id).name n db.clients,
          eq_bytes_refl n,
        );
        unique = AreUnique-remove _ db.clients v.unique;
      })
    where
      w : Inv (leave_maps X db id)
      w = Inv-leave_maps db id v

  Inv-join_primary : (db : Db X) (n : Bytes) (pc : Option ℕ) → Inv db → Inv (join_primary X db n pc)
  unfolding join_primary
  Inv-join_primary db n none v = v
  Inv-join_primary db n (some p) v = Inv-modify db p (add_secondary n) (λ c. refl) (λ c. refl) v

  Inv-join_maps : (db : Db X) (id : ℕ) → Inv db → Inv (join_maps X db id)
  unfolding join_maps
  Inv-join_maps db id v =
      let c = ref db id in
      let k = lookup-insert c.name in
      record {
        subs = λ n. ground (
          arith,
          v.subs n,
          X.has-register db.subscriptions c n,
          k n id db.clients,
          X.has-subscribe (X.register_client db.subscriptions c) broker_warn_topic c n,
        );
        casts = λ n.
            ground (arith, v.casts n, X.knows-register db.broadcasts c.name c n, k n id db.clients);
        names = λ n i e. ground (arith, v.names n i, k n id db.clients, eq_bytes→eq c.name n);
        flags = λ n i e. ground (arith, v.flags n i, k n id db.clients);
        unique = AreUnique-insert c.name id db.clients v.unique;
      }

  Inv-take_entry : (db : Db X) (id : ℕ) (pc : Option ℕ) → Inv db → Inv (take_entry X db id pc).1
  unfolding take_entry fill_entry
  Inv-take_entry db id pc v = elim (Option-cases (lookup (db.heap id).name db.clients)) [
    | inl h ↦
        rw (h, take_entry)
          (Inv-join_maps (join_primary X db (db.heap id).name pc) id
            (Inv-join_primary db (db.heap id).name pc v))
    | inr (i, h) ↦ rw (h, take_entry) v
  ]

  -- Registering a client, whether it succeeds or not, keeps the invariant.
  pub Inv-insert_client : (db : Db X) (id : ℕ) → Inv db → Inv (insert_client X db id).1
  unfolding insert_client
  Inv-insert_client db id v = elim (Bool-cases (db.heap id).primary) [
    | inl h ↦ rw (h, insert_client) (Inv-take_entry db id none v)
    | inr h ↦ elim (Option-cases (lookup (db.heap id).primary_name db.clients)) [
      | inl g ↦ rw (h, g, insert_client) v
      | inr (p, g) ↦ rw (h, g, insert_client) (Inv-take_entry db id (some p) v)
    ]
  ]

-- ===== src/Broker/Safety.antt =====
-- src/broker.rs: the state of the broker stays consistent, and no queue outgrows its capacity,
-- through registrations, announcements and all sending operations.
pub mod Steps
use elbus.Base.{
  ℕ, zero, suc, arith, Bool, true, false, Bytes, List, [], ◌∷◌, Option, none, some, Option-cases,
  Bool-cases, inl, inr,
}
use elbus.Proto.{Result, ok, err}
use elbus.Stream.{Outcome, done, failed, waits}
use elbus.Broker.Maps.{Maps}
use elbus.Broker.Db.{Db, lookup}
use elbus.Broker.Registry.{
  insert_client, take_entry, fill_entry, join_primary, join_maps, drop_client, drop_to_depth,
  drop_secondaries, trigger_secondary, leave_primary, leave_maps,
}
use elbus.Broker.Registry.Invariant.{Inv, Inv-insert_client, Inv-drop_client}
use elbus.Broker.Deliver.{
  Room, BrokerEvent, Parcel, event_reg, event_unreg, send, send_broadcast, publish,
}
use elbus.Broker.Deliver.Keeps.{Keeps, send-keeps, send_broadcast-keeps, publish-keeps}
use elbus.Broker.Deliver.Bounds.{Inv-Keeps, Bounded, Bounded-Keeps}
use elbus.Broker.Announce.{
  unregister_locked, as_result, event_parcel, announce, publish_event, logged, unregister_client,
  registered_with, after_insert, register_client,
}

module _ (X : Maps) where
  Bounded-drop_secondaries :
      (dropping : Db X → ℕ → Db X)
      → ((d : Db X) (i : ℕ) → Bounded X d → Bounded X (dropping d i))
      → (ss : List Bytes) (db : Db X) → Bounded X db
      → Bounded X (drop_secondaries X dropping db ss)
  unfolding drop_secondaries trigger_secondary
  Bounded-drop_secondaries dropping k [] db v = v
  Bounded-drop_secondaries dropping k (s ∷ ss) db v = elim (Option-cases (lookup s db.clients)) [
    | inl h ↦ rw (h, drop_secondaries) (Bounded-drop_secondaries dropping k ss db v)
    | inr (i, h) ↦
        rw (h, drop_secondaries)
          (Bounded-drop_secondaries dropping k ss _
            (k (trigger_secondary X db i) i (λ j. ground (arith, v j))))
  ]

  Bounded-drop_to_depth :
      (depth : ℕ) (db : Db X) (id : ℕ) → Bounded X db → Bounded X (drop_to_depth X depth db id)
  unfolding drop_to_depth leave_maps leave_primary
  Bounded-drop_to_depth zero db id v = v
  Bounded-drop_to_depth (suc depth) db id v =
      let w =
        Bounded-drop_secondaries (drop_to_depth X depth) (Bounded-drop_to_depth depth)
          (db.heap id).secondaries (leave_maps X db id) v in
      λ j. ground (arith, v j, w j)

  pub Bounded-drop_client : (db : Db X) (id : ℕ) → Bounded X db → Bounded X (drop_client X db id)
  unfolding drop_client
  Bounded-drop_client = Bounded-drop_to_depth 2

  Bounded-take_entry :
      (db : Db X) (id : ℕ) (pc : Option ℕ) → Bounded X db → Bounded X (take_entry X db id pc).1
  unfolding take_entry fill_entry join_primary join_maps
  Bounded-take_entry db id none v j = ground (arith, v j)
  Bounded-take_entry db id (some p) v j = ground (arith, v j)

  Bounded-insert_client : (db : Db X) (id : ℕ) → Bounded X db → Bounded X (insert_client X db id).1
  unfolding insert_client
  Bounded-insert_client db id v = elim (Bool-cases (db.heap id).primary) [
    | inl h ↦ rw (h, insert_client) (Bounded-take_entry db id none v)
    | inr h ↦ elim (Option-cases (lookup (db.heap id).primary_name db.clients)) [
      | inl g ↦ rw (h, g, insert_client) v
      | inr (p, g) ↦ rw (h, g, insert_client) (Bounded-take_entry db id (some p) v)
    ]
  ]

-- The state is consistent, and no queue holds more than its capacity.
pub record Safe (X : Maps) (db : Db X) : Type 0 where
  pub consistent : Inv X db
  pub bounded : Bounded X db

module _ (X : Maps) (encode : BrokerEvent → Result Bytes) (room : ℕ → Room) where
  -- What dropping a client and the steps of a delivery keep is kept by announcements, and so by
  -- unregistering a client and by what is left to do of registering it.
  module _ (P : Db X → Type 0) (kd : (db : Db X) (id : ℕ) → P db → P (drop_client X db id))
      (ka : Keeps X (unregister_locked X encode room) room false P) where
    as_result-keeps : (o : Outcome (Unit {0}) × Db X) → P o.1 → P (as_result X encode room o).1
    unfolding as_result
    as_result-keeps (done u, d) w = w
    as_result-keeps (failed e, d) w = w
    as_result-keeps (waits, d) w = w

    publish_event-keeps :
        (r : Result Bytes) (core : ℕ) (topic : Bytes) (db : Db X)
        → P db
        → P (publish_event X encode room r core topic db).1
    unfolding publish_event
    publish_event-keeps (err e) core topic db v = v
    publish_event-keeps (ok payload) core topic db v = as_result-keeps _ (
        publish-keeps X (unregister_locked X encode room) room false P ka core topic
          (event_parcel X encode room payload) db v)

    pub announce-keeps :
        (event : BrokerEvent) (db : Db X) → P db → P (announce X encode room event db).1
    unfolding announce
    announce-keeps event db v = elim (Option-cases db.core) [
      | inl h ↦ rw (h, announce) v
      | inr (core, h) ↦ rw (h, announce) (publish_event-keeps (encode event) core event.topic db v)
    ]

    logged-keeps : (o : Outcome (Result (Unit {0})) × Db X) → P o.1 → P (logged X encode room o).1
    unfolding logged
    logged-keeps (done u, d) w = w
    logged-keeps (failed e, d) w = w
    logged-keeps (waits, d) w = w

    registered_with-keeps :
        (r : Result (Unit {0})) (o : Outcome (Unit {0}) × Db X)
        → P o.1
        → P (registered_with X encode room r o).1
    unfolding registered_with
    registered_with-keeps r (done u, d) w = w
    registered_with-keeps r (failed e, d) w = w
    registered_with-keeps r (waits, d) w = w

    -- Once the client has been dropped, the announcement is all that is left.
    pub unregister_client-dropped :
        (id : ℕ) (db : Db X) → P (drop_client X db id) → P (unregister_client X encode room id db).1
    unfolding unregister_client
    unregister_client-dropped id db w = elim (Bool-cases (db.heap id).primary) [
      | inl h ↦
          rw (h, unregister_client)
            (logged-keeps _
              (announce-keeps (event_unreg (db.heap id).name) (drop_client X db id) w))
      | inr h ↦ rw (h, unregister_client) w
    ]

    unregister_client-keeps :
        (id : ℕ) (db : Db X) → P db → P (unregister_client X encode room id db).1
    unregister_client-keeps id db v = unregister_client-dropped id db (kd db id v)

    after_insert-keeps :
        (b : Bool) (name : Bytes) (o : Result (Unit {0}) × Db X)
        → P o.1
        → P (after_insert X encode room b name o).1
    unfolding after_insert
    after_insert-keeps b name (err e, db) w = w
    after_insert-keeps false name (ok u, db) w = w
    after_insert-keeps true name (ok u, db) w =
        registered_with-keeps (ok tt) _ (logged-keeps _ (announce-keeps (event_reg name) db w))

  unregister_locked-keeps :
      (P : Db X → Type 0)
      → ((db : Db X) (id : ℕ) → P db → P (drop_client X db id))
      → (id : ℕ) (db : Db X) → P db
      → P (unregister_locked X encode room id db).1
  unfolding unregister_locked
  unregister_locked-keeps P kd id db v =
      let w = kd db id v in
      elim (Bool-cases (db.heap id).primary) [
        | inr h ↦ rw (h, unregister_locked) w
        | inl h ↦ elim (Option-cases db.core) [
          | inl g ↦ rw (h, g, unregister_locked) w
          | inr (c, g) ↦ rw (h, g, unregister_locked) w
        ]
      ]

  pub locked_Inv : Keeps X (unregister_locked X encode room) room false (Inv X)
  locked_Inv = Inv-Keeps X _ room false (unregister_locked-keeps (Inv X) (Inv-drop_client X))

  pub locked_Bounded : Keeps X (unregister_locked X encode room) room false (Bounded X)
  locked_Bounded =
      Bounded-Keeps X _ room false (unregister_locked-keeps (Bounded X) (Bounded-drop_client X))

  -- Registering a client and unregistering one, with the announcements that they make and the
  -- clients that are dropped on the way because their queues are full, keep the broker safe.
  pub Safe-register :
      (id : ℕ) (db : Db X)
      → Safe X db
      → Safe X (register_client X encode room id db).1
        × Safe X (unregister_client X encode room id db).1
  unfolding register_client
  Safe-register id db v = (
    record {
      consistent =
          after_insert-keeps (Inv X) (Inv-drop_client X) locked_Inv _ _ _
            (Inv-insert_client X db id v.consistent);
      bounded =
          after_insert-keeps (Bounded X) (Bounded-drop_client X) locked_Bounded _ _ _
            (Bounded-insert_client X db id v.bounded);
    },
    record {
      consistent =
          unregister_client-keeps (Inv X) (Inv-drop_client X) locked_Inv id db v.consistent;
      bounded =
          unregister_client-keeps (Bounded X) (Bounded-drop_client X) locked_Bounded id db
            v.bounded;
    },
  )

  module _ (limited : Bool) where
    pub delivery_Inv : Keeps X (unregister_client X encode room) room limited (Inv X)
    delivery_Inv =
        Inv-Keeps X _ room limited (unregister_client-keeps (Inv X) (Inv-drop_client X) locked_Inv)

    pub delivery_Bounded : Keeps X (unregister_client X encode room) room limited (Bounded X)
    delivery_Bounded =
        Bounded-Keeps X _ room limited
          (unregister_client-keeps (Bounded X) (Bounded-drop_client X) locked_Bounded)

    -- Every sending operation keeps the broker safe, however its deliveries end: whoever is full,
    -- has gone, or is dropped.
    Safe-deliveries :
        (from : ℕ) (target : Bytes) (p : Parcel) (db : Db X)
        → Safe X db
        → Safe X (send X (unregister_client X encode room) room limited from target p db).1
          × Safe X
              (send_broadcast X (unregister_client X encode room) room limited from target p db).1
          × Safe X (publish X (unregister_client X encode room) room limited from target p db).1
    Safe-deliveries from target p db v = (
      record {
        consistent = send-keeps X _ room limited (Inv X) delivery_Inv from target p db v.consistent;
        bounded =
            send-keeps X _ room limited (Bounded X) delivery_Bounded from target p db v.bounded;
      },
      record {
        consistent =
            send_broadcast-keeps X _ room limited (Inv X) delivery_Inv from target p db
              v.consistent;
        bounded =
            send_broadcast-keeps X _ room limited (Bounded X) delivery_Bounded from target p db
              v.bounded;
      },
      record {
        consistent =
            publish-keeps X _ room limited (Inv X) delivery_Inv from target p db v.consistent;
        bounded =
            publish-keeps X _ room limited (Bounded X) delivery_Bounded from target p db v.bounded;
      },
    )

-- ===== src/Broker/Announce.antt =====
-- src/broker.rs: `announce`, `register_client` and `unregister_client` of `BrokerDb`. Stamping an event
-- with the time of the clock and encoding it is a parameter. While an announcement is published, the
-- lock of the core RPC client is held.
pub mod Deadlock
use elbus.Base.{ℕ, Bool, true, false, Bytes, none, some, if◌then◌else◌, length}
use elbus.Proto.{Result, ok, err}
use elbus.Stream.{Outcome, done, failed, waits}
use elbus.Broker.Maps.{Maps}
use elbus.Broker.Db.{Db}
use elbus.Broker.Registry.{drop_client, insert_client}
use elbus.Broker.Deliver.{Act, Room, BrokerEvent, event_reg, event_unreg, Parcel, publish}

module _ (X : Maps) (encode : BrokerEvent → Result Bytes) (room : ℕ → Room) where
  -- `unregister_client`, called while the lock is held: its own announce waits for that lock
  unfoldable pub unregister_locked : ℕ → Act X (Unit {0})
  unregister_locked id db =
      let db₁ = drop_client X db id in
      if (db.heap id).primary
      then elim db.core [ none ↦ (done tt, db₁) | some _ ↦ (waits, db₁) ]
      else (done tt, db₁)

  unfoldable pub as_result : Outcome (Unit {0}) × Db X → Outcome (Result (Unit {0})) × Db X
  as_result (done u, db) = (done (ok tt), db)
  as_result (failed e, db) = (done (err e), db)
  as_result (waits, db) = (waits, db)

  abbrev pub event_parcel : Bytes → Parcel
  event_parcel b = record {
    header = none;
    buf = b;
    payload_pos = 0;
    len = length b;
    realtime = false;
  }

  -- the event, encoded or not, is published for the core client
  unfoldable pub publish_event : Result Bytes → ℕ → Bytes → Act X (Result (Unit {0}))
  unfolding unregister_locked as_result
  publish_event (err e) core topic db = (done (err e), db)
  publish_event (ok payload) core topic db =
      as_result (publish X unregister_locked room false core topic (event_parcel payload) db)

  unfoldable pub announce : BrokerEvent → Act X (Result (Unit {0}))
  unfolding publish_event
  announce event db = elim db.core [
    | none ↦ (done (ok tt), db)
    | some core ↦ publish_event (encode event) core event.topic db
  ]

  -- an error of the announce is only logged
  unfoldable pub logged : Outcome (Result (Unit {0})) × Db X → Outcome (Unit {0}) × Db X
  logged (done r, db) = (done tt, db)
  logged (failed e, db) = (done tt, db)
  logged (waits, db) = (waits, db)

  unfoldable pub unregister_client : ℕ → Act X (Unit {0})
  unfolding announce logged
  unregister_client id db =
      let db₁ = drop_client X db id in
      if (db.heap id).primary
      then logged (announce (event_unreg (db.heap id).name) db₁)
      else (done tt, db₁)

  unfoldable pub registered_with :
      Result (Unit {0}) → Outcome (Unit {0}) × Db X → Outcome (Result (Unit {0})) × Db X
  registered_with r (done u, db) = (done r, db)
  registered_with r (failed e, db) = (failed e, db)
  registered_with r (waits, db) = (waits, db)

  unfoldable pub after_insert :
      Bool → Bytes → Result (Unit {0}) × Db X → Outcome (Result (Unit {0})) × Db X
  unfolding announce logged registered_with
  after_insert primary name (err e, db) = (done (err e), db)
  after_insert true name (ok u, db) =
      registered_with (ok tt) (logged (announce (event_reg name) db))
  after_insert false name (ok u, db) = (done (ok tt), db)

  unfoldable pub register_client : ℕ → Act X (Result (Unit {0}))
  unfolding after_insert
  register_client id db =
      after_insert (db.heap id).primary (db.heap id).name (insert_client X db id)

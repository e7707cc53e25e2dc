-- ===== src/Broker/Reader/Keeps.antt =====
-- src/broker.rs, `handle_reader`: whatever requests a connection makes, the broker stays safe.
use elbus.Base.{ℕ, zero, suc, Bytes, Option, length}
use elbus.Proto.{Result}
use elbus.Stream.{Stream, Outcome, done, failed, waits}
use elbus.Broker.Maps.{Maps}
use elbus.Broker.Db.{Db}
use elbus.Broker.Deliver.{Room, BrokerEvent}
use elbus.Broker.Access.{Lists, ClientAaa}
use elbus.Broker.Request.{Incoming, hangup, ping, request, read_request}
use elbus.Broker.Safety.{Safe}
use elbus.Broker.Reader.{Ended, proceed, after_read, reader_loop, handle_reader}
use elbus.Broker.Handler.Keeps.{Safe-process_request}

module _ (X : Maps) (A : Lists) (encode : BrokerEvent → Result Bytes) (room : ℕ → Room) (id : ℕ)
    (aaa : Option (ClientAaa A)) where
  abbrev S : Db X → Type 0
  S = Safe X

  proceed-Safe :
      (ready : ℕ) (rest : Db X → Ended × Db X) (o : Outcome (Unit {0}) × Db X)
      → ((db : Db X) → S db → S (rest db).1)
      → S o.1
      → S (proceed X A encode room id aaa ready rest o).1
  unfolding proceed
  proceed-Safe ready rest (done u, db) k v = k db v
  proceed-Safe ready rest (failed e, db) k v = v
  proceed-Safe ready rest (waits, db) k v = v

  after_read-Safe :
      (ready : ℕ) (rest : Stream → Db X → Ended × Db X) (o : Outcome (Incoming × Stream))
      (db : Db X)
      → ((s : Stream) (db : Db X) → S db → S (rest s db).1)
      → S db
      → S (after_read X A encode room id aaa ready rest o db).1
  unfolding after_read
  after_read-Safe ready rest (failed e) db k v = v
  after_read-Safe ready rest waits db k v = v
  after_read-Safe ready rest (done (hangup, s)) db k v = v
  after_read-Safe ready rest (done (ping, s)) db k v = k s db v
  after_read-Safe ready rest (done (request r, s)) db k v =
      proceed-Safe ready (rest s) _ (k s) (Safe-process_request X A encode room id aaa r db v)

  reader_loop-Safe :
      (fuel ready : ℕ) (s : Stream) (db : Db X)
      → S db
      → S (reader_loop X A encode room id aaa ready fuel s db).1
  unfolding reader_loop
  reader_loop-Safe zero ready s db v = v
  reader_loop-Safe (suc fuel) ready s db v =
      after_read-Safe ready _ (read_request ready s) db (reader_loop-Safe fuel ready) v

  -- Whatever bytes come in on a connection, its reader keeps the broker's maps consistent and every
  -- queue within its capacity.
  pub Safe-handle_reader :
      (ready : ℕ) (s : Stream) (db : Db X)
      → Safe X db
      → Safe X (handle_reader X A encode room id aaa ready s db).1
  unfolding handle_reader
  Safe-handle_reader ready s db v = reader_loop-Safe (suc (length s.bytes)) ready s db v

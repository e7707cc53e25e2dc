-- ===== src/Broker/Reader.antt =====
-- src/broker.rs: the loop of `Broker::handle_reader`.
pub mod Keeps
use elbus.Base.{ℕ, zero, suc, Bytes, Option, length}
use elbus.Proto.{Result, Error}
use elbus.Stream.{Stream, Outcome, done, failed, waits}
use elbus.Broker.Maps.{Maps}
use elbus.Broker.Db.{Db}
use elbus.Broker.Deliver.{Room, BrokerEvent}
use elbus.Broker.Access.{Lists, ClientAaa}
use elbus.Broker.Request.{Incoming, hangup, ping, request, read_request}
use elbus.Broker.Handler.{process_request}

-- How the loop ends: the peer has closed the connection, an error, a wait that never ends, or no fuel.
pub data Ended : Type 0 where
  hung_up : Ended
  broken : Error → Ended
  pending : Ended
  on_fuel : Ended

module _ (X : Maps) (A : Lists) (encode : BrokerEvent → Result Bytes) (room : ℕ → Room) (id : ℕ)
    (aaa : Option (ClientAaa A)) (ready : ℕ) where
  -- the rest of the loop goes on from what a request came to
  unfoldable pub proceed : (Db X → Ended × Db X) → Outcome (Unit {0}) × Db X → Ended × Db X
  proceed rest (done u, db) = rest db
  proceed rest (failed e, db) = (broken e, db)
  proceed rest (waits, db) = (pending, db)

  unfoldable pub after_read :
      (Stream → Db X → Ended × Db X) → Outcome (Incoming × Stream) → Db X → Ended × Db X
  unfolding proceed process_request
  after_read rest (failed e) db = (broken e, db)
  after_read rest waits db = (pending, db)
  after_read rest (done (hangup, s)) db = (hung_up, db)
  after_read rest (done (ping, s)) db = rest s db
  after_read rest (done (request r, s)) db =
      proceed (rest s) (process_request X A encode room id aaa r db)

  unfoldable pub reader_loop : ℕ → Stream → Db X → Ended × Db X
  unfolding after_read read_request
  reader_loop zero s db = (on_fuel, db)
  reader_loop (suc fuel) s db = after_read (reader_loop fuel) (read_request ready s) db

  -- Each frame takes nine bytes at least.
  unfoldable pub handle_reader : Stream → Db X → Ended × Db X
  unfolding reader_loop
  handle_reader s = reader_loop (suc (length s.bytes)) s

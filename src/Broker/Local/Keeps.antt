-- ===== src/Broker/Local/Keeps.antt =====
-- src/broker.rs, `Client`: what an operation makes of its delivery leaves the broker as it is.
use elbus.Proto.{Result, ok, err, QoS}
use elbus.Stream.{Outcome, done, failed, waits}
use elbus.Broker.Maps.{Maps}
use elbus.Broker.Db.{Db}
use elbus.Broker.Local.{sent_with, spread_with}
use elbus.Broker.Safety.{Safe}

module _ (X : Maps) where
  pub sent_with-Safe :
      (qos : QoS) (o : Outcome (Result (Unit {0})) × Db X)
      → Safe X o.1
      → Safe X (sent_with X qos o).1
  unfolding sent_with
  sent_with-Safe qos (done (ok u), db) v = v
  sent_with-Safe qos (done (err e), db) v = v
  sent_with-Safe qos (failed e, db) v = v
  sent_with-Safe qos (waits, db) v = v

  pub spread_with-Safe :
      (qos : QoS) (o : Outcome (Unit {0}) × Db X) → Safe X o.1 → Safe X (spread_with X qos o).1
  unfolding spread_with
  spread_with-Safe qos (done u, db) v = v
  spread_with-Safe qos (failed e, db) v = v
  spread_with-Safe qos (waits, db) v = v

-- ===== src/Broker/Servers/Start.antt =====
-- src/broker.rs: a new broker, and what it can come to.
use elbus.Base.{ℕ, ◌≡◌, sym, ap, subst, arith, Bytes, [], none, some, eq_bytes, find, starts_with}
use elbus.Proto.{Result, ok, primary_name}
use elbus.Stream.{Outcome, done}
use elbus.Broker.Local.{register_local}
use elbus.Broker.Announce.{register_client, after_insert, announce, logged, registered_with}
use elbus.Broker.Registry.{insert_client, take_entry, fill_entry, join_primary, join_maps}
use elbus.Broker.Access.{Lists}
use elbus.Broker.Client.{client_new, internal}
use elbus.Broker.Db.{Db, lookup}
use elbus.Broker.Deliver.{Room, BrokerEvent}
use elbus.Broker.Maps.{Maps, NewMaps}
use elbus.Broker.Safety.{Safe}
use elbus.Broker.System.{Reach, here, next, create, register, set_core}
use elbus.Broker.System.Safety.{Reach-Safe}
use elbus.Broker.Servers.{
  Broker, db_new, broker_new, init_default_core_rpc, broker_name, default_queue_size,
  core_registered, set_queue_size,
}

module _ (A : Lists) (X : Maps) (N : NewMaps X) where
  db_new-Safe : Safe X (db_new A X N)
  unfolding db_new lookup client_new
  db_new-Safe = record {
    consistent = record {
      subs = N.has-new;
      casts = N.knows-new;
      names = λ n i e. cc;
      flags = λ n i e. cc;
      unique = tt;
    };
    bounded = λ id. (omega arith, omega arith);
  }

  module _ (encode : BrokerEvent → Result Bytes) (room : ℕ → Room) (id : ℕ) where
    abbrev pub started : Outcome (Result (Unit {0})) × Broker A X
    started = init_default_core_rpc A X encode room id (broker_new A X N)

    -- The core client is registered in the new broker.
    registered :
        (register_local X encode room default_queue_size id broker_name (db_new A X N)).0
        ≡ done (ok tt)
    unfolding db_new register_local register_client after_insert insert_client take_entry fill_entry
        join_primary join_maps announce logged registered_with client_new lookup eq_bytes
        primary_name find starts_with
    registered = ground arith

    -- It takes its name and is set, with the capacity that queues have by default.
    started_core :
        (started.0 ≡ done (ok tt))
        × (started.1.db.core ≡ some id)
        × (lookup broker_name started.1.db.clients ≡ some id)
        × ((started.1.db.heap id).queue_size ≡ default_queue_size)
    unfolding init_default_core_rpc core_registered broker_new db_new register_local register_client
        after_insert insert_client take_entry fill_entry join_primary join_maps announce logged
        registered_with client_new lookup eq_bytes primary_name find starts_with
    started_core = ground arith

    core_registered-done :
        (o : Outcome (Result (Unit {0}))) (b : Broker A X)
        → o ≡ done (ok tt)
        → (core_registered A X encode room id (o, b)).1.db ≡ record b.db { core = some id }
    unfolding core_registered
    core_registered-done o b h = ap (λ o. (core_registered A X encode room id (o, b)).1.db) h

    -- No service runs yet.
    pub started-services : started.1.services ≡ []
    unfolding init_default_core_rpc core_registered broker_new
    started-services =
        ap
          (λ o.
            (core_registered A X encode room id (
              o,
              record (broker_new A X N) {
                db =
                    (register_local X encode room default_queue_size id broker_name
                      (db_new A X N)).1;
              },
            )).1.services)
          registered

    Reach-started : Reach X A encode (db_new A X N) started.1.db
    unfolding init_default_core_rpc broker_new register_local lookup db_new
    Reach-started =
        subst (Reach X A encode (db_new A X N)) (sym (core_registered-done _ _ registered)) (
          next
            (next
              (next here (
                create id default_queue_size broker_name internal none none (λ n e. cc)
                  (omega arith)))
              (register room id))
            (set_core id))

    -- A new broker comes up with its core client registered and set, with the default capacity of
    -- queues whatever capacity is set afterwards; and whatever steps follow, the maps stay consistent
    -- and the queues within their capacities. The maps that a broker is made with are empty.
    pub started-Safe :
        (queue_size : ℕ) (e : Db X)
        → Reach X A encode (set_queue_size A X queue_size started.1).db e
        → (started.0 ≡ done (ok tt))
          × (started.1.db.core ≡ some id)
          × (lookup broker_name started.1.db.clients ≡ some id)
          × ((started.1.db.heap id).queue_size ≡ default_queue_size)
          × Safe X e
    started-Safe queue_size e r =
        let (a, b, c, d) = started_core in
        (a, b, c, d, Reach-Safe X A encode (Reach-Safe X A encode db_new-Safe Reach-started) r)

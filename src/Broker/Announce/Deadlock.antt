-- ===== src/Broker/Announce/Deadlock.antt =====
-- src/broker.rs: an announcement that waits for the lock that it holds.
use elbus.Base.{ℕ, ◌≡◌, refl, arith, true, false, Bytes, List, ◌∷◌, some, length}
use elbus.Proto.{Result, ok, FrameData}
use elbus.Stream.{Outcome, done, failed, waits}
use elbus.Broker.Client.{ElbusClient, is_internal, is_full, count_write}
use elbus.Broker.Maps.{Maps, Ref}
use elbus.Broker.Db.{Db, modify}
use elbus.Broker.Deliver.{
  Room, BrokerEvent, safe_send_frame, after_unregister, then_all, send_all, send_to_list, publish,
  count_incoming, count_outgoing,
}
use elbus.Broker.Announce.{announce, publish_event, as_result, unregister_locked}

-- A client on a connection, whose queue is full, and which is no secondary one.
pub record IsStuck (c : ElbusClient) : Type 0 where
  pub full : is_full c ≡ true
  pub external : is_internal c.kind ≡ false
  pub primary : c.primary ≡ true

module _ (X : Maps) (encode : BrokerEvent → Result Bytes) (room : ℕ → Room) where
  safe_send_frame-IsStuck :
      (id core : ℕ) (frame : FrameData) (db : Db X)
      → db.core ≡ some core
      → IsStuck (db.heap id)
      → (safe_send_frame X (unregister_locked X encode room) room false id frame db).0 ≡ waits
  unfolding safe_send_frame unregister_locked after_unregister
  safe_send_frame-IsStuck id core frame db c v =
      rw (v.full, v.external, v.primary, c, safe_send_frame, unregister_locked) refl

  waits-then_all :
      (rest : Db X → Outcome (Unit {0}) × Db X) (o : Outcome (Result (Unit {0})) × Db X)
      → o.0 ≡ waits
      → (then_all X (unregister_locked X encode room) room false rest o).0 ≡ waits
  unfolding then_all
  waits-then_all rest (done r, db) h = cc
  waits-then_all rest (failed e, db) h = cc
  waits-then_all rest (waits, db) h = refl

  waits-as_result :
      (o : Outcome (Unit {0}) × Db X) → o.0 ≡ waits → (as_result X encode room o).0 ≡ waits
  unfolding as_result
  waits-as_result (done r, db) h = cc
  waits-as_result (failed e, db) h = cc
  waits-as_result (waits, db) h = refl

  send_to_list-IsStuck :
      (core len : ℕ) (frame : FrameData) (c : Ref) (cs : List Ref) (db : Db X)
      → db.core ≡ some core
      → IsStuck (db.heap c.id)
      → (send_to_list X (unregister_locked X encode room) room false len frame (c ∷ cs) db).0
        ≡ waits
  unfolding send_to_list send_all count_outgoing
  send_to_list-IsStuck core len frame c cs db h v = waits-then_all _ _ (
      safe_send_frame-IsStuck c.id core frame
        (modify (count_outgoing X (length (c ∷ cs)) len db) c.id (count_write len)) h
        (record {
          full = ground (arith, v.full);
          external = ground (arith, v.external);
          primary = ground (arith, v.primary);
        }))

  IsStuck-count_incoming :
      (id from len : ℕ) (db : Db X)
      → IsStuck (db.heap id)
      → IsStuck ((count_incoming X from len db).heap id)
  unfolding count_incoming
  IsStuck-count_incoming id from len db v = record {
    full = ground (arith, v.full);
    external = ground (arith, v.external);
    primary = ground (arith, v.primary);
  }

  -- An announcement never completes, if the first subscriber of its topic is a primary client on a
  -- connection whose queue is full: it is unregistered, which is to be announced in turn, and the
  -- lock of the core client is held already.
  pub announce-IsStuck :
      (event : BrokerEvent) (b : Bytes) (core : ℕ) (c : Ref) (cs : List Ref) (db : Db X)
      → db.core ≡ some core
      → encode event ≡ ok b
      → X.get_subscribers db.subscriptions event.topic ≡ c ∷ cs
      → IsStuck (db.heap c.id)
      → (announce X encode room event db).0 ≡ waits
  unfolding announce publish_event publish count_incoming
  announce-IsStuck event b core c cs db h k l v =
      rw (h, k, announce)
        (waits-as_result _ (
          rw (l, publish)
            (send_to_list-IsStuck core _ _ c cs (count_incoming X core (length b) db) h
              (IsStuck-count_incoming c.id core (length b) db v))))

-- ===== src/Broker/System/Safety.antt =====
-- src/broker.rs: whatever steps the broker takes, its state stays safe.
use elbus.Base.{
  ℕ, ◌<◌, ◌≤◌, ◌≡◌, refl, arith, Bool, false, Bytes, List, [], ◌∷◌, length, length-drop, Bool-cases,
  Option-cases, inl, inr,
}
use elbus.Proto.{Result, QoS, primary_name, new_nop}
use elbus.Broker.Client.{
  ElbusClient, client_new, is_internal, is_full, push, take_one, close, set_disconnect,
  set_registered,
}
use elbus.Broker.Maps.{Maps}
use elbus.Broker.Db.{Db, lookup, modify, ref}
use elbus.Broker.Registry.{drop_client, trigger_disconnect}
use elbus.Broker.Registry.Invariant.{Inv, Inv-drop_client, Inv-drop_unmarked}
use elbus.Broker.Deliver.{Room, stuck, BrokerEvent}
use elbus.Broker.Deliver.Keeps.{send-keeps, send_broadcast-keeps, publish-keeps}
use elbus.Broker.Deliver.Bounds.{Bounded}
use elbus.Broker.Access.{Lists}
use elbus.Broker.Local.{
  confirmed, for_topics, subscribe_bulk, unsubscribe_bulk, client_send, client_zc_send,
  client_send_broadcast, client_publish, unregister, drop_handle,
}
use elbus.Broker.Peer.{ping_once, finish_peer}
use elbus.Broker.Safety.{
  Safe, Safe-register, unregister_client-dropped, locked_Inv, locked_Bounded, Bounded-drop_client,
}
use elbus.Broker.Local.Keeps.{sent_with-Safe, spread_with-Safe}
use elbus.Broker.Fifo.Safety.{Safe-send_fifo_cmd}
use elbus.Broker.Safety.Steps.{Safe-modify, Safe-subscriptions, Safe-Keeps, Fits-push}
use elbus.Broker.Handler.Keeps.{Safe-process_request}
use elbus.Broker.System.{
  command, IsNew, Step, create, register, finish, leave, drop_client_handle, handle, local_send,
  local_zc_send, local_broadcast, local_publish, local_subscribe, local_unsubscribe, ping,
  disconnect, receive, hang_up, set_core, Reach, here, next,
}

module _ (X : Maps) (A : Lists) (encode : BrokerEvent → Result Bytes) where
  create-Safe :
      (db : Db X) (id : ℕ) (c : ElbusClient)
      → IsNew id db
      → (length c.queue ≤ c.queue_size) × (0 < c.queue_size)
      → Safe X db
      → Safe X (modify db id (λ _. c))
  create-Safe db id c n q v = record {
    consistent = record {
      subs = v.consistent.subs;
      casts = v.consistent.casts;
      names = λ m i e. ground (arith, v.consistent.names m i, n m);
      flags = λ m i e. ground (arith, v.consistent.flags m i, n m);
      unique = v.consistent.unique;
    };
    bounded = λ i. ground (arith, v.bounded i);
  }

  leave-Safe :
      (room : ℕ → Room) (id : ℕ) (db : Db X) → Safe X db → Safe X (unregister X encode room id db).1
  unfolding unregister
  leave-Safe room id db v = record {
    consistent =
        unregister_client-dropped X encode room (Inv X) (Inv-drop_client X)
          (locked_Inv X encode room) id _ (Inv-drop_unmarked X db id v.consistent);
    bounded =
        unregister_client-dropped X encode room (Bounded X) (Bounded-drop_client X)
          (locked_Bounded X encode room) id _
          (Bounded-drop_client X (modify db id (set_registered false)) id
            (λ i. ground (arith, v.bounded i)));
  }

  drop-Safe : (id : ℕ) (db : Db X) → Safe X db → Safe X (drop_client X db id)
  drop-Safe id db v = record {
    consistent = Inv-drop_client X db id v.consistent;
    bounded = Bounded-drop_client X db id v.bounded;
  }

  has-for_topics :
      (one : X.Subs → Bytes → X.Subs × Bool) (n : Bytes)
      → ((s : X.Subs) (t : Bytes) → X.has (one s t).0 n ≡ X.has s n)
      → (ts : List Bytes) (s : X.Subs) → X.has (for_topics X one ts s).0 n ≡ X.has s n
  unfolding for_topics
  has-for_topics one n h [] s = refl
  has-for_topics one n h (t ∷ ts) s = ground (arith, h s t, has-for_topics one n h ts (one s t).0)

  ping-Safe : (id : ℕ) (db : Db X) → Safe X db → Safe X (ping_once X id db).1
  unfolding ping_once
  ping-Safe id db v = elim (Bool-cases (is_full (db.heap id))) [
    | inl h ↦ rw (h, ping_once) v
    | inr h ↦ elim (Bool-cases (db.heap id).closed) [
      | inl g ↦ rw (h, g, ping_once) v
      | inr g ↦
          rw (h, g, ping_once)
            (Safe-modify X encode (λ _. stuck) db id (push new_nop) (λ c. refl) (λ c. refl)
              (Fits-push new_nop (db.heap id) h) v)
    ]
  ]

  disconnect-Safe : (name : Bytes) (db : Db X) → Safe X db → Safe X (trigger_disconnect X db name).1
  unfolding trigger_disconnect
  disconnect-Safe name db v = elim (Option-cases (lookup name db.clients)) [
    | inl h ↦ rw (h, trigger_disconnect) v
    | inr (id, h) ↦ elim (Bool-cases (is_internal (db.heap id).kind)) [
      | inl g ↦ rw (h, g, trigger_disconnect) v
      | inr g ↦
          rw (h, g, trigger_disconnect)
            (Safe-modify X encode (λ _. stuck) db id set_disconnect (λ c. refl) (λ c. refl) (λ f. f)
              v)
    ]
  ]

  bulk-Safe :
      (one : X.Subs → Bytes → X.Subs × Bool) (topics : List Bytes) (qos : QoS) (db : Db X)
      → ((s : X.Subs) (t : Bytes) (n : Bytes) → X.has (one s t).0 n ≡ X.has s n)
      → Safe X db
      → Safe X (confirmed X qos db (for_topics X one topics db.subscriptions)).1
  unfolding confirmed
  bulk-Safe one topics qos db h v =
      Safe-subscriptions X encode (λ _. stuck) db (for_topics X one topics db.subscriptions).0
        (λ n. has-for_topics one n (λ s t. h s t n) topics db.subscriptions) v

  -- Every step keeps the broker safe.
  Step-Safe : {d e : Db X} → Step X A encode d e → Safe X d → Safe X e
  unfolding finish_peer drop_handle client_send client_zc_send client_send_broadcast client_publish
      subscribe_bulk unsubscribe_bulk client_new
  Step-Safe {d} (create id q name kind source port n h) v =
      create-Safe d id (client_new name (primary_name name) q kind source port) n (omega arith, h) v
  Step-Safe {d} (register room id) v = (Safe-register X encode room id d v).0
  Step-Safe {d} (finish room id) v = (Safe-register X encode room id d v).1
  Step-Safe {d} (leave room id) v = leave-Safe room id d v
  Step-Safe {d} (drop_client_handle room id) v = elim (Bool-cases (d.heap id).registered) [
    | inl h ↦ rw (h, drop_handle) (drop-Safe id d v)
    | inr h ↦ rw (h, drop_handle) v
  ]
  Step-Safe {d} (handle room id aaa r) v = Safe-process_request X A encode room id aaa r d v
  Step-Safe {d} (local_send room id target payload qos) v =
      sent_with-Safe X qos _
        (send-keeps X _ room false (Safe X) (Safe-Keeps X encode room false) id target _ d v)
  Step-Safe {d} (local_zc_send room id target header payload qos) v =
      sent_with-Safe X qos _
        (send-keeps X _ room false (Safe X) (Safe-Keeps X encode room false) id target _ d v)
  Step-Safe {d} (local_broadcast room id target payload qos) v = spread_with-Safe X qos _ (
      send_broadcast-keeps X _ room false (Safe X) (Safe-Keeps X encode room false) id target _ d v)
  Step-Safe {d} (local_publish room id topic payload qos) v =
      spread_with-Safe X qos _
        (publish-keeps X _ room false (Safe X) (Safe-Keeps X encode room false) id topic _ d v)
  Step-Safe {d} (command room to_vec line) v = Safe-send_fifo_cmd X encode room to_vec line d v
  Step-Safe {d} (local_subscribe id topics qos) v =
      bulk-Safe (λ s t. X.subscribe s t (ref d id)) topics qos d
        (λ s t n. X.has-subscribe s t (ref d id) n) v
  Step-Safe {d} (local_unsubscribe id topics qos) v =
      bulk-Safe (λ s t. X.unsubscribe s t (ref d id)) topics qos d
        (λ s t n. X.has-unsubscribe s t (ref d id) n) v
  Step-Safe {d} (ping id) v = ping-Safe id d v
  Step-Safe {d} (disconnect name) v = disconnect-Safe name d v
  Step-Safe {d} (receive id) v =
      Safe-modify X encode (λ _. stuck) d id take_one (λ c. refl) (λ c. refl)
        (λ f. ground (arith, length-drop 1 (d.heap id).queue)) v
  Step-Safe {d} (hang_up id) v =
      Safe-modify X encode (λ _. stuck) d id close (λ c. refl) (λ c. refl) (λ f. f) v
  Step-Safe {d} (set_core id) v = record {
    consistent = record {
      subs = v.consistent.subs;
      casts = v.consistent.casts;
      names = v.consistent.names;
      flags = v.consistent.flags;
      unique = v.consistent.unique;
    };
    bounded = v.bounded;
  }

  -- Whatever steps are taken, in whatever order and with whatever becoming of full queues, the three
  -- maps hold the same clients under their own names, and no queue outgrows its capacity.
  pub Reach-Safe : {d e : Db X} → Safe X d → Reach X A encode d e → Safe X e
  Reach-Safe v here = v
  Reach-Safe v (next r s) = Step-Safe s (Reach-Safe v r)

-- ===== src/Client/Instances.antt =====
-- src/ipc.rs and src/broker.rs: both clients are such clients.
use elbus.Base.{ℕ, Bool, true, false, Bytes, none, some, if◌then◌else◌, Bool-cases, inl, inr}
use elbus.Proto.{Result, ok, err, QoS, needs_ack}
use elbus.Stream.{Outcome, done, failed, waits}
use elbus.Client.{AsyncClient, Confirms, IsLawful}
use elbus.Ipc.{Client}
use elbus.Ipc.Send
use elbus.Ipc.Send.{
  Written, in_time, io_failed, timed_out, send_data, Confirm, send_frame_and_confirm, then_send,
  finish, send_to, send_with_header, send_plain,
}
use elbus.Broker.Db.{Db, ref}
use elbus.Broker.Deliver.{Room, BrokerEvent, Act}
use elbus.Broker.Local
use elbus.Broker.Local.{
  Confirm as Confirmed, make_confirm_channel, confirmed, for_topics, sent_with, spread_with,
  client_send, client_zc_send, client_send_broadcast, client_publish,
}
use elbus.Broker.Maps.{Maps}

-- The client of src/ipc.rs, where writes end like this.
module _ (w₁ w₂ : Written) where
  -- an operation that ends at once
  abbrev at_once : {A B : Type 0} → A × B → Outcome A × B
  at_once (a, b) = (done a, b)

  abbrev pub ipc_client : AsyncClient
  ipc_client = record {
    State = Client;
    Receiver = ℕ;
    take_event_channel = λ c. (c.has_events, record c { has_events = false });
    send = λ target payload qos c. at_once (Send.send c target payload qos w₁ w₂);
    zc_send =
        λ target header payload qos c. at_once (Send.zc_send c target header payload qos w₁ w₂);
    send_broadcast =
        λ target payload qos c. at_once (Send.send_broadcast c target payload qos w₁ w₂);
    publish = λ topic payload qos c. at_once (Send.publish c topic payload qos w₁ w₂);
    subscribe = λ topic qos c. at_once (Send.subscribe c topic qos w₁ w₂);
    unsubscribe = λ topic qos c. at_once (Send.unsubscribe c topic qos w₁ w₂);
    subscribe_bulk = λ topics qos c. at_once (Send.subscribe_bulk c topics qos w₁ w₂);
    unsubscribe_bulk = λ topics qos c. at_once (Send.unsubscribe_bulk c topics qos w₁ w₂);
    ping = λ c. at_once (Send.ping c w₁);
    is_connected = λ c. c.connected;
    get_connected_beacon = λ c. some c.connected;
    get_timeout = λ c. some c.config.timeout;
    get_name = λ c. c.name;
  }

-- The confirmation that is made for a level.
asked-Confirms :
    (qos : QoS) (n : ℕ) → Confirms {R = ℕ} qos (done (ok (if needs_ack qos then some n else none)))
asked-Confirms qos n = elim (Bool-cases (needs_ack qos)) [ inl h ↦ rw h h | inr h ↦ rw h h ]

send_frame-Confirms :
    (c : Client) (buf payload : Bytes) (qos : QoS) (w₁ w₂ : Written)
    → Confirms qos (done (send_frame_and_confirm c buf payload qos w₁ w₂).0)
unfolding send_frame_and_confirm then_send finish send_data
send_frame-Confirms c buf payload qos in_time in_time = asked-Confirms qos c.frame_id
send_frame-Confirms c buf payload qos in_time (io_failed b) = tt
send_frame-Confirms c buf payload qos in_time timed_out = tt
send_frame-Confirms c buf payload qos (io_failed b) w₂ = tt
send_frame-Confirms c buf payload qos timed_out w₂ = tt

pub ipc_client-IsLawful : (w₁ w₂ : Written) → IsLawful (ipc_client w₁ w₂)
unfolding send_to send_with_header send_plain
ipc_client-IsLawful w₁ w₂ = record {
  send-Confirms = λ target payload qos c. send_frame-Confirms _ _ payload qos w₁ w₂;
  zc_send-Confirms = λ target header payload qos c. send_frame-Confirms _ _ payload qos w₁ w₂;
  send_broadcast-Confirms = λ target payload qos c. send_frame-Confirms _ _ payload qos w₁ w₂;
  publish-Confirms = λ topic payload qos c. send_frame-Confirms _ _ payload qos w₁ w₂;
  subscribe-Confirms = λ topic qos c. send_frame-Confirms _ _ topic qos w₁ w₂;
  unsubscribe-Confirms = λ topic qos c. send_frame-Confirms _ _ topic qos w₁ w₂;
  subscribe_bulk-Confirms =
      λ topics qos c. send_frame-Confirms _ _ (Send.join_topics topics) qos w₁ w₂;
  unsubscribe_bulk-Confirms =
      λ topics qos c. send_frame-Confirms _ _ (Send.join_topics topics) qos w₁ w₂;
}

-- The broker's own client with the object `id`; whether its event channel is still there is part of
-- its state.
module _ (X : Maps) (encode : BrokerEvent → Result Bytes) (room : ℕ → Room) (id : ℕ) where
  abbrev with_rest : {B : Type 0} → Act X B → Bool × Db X → Outcome B × (Bool × Db X)
  with_rest act (events, db) = let r = act db in (r.0, (events, r.1))

  abbrev with_end : {B : Type 0} → (Db X → B × Db X) → Bool × Db X → Outcome B × (Bool × Db X)
  with_end op (events, db) = let r = op db in (done r.0, (events, r.1))

  abbrev pub local_client : AsyncClient
  local_client = record {
    State = Bool × Db X;
    Receiver = Result (Unit {0});
    take_event_channel = λ (events, db). (events, (false, db));
    send = λ target payload qos. with_rest (client_send X encode room id target payload qos);
    zc_send = λ target header payload qos.
        with_rest (client_zc_send X encode room id target header payload qos);
    send_broadcast =
        λ target payload qos. with_rest (client_send_broadcast X encode room id target payload qos);
    publish = λ topic payload qos. with_rest (client_publish X encode room id topic payload qos);
    subscribe = λ topic qos. with_end (Local.subscribe X id topic qos);
    unsubscribe = λ topic qos. with_end (Local.unsubscribe X id topic qos);
    subscribe_bulk = λ topics qos. with_end (Local.subscribe_bulk X id topics qos);
    unsubscribe_bulk = λ topics qos. with_end (Local.unsubscribe_bulk X id topics qos);
    ping = λ s. (done (ok tt), s);
    is_connected = λ s. true;
    get_connected_beacon = λ s. none;
    get_timeout = λ s. none;
    get_name = λ (events, db). (db.heap id).name;
  }

  made-Confirms : (qos : QoS) → Confirms qos (done (make_confirm_channel qos))
  unfolding make_confirm_channel
  made-Confirms qos = elim (Bool-cases (needs_ack qos)) [ inl h ↦ rw h h | inr h ↦ rw h h ]

  sent_with-Confirms :
      (qos : QoS) (o : Outcome (Result (Unit {0})) × Db X) → Confirms qos (sent_with X qos o).0
  unfolding sent_with
  sent_with-Confirms qos (done (ok u), db) = made-Confirms qos
  sent_with-Confirms qos (done (err e), db) = tt
  sent_with-Confirms qos (failed e, db) = tt
  sent_with-Confirms qos (waits, db) = tt

  spread_with-Confirms :
      (qos : QoS) (o : Outcome (Unit {0}) × Db X) → Confirms qos (spread_with X qos o).0
  unfolding spread_with
  spread_with-Confirms qos (done u, db) = made-Confirms qos
  spread_with-Confirms qos (failed e, db) = tt
  spread_with-Confirms qos (waits, db) = tt

  confirmed-Confirms :
      (qos : QoS) (db : Db X) (o : X.Subs × Bool) → Confirms qos (done (confirmed X qos db o).0)
  unfolding confirmed
  confirmed-Confirms qos db (subs, true) = made-Confirms qos
  confirmed-Confirms qos db (subs, false) = tt

  pub local_client-IsLawful : IsLawful local_client
  unfolding client_send client_zc_send client_send_broadcast client_publish Local.subscribe
      Local.unsubscribe Local.subscribe_bulk Local.unsubscribe_bulk
  local_client-IsLawful = record {
    send-Confirms = λ target payload qos s. sent_with-Confirms qos _;
    zc_send-Confirms = λ target header payload qos s. sent_with-Confirms qos _;
    send_broadcast-Confirms = λ target payload qos s. spread_with-Confirms qos _;
    publish-Confirms = λ topic payload qos s. spread_with-Confirms qos _;
    subscribe-Confirms = λ topic qos s.
        confirmed-Confirms qos s.1 (X.subscribe s.1.subscriptions topic (ref s.1 id));
    unsubscribe-Confirms = λ topic qos s.
        confirmed-Confirms qos s.1 (X.unsubscribe s.1.subscriptions topic (ref s.1 id));
    subscribe_bulk-Confirms = λ topics qos s.
        confirmed-Confirms qos s.1
          (for_topics X (λ u t. X.subscribe u t (ref s.1 id)) topics s.1.subscriptions);
    unsubscribe_bulk-Confirms = λ topics qos s.
        confirmed-Confirms qos s.1
          (for_topics X (λ u t. X.unsubscribe u t (ref s.1 id)) topics s.1.subscriptions);
  }

-- Both clients of the program, the one of src/ipc.rs however its writes end and the broker's own one,
-- are lawful: an operation that succeeds comes with a confirmation to wait for exactly if its level of
-- QoS asks for one.
pub clients-IsLawful :
    (w₁ w₂ : Written) (X : Maps) (encode : BrokerEvent → Result Bytes) (room : ℕ → Room) (id : ℕ)
    → IsLawful (ipc_client w₁ w₂) × IsLawful (local_client X encode room id)
clients-IsLawful w₁ w₂ X encode room id =
    (ipc_client-IsLawful w₁ w₂, local_client-IsLawful X encode room id)

-- ===== src/Broker/Local.antt =====
-- src/broker.rs: `Client`, the broker's own client, whose operations act on the broker directly, and
-- the operations of `Broker` that make such clients.
pub mod Subscribing
pub mod Keeps
use elbus.Base.{
  ℕ, ◌+◌, ◌%◌, ◌^◌, ◌++◌, Bool, true, false, Bytes, List, [], ◌∷◌, Option, none, some,
  if◌then◌else◌, length,
}
use elbus.Proto.{
  Result, ok, err, error_not_registered, error_not_supported, literal, QoS, needs_ack, is_realtime,
  primary_name, secondary_sep,
}
use elbus.Stream.{Outcome, done, failed, waits}
use elbus.Broker.Client.{internal, client_new, set_registered}
use elbus.Broker.Maps.{Maps}
use elbus.Broker.Db.{Db, modify, ref}
use elbus.Broker.Registry.{drop_client}
use elbus.Broker.Deliver.{Act, Room, BrokerEvent, Parcel, send, send_broadcast, publish}
use elbus.Broker.Announce.{register_client, unregister_client}

-- `OpConfirm`: a channel that holds its `Ok(())` already, or none.
abbrev pub Confirm : Type 0
Confirm = Option (Result (Unit {0}))

-- `make_confirm_channel!`
unfoldable pub make_confirm_channel : QoS → Result Confirm
unfolding needs_ack
make_confirm_channel qos = ok (if needs_ack qos then some (ok tt) else none)

module _ (X : Maps) where
  -- what the map of subscriptions answers: `false` is an error
  unfoldable pub confirmed : QoS → Db X → X.Subs × Bool → Result Confirm × Db X
  unfolding make_confirm_channel
  confirmed qos db (subs, accepted) = (
    if accepted then make_confirm_channel qos else err error_not_registered,
    record db { subscriptions = subs },
  )

  -- `Client::subscribe` and `unsubscribe`, for the object `id`
  unfoldable pub subscribe : ℕ → Bytes → QoS → Db X → Result Confirm × Db X
  unfolding confirmed
  subscribe id topic qos db = confirmed qos db (X.subscribe db.subscriptions topic (ref db id))

  unfoldable pub unsubscribe : ℕ → Bytes → QoS → Db X → Result Confirm × Db X
  unfolding confirmed
  unsubscribe id topic qos db = confirmed qos db (X.unsubscribe db.subscriptions topic (ref db id))

  -- the loop over topics, which ends at the first one that is refused
  unfoldable pub for_topics : (X.Subs → Bytes → X.Subs × Bool) → List Bytes → X.Subs → X.Subs × Bool
  for_topics one [] subs = (subs, true)
  for_topics one (t ∷ ts) subs =
      let rest = for_topics one ts (one subs t).0 in if (one subs t).1 then rest else one subs t

  unfoldable pub subscribe_bulk : ℕ → List Bytes → QoS → Db X → Result Confirm × Db X
  unfolding confirmed for_topics
  subscribe_bulk id topics qos db =
      confirmed qos db (for_topics (λ s t. X.subscribe s t (ref db id)) topics db.subscriptions)

  unfoldable pub unsubscribe_bulk : ℕ → List Bytes → QoS → Db X → Result Confirm × Db X
  unfolding confirmed for_topics
  unsubscribe_bulk id topics qos db =
      confirmed qos db (for_topics (λ s t. X.unsubscribe s t (ref db id)) topics db.subscriptions)

  -- `?` on what a delivery comes to, and then the confirmation
  unfoldable pub sent_with :
      QoS → Outcome (Result (Unit {0})) × Db X → Outcome (Result Confirm) × Db X
  unfolding make_confirm_channel
  sent_with qos (done (ok u), db) = (done (make_confirm_channel qos), db)
  sent_with qos (done (err e), db) = (done (err e), db)
  sent_with qos (failed e, db) = (done (err e), db)
  sent_with qos (waits, db) = (waits, db)

  unfoldable pub spread_with : QoS → Outcome (Unit {0}) × Db X → Outcome (Result Confirm) × Db X
  unfolding make_confirm_channel
  spread_with qos (done u, db) = (done (make_confirm_channel qos), db)
  spread_with qos (failed e, db) = (done (err e), db)
  spread_with qos (waits, db) = (waits, db)

  abbrev pub parcel : Option Bytes → Bytes → ℕ → QoS → Parcel
  parcel header payload len qos = record {
    header = header;
    buf = payload;
    payload_pos = 0;
    len = len;
    realtime = is_realtime qos;
  }

  module _ (encode : BrokerEvent → Result Bytes) (room : ℕ → Room) where
    abbrev pub unregistering : ℕ → Act X (Unit {0})
    unregistering = unregister_client X encode room

    -- `Client::send`, `zc_send`, `send_broadcast` and `publish`: the broker's own clients have no
    -- timeout
    unfoldable pub client_send : ℕ → Bytes → Bytes → QoS → Act X (Result Confirm)
    unfolding sent_with
    client_send id target payload qos db =
        sent_with qos
          (send X unregistering room false id target (parcel none payload (length payload) qos) db)

    unfoldable pub client_zc_send : ℕ → Bytes → Bytes → Bytes → QoS → Act X (Result Confirm)
    unfolding sent_with
    client_zc_send id target header payload qos db = sent_with qos (
        send X unregistering room false id target
          (parcel (some header) payload (length payload + length header) qos) db)

    unfoldable pub client_send_broadcast : ℕ → Bytes → Bytes → QoS → Act X (Result Confirm)
    unfolding spread_with
    client_send_broadcast id target payload qos db = spread_with qos (
        send_broadcast X unregistering room false id target
          (parcel none payload (length payload) qos) db)

    unfoldable pub client_publish : ℕ → Bytes → Bytes → QoS → Act X (Result Confirm)
    unfolding spread_with
    client_publish id topic payload qos db =
        spread_with qos (
          publish X unregistering room false id topic (parcel none payload (length payload) qos) db)

    -- `Client::unregister`
    unfoldable pub unregister : ℕ → Act X (Unit {0})
    unregister id db = unregister_client X encode room id (modify db id (set_registered false))

    -- `Drop for Client`
    unfoldable pub drop_handle : ℕ → Db X → Db X
    drop_handle id db = if (db.heap id).registered then drop_client X db id else db

    -- `Broker::register_client`, for a new object `id`
    unfoldable pub register_local : ℕ → ℕ → Bytes → Act X (Result (Unit {0}))
    register_local queue_size id name db =
        register_client X encode room id
          (modify db id (λ _. client_new name (primary_name name) queue_size internal none none))

    -- `Broker::register_secondary_for`, for the client `id` with its counter, which counts up whether
    -- the registration succeeds or not; `show` writes a number in decimal digits
    unfoldable pub register_secondary_for :
        (ℕ → Bytes) → ℕ → ℕ → ℕ → ℕ → Db X → Outcome (Result (Unit {0})) × (ℕ × Db X)
    unfolding register_local
    register_secondary_for show queue_size new id counter db =
        if (db.heap id).primary
        then (let name = (db.heap id).name ++ (secondary_sep ++ show counter) in
            let r = register_local queue_size new name db in (r.0, ((counter + 1) % 2 ^ 64, r.1)))
        else (done (err (error_not_supported (literal "not a primary client"))), (counter, db))

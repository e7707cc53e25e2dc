-- ===== src/Broker/Deliver.antt =====
-- src/broker.rs: `safe_send_frame!`, `send!`, `send_broadcast!`, `publish!` and `announce`.
pub mod Keeps
pub mod Bounds
pub mod Effects
use elbus.Base.{
  ℕ, ◌*◌, Bool, true, false, Bytes, List, [], ◌∷◌, Option, none, some, if◌then◌else◌, length, codes,
}
use elbus.Proto.{
  error_not_registered, error_not_delivered, error_timeout, error_eof, Result, ok, err, FrameKind,
  FrameData,
}
use elbus.Stream.{Outcome, done, failed, waits}
use elbus.Broker.Client.{
  is_internal, is_full, push, swap_one, close, count_read, count_write, add64,
}
use elbus.Broker.Maps.{Maps, Ref}
use elbus.Broker.Db.{Db, lookup, modify}

-- What happens to a full queue while someone waits to put a frame into it: its receiver takes a
-- frame, nothing, or its receiver goes away.
pub data Room : Type 0 where
  freed stuck gone : Room

pub record BrokerEvent : Type 0 where
  pub subject : Bytes
  pub info : Option Bytes
  pub time : ℕ
  pub topic : Bytes

abbrev pub event_unreg : Bytes → BrokerEvent
event_unreg name = record {
  subject = codes "unreg";
  info = some name;
  time = 0;
  topic = codes ".broker/info";
}

abbrev pub event_reg : Bytes → BrokerEvent
event_reg name = record {
  subject = codes "reg";
  info = some name;
  time = 0;
  topic = codes ".broker/info";
}

abbrev pub event_shutdown : BrokerEvent
event_shutdown = record {
  subject = codes "shutdown";
  info = none;
  time = 0;
  topic = codes ".broker/warn";
}

-- The payload of a frame, and what the sender says about it.
pub record Parcel : Type 0 where
  pub header : Option Bytes
  pub buf : Bytes
  pub payload_pos : ℕ
  pub len : ℕ
  pub realtime : Bool

module _ (X : Maps) where
  -- An async step on the broker's state.
  abbrev pub Act {ℓ} : Type ℓ → Type ℓ
  Act A = Db X → Outcome A × Db X

  abbrev pub put_frame : FrameData → ℕ → Act (Result (Unit {0}))
  put_frame frame id db =
      if (db.heap id).closed
      then (done (err error_eof), db)
      else (done (ok tt), modify db id (push frame))

  -- a full queue of an internal client; `?` ends the whole sending function on a timeout
  unfoldable pub wait_for_room : Room → Bool → FrameData → ℕ → Act (Result (Unit {0}))
  wait_for_room freed limited frame id db = (done (ok tt), modify db id (swap_one frame))
  wait_for_room gone limited frame id db = (done (err error_eof), modify db id close)
  wait_for_room stuck true frame id db = (failed error_timeout, db)
  wait_for_room stuck false frame id db = (waits, db)

  -- after the client has been unregistered, its channel is closed and the frame is lost
  unfoldable pub after_unregister :
      ℕ → Outcome (Unit {0}) × Db X → Outcome (Result (Unit {0})) × Db X
  after_unregister id (done u, db) = (done (err error_not_delivered), modify db id close)
  after_unregister id (failed e, db) = (failed e, db)
  after_unregister id (waits, db) = (waits, db)

  -- `safe_send_frame!`, with the call that unregisters a client, whether there is a timeout, and what
  -- happens to full queues
  unfoldable pub safe_send_frame :
      (ℕ → Act (Unit {0})) → (ℕ → Room) → Bool → ℕ → FrameData → Act (Result (Unit {0}))
  unfolding wait_for_room after_unregister
  safe_send_frame unregister room limited id frame db =
      if is_full (db.heap id)
      then if is_internal (db.heap id).kind
        then wait_for_room (room id) limited frame id db
        else after_unregister id (unregister id db)
      else put_frame frame id db

  -- the four counters that every sending operation bumps first
  unfoldable pub count_incoming : ℕ → ℕ → Db X → Db X
  count_incoming from len db = record (modify db from (count_read len)) {
    r_frames = add64 db.r_frames 1;
    r_bytes = add64 db.r_bytes len;
  }

  unfoldable pub count_outgoing : ℕ → ℕ → Db X → Db X
  count_outgoing n len db = record db {
    w_frames = add64 db.w_frames n;
    w_bytes = add64 db.w_bytes (len * n);
  }

  abbrev pub frame_of : FrameKind → Bytes → Option Bytes → Parcel → FrameData
  frame_of kind sender topic p = record {
    kind = kind;
    sender = some sender;
    topic = topic;
    header = p.header;
    buf = p.buf;
    payload_pos = p.payload_pos;
    realtime = p.realtime;
  }

  module _ (unregister : ℕ → Act (Unit {0})) (room : ℕ → Room) (limited : Bool) where
    -- `send!`
    unfoldable pub send : ℕ → Bytes → Parcel → Act (Result (Unit {0}))
    unfolding safe_send_frame count_incoming count_outgoing
    send from target p db =
        let db₁ = count_incoming from p.len db in
        elim (lookup target db₁.clients) [
          | none ↦ (done (err error_not_registered), db₁)
          | some id ↦
              safe_send_frame unregister room limited id
                (frame_of FrameKind.message (db₁.heap from).name none p)
                (count_outgoing 1 p.len (modify db₁ id (count_write p.len)))
        ]

    unfoldable pub then_all :
        (Db X → Outcome (Unit {0}) × Db X)
        → Outcome (Result (Unit {0})) × Db X
        → Outcome (Unit {0}) × Db X
    then_all rest (done r, db) = rest db
    then_all rest (failed e, db) = (failed e, db)
    then_all rest (waits, db) = (waits, db)

    -- the loop over the receivers; what a single delivery comes to is ignored
    unfoldable pub send_all : ℕ → FrameData → List Ref → Act (Unit {0})
    unfolding safe_send_frame then_all
    send_all len frame [] db = (done tt, db)
    send_all len frame (c ∷ cs) db =
        then_all (send_all len frame cs)
          (safe_send_frame unregister room limited c.id frame (modify db c.id (count_write len)))

    unfoldable pub send_to_list : ℕ → FrameData → List Ref → Act (Unit {0})
    unfolding send_all count_outgoing
    send_to_list len frame [] db = (done tt, db)
    send_to_list len frame (c ∷ cs) db =
        send_all len frame (c ∷ cs) (count_outgoing (length (c ∷ cs)) len db)

    -- `send_broadcast!`
    unfoldable pub send_broadcast : ℕ → Bytes → Parcel → Act (Unit {0})
    unfolding send_to_list count_incoming
    send_broadcast from target p db =
        let db₁ = count_incoming from p.len db in
        send_to_list p.len (frame_of FrameKind.broadcast (db₁.heap from).name none p)
          (X.get_clients_by_mask db₁.broadcasts target) db₁

    -- `publish!`
    unfoldable pub publish : ℕ → Bytes → Parcel → Act (Unit {0})
    unfolding send_to_list count_incoming
    publish from topic p db =
        let db₁ = count_incoming from p.len db in
        send_to_list p.len (frame_of FrameKind.publish (db₁.heap from).name (some topic) p)
          (X.get_subscribers db₁.subscriptions topic) db₁

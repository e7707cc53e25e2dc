-- ===== src/Broker/Handler/Denied.antt =====
-- src/broker.rs, `handle_reader`: a request for a target that the access rules do not allow.
use elbus.Base.{
  ℕ, ◌≡◌, ◌≢◌, ◌⊎◌, refl, ◌∙◌, arith, true, false, Bytes, [], ◌∷◌, ◌++◌, Option, if◌then◌else◌,
  ◌==◌, length, Bool-cases, inl, inr,
}
use elbus.Proto.{Result, ok, FrameOp, FrameData, needs_ack, is_realtime, err_access}
use elbus.Broker.Client.{ElbusClient, is_full, push, swap_one, close, count_write}
use elbus.Broker.Maps.{Maps}
use elbus.Broker.Db.{Db, modify}
use elbus.Broker.Deliver.{Room, freed, stuck, gone, BrokerEvent, wait_for_room, count_outgoing}
use elbus.Broker.Deliver.Effects.{HasRoom}
use elbus.Broker.Access.{Lists, ClientAaa, p2p_allowed, publish_allowed, broadcast_allowed}
use elbus.Broker.Request.{Request, parse_target, ack_frame}
use elbus.Broker.Handler.{
  question, enqueue, send_ack, ack_if_needed, deliver_request, targeted_request, process_request,
}

-- Nothing of the broker but the object `id` and the counters has changed.
pub record OnlyObject {X : Maps} (id : ℕ) (before after : Db X) : Type 0 where
  pub others : (i : ℕ) → i ≢ id → after.heap i ≡ before.heap i
  pub clients : after.clients ≡ before.clients
  pub subscriptions : after.subscriptions ≡ before.subscriptions
  pub broadcasts : after.broadcasts ≡ before.broadcasts
  pub core : after.core ≡ before.core

module _ (X : Maps) (A : Lists) (encode : BrokerEvent → Result Bytes) (room : ℕ → Room) (id : ℕ)
    (aaa : Option (ClientAaa A)) where
  OnlyObject-modify :
      (before db : Db X) (f : ElbusClient → ElbusClient)
      → OnlyObject id before db
      → OnlyObject id before (modify db id f)
  OnlyObject-modify before db f v = record {
    others = λ i ne. same i ne (Bool-cases (id == i)) ∙ v.others i ne;
    clients = v.clients;
    subscriptions = v.subscriptions;
    broadcasts = v.broadcasts;
    core = v.core;
  }
    where
      same :
          (i : ℕ)
          → i ≢ id
          → ((id == i) ≡ true) ⊎ ((id == i) ≡ false)
          → (modify db id f).heap i ≡ db.heap i
      same i ne (inl h) = absurd (ne (ground (arith, h)))
      same i ne (inr h) = rw h refl

  OnlyObject-enqueue :
      (frame : FrameData) (before db : Db X)
      → OnlyObject id before db
      → OnlyObject id before (enqueue X A encode room id aaa frame db).1
  unfolding enqueue question wait_for_room
  OnlyObject-enqueue frame before db v = elim (Bool-cases (is_full (db.heap id))) [
    | inl h ↦ rw (h, enqueue) (waited (room id))
    | inr h ↦ elim (Bool-cases (db.heap id).closed) [
      | inl g ↦ rw (h, g, enqueue) v
      | inr g ↦ rw (h, g, enqueue) (OnlyObject-modify before db (push frame) v)
    ]
  ]
    where
      waited :
          (r : Room)
          → OnlyObject id before
              (question X A encode room id aaa (wait_for_room X r false frame id db)).1
      waited freed = OnlyObject-modify before db (swap_one frame) v
      waited gone = OnlyObject-modify before db close v
      waited stuck = v

  pub OnlyObject-ack_if_needed :
      (r : Request) (code : ℕ) (db : Db X)
      → OnlyObject id db (ack_if_needed X A encode room id aaa r code db).1
  unfolding ack_if_needed send_ack count_outgoing
  OnlyObject-ack_if_needed r code db = elim (Bool-cases (needs_ack r.qos)) [
    | inl h ↦
        let frame = ack_frame r.op_id code (is_realtime r.qos) in
        let len = length frame.buf in
        rw (h, ack_if_needed, send_ack)
          (OnlyObject-enqueue frame db (count_outgoing X 1 len (modify db id (count_write len)))
            (counted len))
    | inr h ↦ rw (h, ack_if_needed) same
  ]
    where
      same : OnlyObject id db db
      same = record {
        others = λ i ne. refl;
        clients = refl;
        subscriptions = refl;
        broadcasts = refl;
        core = refl;
      }

      counted :
          (len : ℕ) → OnlyObject id db (count_outgoing X 1 len (modify db id (count_write len)))
      counted len =
          let w = OnlyObject-modify db db (count_write len) same in
          record {
            others = w.others;
            clients = w.clients;
            subscriptions = w.subscriptions;
            broadcasts = w.broadcasts;
            core = w.core;
          }

  queue-ack_if_needed :
      (r : Request) (code : ℕ) (db : Db X)
      → HasRoom (db.heap id)
      → ((ack_if_needed X A encode room id aaa r code db).1.heap id).queue ≡ (
          if needs_ack r.qos
          then (db.heap id).queue ++ (ack_frame r.op_id code (is_realtime r.qos) ∷ [])
          else (db.heap id).queue)
  unfolding ack_if_needed send_ack enqueue question count_outgoing
  queue-ack_if_needed r code db (h, g) = elim (Bool-cases (needs_ack r.qos)) [
    | inl k ↦ rw (k, ack_if_needed, send_ack, enqueue) (ground (arith, h, g))
    | inr k ↦ rw (k, ack_if_needed) refl
  ]

  -- The access rules do not allow the operation for this target.
  pub data IsDenied (target : Bytes) : FrameOp → Type 0 where
    p2p : p2p_allowed A aaa target ≡ false → IsDenied target FrameOp.message
    broadcast : broadcast_allowed A aaa target ≡ false → IsDenied target FrameOp.broadcast
    publication : publish_allowed A aaa target ≡ false → IsDenied target FrameOp.publish_topic

  deliver_request-IsDenied :
      {op : FrameOp} (r : Request) (target : Bytes) (pos : ℕ) (db : Db X)
      → IsDenied target op
      → deliver_request X A encode room id aaa op r target pos db
        ≡ ack_if_needed X A encode room id aaa r err_access db
  unfolding deliver_request
  deliver_request-IsDenied r target pos db (p2p h) = rw (h, deliver_request) refl
  deliver_request-IsDenied r target pos db (broadcast h) = rw (h, deliver_request) refl
  deliver_request-IsDenied r target pos db (publication h) = rw (h, deliver_request) refl

  process_request-IsDenied :
      (r : Request) (target : Bytes) (pos : ℕ) (db : Db X)
      → parse_target r.buf ≡ ok (target, pos)
      → IsDenied target r.op
      → process_request X A encode room id aaa r db
        ≡ ack_if_needed X A encode room id aaa r err_access db
  unfolding process_request targeted_request
  process_request-IsDenied r target pos db h d = by_op r.op refl d
    where
      denied :
          deliver_request X A encode room id aaa r.op r target pos db
          ≡ ack_if_needed X A encode room id aaa r err_access db
      denied = deliver_request-IsDenied r target pos db d

      to_ack : FrameOp → Type 0
      to_ack op =
          (r.op ≡ op)
          → IsDenied target op
          → process_request X A encode room id aaa r db
            ≡ ack_if_needed X A encode room id aaa r err_access db

      by_op : (op : FrameOp) → to_ack op
      by_op FrameOp.message e k = rw (e, h, process_request) denied
      by_op FrameOp.broadcast e k = rw (e, h, process_request) denied
      by_op FrameOp.publish_topic e k = rw (e, h, process_request) denied
      by_op FrameOp.nop e k = elim k [ ]
      by_op FrameOp.subscribe_topic e k = elim k [ ]
      by_op FrameOp.unsubscribe_topic e k = elim k [ ]

  -- A message, a broadcast or a publication for a target that the access rules do not allow changes
  -- nothing but the connection's own object and the counters, and puts an access error into the
  -- connection's queue, if the request asks for an answer. The queue of the connection has room.
  pub denied_request :
      (r : Request) (target : Bytes) (pos : ℕ) (db : Db X)
      → parse_target r.buf ≡ ok (target, pos)
      → IsDenied target r.op
      → HasRoom (db.heap id)
      → let after = (process_request X A encode room id aaa r db).1 in
        OnlyObject id db after
        × ((after.heap id).queue ≡ (
            if needs_ack r.qos
            then (db.heap id).queue ++ (ack_frame r.op_id err_access (is_realtime r.qos) ∷ [])
            else (db.heap id).queue))
  denied_request r target pos db h d v =
      rw (process_request-IsDenied r target pos db h d)
        (OnlyObject-ack_if_needed r err_access db, queue-ack_if_needed r err_access db v)

-- ===== src/Broker/Handler.antt =====
-- src/broker.rs, `Broker::handle_reader`: what the loop does with a request, for the connection of the
-- client `id` with its access rules.
pub mod Denied
pub mod Acks
pub mod Keeps
use elbus.Base.{
  ℕ, ◌+◌, Bool, true, false, Bytes, List, [], ◌∷◌, ◌++◌, Option, none, if◌then◌else◌, length, ◌==◌,
}
use elbus.Proto.{
  Result, ok, err, kind_code, response_ok, err_access, needs_ack, is_realtime, FrameOp, FrameData,
}
use elbus.Stream.{Outcome, done, failed, waits, from_utf8}
use elbus.Broker.Client.{is_full, count_write}
use elbus.Broker.Maps.{Maps}
use elbus.Broker.Db.{Db, modify, ref}
use elbus.Broker.Deliver.{
  Act, Room, BrokerEvent, Parcel, put_frame, wait_for_room, count_incoming, count_outgoing, send,
  send_broadcast, publish,
}
use elbus.Broker.Announce.{unregister_client}
use elbus.Broker.Access.{
  Lists, ClientAaa, p2p_allowed, publish_allowed, subscribe_allowed, broadcast_allowed,
}
use elbus.Broker.Request.{Request, parse_target, ack_frame}

-- `buf.split(|c| *c == 0)`
cons_head : ℕ → List Bytes → List Bytes
cons_head c [] = (c ∷ []) ∷ []
cons_head c (t ∷ ts) = (c ∷ t) ∷ ts

unfoldable pub split_all : Bytes → List Bytes
unfolding cons_head
split_all [] = [] ∷ []
split_all (c ∷ cs) = let rest = split_all cs in if c == 0 then [] ∷ rest else cons_head c rest

module _ (X : Maps) (A : Lists) (encode : BrokerEvent → Result Bytes) (room : ℕ → Room) (id : ℕ)
    (aaa : Option (ClientAaa A)) where
  -- `.await?` on a send into a queue
  unfoldable pub question : Outcome (Result (Unit {0})) × Db X → Outcome (Unit {0}) × Db X
  question (done (ok u), db) = (done tt, db)
  question (done (err e), db) = (failed e, db)
  question (failed e, db) = (failed e, db)
  question (waits, db) = (waits, db)

  -- the next step of an async function
  unfoldable pub and_then : Outcome (Unit {0}) × Db X → Act X (Unit {0}) → Outcome (Unit {0}) × Db X
  and_then (done u, db) f = f db
  and_then (failed e, db) f = (failed e, db)
  and_then (waits, db) f = (waits, db)

  -- `client.tx.send(frame).await?`
  unfoldable pub enqueue : FrameData → Act X (Unit {0})
  unfolding question wait_for_room
  enqueue frame db = question (
      if is_full (db.heap id)
      then wait_for_room X (room id) false frame id db
      else put_frame X frame id db)

  -- `send_ack!`
  unfoldable pub send_ack : Bytes → ℕ → Bool → Act X (Unit {0})
  unfolding enqueue count_outgoing
  send_ack op_id code realtime db =
      let frame = ack_frame op_id code realtime in
      let len = length frame.buf in
      enqueue frame (count_outgoing X 1 len (modify db id (count_write len)))

  -- an acknowledgement, if the request asks for one
  unfoldable pub ack_if_needed : Request → ℕ → Act X (Unit {0})
  unfolding send_ack
  ack_if_needed r code db =
      if needs_ack r.qos then send_ack r.op_id code (is_realtime r.qos) db else (done tt, db)

  unfoldable pub go_on :
      (Db X → Outcome (List Bytes) × Db X) → Outcome (Unit {0}) × Db X → Outcome (List Bytes) × Db X
  go_on rest (done u, db) = rest db
  go_on rest (failed e, db) = (failed e, db)
  go_on rest (waits, db) = (waits, db)

  -- the topics that may be subscribed to, with an acknowledgement for each of the others
  unfoldable pub check_topics :
      Request → List Bytes → List Bytes → Db X → Outcome (List Bytes) × Db X
  unfolding ack_if_needed from_utf8 go_on
  check_topics r [] topics db = (done topics, db)
  check_topics r (t ∷ ts) topics db = elim (from_utf8 t) [
    | err e ↦ (failed e, db)
    | ok topic ↦
        if subscribe_allowed A aaa topic
        then check_topics r ts (topics ++ (topic ∷ [])) db
        else go_on (check_topics r ts topics) (ack_if_needed r err_access db)
  ]

  -- the loop over the topics that were allowed; whether a subscription succeeds is ignored
  unfoldable pub subscribe_topics : List Bytes → Db X → Db X
  subscribe_topics [] db = db
  subscribe_topics (t ∷ ts) db =
      subscribe_topics ts
        (record db { subscriptions = (X.subscribe db.subscriptions t (ref db id)).0 })

  unfoldable pub subscribe_checked :
      Request → Outcome (List Bytes) × Db X → Outcome (Unit {0}) × Db X
  unfolding subscribe_topics ack_if_needed
  subscribe_checked r (done topics, db) = ack_if_needed r response_ok (subscribe_topics topics db)
  subscribe_checked r (failed e, db) = (failed e, db)
  subscribe_checked r (waits, db) = (waits, db)

  -- the loop of an unsubscription, which ends at the first topic that is no text
  unfoldable pub unsubscribe_topics : List Bytes → Act X (Unit {0})
  unsubscribe_topics [] db = (done tt, db)
  unsubscribe_topics (t ∷ ts) db =
      let db₁ = record db { subscriptions = (X.unsubscribe db.subscriptions t (ref db id)).0 } in
      let rest = unsubscribe_topics ts db₁ in
      elim (from_utf8 t) [ err e ↦ (failed e, db) | ok topic ↦ rest ]

  -- how a message is acknowledged: an error of its delivery is answered, and a timeout ends the loop
  unfoldable pub ack_delivery :
      Request → Outcome (Result (Unit {0})) × Db X → Outcome (Unit {0}) × Db X
  unfolding ack_if_needed
  ack_delivery r (done (ok u), db) = ack_if_needed r response_ok db
  ack_delivery r (done (err e), db) = ack_if_needed r (kind_code e.kind) db
  ack_delivery r (failed e, db) = (failed e, db)
  ack_delivery r (waits, db) = (waits, db)

  abbrev pub request_parcel : Request → ℕ → Parcel
  request_parcel r payload_pos = record {
    header = none;
    buf = r.buf;
    payload_pos = payload_pos;
    len = length r.buf;
    realtime = is_realtime r.qos;
  }

  abbrev pub unregistering : ℕ → Act X (Unit {0})
  unregistering = unregister_client X encode room

  -- `match op` of the frames with a target
  unfoldable pub deliver_request : FrameOp → Request → Bytes → ℕ → Act X (Unit {0})
  unfolding ack_delivery ack_if_needed and_then
  deliver_request FrameOp.message r target pos db =
      if p2p_allowed A aaa target
      then ack_delivery r (send X unregistering room true id target (request_parcel r pos) db)
      else ack_if_needed r err_access db
  deliver_request FrameOp.broadcast r target pos db =
      if broadcast_allowed A aaa target
      then and_then (send_broadcast X unregistering room true id target (request_parcel r pos) db)
          (ack_if_needed r response_ok)
      else ack_if_needed r err_access db
  deliver_request FrameOp.publish_topic r target pos db =
      if publish_allowed A aaa target
      then and_then (publish X unregistering room true id target (request_parcel r pos) db)
          (ack_if_needed r response_ok)
      else ack_if_needed r err_access db
  deliver_request _ r target pos db = (done tt, db)

  unfoldable pub targeted_request : Request → Result (Bytes × ℕ) → Act X (Unit {0})
  unfolding deliver_request
  targeted_request r (err e) db = (failed e, db)
  targeted_request r (ok (target, pos)) db = deliver_request r.op r target pos db

  -- `match op`
  unfoldable pub process_request : Request → Act X (Unit {0})
  unfolding check_topics subscribe_checked unsubscribe_topics and_then ack_if_needed
      targeted_request parse_target
  process_request r db = elim r.op [
    | FrameOp.subscribe_topic ↦
        subscribe_checked r
          (check_topics r (split_all r.buf) [] (count_incoming X id (length r.buf) db))
    | FrameOp.unsubscribe_topic ↦
        and_then (unsubscribe_topics (split_all r.buf) (count_incoming X id (length r.buf) db))
          (ack_if_needed r response_ok)
    | FrameOp.message ↦ targeted_request r (parse_target r.buf) db
    | FrameOp.broadcast ↦ targeted_request r (parse_target r.buf) db
    | FrameOp.publish_topic ↦ targeted_request r (parse_target r.buf) db
    | FrameOp.nop ↦ targeted_request r (parse_target r.buf) db
  ]

-- ===== src/Broker/Handler/Keeps.antt =====
-- src/broker.rs, `handle_reader`: whatever a request asks for, the broker stays safe.
use elbus.Base.{
  ℕ, ◌≡◌, refl, true, Bytes, List, [], ◌∷◌, ◌++◌, Option, Bool-cases, inl, inr, length,
}
use elbus.Proto.{Result, Result-cases, ok, err, FrameOp, response_ok, err_access, kind_code}
use elbus.Stream.{Outcome, done, failed, waits, from_utf8}
use elbus.Broker.Maps.{Maps}
use elbus.Broker.Db.{Db, ref}
use elbus.Broker.Deliver.{Room, BrokerEvent, count_incoming}
use elbus.Broker.Deliver.Keeps.{send-keeps, send_broadcast-keeps, publish-keeps}
use elbus.Broker.Access.{
  Lists, ClientAaa, subscribe_allowed, p2p_allowed, publish_allowed, broadcast_allowed,
}
use elbus.Broker.Request.{Request, parse_target}
use elbus.Broker.Safety.{Safe}
use elbus.Broker.Safety.Steps.{Safe-count, Safe-subscriptions, Safe-Keeps}
use elbus.Broker.Handler.{
  split_all, go_on, check_topics, subscribe_topics, subscribe_checked, unsubscribe_topics,
  ack_delivery, request_parcel, deliver_request, targeted_request, process_request,
}
use elbus.Broker.Handler.Acks.{and_then-Safe, ack_if_needed-Safe}

module _ (X : Maps) (A : Lists) (encode : BrokerEvent → Result Bytes) (room : ℕ → Room) (id : ℕ)
    (aaa : Option (ClientAaa A)) where
  abbrev S : Db X → Type 0
  S = Safe X

  go_on-Safe :
      (rest : Db X → Outcome (List Bytes) × Db X) (o : Outcome (Unit {0}) × Db X)
      → ((db : Db X) → S db → S (rest db).1)
      → S o.1
      → S (go_on X A encode room id aaa rest o).1
  unfolding go_on
  go_on-Safe rest (done u, db) k v = k db v
  go_on-Safe rest (failed e, db) k v = v
  go_on-Safe rest (waits, db) k v = v

  check_topics-Safe :
      (r : Request) (ts topics : List Bytes) (db : Db X)
      → S db
      → S (check_topics X A encode room id aaa r ts topics db).1
  unfolding check_topics
  check_topics-Safe r [] topics db v = v
  check_topics-Safe r (t ∷ ts) topics db v = elim (Result-cases (from_utf8 t)) [
    | inr (e, h) ↦ rw (h, check_topics) v
    | inl (topic, h) ↦ elim (Bool-cases (subscribe_allowed A aaa topic)) [
      | inl g ↦ rw (h, g, check_topics) (check_topics-Safe r ts (topics ++ (topic ∷ [])) db v)
      | inr g ↦
          rw (h, g, check_topics)
            (go_on-Safe _ _ (check_topics-Safe r ts topics)
              (ack_if_needed-Safe X A encode room id aaa r err_access db v))
    ]
  ]

  subscribe_topics-Safe :
      (ts : List Bytes) (db : Db X) → S db → S (subscribe_topics X A encode room id aaa ts db)
  unfolding subscribe_topics
  subscribe_topics-Safe [] db v = v
  subscribe_topics-Safe (t ∷ ts) db v = subscribe_topics-Safe ts _ (
      Safe-subscriptions X encode room db (X.subscribe db.subscriptions t (ref db id)).0
        (λ n. X.has-subscribe db.subscriptions t (ref db id) n) v)

  subscribe_checked-Safe :
      (r : Request) (o : Outcome (List Bytes) × Db X)
      → S o.1
      → S (subscribe_checked X A encode room id aaa r o).1
  unfolding subscribe_checked
  subscribe_checked-Safe r (done ts, db) v =
      ack_if_needed-Safe X A encode room id aaa r response_ok _ (subscribe_topics-Safe ts db v)
  subscribe_checked-Safe r (failed e, db) v = v
  subscribe_checked-Safe r (waits, db) v = v

  unsubscribe_topics-Safe :
      (ts : List Bytes) (db : Db X) → S db → S (unsubscribe_topics X A encode room id aaa ts db).1
  unfolding unsubscribe_topics
  unsubscribe_topics-Safe [] db v = v
  unsubscribe_topics-Safe (t ∷ ts) db v = elim (Result-cases (from_utf8 t)) [
    | inr (e, h) ↦ rw (h, unsubscribe_topics) v
    | inl (topic, h) ↦
        rw (h, unsubscribe_topics)
          (unsubscribe_topics-Safe ts _ (
            Safe-subscriptions X encode room db (X.unsubscribe db.subscriptions t (ref db id)).0
              (λ n. X.has-unsubscribe db.subscriptions t (ref db id) n) v))
  ]

  ack_delivery-Safe :
      (r : Request) (o : Outcome (Result (Unit {0})) × Db X)
      → S o.1
      → S (ack_delivery X A encode room id aaa r o).1
  unfolding ack_delivery
  ack_delivery-Safe r (done (ok u), db) v =
      ack_if_needed-Safe X A encode room id aaa r response_ok db v
  ack_delivery-Safe r (done (err e), db) v =
      ack_if_needed-Safe X A encode room id aaa r (kind_code e.kind) db v
  ack_delivery-Safe r (failed e, db) v = v
  ack_delivery-Safe r (waits, db) v = v

  deliver_request-Safe :
      (op : FrameOp) (r : Request) (target : Bytes) (pos : ℕ) (db : Db X)
      → S db
      → S (deliver_request X A encode room id aaa op r target pos db).1
  unfolding deliver_request
  deliver_request-Safe FrameOp.message r target pos db v =
      elim (Bool-cases (p2p_allowed A aaa target)) [
        | inl h ↦
            rw (h, deliver_request)
              (ack_delivery-Safe r _ (
                send-keeps X _ room true S (Safe-Keeps X encode room true) id target
                  (request_parcel X A encode room id aaa r pos) db v))
        | inr h ↦
            rw (h, deliver_request) (ack_if_needed-Safe X A encode room id aaa r err_access db v)
      ]
  deliver_request-Safe FrameOp.broadcast r target pos db v =
      elim (Bool-cases (broadcast_allowed A aaa target)) [
        | inl h ↦
            rw (h, deliver_request)
              (and_then-Safe X A encode room id aaa _ _
                (ack_if_needed-Safe X A encode room id aaa r response_ok)
                (send_broadcast-keeps X _ room true S (Safe-Keeps X encode room true) id target
                  (request_parcel X A encode room id aaa r pos) db v))
        | inr h ↦
            rw (h, deliver_request) (ack_if_needed-Safe X A encode room id aaa r err_access db v)
      ]
  deliver_request-Safe FrameOp.publish_topic r target pos db v =
      elim (Bool-cases (publish_allowed A aaa target)) [
        | inl h ↦
            rw (h, deliver_request)
              (and_then-Safe X A encode room id aaa _ _
                (ack_if_needed-Safe X A encode room id aaa r response_ok)
                (publish-keeps X _ room true S (Safe-Keeps X encode room true) id target
                  (request_parcel X A encode room id aaa r pos) db v))
        | inr h ↦
            rw (h, deliver_request) (ack_if_needed-Safe X A encode room id aaa r err_access db v)
      ]
  deliver_request-Safe FrameOp.nop r target pos db v = v
  deliver_request-Safe FrameOp.subscribe_topic r target pos db v = v
  deliver_request-Safe FrameOp.unsubscribe_topic r target pos db v = v

  targeted_request-Safe :
      (r : Request) (t : Result (Bytes × ℕ)) (db : Db X)
      → S db
      → S (targeted_request X A encode room id aaa r t db).1
  unfolding targeted_request
  targeted_request-Safe r (err e) db v = v
  targeted_request-Safe r (ok (target, pos)) db v = deliver_request-Safe r.op r target pos db v

  -- Every request, whatever it comes to, keeps the broker safe.
  pub Safe-process_request :
      (r : Request) (db : Db X) → Safe X db → Safe X (process_request X A encode room id aaa r db).1
  unfolding process_request
  Safe-process_request r db v = by_op r.op refl
    where
      counted : S (count_incoming X id (length r.buf) db)
      counted = (Safe-count X encode room id 0 (length r.buf) db v).0

      by_op : (op : FrameOp) → r.op ≡ op → S (process_request X A encode room id aaa r db).1
      by_op FrameOp.subscribe_topic e =
          rw (e, process_request)
            (subscribe_checked-Safe r _ (check_topics-Safe r (split_all r.buf) [] _ counted))
      by_op FrameOp.unsubscribe_topic e =
          rw (e, process_request)
            (and_then-Safe X A encode room id aaa _ _
              (ack_if_needed-Safe X A encode room id aaa r response_ok)
              (unsubscribe_topics-Safe (split_all r.buf) _ counted))
      by_op FrameOp.message e =
          rw (e, process_request) (targeted_request-Safe r (parse_target r.buf) db v)
      by_op FrameOp.broadcast e =
          rw (e, process_request) (targeted_request-Safe r (parse_target r.buf) db v)
      by_op FrameOp.publish_topic e =
          rw (e, process_request) (targeted_request-Safe r (parse_target r.buf) db v)
      by_op FrameOp.nop e =
          rw (e, process_request) (targeted_request-Safe r (parse_target r.buf) db v)

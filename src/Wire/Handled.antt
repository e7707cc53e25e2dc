-- ===== src/Wire/Handled.antt =====
-- What a request of one client comes to for another: the broker of src/broker.rs handles it and
-- queues a frame, its writer writes it, and the reader of src/ipc.rs takes it.
use elbus.Base.{
  ℕ, ◌+◌, ◌^◌, ◌≤◌, ◌<◌, ◌≡◌, ◌≢◌, refl, ◌∙◌, ap, arith, true, Bytes, List, [], ◌∷◌, ◌++◌, Option,
  some, none, length, drop, map, map-append, All, All-append, subst, u32_to_le_bytes, inl,
  length-append,
}
use elbus.Proto.{
  Result, ok, err, FrameOp, QoS, FrameKind, FrameData, payload, response_ok, kind_code,
}
use elbus.Comm.{Write, written_bytes}
use elbus.Stream.{Ending, Outcome, done, failed, waits}
use elbus.Broker.Client.{ElbusClient}
use elbus.Broker.Maps.{Maps, Ref}
use elbus.Broker.Db.{Db, lookup}
use elbus.Broker.Deliver.{Room, BrokerEvent, frame_of, send, publish}
use elbus.Broker.Deliver.Effects.{HasRoom, listed, Distinct, send-Queued, publish-Queued}
use elbus.Broker.Access.{Lists, ClientAaa, p2p_allowed, publish_allowed}
use elbus.Broker.Request.{Request}
use elbus.Broker.Handler.{
  and_then, ack_delivery, ack_if_needed, unregistering, request_parcel, deliver_request,
  targeted_request, process_request,
}
use elbus.Broker.Handler.Denied.{OnlyObject-ack_if_needed}
use elbus.Broker.Writer.{write_frames}
use elbus.Ipc.Read.{takes, Reader, handle_read}
use elbus.Wire.Frames.{stream, body_bytes}
use elbus.Wire.Delivery.{IsRouted, direct, publication, received, IsText}
use elbus.Wire.Sends.{Reads, Reads-target}
use elbus.Wire.Streams.{handle_read-write_frames, payload-received, stop_of}

-- A queue, written to its connection, gives the client what waited in the queue before, and then one
-- frame with this kind, sender, topic and payload.
pub record Delivered (before after : List FrameData) (rd : Reader) (e : Ending) (kind : FrameKind)
    (sender : Bytes) (topic : Option Bytes) (content : Bytes) : Type 0 where
  pub frame : FrameData
  pub writes : List Write
  pub written : write_frames after ≡ some writes
  pub read :
      handle_read rd (stream (written_bytes writes) e)
      ≡ (record rd { delivered = rd.delivered ++ (map received before ++ (frame ∷ [])) }, stop_of e)
  pub same_kind : frame.kind ≡ kind
  pub same_sender : frame.sender ≡ some sender
  pub same_topic : frame.topic ≡ topic
  pub no_header : frame.header ≡ none
  pub same_payload : payload frame ≡ some content

queue-Delivered :
    (before after : List FrameData) (f : FrameData) (s : Bytes) (rd : Reader) (e : Ending)
    → after ≡ before ++ (f ∷ [])
    → All IsRouted before
    → IsRouted f
    → f.sender ≡ some s
    → f.header ≡ none
    → rd.listening ≡ takes
    → Delivered before after rd e f.kind s f.topic (drop f.payload_pos f.buf)
queue-Delivered before after f s rd e q v w n h l =
    let (ws, eq, r) =
      handle_read-write_frames after rd e (rw q (All-append IsRouted before (f ∷ []) v (w, tt)))
        l in
    record {
      frame = received f;
      writes = ws;
      written = eq;
      read =
          r
          ∙ ap (λ d. (record rd { delivered = rd.delivered ++ d }, stop_of e))
              (ap (map received) q ∙ map-append received before (f ∷ []));
      same_kind = refl;
      same_sender = n;
      same_topic = refl;
      no_header = refl;
      same_payload = payload-received f ∙ rw h refl;
    }

module _ (X : Maps) (A : Lists) (encode : BrokerEvent → Result Bytes) (room : ℕ → Room) (from : ℕ)
    (aaa : Option (ClientAaa A)) where
  -- The acknowledgement of a delivery touches no other object than the sender's.
  ack_delivery-others :
      (r : Request) (s : Outcome (Result (Unit {0})) × Db X) (i : ℕ)
      → i ≢ from
      → (ack_delivery X A encode room from aaa r s).1.heap i ≡ s.1.heap i
  unfolding ack_delivery
  ack_delivery-others r (done (ok u), db) i ne =
      (OnlyObject-ack_if_needed X A encode room from aaa r response_ok db).others i ne
  ack_delivery-others r (done (err e), db) i ne =
      (OnlyObject-ack_if_needed X A encode room from aaa r (kind_code e.kind) db).others i ne
  ack_delivery-others r (failed e, db) i ne = refl
  ack_delivery-others r (waits, db) i ne = refl

  and_then-others :
      (r : Request) (s : Outcome (Unit {0}) × Db X) (i : ℕ)
      → i ≢ from
      → (and_then X A encode room from aaa s
            (ack_if_needed X A encode room from aaa r response_ok)).1.heap
          i
        ≡ s.1.heap i
  unfolding and_then
  and_then-others r (done u, db) i ne =
      (OnlyObject-ack_if_needed X A encode room from aaa r response_ok db).others i ne
  and_then-others r (failed e, db) i ne = refl
  and_then-others r (waits, db) i ne = refl

  module _ (id : ℕ) (target content : Bytes) (qos : QoS) (db : Db X) where
    abbrev sender : Bytes
    sender = (db.heap from).name

    -- The request with this frame id.
    abbrev pub asked : FrameOp → Request
    asked op = record {
      op_id = u32_to_le_bytes id;
      op = op;
      qos = qos;
      buf = target ++ (0 ∷ content);
    }

    abbrev routed : FrameKind → Option Bytes → FrameOp → FrameData
    routed kind topic op =
        frame_of X kind sender topic
          (request_parcel X A encode room from aaa (asked op) (length target + 1))

    payload_bound : length target + 1 ≤ length (target ++ (0 ∷ content))
    payload_bound = omega (arith, length-append target (0 ∷ content))

    message_bound :
        length sender + length content + 1 < 2 ^ 32
        → drop (length target + 1) (target ++ (0 ∷ content)) ≡ content
        → length (body_bytes (routed FrameKind.message none FrameOp.message)) < 2 ^ 32
    message_bound h d = rw d (
        omega (arith, h, length-append (sender ++ (0 ∷ [])) content, length-append sender (0 ∷ [])))

    -- The broker's part, for a request that it can read.
    pub handled_message :
        (to : ℕ) (rd : Reader) (e : Ending)
        → Reads (target ++ (0 ∷ content)) target content
        → IsText sender
        → length sender + length content + 1 < 2 ^ 32
        → p2p_allowed A aaa target ≡ true
        → lookup target db.clients ≡ some to
        → HasRoom (db.heap to)
        → to ≢ from
        → All IsRouted (db.heap to).queue
        → rd.listening ≡ takes
        → Delivered
            (db.heap to).queue
            ((process_request X A encode room from aaa (asked FrameOp.message) db).1.heap to).queue
            rd
            e
            FrameKind.message
            sender
            none
            content
    unfolding process_request targeted_request deliver_request
    handled_message to rd e (parsed, dropped) named k allowed l roomy ne queued listening =
        let r = asked FrameOp.message in
        let p = request_parcel X A encode room from aaa r (length target + 1) in
        let (fine, queue) =
          send-Queued X (unregistering X A encode room from aaa) room true from to target p db l
            roomy in
        let f = routed FrameKind.message none FrameOp.message in
        subst
          (λ b.
            Delivered (db.heap to).queue
              ((process_request X A encode room from aaa r db).1.heap to).queue rd e
              FrameKind.message sender none b)
          dropped
          (queue-Delivered (db.heap to).queue _ f sender rd e
            (rw (parsed, allowed, process_request, targeted_request, deliver_request)
              (ap (λ (o : ElbusClient). o.queue)
                  (ack_delivery-others r
                    (send X (unregistering X A encode room from aaa) room true from target p db) to
                    ne)
                ∙ queue to
                ∙ ground arith))
            queued
            (direct sender (inl refl) refl refl named payload_bound (message_bound k dropped)) refl
            refl listening)

    publication_bound :
        length sender + length target + length content + 2 < 2 ^ 32
        → drop (length target + 1) (target ++ (0 ∷ content)) ≡ content
        → length (body_bytes (routed FrameKind.publish (some target) FrameOp.publish_topic))
          < 2 ^ 32
    publication_bound h d = rw d (
        omega (
          arith,
          h,
          length-append (sender ++ (0 ∷ [])) ((target ++ (0 ∷ [])) ++ content),
          length-append sender (0 ∷ []),
          length-append (target ++ (0 ∷ [])) content,
          length-append target (0 ∷ []),
        ))

    pub handled_publication :
        (to : ℕ) (rd : Reader) (e : Ending)
        → IsText target
        → IsText sender
        → length sender + length target + length content + 2 < 2 ^ 32
        → publish_allowed A aaa target ≡ true
        → Distinct (X.get_subscribers db.subscriptions target)
        → All (λ (s : Ref). HasRoom (db.heap s.id)) (X.get_subscribers db.subscriptions target)
        → listed to (X.get_subscribers db.subscriptions target) ≡ true
        → to ≢ from
        → All IsRouted (db.heap to).queue
        → rd.listening ≡ takes
        → Delivered
            (db.heap to).queue
            ((process_request X A encode room from aaa (asked FrameOp.publish_topic) db).1.heap
              to).queue
            rd
            e
            FrameKind.publish
            sender
            (some target)
            content
    unfolding process_request targeted_request deliver_request
    handled_publication to rd e (v, z) named k allowed distinct roomy l ne queued listening =
        let (parsed, dropped) = Reads-target target content v z in
        let r = asked FrameOp.publish_topic in
        let p = request_parcel X A encode room from aaa r (length target + 1) in
        let (fine, queue) =
          publish-Queued X (unregistering X A encode room from aaa) room true from target p db
            distinct roomy in
        let f = routed FrameKind.publish (some target) FrameOp.publish_topic in
        subst
          (λ b.
            Delivered (db.heap to).queue
              ((process_request X A encode room from aaa r db).1.heap to).queue rd e
              FrameKind.publish sender (some target) b)
          dropped
          (queue-Delivered (db.heap to).queue _ f sender rd e
            (rw (parsed, allowed, process_request, targeted_request, deliver_request)
              (ap (λ (o : ElbusClient). o.queue)
                  (and_then-others r
                    (publish X (unregistering X A encode room from aaa) room true from target p db)
                    to ne)
                ∙ queue to
                ∙ rw l refl))
            queued
            (publication sender target refl refl refl named (v, z) payload_bound
              (publication_bound k dropped))
            refl refl listening)

-- ===== src/Wire/Transit.antt =====
-- From client to client: what one client of src/ipc.rs sends, the broker of src/broker.rs handles and
-- queues, its writer writes, and the reader of another client takes.
use elbus.Base.{
  ℕ, ◌+◌, ◌^◌, ◌<◌, ◌≡◌, ◌≢◌, true, Bytes, [], ◌∷◌, ◌++◌, Option, some, none, length, All,
}
use elbus.Proto.{Result, FrameOp, QoS, FrameKind}
use elbus.Stream.{Ending}
use elbus.Broker.Maps.{Maps, Ref}
use elbus.Broker.Db.{Db, lookup}
use elbus.Broker.Deliver.{Room, BrokerEvent}
use elbus.Broker.Deliver.Effects.{HasRoom, listed, Distinct}
use elbus.Broker.Access.{Lists, ClientAaa, p2p_allowed, publish_allowed}
use elbus.Broker.Handler.{process_request}
use elbus.Ipc.{Client}
use elbus.Ipc.Send.{send_to, in_time}
use elbus.Ipc.Read.{takes, Reader}
use elbus.Wire.Delivery.{IsRouted, IsText}
use elbus.Wire.Requests.{Arrives}
use elbus.Wire.Sends.{send_to-Arrives}
use elbus.Wire.Handled.{Delivered, asked, handled_message, handled_publication}

module _ (X : Maps) (A : Lists) (encode : BrokerEvent → Result Bytes) (room : ℕ → Room) (from : ℕ)
    (aaa : Option (ClientAaa A)) where
  module _ (c : Client) (target content : Bytes) (qos : QoS) (db : Db X) where
    abbrev pub from_name : Bytes
    from_name = (db.heap from).name

    abbrev pub sent : FrameOp → Client
    sent op = (send_to c target content op qos in_time in_time).1

    -- A message that a client sends, both writes of which go through, is the request that the broker
    -- reads, and, handled, goes to the reader of the target: behind what waits in the target's queue,
    -- with the sender's name and the content. The target and the sender's name are text without a zero
    -- byte, the lengths fit into 32 bits, the access rules allow the target, it is registered for
    -- another client than the sender, whose queue has room and holds routed frames only, and someone
    -- listens to its reader.
    pub message-Delivered :
        (to : ℕ) (rd : Reader) (e : Ending)
        → IsText target
        → IsText from_name
        → length target + length content + 1 < 2 ^ 32
        → length from_name + length content + 1 < 2 ^ 32
        → p2p_allowed A aaa target ≡ true
        → lookup target db.clients ≡ some to
        → HasRoom (db.heap to)
        → to ≢ from
        → All IsRouted (db.heap to).queue
        → rd.listening ≡ takes
        → let after =
            (process_request X A encode room from aaa
              (asked X A encode room from aaa
                (sent FrameOp.message).frame_id
                target
                content
                qos
                db
                FrameOp.message)
              db).1 in
          Arrives c (sent FrameOp.message) FrameOp.message qos (target ++ (0 ∷ content))
          × Delivered
              (db.heap to).queue
              (after.heap to).queue
              rd
              e
              FrameKind.message
              from_name
              none
              content
    message-Delivered to rd e (v, z) named h k allowed l roomy ne queued listening =
        let (arrives, reads) =
          send_to-Arrives c target [] content FrameOp.message qos (λ e. cc) v z h in
        (
          arrives,
          handled_message X A encode room from aaa (sent FrameOp.message).frame_id target content
              qos db to rd e reads named k allowed l roomy ne queued listening,
        )

    -- A publication that a client makes, both writes of which go through, is the request that the
    -- broker reads, and, handled, goes to the reader of each subscriber but the publisher: behind what
    -- waits in its queue, with the publisher's name, the topic and the content. The topic and the
    -- publisher's name are text without a zero byte, the lengths fit into 32 bits, the access rules
    -- allow the topic, its subscribers are distinct clients with room in their queues, the queue of
    -- this one holds routed frames only, and someone listens to its reader.
    pub publication-Delivered :
        (to : ℕ) (rd : Reader) (e : Ending)
        → IsText target
        → IsText from_name
        → length target + length content + 1 < 2 ^ 32
        → length from_name + length target + length content + 2 < 2 ^ 32
        → publish_allowed A aaa target ≡ true
        → Distinct (X.get_subscribers db.subscriptions target)
        → All (λ (s : Ref). HasRoom (db.heap s.id)) (X.get_subscribers db.subscriptions target)
        → listed to (X.get_subscribers db.subscriptions target) ≡ true
        → to ≢ from
        → All IsRouted (db.heap to).queue
        → rd.listening ≡ takes
        → let after =
            (process_request X A encode room from aaa
              (asked X A encode room from aaa
                (sent FrameOp.publish_topic).frame_id
                target
                content
                qos
                db
                FrameOp.publish_topic)
              db).1 in
          Arrives c (sent FrameOp.publish_topic) FrameOp.publish_topic qos (target ++ (0 ∷ content))
          × Delivered
              (db.heap to).queue
              (after.heap to).queue
              rd
              e
              FrameKind.publish
              from_name
              (some target)
              content
    publication-Delivered to rd e (v, z) named h k allowed distinct roomy l ne queued listening = (
      (send_to-Arrives c target [] content FrameOp.publish_topic qos (λ e. cc) v z h).0,
      handled_publication X A encode room from aaa (sent FrameOp.publish_topic).frame_id target
          content qos db to rd e (v, z) named k allowed distinct roomy l ne queued listening,
    )

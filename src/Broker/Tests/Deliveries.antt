-- ===== src/Broker/Tests/Deliveries.antt =====
-- What deliveries do, at a broker with one client that gets everything.
use elbus.Base.{
  ◌≡◌, refl, true, [], ◌∷◌, ◌++◌, some, none, codes, if◌then◌else◌, ◌==◌, eq_bytes, split_zero,
  valid_utf8,
}
use elbus.Proto.{ok, FrameKind, new_nop, QoS, FrameOp, err_access, needs_ack, is_realtime}
use elbus.Stream.{done, waits, from_utf8}
use elbus.Broker.Client.{client_new, ElbusClient, is_internal, has_name}
use elbus.Broker.Maps.{Ref}
use elbus.Broker.Db.{Db, lookup}
use elbus.Broker.Deliver.{BrokerEvent, send, send_broadcast, publish, frame_of, event_shutdown}
use elbus.Broker.Deliver.Effects.{
  HasRoom, listed, Queued, send-Queued, publish-Queued, send_broadcast-Queued,
}
use elbus.Broker.Announce.{announce, unregister_client}
use elbus.Broker.Announce.Deadlock.{IsStuck, announce-IsStuck}
use elbus.Broker.Access.{ClientAaa, allowed, aaa_new, deny_p2p}
use elbus.Broker.Request.{Request, parse_target, ack_frame}
use elbus.Broker.Handler.{process_request}
use elbus.Broker.Handler.Denied.{OnlyObject, IsDenied, p2p, denied_request}
use elbus.Broker.Example.{
  exact_maps, empty_db, client_of, encode, room, parcel, Table, wanted, exact_lists,
}

-- "b" is registered, has subscribed to "t" and is matched by the mask "m".
abbrev b : Ref
b = record { id = 1; name = codes "b" }

abbrev table : Table
table = record {
  names = codes "b" ∷ [];
  wishes = (codes "t", b) ∷ (codes "m", b) ∷ (codes "topic", b) ∷ [];
}

abbrev audience : Db exact_maps
audience = record empty_db {
  clients = (codes "b", 1) ∷ [];
  broadcasts = table;
  subscriptions = table;
}

b-HasRoom : HasRoom (audience.heap 1)
unfolding client_new
b-HasRoom = (refl, refl)

send-Queued_example :
    ((send exact_maps
        (unregister_client exact_maps encode room)
        room
        true
        0
        (codes "b")
        parcel
        audience).0
      ≡ done (ok tt))
    × Queued exact_maps
        (unregister_client exact_maps encode room)
        room
        true
        (λ i. 1 == i)
        (frame_of exact_maps FrameKind.message (audience.heap 0).name none parcel)
        audience
        (send exact_maps
          (unregister_client exact_maps encode room)
          room
          true
          0
          (codes "b")
          parcel
          audience).1
unfolding lookup eq_bytes
send-Queued_example =
    send-Queued exact_maps (unregister_client exact_maps encode room) room true 0 1 (codes "b")
      parcel audience refl b-HasRoom

publish-Queued_example :
    ((publish exact_maps
        (unregister_client exact_maps encode room)
        room
        true
        0
        (codes "t")
        parcel
        audience).0
      ≡ done tt)
    × Queued exact_maps
        (unregister_client exact_maps encode room)
        room
        true
        (λ i. listed i (b ∷ []))
        (frame_of exact_maps FrameKind.publish (audience.heap 0).name (some (codes "t")) parcel)
        audience
        (publish exact_maps
          (unregister_client exact_maps encode room)
          room
          true
          0
          (codes "t")
          parcel
          audience).1
unfolding wanted has_name eq_bytes listed
publish-Queued_example =
    publish-Queued exact_maps (unregister_client exact_maps encode room) room true 0 (codes "t")
      parcel audience (refl, tt) (b-HasRoom, tt)

send_broadcast-Queued_example :
    ((send_broadcast exact_maps
        (unregister_client exact_maps encode room)
        room
        true
        0
        (codes "m")
        parcel
        audience).0
      ≡ done tt)
    × Queued exact_maps
        (unregister_client exact_maps encode room)
        room
        true
        (λ i. listed i (b ∷ []))
        (frame_of exact_maps FrameKind.broadcast (audience.heap 0).name none parcel)
        audience
        (send_broadcast exact_maps
          (unregister_client exact_maps encode room)
          room
          true
          0
          (codes "m")
          parcel
          audience).1
unfolding wanted has_name eq_bytes listed
send_broadcast-Queued_example =
    send_broadcast-Queued exact_maps (unregister_client exact_maps encode room) room true 0
      (codes "m") parcel audience (refl, tt) (b-HasRoom, tt)

-- The same broker, with a core client, and with the queue of "b" full.
abbrev full_client : ElbusClient
full_client = record (client_of 1) { queue = new_nop ∷ new_nop ∷ [] }

abbrev crowded : Db exact_maps
crowded = record audience { heap = λ id. full_client; core = some 0 }

abbrev news : BrokerEvent
news = record event_shutdown { topic = codes "topic" }

b-IsStuck : IsStuck (crowded.heap 1)
unfolding is_internal client_new eq_bytes
b-IsStuck = record { full = refl; external = refl; primary = refl }

announce-IsStuck_example : (announce exact_maps encode room news crowded).0 ≡ waits
unfolding wanted has_name eq_bytes listed
announce-IsStuck_example =
    announce-IsStuck exact_maps encode room news (codes "topic") 0 b [] crowded refl refl refl
      b-IsStuck

abbrev to_b : Request
to_b = record {
  op_id = 1 ∷ 0 ∷ 0 ∷ 0 ∷ [];
  op = FrameOp.message;
  qos = QoS.processed;
  buf = codes "b" ++ (0 ∷ codes "hello");
}

to_b-parse_target : parse_target to_b.buf ≡ ok (codes "b", 2)
unfolding parse_target split_zero from_utf8 valid_utf8
to_b-parse_target = refl

abbrev rules : ClientAaa exact_lists
rules = deny_p2p exact_lists (aaa_new exact_lists)

b-IsDenied : IsDenied exact_maps exact_lists encode room 0 (some rules) (codes "b") to_b.op
unfolding allowed has_name
b-IsDenied = p2p refl

a-HasRoom : HasRoom (audience.heap 0)
unfolding client_new
a-HasRoom = (refl, refl)

denied_request_example :
    OnlyObject 0 audience
      (process_request exact_maps exact_lists encode room 0 (some rules) to_b audience).1
    × (((process_request exact_maps exact_lists encode room 0 (some rules) to_b audience).1.heap
          0).queue
        ≡ (if needs_ack to_b.qos
            then (audience.heap 0).queue
              ++ (ack_frame to_b.op_id err_access (is_realtime to_b.qos) ∷ [])
            else (audience.heap 0).queue))
denied_request_example =
    denied_request exact_maps exact_lists encode room 0 (some rules) to_b (codes "b") 2 audience
      to_b-parse_target b-IsDenied a-HasRoom

-- ===== src/Wire/Tests/Transit.antt =====
-- A message and a publication on their way from one client to another.
use elbus.Base.{refl, arith, true, Bytes, [], ◌∷◌, ◌++◌, none, some, codes, eq_bytes, valid_utf8}
use elbus.Proto.{FrameOp, FrameKind, QoS}
use elbus.Stream.{closed}
use elbus.Broker.Client.{client_new, has_name}
use elbus.Broker.Maps.{Ref}
use elbus.Broker.Db.{Db, lookup}
use elbus.Broker.Deliver.Effects.{listed}
use elbus.Broker.Access.{allowed}
use elbus.Broker.Handler.{process_request}
use elbus.Broker.Example.{exact_maps, exact_lists, encode, room, empty_db, wanted}
use elbus.Ipc.{Client, config_new}
use elbus.Ipc.Read.{takes, Reader}
use elbus.Wire.Requests.{Arrives}
use elbus.Wire.Handled.{Delivered, asked}
use elbus.Wire.Transit.{sent, message-Delivered, publication-Delivered}

abbrev client : Client
client = record {
  name = codes "a";
  written = [];
  reading = true;
  frame_id = 7;
  responses = 7 ∷ [];
  has_events = true;
  connected = true;
  config = config_new (codes "/tmp/b.sock") (codes "a");
  secondary_counter = 0;
}

abbrev reader : Reader
reader = record { responses = []; resolved = []; delivered = []; listening = takes }

abbrev b : Ref
b = record { id = 1; name = codes "b" }

-- "b" is registered and has subscribed to "t".
abbrev audience : Db exact_maps
audience = record empty_db {
  clients = (codes "b", 1) ∷ [];
  subscriptions = record { names = codes "b" ∷ []; wishes = (codes "t", b) ∷ [] };
}

abbrev hi : Bytes
hi = codes "hi"

message-Delivered_example :
    Arrives client
      (sent exact_maps exact_lists encode room 0 none client
        (codes "b")
        hi
        QoS.processed
        audience
        FrameOp.message)
      FrameOp.message
      QoS.processed
      (codes "b" ++ (0 ∷ hi))
    × Delivered
        (audience.heap 1).queue
        ((process_request exact_maps exact_lists encode room 0 none
            (asked exact_maps exact_lists encode room 0 none
              (sent exact_maps exact_lists encode room 0 none client
                (codes "b")
                hi
                QoS.processed
                audience
                FrameOp.message).frame_id
              (codes "b")
              hi
              QoS.processed
              audience
              FrameOp.message)
            audience).1.heap
          1).queue
        reader
        closed
        FrameKind.message
        (codes "a")
        none
        hi
unfolding valid_utf8 lookup eq_bytes client_new allowed
message-Delivered_example =
    message-Delivered exact_maps exact_lists encode room 0 none client (codes "b") hi QoS.processed
      audience 1 reader closed (refl, omega arith) (refl, omega arith) (omega arith) (omega arith)
      refl refl (refl, refl) (omega arith) tt refl

publication-Delivered_example :
    Arrives client
      (sent exact_maps exact_lists encode room 0 none client
        (codes "t")
        hi
        QoS.processed
        audience
        FrameOp.publish_topic)
      FrameOp.publish_topic
      QoS.processed
      (codes "t" ++ (0 ∷ hi))
    × Delivered
        (audience.heap 1).queue
        ((process_request exact_maps exact_lists encode room 0 none
            (asked exact_maps exact_lists encode room 0 none
              (sent exact_maps exact_lists encode room 0 none client
                (codes "t")
                hi
                QoS.processed
                audience
                FrameOp.publish_topic).frame_id
              (codes "t")
              hi
              QoS.processed
              audience
              FrameOp.publish_topic)
            audience).1.heap
          1).queue
        reader
        closed
        FrameKind.publish
        (codes "a")
        (some (codes "t"))
        hi
unfolding valid_utf8 wanted has_name eq_bytes listed client_new allowed
publication-Delivered_example =
    publication-Delivered exact_maps exact_lists encode room 0 none client (codes "t") hi
      QoS.processed audience 1 reader closed (refl, omega arith) (refl, omega arith) (omega arith)
      (omega arith) refl (refl, tt) ((refl, refl), tt) refl (omega arith) tt refl

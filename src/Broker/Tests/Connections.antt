-- ===== src/Broker/Tests/Connections.antt =====
-- The broker's connections at a concrete broker.
use elbus.Base.{◌∷◌, none, codes}
use elbus.Broker.Reader.{handle_reader}
use elbus.Broker.Reader.Keeps.{Safe-handle_reader}
use elbus.Broker.Safety.{Safe}
use elbus.Broker.System.{Reach, here, next, register}
use elbus.Broker.System.Safety.{Reach-Safe}
use elbus.Broker.Example.{exact_maps, empty_db, encode, room, Safe-empty_db, exact_lists}
use elbus.Broker.Tests.{one, two, Safe-one}
use elbus.Stream.{closed}
use elbus.Wire.Frames.{stream}

-- "a" subscribes to "t", and closes the connection.
Safe-handle_reader_example :
    Safe exact_maps
      (handle_reader exact_maps exact_lists encode room 0 none 8
        (stream (1 ∷ 0 ∷ 0 ∷ 0 ∷ 1 ∷ 1 ∷ 0 ∷ 0 ∷ 0 ∷ codes "t") closed)
        one).1
Safe-handle_reader_example =
    Safe-handle_reader exact_maps exact_lists encode room 0 none 8
      (stream (1 ∷ 0 ∷ 0 ∷ 0 ∷ 1 ∷ 1 ∷ 0 ∷ 0 ∷ 0 ∷ codes "t") closed) one Safe-one

both_register : Reach exact_maps exact_lists encode empty_db two
both_register = next (next here (register room 0)) (register room 1)

Reach-Safe_example : Safe exact_maps two
Reach-Safe_example = Reach-Safe exact_maps exact_lists encode Safe-empty_db both_register

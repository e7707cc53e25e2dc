-- ===== src/Wire/Tests/Connections.antt =====
-- The two sides of a connection at a concrete broker.
use elbus.Base.{◌≡◌, ◌≢◌, refl, arith, [], ◌∷◌, ◌++◌, some, none, codes, eq_bytes, valid_utf8}
use elbus.Proto.{ok, primary_name}
use elbus.Comm.{written_bytes}
use elbus.Stream.{closed, silent, done}
use elbus.Ipc.Chat.{chat}
use elbus.Broker.Client.{tcp, client_new}
use elbus.Broker.Db.{Db, lookup}
use elbus.Broker.Registry.{insert_client}
use elbus.Broker.Announce.{register_client}
use elbus.Broker.Access.{ClientAaa, aaa_new, connect_allowed}
use elbus.Broker.Peer.{addr, Params, accept_peer}
use elbus.Broker.Reader.{on_fuel, handle_reader}
use elbus.Broker.Example.{exact_maps, exact_lists, empty_db, encode, room}
use elbus.Wire.Frames.{stream}
use elbus.Wire.Handshake.{
  open_sink, client_hello, broker_hello, IsAdmitted, remotely, with_object, accepted, joined,
  answer_code, handshake_agrees,
}
use elbus.Wire.Progress.{handle_reader_total}

handle_reader_total_example :
    (handle_reader exact_maps exact_lists encode room 0 none 8
      (stream (1 ∷ 2 ∷ 3 ∷ []) closed)
      empty_db).0
    ≢ on_fuel
handle_reader_total_example =
    handle_reader_total exact_maps exact_lists encode room 0 none 8 (stream (1 ∷ 2 ∷ 3 ∷ []) closed)
      empty_db

-- "x" connects from the address 5, which its rules allow.
abbrev rules : ClientAaa exact_lists
rules = aaa_new exact_lists

abbrev params : Params exact_lists
params = record {
  aaa_map = some (λ name. some rules);
  ip = addr 5;
  queue_size = 4;
  kind = tcp;
  source = none;
  source_port = none;
}

abbrev before : Db exact_maps
before = with_object exact_maps exact_lists encode room params 3 120 [] empty_db

abbrev after : Db exact_maps
after = (register_client exact_maps encode room 3 before).1

x-IsAdmitted : IsAdmitted exact_lists params (codes "x") (some rules)
unfolding connect_allowed
x-IsAdmitted = remotely (λ name. some rules) rules 5 refl refl refl refl

x-registered : register_client exact_maps encode room 3 before ≡ (done (ok tt), after)
unfolding register_client insert_client client_new eq_bytes primary_name lookup
x-registered = refl

handshake_agrees_example :
    (accept_peer exact_lists open_sink exact_maps encode room params 3
        (stream (written_bytes (client_hello (codes "x")) ++ []) silent)
        empty_db
      ≡ (
        (
          accepted (ok tt) (record { name = codes "x"; aaa = some rules }) (stream [] silent),
          broker_hello (answer_code (ok tt)),
        ),
        after,
      ))
    × (chat open_sink
          (codes "x")
          (stream (written_bytes (broker_hello (answer_code (ok tt))) ++ (9 ∷ [])) silent)
          []
        ≡ (joined (ok tt) (stream (9 ∷ []) silent), client_hello (codes "x")))
unfolding valid_utf8
handshake_agrees_example =
    handshake_agrees exact_maps exact_lists encode room params 3 120 [] (ok tt) empty_db after
      (stream [] silent) (stream (9 ∷ []) silent) (omega arith) refl (omega arith) x-IsAdmitted
      x-registered

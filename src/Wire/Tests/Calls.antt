-- ===== src/Wire/Tests/Calls.antt =====
-- A call on its way to the client that handles it, and its answer on the way back.
use elbus.Base.{
  ◌≡◌, refl, arith, true, [], ◌∷◌, ◌++◌, none, some, codes, if◌then◌else◌, eq_bytes, valid_utf8,
}
use elbus.Proto.{QoS}
use elbus.Stream.{closed}
use elbus.Broker.Access.{allowed}
use elbus.Broker.Client.{client_new}
use elbus.Broker.Db.{Db, lookup}
use elbus.Broker.Example.{exact_maps, exact_lists, encode, room, empty_db}
use elbus.Ipc.{Client, config_new, has_id, remove_id}
use elbus.Ipc.Read.{takes, Reader}
use elbus.Rpc.Event.{RpcEvent}
use elbus.Rpc.Client.{RpcClient, options_new, begin_call, answered, end_call}
use elbus.Rpc.Processor.{Processor, RpcResult, returned, process_frame, answer}
use elbus.Rpc.Answers.{Gives}
use elbus.Wire.Calls.{Passes, StartsCall, call-Delivered, answer-Delivered}

abbrev client : Client
client = record {
  name = codes "a";
  written = [];
  reading = true;
  frame_id = 7;
  responses = 7 ∷ [];
  has_events = true;
  connected = true;
  config = config_new (codes "/tmp/b.sock") (codes "a");
  secondary_counter = 0;
}

abbrev reader : Reader
reader = record { responses = []; resolved = []; delivered = []; listening = takes }

-- "a" and "b" are registered.
abbrev pair : Db exact_maps
pair = record empty_db { clients = (codes "a", 0) ∷ (codes "b", 1) ∷ [] }

abbrev rpc : RpcClient
rpc = record { call_id = 4; calls = [] }

abbrev idle : Processor
idle = record { calls = []; resolved = []; tasks = [] }

abbrev waiting : Processor
waiting = record { calls = 5 ∷ []; resolved = []; tasks = [] }

abbrev pong : RpcResult
pong = returned (some (codes "pong"))

call-Delivered_example :
    (passed : Passes exact_maps exact_lists encode room 0 none pair client
      (codes "b")
      (begin_call rpc (codes "m")).0.1
      (codes "x")
      QoS.processed
      1
      reader
      closed)
    × StartsCall options_new idle passed.1.frame
        (codes "a")
        (begin_call rpc (codes "m")).0.0
        (codes "m")
        (codes "x")
unfolding valid_utf8 lookup eq_bytes client_new allowed
call-Delivered_example =
    call-Delivered exact_maps exact_lists encode room 0 none pair client rpc (codes "b") (codes "m")
      (codes "x") QoS.processed 1 reader closed options_new idle (refl, omega arith)
      (refl, omega arith) (omega arith) (omega arith) (omega arith) (omega arith)
      (refl, refl, (refl, refl), omega arith, tt, refl)

answer-Delivered_example :
    (passed : Passes exact_maps exact_lists encode room 1 none pair client
      (codes "a")
      (answer 5 pong).0
      (answer 5 pong).1
      QoS.processed
      0
      reader
      closed)
    × (event : RpcEvent) × (process_frame options_new waiting passed.1.frame
        ≡ some (
            if has_id 5 waiting.calls
            then record waiting {
              calls = remove_id 5 waiting.calls;
              resolved = waiting.resolved ++ ((5, event) ∷ []);
            }
            else waiting))
    × Gives event pong (end_call rpc 5 (answered event)).0
unfolding valid_utf8 lookup eq_bytes client_new allowed answer
answer-Delivered_example =
    answer-Delivered exact_maps exact_lists encode room 1 none pair client (codes "a") 5 pong
      QoS.processed 0 reader closed options_new waiting rpc (refl, omega arith) (refl, omega arith)
      (omega arith) tt (omega arith) (omega arith) (refl, refl, (refl, refl), omega arith, tt, refl)

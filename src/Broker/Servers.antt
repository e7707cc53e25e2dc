-- ===== src/Broker/Servers.antt =====
-- src/broker.rs: `Broker` with its services: the core client, the servers with what they hand to each
-- connection, and the lines of the fifo. What opening sockets and files comes to is an argument.
pub mod Start
use elbus.Base.{ℕ, Bytes, List, [], ◌∷◌, ◌++◌, Option, none, some, codes}
use elbus.Proto.{Result, ok, err, error_not_supported, literal}
use elbus.Stream.{Outcome, done, failed, waits}
use elbus.Broker.Access.{Lists}
use elbus.Broker.Announce.{announce, unregister_client}
use elbus.Broker.Client.{client_new, ClientKind, internal, local_ipc, tcp}
use elbus.Broker.Config.{ServerConfig}
use elbus.Broker.Db.{Db}
use elbus.Broker.Deliver.{Act, Room, BrokerEvent}
use elbus.Broker.Fifo.{send_fifo_cmd}
use elbus.Broker.Local.{register_local}
use elbus.Broker.Maps.{Maps, NewMaps}
use elbus.Broker.Peer.{ClientIp, Params, no, addr}
use elbus.Broker.Registry.{trigger_disconnect}
use elbus.Common.Params.{Params as CallParams}

abbrev pub default_queue_size : ℕ
default_queue_size = 8192

abbrev pub broker_name : Bytes
broker_name = codes ".broker"

-- The services that a broker has started: a server keeps the size of queues that the broker had.
pub data Service (A : Lists) : Type 0 where
  unix_server : Bytes → ServerConfig A → ℕ → Service A
  tcp_server : Bytes → ServerConfig A → ℕ → Service A
  fifo_server : Bytes → ℕ → Service A

-- Where a connection comes from.
pub data Peer (A : Lists) : Type 0 where
  from_unix : Peer A
  from_tcp : A.Address → Peer A

module _ (A : Lists) where
  -- `ClientIp::from`
  abbrev pub client_ip : Peer A → ClientIp A
  client_ip from_unix = no
  client_ip (from_tcp a) = addr a

  -- `prepare_unix_source` and `prepare_tcp_source`; `show` writes an address with its port
  abbrev pub prepare_source : (A.Address → Bytes) → Peer A → Option Bytes
  prepare_source show from_unix = none
  prepare_source show (from_tcp a) = some (show a)

  abbrev pub kind_of_peer : Peer A → ClientKind
  kind_of_peer from_unix = local_ipc
  kind_of_peer (from_tcp a) = tcp

  -- One round of the loop of `spawn_server!`: what `handle_peer` is called with, if a connection is
  -- accepted and its socket can be prepared.
  unfoldable pub accept_one :
      (A.Address → Bytes)
      → Bytes
      → ServerConfig A
      → ℕ
      → Result (Peer A × Result (Unit {0}))
      → Option (Params A)
  accept_one show path config queue_size (err e) = none
  accept_one show path config queue_size (ok (peer, err e)) = none
  accept_one show path config queue_size (ok (peer, ok u)) = some (record {
    aaa_map = config.aaa_map;
    ip = client_ip peer;
    queue_size = queue_size;
    kind = kind_of_peer peer;
    source = prepare_source show peer;
    source_port = some path;
  })

  module _ (X : Maps) where
    pub record Broker : Type 0 where
      pub db : Db X
      pub services : List (Service A)
      pub queue_size : ℕ

    -- `BrokerDb::default`
    unfoldable pub db_new : NewMaps X → Db X
    db_new N = record {
      clients = [];
      heap = λ id. client_new [] [] default_queue_size internal none none;
      broadcasts = N.new_casts;
      subscriptions = N.new_subs;
      core = none;
      r_frames = 0;
      r_bytes = 0;
      w_frames = 0;
      w_bytes = 0;
    }

    -- `Broker::default`, which is also `new`
    unfoldable pub broker_new : NewMaps X → Broker
    unfolding db_new
    broker_new N = record { db = db_new N; services = []; queue_size = default_queue_size }

    abbrev pub set_queue_size : ℕ → Broker → Broker
    set_queue_size n b = record b { queue_size = n }

    abbrev pub set_core_rpc_client : ℕ → Broker → Broker
    set_core_rpc_client id b = record b { db = record b.db { core = some id } }

    -- a server that could be bound
    unfoldable pub spawn_unix_server :
        Result (Unit {0}) → Bytes → ServerConfig A → Broker → Result (Unit {0}) × Broker
    spawn_unix_server (err e) path config b = (err e, b)
    spawn_unix_server (ok u) path config b =
        (ok tt, record b { services = b.services ++ (unix_server path config b.queue_size ∷ []) })

    unfoldable pub spawn_tcp_server :
        Result (Unit {0}) → Bytes → ServerConfig A → Broker → Result (Unit {0}) × Broker
    spawn_tcp_server (err e) path config b = (err e, b)
    spawn_tcp_server (ok u) path config b =
        (ok tt, record b { services = b.services ++ (tcp_server path config b.queue_size ∷ []) })

    -- the fifo, if it could be made and opened
    unfoldable pub fifo_made : Result (Unit {0}) → Bytes → ℕ → Broker → Result (Unit {0}) × Broker
    fifo_made (err e) path buf_size b = (err e, b)
    fifo_made (ok u) path buf_size b =
        (ok tt, record b { services = b.services ++ (fifo_server path buf_size ∷ []) })

    unfoldable pub spawn_fifo : Result (Unit {0}) → Bytes → ℕ → Broker → Result (Unit {0}) × Broker
    unfolding fifo_made
    spawn_fifo made path buf_size b = elim b.db.core [
      | none ↦ (err (error_not_supported (literal "broker core RPC client not initialized")), b)
      | some core ↦ fifo_made made path buf_size b
    ]

    -- `Drop for Broker`
    abbrev pub stop_services : Broker → Broker
    stop_services b = record b { services = [] }

    module _ (encode : BrokerEvent → Result Bytes) (room : ℕ → Room) where
      -- the broker, after an operation on its database
      abbrev pub on_db : {B : Type 0} → Act X B → Broker → Outcome B × Broker
      on_db act b = let r = act b.db in (r.0, record b { db = r.1 })

      -- `Broker::register_client`, `unregister_client` and `announce`
      abbrev pub register_client : ℕ → Bytes → Broker → Outcome (Result (Unit {0})) × Broker
      register_client id name b = on_db (register_local X encode room b.queue_size id name) b

      abbrev pub unregister : ℕ → Broker → Outcome (Unit {0}) × Broker
      unregister id b = on_db (unregister_client X encode room id) b

      abbrev pub announce_event : BrokerEvent → Broker → Outcome (Result (Unit {0})) × Broker
      announce_event event b = on_db (announce X encode room event) b

      abbrev pub force_disconnect : Bytes → Broker → Result (Unit {0}) × Broker
      force_disconnect name b =
          let r = trigger_disconnect X b.db name in (r.0, record b { db = r.1 })

      -- the core client is set once it has been registered
      unfoldable pub core_registered :
          ℕ → Outcome (Result (Unit {0})) × Broker → Outcome (Result (Unit {0})) × Broker
      core_registered id (done (ok u), b) = (done (ok tt), set_core_rpc_client id b)
      core_registered id (done (err e), b) = (done (err e), b)
      core_registered id (failed e, b) = (failed e, b)
      core_registered id (waits, b) = (waits, b)

      unfoldable pub init_default_core_rpc : ℕ → Broker → Outcome (Result (Unit {0})) × Broker
      unfolding core_registered
      init_default_core_rpc id b = core_registered id (register_client id broker_name b)

      -- What reading the fifo gives: a line, the end of what has been written, or an error, after
      -- either of which it is read again.
      pub data Read : Type 0 where
        line : Bytes → Read
        pause : Read

      -- the error of a command is only logged
      unfoldable pub next_command :
          (Db X → Outcome (Unit {0}) × Db X)
          → Outcome (Result (Unit {0})) × Db X
          → Outcome (Unit {0}) × Db X
      next_command rest (done r, db) = rest db
      next_command rest (failed e, db) = (failed e, db)
      next_command rest (waits, db) = (waits, db)

      -- the task of a fifo
      unfoldable pub run_fifo :
          (CallParams → Result Bytes) → List Read → Db X → Outcome (Unit {0}) × Db X
      unfolding next_command send_fifo_cmd
      run_fifo to_vec [] db = (done tt, db)
      run_fifo to_vec (pause ∷ reads) db = run_fifo to_vec reads db
      run_fifo to_vec (line l ∷ reads) db =
          next_command (run_fifo to_vec reads) (send_fifo_cmd X encode room to_vec l db)

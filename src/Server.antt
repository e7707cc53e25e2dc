-- ===== src/Server.antt =====
-- src/server.rs: how the server program brings its broker up, and what it does at its end. What
-- opening a socket or a fifo comes to is an argument.
pub mod Start
mod Tests
use elbus.Base.{
  Bool, ℕ, Bytes, List, [], ◌∷◌, ◌++◌, Option, none, some, option_bind, if◌then◌else◌, codes, drop,
  starts_with,
}
use elbus.Proto.{Result, ok, err}
use elbus.Stream.{Outcome, done, failed, waits}
use elbus.Broker.Access.{Lists}
use elbus.Broker.Announce.{announce}
use elbus.Broker.Config.{ServerConfig, server_config_new, with_buf_size, with_buf_ttl, with_timeout}
use elbus.Broker.Db.{Db}
use elbus.Broker.Deliver.{Room, BrokerEvent, event_shutdown}
use elbus.Broker.Maps.{Maps, NewMaps}
use elbus.Broker.Servers.{
  Broker, broker_new, set_queue_size, init_default_core_rpc, spawn_unix_server, spawn_tcp_server,
  spawn_fifo,
}
use elbus.Ipc.Chat.{is_unix_path}

-- The options; durations are in microseconds.
pub record Opts : Type 0 where
  pub path : List Bytes
  pub pid_file : Option Bytes
  pub verbose : Bool
  pub daemonize : Bool
  pub log_syslog : Bool
  pub workers : ℕ
  pub timeout : ℕ
  pub buf_size : ℕ
  pub buf_ttl : ℕ
  pub queue_size : ℕ

abbrev pub files_of : Option Bytes → List Bytes
files_of none = []
files_of (some f) = f ∷ []

module _ (A : Lists) where
  abbrev pub server_config : Opts → ServerConfig A
  server_config opts =
      with_timeout A
        (with_buf_ttl A (with_buf_size A (server_config_new A) opts.buf_size) opts.buf_ttl)
        opts.timeout

  module _ (X : Maps) where
    -- `BROKER` and `SOCK_FILES`
    pub record Process : Type 0 where
      pub broker : Broker A X
      pub sock_files : List Bytes

    -- `expect` on a service, and the file that belongs to it; `none` where the program panics
    unfoldable pub expected :
        Option Bytes → Process → Result (Unit {0}) × Broker A X → Option Process
    expected file p (err e, b) = none
    expected file p (ok u, b) =
        some (record { broker = b; sock_files = p.sock_files ++ files_of file })

    module _ (opts : Opts) (opened : Bytes → Result (Unit {0})) where
      unfoldable pub bind_server : Bytes → Process → Option Process
      unfolding expected spawn_unix_server spawn_tcp_server
      bind_server path p =
          if is_unix_path path
          then expected (some path) p
              (spawn_unix_server A X (opened path) path (server_config opts) p.broker)
          else expected none p
              (spawn_tcp_server A X (opened path) path (server_config opts) p.broker)

      -- the loop's body
      unfoldable pub bind_path : Bytes → Process → Option Process
      unfolding expected spawn_fifo bind_server starts_with
      bind_path path p =
          if starts_with (codes "fifo:") path
          then expected (some (drop 5 path)) p
              (spawn_fifo A X (opened path) (drop 5 path) opts.buf_size p.broker)
          else bind_server path p

      unfoldable pub bind_all : List Bytes → Process → Option Process
      unfolding bind_path
      bind_all [] p = some p
      bind_all (path ∷ paths) p = option_bind (bind_path path p) (bind_all paths)

      -- the core client, whose `unwrap` panics on an error, and then the services
      unfoldable pub with_core : Outcome (Result (Unit {0})) × Broker A X → Option Process
      unfolding bind_all
      with_core (done (ok u), b) =
          bind_all opts.path
            (record { broker = set_queue_size A X opts.queue_size b; sock_files = [] })
      with_core (done (err e), b) = none
      with_core (failed e, b) = none
      with_core (waits, b) = none

      -- `main`, for the object `id` of the core client
      unfoldable pub start :
          (BrokerEvent → Result Bytes) → (ℕ → Room) → NewMaps X → ℕ → Option Process
      unfolding with_core init_default_core_rpc broker_new
      start encode room N id =
          with_core (init_default_core_rpc A X encode room id (broker_new A X N))

    -- `terminate`, once the broker has started: the files that are removed, and what it announces
    unfoldable terminate :
        (BrokerEvent → Result Bytes)
        → (ℕ → Room)
        → Opts
        → Process
        → List Bytes × (Outcome (Result (Unit {0})) × Db X)
    terminate encode room opts p =
        (files_of opts.pid_file ++ p.sock_files, announce X encode room event_shutdown p.broker.db)

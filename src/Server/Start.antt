-- ===== src/Server/Start.antt =====
-- src/server.rs: the server program comes up with a service for each path.
use elbus.Base.{
  Bytes, List, [], ◌∷◌, ◌++◌, Option, none, some, if◌then◌else◌, codes, drop, starts_with,
}
use elbus.Proto.{Result}
use elbus.Broker.Access.{Lists}
use elbus.Broker.Db.{Db}
use elbus.Broker.Maps.{Maps}
use elbus.Broker.Servers.{Broker, Service, unix_server, tcp_server, fifo_server}
use elbus.Ipc.Chat.{is_unix_path}
use elbus.Server.{Opts, Process, server_config, files_of}

module _ (A : Lists) (opts : Opts) where
  -- The service for a path, by the documented forms of paths: `fifo:` with a path, the path of a UNIX
  -- socket, or a host and a port.
  unfoldable pub service_of : Bytes → Service A
  service_of path =
      if starts_with (codes "fifo:") path
      then fifo_server (drop 5 path) opts.buf_size
      else if is_unix_path path
      then unix_server path (server_config A opts) opts.queue_size
      else tcp_server path (server_config A opts) opts.queue_size

  -- The file that a service has.
  abbrev pub file_of : Service A → Option Bytes
  file_of (unix_server path config n) = some path
  file_of (tcp_server path config n) = none
  file_of (fifo_server path n) = some path

  abbrev pub all_files : List (Service A) → List Bytes
  all_files [] = []
  all_files (s ∷ ss) = files_of (file_of s) ++ all_files ss

  module _ (X : Maps) (opened : Bytes → Result (Unit {0})) where
    abbrev changed : Process A X → List (Service A) → List Bytes → Option (Process A X)
    changed p ss fs = some (record { broker = record p.broker { services = ss }; sock_files = fs })

    -- A process with one more service.
    abbrev serving : Service A → Process A X → Process A X
    serving s p = record {
      broker = record p.broker { services = p.broker.services ++ (s ∷ []) };
      sock_files = p.sock_files ++ files_of (file_of s);
    }

    -- A process with these services more.
    abbrev serving_all : List (Service A) → Process A X → Process A X
    serving_all ss p = record {
      broker = record p.broker { services = p.broker.services ++ ss };
      sock_files = p.sock_files ++ all_files ss;
    }

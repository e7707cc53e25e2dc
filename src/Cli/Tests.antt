-- ===== src/Cli/Tests.antt =====
-- The theorems on the command line client at concrete commands.
use elbus.Base.{
  ℕ, ◌≡◌, refl, arith, true, Bytes, [], ◌∷◌, none, some, codes, if◌then◌else◌, eq_bytes, valid_utf8,
  has_any,
}
use elbus.Proto.{Result, ok}
use elbus.Stream.{Outcome, done, closed}
use elbus.Common.Params.{Params}
use elbus.Broker.Access.{allowed}
use elbus.Broker.Client.{client_new}
use elbus.Broker.Core.{client_list}
use elbus.Broker.Core.Listing.{infos_named, primaries}
use elbus.Broker.Db.{Db, lookup}
use elbus.Broker.Example.{exact_maps, exact_lists, encode, room, empty_db, Safe-empty_db}
use elbus.Ipc.{Client, config_new}
use elbus.Ipc.Read.{takes, Reader}
use elbus.Cli.{TargetPayload, RpcCall, PublishCommand}
use elbus.Cli.Print.{Codec, print_payload}
use elbus.Cli.Shown.{IsShown, print_payload-IsShown}
use elbus.Cli.Listing.{listed_clients, listed_clients-Lists}
use elbus.Cli.Reaches.{Passes, after, run_send-Passes}

-- Decoders that know one text and one value.
abbrev codec : Codec
codec = record {
  Json = Unit {0};
  Value = Unit {0};
  decode_json = λ b. if eq_bytes b (codes "{}") then some tt else none;
  json_text = λ short j. some (codes "{}");
  decode_msgpack = λ b. if eq_bytes b (0xc0 ∷ []) then some tt else none;
  value_text = λ short v. some (codes "null");
  hex = λ b. [];
  number = λ n. [];
  stdout_takes = λ b. true;
}

print_payload-IsShown_example :
    IsShown codec (codes "hello") true (print_payload codec (codes "hello") true)
print_payload-IsShown_example = print_payload-IsShown codec (codes "hello") true

listed_clients-Lists_example :
    infos_named (codes "a") (listed_clients (codes "a") (client_list exact_maps empty_db)) ≡ (
      if eq_bytes (codes "a") (codes "a")
      then []
      else primaries empty_db.heap (lookup (codes "a") empty_db.clients))
listed_clients-Lists_example =
    listed_clients-Lists exact_maps empty_db (codes "a") (codes "a") Safe-empty_db.consistent

abbrev client : Client
client = record {
  name = codes "a";
  written = [];
  reading = true;
  frame_id = 7;
  responses = 7 ∷ [];
  has_events = true;
  connected = true;
  config = config_new (codes "/tmp/b.sock") (codes "a");
  secondary_counter = 0;
}

abbrev reader : Reader
reader = record { responses = []; resolved = []; delivered = []; listening = takes }

-- "a" and "b" are registered.
abbrev pair : Db exact_maps
pair = record empty_db { clients = (codes "a", 0) ∷ (codes "b", 1) ∷ [] }

abbrev hello : TargetPayload
hello = record { target = codes "b"; payload = some (codes "hello") }

abbrev news : PublishCommand
news = record { topic = codes "t/1"; payload = none }

abbrev ping : RpcCall
ping = record { target = codes "b"; method = codes "ping"; params = [] }

abbrev confirm : ℕ → Outcome (Result (Unit {0}))
confirm n = done (ok tt)

abbrev to_vec : Params → Result Bytes
to_vec params = ok []

run_send-Passes_example :
    Passes exact_maps exact_lists encode room 0 none pair confirm [] hello
      (codes "hello")
      client
      (after exact_maps exact_lists encode room 0 none pair confirm [] hello client)
      1
      reader
      closed
unfolding valid_utf8 lookup eq_bytes client_new allowed has_any
run_send-Passes_example =
    run_send-Passes exact_maps exact_lists encode room 0 none pair confirm [] hello (codes "hello")
      client 1 reader closed refl refl (refl, omega arith) (refl, omega arith) (omega arith)
      (omega arith) (refl, refl, (refl, refl), omega arith, tt, refl)

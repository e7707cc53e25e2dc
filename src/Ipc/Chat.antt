-- ===== src/Ipc/Chat.antt =====
-- src/ipc.rs: `chat`, the client's side of the handshake, and what `connect` and
-- `register_secondary` make of a configuration.
use elbus.Base.{
  ℕ, ◌+◌, ◌%◌, ◌^◌, Bool, true, false, ◌||◌, Bytes, [], ◌∷◌, ◌++◌, none, some, if◌then◌else◌,
  length, take, drop, ltb, ◌==◌, starts_with, find, eq_bytes, codes, from_le_bytes, u16_to_le_bytes,
  ◌-◌,
}
use elbus.Proto.{
  Error, error_data, error_not_supported, error_new, literal, with_number, kind_of_code,
  response_ok, secondary_sep, Result, ok, err,
}
use elbus.Comm.{instant}
use elbus.Talk.{Sink, Talk, ◌>>=◌, return, fail, hear, say}
use elbus.Ipc.Defs.{Config, Client}
use elbus.Ipc.Read.{index}

abbrev pub greetings : ℕ
greetings = 0xEB

abbrev pub protocol_version : ℕ
protocol_version = 0x01

-- the version in the last two bytes of the greetings
abbrev pub version_of : Bytes → ℕ
version_of buf = from_le_bytes (take 2 (drop 1 buf))

-- one byte of answer; another one than `RESPONSE_OK` is an error with its kind
unfoldable answered : Bytes → Error → Talk (Unit {0})
answered buf e = if index buf 0 == response_ok then return tt else fail e

-- the two checks of the broker's greetings
unfoldable greeted : Bytes → Talk (Unit {0})
greeted buf =
    if index buf 0 == greetings
    then if version_of buf == protocol_version
      then return tt
      else fail (error_not_supported (literal "Unsupported protocol version"))
    else fail (error_not_supported (literal "Invalid greetings"))

-- `chat`, on a socket that writes at once
unfoldable pub chat : Sink → Bytes → Talk (Unit {0})
unfolding answered greeted ◌>>=◌ say
chat sink name =
    if ltb (2 ^ 16 - 1) (length name) then fail (error_data (literal "name too long")) else do
      buf ← hear 3
      _ ← greeted buf
      _ ← say sink buf instant
      reply ← hear 1
      _ ← answered reply (
          error_new (kind_of_code (index reply 0))
            (some (with_number "Server greetings response: " (index reply 0))))
      _ ← say sink (u16_to_le_bytes (length name)) instant
      _ ← say sink name instant
      reply ← hear 1
      answered reply (
          error_new (kind_of_code (index reply 0))
            (some (with_number "Server registration response: " (index reply 0))))

-- `str::ends_with`
unfoldable pub ends_with : Bytes → Bytes → Bool
ends_with suffix [] = eq_bytes suffix []
ends_with suffix (c ∷ cs) = let rest = ends_with suffix cs in eq_bytes suffix (c ∷ cs) || rest

-- whether `connect` takes the path for that of a UNIX socket, and not for a host and a port
unfoldable pub is_unix_path : Bytes → Bool
unfolding ends_with starts_with
is_unix_path path =
    ends_with (codes ".sock") path
    || (ends_with (codes ".socket") path
        || (ends_with (codes ".ipc") path || starts_with (codes "/") path))

-- the client that `connect` returns once the broker has accepted its name
unfoldable pub connected_client : Config → Client
connected_client config = record {
  name = config.name;
  written = [];
  reading = true;
  frame_id = 0;
  responses = [];
  has_events = true;
  connected = true;
  config = config;
  secondary_counter = 0;
}

-- `Client::connect`: the socket of either kind is opened, whose outcome is an argument, and the
-- handshake follows on it
unfoldable connect : (Bool → Bytes → Result (Unit {0})) → Sink → Config → Talk Client
unfolding chat ◌>>=◌ connected_client is_unix_path
connect opened sink config = elim (opened (is_unix_path config.path) config.path) [
  | err e ↦ fail e
  | ok u ↦ (chat sink config.name >>= λ u. return (connected_client config))
]

-- the reader's task, behind `handle_read`: the beacon goes out
abbrev reader_ended : Client → Client
reader_ended c = record c { reading = false; connected = false }

-- `Drop for Client`
abbrev stop_reader : Client → Client
stop_reader c = record c { reading = false }

-- `register_secondary`: the configuration that is connected with, and the client, whose counter goes
-- up; `show` writes a number in decimal digits
unfoldable pub register_secondary : (ℕ → Bytes) → Client → Result Config × Client
unfolding find
register_secondary show c = elim (find secondary_sep c.name) [
  | some pos ↦ (err (error_not_supported (literal "not a primary client")), c)
  | none ↦ (
    ok (record c.config { name = c.name ++ (secondary_sep ++ show c.secondary_counter) }),
    record c { secondary_counter = (c.secondary_counter + 1) % 2 ^ 64 },
  )
]

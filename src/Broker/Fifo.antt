-- ===== src/Broker/Fifo.antt =====
-- src/broker.rs: `Broker::send_fifo_cmd`, which carries out one line that comes in through the
-- broker's fifo. The encoder of parameters is an argument.
pub mod Commands
pub mod Safety
use elbus.Base.{
  ℕ, ◌+◌, false, Bytes, List, [], ◌∷◌, Option, none, some, if◌then◌else◌, ◌==◌, length, codes,
  split_on, has_any, trim,
}
use elbus.Proto.{Result, ok, err, error_data, error_not_supported, literal, ◌>>=◌, QoS}
use elbus.Stream.{Outcome, done, failed, waits}
use elbus.Common.Params.{Params, str_to_params_map}
use elbus.Broker.Maps.{Maps}
use elbus.Broker.Db.{Db}
use elbus.Broker.Deliver.{Act, Room, BrokerEvent, send, send_broadcast, publish}
use elbus.Broker.Announce.{unregister_locked}
use elbus.Broker.Local.{Confirm, sent_with, spread_with, parcel}
use elbus.Rpc.Event.{rpc_notification}
use elbus.Rpc.Client.{call0_head}

-- What a line asks for.
pub data Command : Type 0 where
  publication : Bytes → Bytes → Command
  notification : Bytes → Bytes → Command
  call0 : Bytes → Bytes → Params → Command
  broadcast : Bytes → Bytes → Command
  message : Bytes → Bytes → Command

-- behind `=`: the first two pieces
unfoldable pub publication_of : List Bytes → Result Command
publication_of [] = err (error_data (literal "topic not specified"))
publication_of (topic ∷ []) = err (error_data (literal "payload not specified"))
publication_of (topic ∷ payload ∷ more) = ok (publication topic payload)

-- a payload that is not marked: a broadcast, if the target has a wildcard in it
unfoldable pub frame_to : Bytes → Bytes → Result Command
unfolding has_any
frame_to target payload =
    if has_any (codes "*?") target
    then ok (broadcast target payload)
    else ok (message target payload)

-- what the second piece asks for, with the pieces behind it
unfoldable pub marked : Bytes → Bytes → List Bytes → Result Command
unfolding frame_to str_to_params_map
marked target [] more = frame_to target []
marked target (c ∷ cs) more =
    if c == 46
    then ok (notification target cs)
    else if c == 58
    then (str_to_params_map more >>= λ params. ok (call0 target cs params))
    else frame_to target (c ∷ cs)

unfoldable pub target_and_payload : List Bytes → Result Command
unfolding marked
target_and_payload [] = err (error_data (literal "target not specified"))
target_and_payload (target ∷ []) = err (error_data (literal "payload not specified"))
target_and_payload (target ∷ payload ∷ more) = marked target payload more

-- the trimmed line tells a publication; the pieces of any other command are those of the whole line
unfoldable pub command_of : Bytes → Bytes → Result Command
unfolding publication_of target_and_payload split_on
command_of [] line = target_and_payload (split_on 32 line)
command_of (c ∷ cs) line =
    if c == 61 then publication_of (split_on 32 cs) else target_and_payload (split_on 32 line)

unfoldable pub fifo_command : Bytes → Result Command
unfolding command_of trim
fifo_command line = command_of (trim line) line

module _ (X : Maps) (encode : BrokerEvent → Result Bytes) (room : ℕ → Room) where
  -- The lock of the core RPC client is held while the command is carried out.
  abbrev pub unregistering : ℕ → Act X (Unit {0})
  unregistering = unregister_locked X encode room

  -- `?` on what the operation comes to, whose confirmation is dropped
  unfoldable pub finished : Outcome (Result Confirm) × Db X → Outcome (Result (Unit {0})) × Db X
  finished (done (ok c), db) = (done (ok tt), db)
  finished (done (err e), db) = (done (err e), db)
  finished (failed e, db) = (done (err e), db)
  finished (waits, db) = (waits, db)

  -- a message of the core client `core`, with a header or without one
  unfoldable pub core_send : ℕ → Bytes → Option Bytes → Bytes → ℕ → Act X (Result (Unit {0}))
  unfolding finished sent_with
  core_send core target header payload len db = finished (
      sent_with X QoS.no_confirm (
        send X unregistering room false core target (parcel X header payload len QoS.no_confirm)
          db))

  -- a call, if its parameters could be encoded
  unfoldable pub core_call : ℕ → Bytes → Bytes → Result Bytes → Act X (Result (Unit {0}))
  unfolding core_send
  core_call core target method (err e) db = (done (err e), db)
  core_call core target method (ok payload) db =
      core_send core target (some (call0_head method)) payload
        (length payload + length (call0_head method)) db

  unfoldable pub carry_out : (Params → Result Bytes) → ℕ → Command → Act X (Result (Unit {0}))
  unfolding core_send core_call finished spread_with
  carry_out to_vec core (publication topic payload) db = finished (
      spread_with X QoS.no_confirm (
        publish X unregistering room false core topic
          (parcel X none payload (length payload) QoS.no_confirm) db))
  carry_out to_vec core (notification target payload) db =
      core_send core target (some (rpc_notification ∷ [])) payload (length payload + 1) db
  carry_out to_vec core (call0 target method params) db =
      core_call core target method (to_vec params) db
  carry_out to_vec core (broadcast target payload) db = finished (
      spread_with X QoS.no_confirm (
        send_broadcast X unregistering room false core target
          (parcel X none payload (length payload) QoS.no_confirm) db))
  carry_out to_vec core (message target payload) db =
      core_send core target none payload (length payload) db

  unfoldable pub commanded :
      (Params → Result Bytes) → ℕ → Result Command → Act X (Result (Unit {0}))
  unfolding carry_out
  commanded to_vec core (err e) db = (done (err e), db)
  commanded to_vec core (ok c) db = carry_out to_vec core c db

  unfoldable pub send_fifo_cmd : (Params → Result Bytes) → Bytes → Act X (Result (Unit {0}))
  unfolding commanded fifo_command
  send_fifo_cmd to_vec line db = elim db.core [
    | none ↦
        (done (err (error_not_supported (literal "broker core RPC client not initialized"))), db)
    | some core ↦ commanded to_vec core (fifo_command line) db
  ]

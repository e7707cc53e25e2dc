-- ===== src/Broker/Fifo/Safety.antt =====
-- src/broker.rs, `send_fifo_cmd`: whatever a line asks for, the broker stays safe.
use elbus.Base.{ℕ, false, Bytes, Option, Option-cases, inl, inr}
use elbus.Proto.{Result, ok, err, QoS}
use elbus.Stream.{Outcome, done, failed, waits}
use elbus.Common.Params.{Params}
use elbus.Broker.Maps.{Maps}
use elbus.Broker.Db.{Db}
use elbus.Broker.Deliver.{Room, BrokerEvent}
use elbus.Broker.Deliver.Keeps.{send-keeps, send_broadcast-keeps, publish-keeps}
use elbus.Broker.Local.{Confirm}
use elbus.Broker.Local.Keeps.{sent_with-Safe, spread_with-Safe}
use elbus.Broker.Safety.{Safe}
use elbus.Broker.Safety.Steps.{Safe-locked-Keeps}
use elbus.Broker.Fifo.{
  Command, publication, notification, call0, broadcast, message, finished, core_send, core_call,
  carry_out, commanded, fifo_command, send_fifo_cmd,
}

module _ (X : Maps) (encode : BrokerEvent → Result Bytes) (room : ℕ → Room) where
  finished-Safe :
      (o : Outcome (Result Confirm) × Db X) → Safe X o.1 → Safe X (finished X encode room o).1
  unfolding finished
  finished-Safe (done (ok c), db) v = v
  finished-Safe (done (err e), db) v = v
  finished-Safe (failed e, db) v = v
  finished-Safe (waits, db) v = v

  core_send-Safe :
      (core : ℕ) (target : Bytes) (header : Option Bytes) (payload : Bytes) (len : ℕ) (db : Db X)
      → Safe X db
      → Safe X (core_send X encode room core target header payload len db).1
  unfolding core_send
  core_send-Safe core target header payload len db v = finished-Safe _ (
      sent_with-Safe X QoS.no_confirm _
        (send-keeps X _ room false (Safe X) (Safe-locked-Keeps X encode room) core target _ db v))

  core_call-Safe :
      (core : ℕ) (target method : Bytes) (r : Result Bytes) (db : Db X)
      → Safe X db
      → Safe X (core_call X encode room core target method r db).1
  unfolding core_call
  core_call-Safe core target method (err e) db v = v
  core_call-Safe core target method (ok payload) db v = core_send-Safe core target _ payload _ db v

  carry_out-Safe :
      (to_vec : Params → Result Bytes) (core : ℕ) (c : Command) (db : Db X)
      → Safe X db
      → Safe X (carry_out X encode room to_vec core c db).1
  unfolding carry_out
  carry_out-Safe to_vec core (publication topic payload) db v = finished-Safe _ (
      spread_with-Safe X QoS.no_confirm _
        (publish-keeps X _ room false (Safe X) (Safe-locked-Keeps X encode room) core topic _ db v))
  carry_out-Safe to_vec core (notification target payload) db v =
      core_send-Safe core target _ payload _ db v
  carry_out-Safe to_vec core (call0 target method params) db v =
      core_call-Safe core target method (to_vec params) db v
  carry_out-Safe to_vec core (broadcast target payload) db v = finished-Safe _ (
      spread_with-Safe X QoS.no_confirm _ (
        send_broadcast-keeps X _ room false (Safe X) (Safe-locked-Keeps X encode room) core target _
          db v))
  carry_out-Safe to_vec core (message target payload) db v =
      core_send-Safe core target _ payload _ db v

  commanded-Safe :
      (to_vec : Params → Result Bytes) (core : ℕ) (r : Result Command) (db : Db X)
      → Safe X db
      → Safe X (commanded X encode room to_vec core r db).1
  unfolding commanded
  commanded-Safe to_vec core (err e) db v = v
  commanded-Safe to_vec core (ok c) db v = carry_out-Safe to_vec core c db v

  pub Safe-send_fifo_cmd :
      (to_vec : Params → Result Bytes) (line : Bytes) (db : Db X)
      → Safe X db
      → Safe X (send_fifo_cmd X encode room to_vec line db).1
  unfolding send_fifo_cmd
  Safe-send_fifo_cmd to_vec line db v = elim (Option-cases db.core) [
    | inl h ↦ rw (h, send_fifo_cmd) v
    | inr (core, h) ↦ rw (h, send_fifo_cmd) (commanded-Safe to_vec core (fifo_command line) db v)
  ]

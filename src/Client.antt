-- ===== src/Client.antt =====
-- src/client.rs: `AsyncClient`, the operations that the clients of src/ipc.rs and src/broker.rs have in
-- common, and what their users rely on.
pub mod Instances
mod Tests
use elbus.Base.{ℕ, ◌≡◌, Bool, true, false, Bytes, List, Option, none, some}
use elbus.Proto.{Result, ok, err, QoS, needs_ack}
use elbus.Stream.{Outcome, done, failed, waits}

-- A client over an unknown state. `Receiver` is the receiving half of the channel in an `OpConfirm`.
pub record AsyncClient : Type 1 where
  pub State : Type 0
  pub Receiver : Type 0
  pub take_event_channel : State → Bool × State
  pub send : Bytes → Bytes → QoS → State → Outcome (Result (Option Receiver)) × State
  pub zc_send : Bytes → Bytes → Bytes → QoS → State → Outcome (Result (Option Receiver)) × State
  pub send_broadcast : Bytes → Bytes → QoS → State → Outcome (Result (Option Receiver)) × State
  pub publish : Bytes → Bytes → QoS → State → Outcome (Result (Option Receiver)) × State
  pub subscribe : Bytes → QoS → State → Outcome (Result (Option Receiver)) × State
  pub unsubscribe : Bytes → QoS → State → Outcome (Result (Option Receiver)) × State
  pub subscribe_bulk : List Bytes → QoS → State → Outcome (Result (Option Receiver)) × State
  pub unsubscribe_bulk : List Bytes → QoS → State → Outcome (Result (Option Receiver)) × State
  pub ping : State → Outcome (Result (Unit {0})) × State
  pub is_connected : State → Bool
  pub get_connected_beacon : State → Option Bool
  pub get_timeout : State → Option ℕ
  pub get_name : State → Bytes

-- An operation that succeeds comes with a confirmation to wait for exactly if its level asks for one.
abbrev pub Confirms : {R : Type 0} → QoS → Outcome (Result (Option R)) → Type 0
Confirms qos (done (ok none)) = needs_ack qos ≡ false
Confirms qos (done (ok (some r))) = needs_ack qos ≡ true
Confirms qos (done (err e)) = Unit {0}
Confirms qos (failed e) = Unit {0}
Confirms qos waits = Unit {0}

-- What the users of a client rely on.
pub record IsLawful (C : AsyncClient) : Type 0 where
  pub send-Confirms :
      (target payload : Bytes) (qos : QoS) (s : C.State)
      → Confirms qos (C.send target payload qos s).0
  pub zc_send-Confirms :
      (target header payload : Bytes) (qos : QoS) (s : C.State)
      → Confirms qos (C.zc_send target header payload qos s).0
  pub send_broadcast-Confirms :
      (target payload : Bytes) (qos : QoS) (s : C.State)
      → Confirms qos (C.send_broadcast target payload qos s).0
  pub publish-Confirms :
      (topic payload : Bytes) (qos : QoS) (s : C.State)
      → Confirms qos (C.publish topic payload qos s).0
  pub subscribe-Confirms :
      (topic : Bytes) (qos : QoS) (s : C.State) → Confirms qos (C.subscribe topic qos s).0
  pub unsubscribe-Confirms :
      (topic : Bytes) (qos : QoS) (s : C.State) → Confirms qos (C.unsubscribe topic qos s).0
  pub subscribe_bulk-Confirms :
      (topics : List Bytes) (qos : QoS) (s : C.State)
      → Confirms qos (C.subscribe_bulk topics qos s).0
  pub unsubscribe_bulk-Confirms :
      (topics : List Bytes) (qos : QoS) (s : C.State)
      → Confirms qos (C.unsubscribe_bulk topics qos s).0

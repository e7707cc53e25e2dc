-- ===== src/Cli/Acked.antt =====
-- src/cli.rs: when the commands that send something end well.
use elbus.Base.{
  ◌≡◌, refl, true, false, Bytes, [], ◌∷◌, Option, none, some, has_any, codes, if◌then◌else◌,
  Bool-cases, inl, inr,
}
use elbus.Proto.{Result, ok, err, QoS, needs_ack}
use elbus.Stream.{Outcome, done, failed, waits}
use elbus.Client.{AsyncClient, Confirms, IsLawful}
use elbus.Common.Params.{Params}
use elbus.Cli.{TargetPayload, line, Ran, finished, panicked, hangs}
use elbus.Cli.Run.{get_payload, confirmed, acknowledged, send_operation, run_send}

-- The payload that a command sends: the one that it is given, or else the standard input.
abbrev pub IsGiven : Option Bytes → Bytes → Bytes → Type 0
IsGiven (some p) stdin payload = payload ≡ p
IsGiven none stdin payload = payload ≡ stdin

pub get_payload-IsGiven :
    (o : Option Bytes) (stdin payload : Bytes)
    → IsGiven o stdin payload
    → payload ≡ get_payload o stdin
get_payload-IsGiven (some p) stdin payload h = h
get_payload-IsGiven none stdin payload h = h

-- What a command comes to by its confirmation: it puts out "OK" if that succeeds, and panics if it fails
-- or its channel is closed.
abbrev pub EndsConfirmed : Outcome (Result (Unit {0})) → Ran → Type 0
EndsConfirmed (done (ok u)) ran = ran ≡ finished (line (codes "OK") ∷ [])
EndsConfirmed (done (err e)) ran = ran ≡ panicked
EndsConfirmed (failed e) ran = ran ≡ panicked
EndsConfirmed waits ran = ran ≡ hangs

module _ (C : AsyncClient) (confirm : C.Receiver → Outcome (Result (Unit {0}))) where
  -- What a command comes to is what its operation and the confirmation of that come to: a panic if the
  -- operation fails, and else what the confirmation comes to. It does not come without one.
  abbrev pub Ends : Outcome (Result (Option C.Receiver)) → Ran → Type 0
  Ends (done (ok none)) ran = true ≡ false
  Ends (done (ok (some r))) ran = EndsConfirmed (confirm r) ran
  Ends (done (err e)) ran = ran ≡ panicked
  Ends (failed e) ran = ran ≡ panicked
  Ends waits ran = ran ≡ hangs

  confirmed-EndsConfirmed :
      (o : Outcome (Result (Unit {0}))) → EndsConfirmed o (confirmed C confirm o)
  unfolding confirmed
  confirmed-EndsConfirmed (done (ok u)) = refl
  confirmed-EndsConfirmed (done (err e)) = refl
  confirmed-EndsConfirmed (failed e) = refl
  confirmed-EndsConfirmed waits = refl

  pub acknowledged-Ends :
      (o : Outcome (Result (Option C.Receiver)))
      → Confirms QoS.processed o
      → Ends o (acknowledged C confirm o)
  unfolding acknowledged needs_ack
  acknowledged-Ends (done (ok (some r))) h = confirmed-EndsConfirmed (confirm r)
  acknowledged-Ends (done (ok none)) h = cc
  acknowledged-Ends (done (err e)) h = refl
  acknowledged-Ends (failed e) h = refl
  acknowledged-Ends waits h = refl

  -- The operation of the command `send`: a broadcast if there is a wildcard in the target.
  abbrev pub sends : Bytes → Bytes → C.State → Outcome (Result (Option C.Receiver)) × C.State
  sends target payload s =
      if has_any (codes "*?") target
      then C.send_broadcast target payload QoS.processed s
      else C.send target payload QoS.processed s

  sends-Confirms :
      (L : IsLawful C) (target payload : Bytes) (s : C.State)
      → Confirms QoS.processed (sends target payload s).0
  sends-Confirms L target payload s = elim (Bool-cases (has_any (codes "*?") target)) [
    | inl h ↦ rw h (L.send_broadcast-Confirms _ _ _ s)
    | inr h ↦ rw h (L.send-Confirms _ _ _ s)
  ]

  pub run_send-Ends :
      (L : IsLawful C) (cmd : TargetPayload) (stdin : Bytes) (s : C.State)
      → Ends
          (sends cmd.target (get_payload cmd.payload stdin) s).0
          (run_send C confirm cmd stdin s).0
  unfolding run_send send_operation
  run_send-Ends L cmd stdin s =
      acknowledged-Ends _ (sends-Confirms L cmd.target (get_payload cmd.payload stdin) s)

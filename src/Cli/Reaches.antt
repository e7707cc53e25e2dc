-- ===== src/Cli/Reaches.antt =====
-- src/cli.rs, `Command::Send`: from the command line to the client that the message is for.
use elbus.Base.{
  some, refl, ℕ, ◌+◌, ◌^◌, ◌<◌, ◌≡◌, sym, ap, subst, false, Bytes, ◌∷◌, ◌++◌, Option, none, length,
  if◌then◌else◌, has_any, codes,
}
use elbus.Proto.{Result, ok, FrameOp, QoS, needs_ack, FrameKind}
use elbus.Stream.{Ending, Outcome, done}
use elbus.Client.Instances.{ipc_client, ipc_client-IsLawful}
use elbus.Cli.Acked.{IsGiven, get_payload-IsGiven, EndsConfirmed, Ends, sends, run_send-Ends}
use elbus.Broker.Maps.{Maps}
use elbus.Broker.Db.{Db}
use elbus.Broker.Deliver.{Room, BrokerEvent}
use elbus.Broker.Access.{Lists, ClientAaa}
use elbus.Broker.Handler.{process_request}
use elbus.Ipc.{Client, increment_frame_id}
use elbus.Ipc.Send.{send_to, in_time, send_frame_and_confirm, then_send, finish, send_data}
use elbus.Ipc.Read.{Reader}
use elbus.Wire.Calls.{IsFree}
use elbus.Wire.Delivery.{IsText}
use elbus.Wire.Requests.{Arrives}
use elbus.Wire.Handled.{Delivered, asked}
use elbus.Wire.Transit.{sent, message-Delivered}
use elbus.Cli.{TargetPayload}
use elbus.Cli.Run.{get_payload, send_operation, run_send}

module _ (X : Maps) (A : Lists) (encode : BrokerEvent → Result Bytes) (room : ℕ → Room) (from : ℕ)
    (aaa : Option (ClientAaa A)) (db : Db X) (confirm : ℕ → Outcome (Result (Unit {0})))
    (stdin : Bytes) (cmd : TargetPayload) where
  abbrev content : Bytes
  content = get_payload cmd.payload stdin

  -- The client after the command.
  abbrev pub after : Client → Client
  after c = (run_send (ipc_client in_time in_time) confirm cmd stdin c).1

  after-sent :
      (c : Client)
      → has_any (codes "*?") cmd.target ≡ false
      → sent X A encode room from aaa c cmd.target content QoS.processed db FrameOp.message
        ≡ after c
  unfolding run_send send_operation
  after-sent c h =
      let C = ipc_client in_time in_time in
      sym (
        ap
          (λ b.
            (if b
              then C.send_broadcast cmd.target content QoS.processed c
              else C.send cmd.target content QoS.processed c).1)
          h)

  -- What the broker reads, what the target's reader then gets, and what the command comes to.
  abbrev pub Passes : Bytes → Client → Client → ℕ → Reader → Ending → Type 0
  Passes given c d to rd e =
      Arrives c d FrameOp.message QoS.processed (cmd.target ++ (0 ∷ given))
      × Delivered (db.heap to).queue
          ((process_request X A encode room from aaa
              (asked X A encode room from aaa d.frame_id cmd.target given QoS.processed db
                FrameOp.message)
              db).1.heap
            to).queue
          rd e FrameKind.message (db.heap from).name none given
      × EndsConfirmed (confirm (increment_frame_id c).frame_id)
          (run_send (ipc_client in_time in_time) confirm cmd stdin c).0

  outcome-sends :
      (c : Client)
      → has_any (codes "*?") cmd.target ≡ false
      → (sends (ipc_client in_time in_time) confirm cmd.target content c).0
        ≡ done (ok (some (increment_frame_id c).frame_id))
  unfolding send_to send_frame_and_confirm then_send finish send_data needs_ack
  outcome-sends c h = rw h refl

  run_send-EndsConfirmed :
      (c : Client)
      → has_any (codes "*?") cmd.target ≡ false
      → EndsConfirmed
          (confirm (increment_frame_id c).frame_id)
          (run_send (ipc_client in_time in_time) confirm cmd stdin c).0
  run_send-EndsConfirmed c h =
      let C = ipc_client in_time in_time in
      subst (λ o. Ends C confirm o (run_send C confirm cmd stdin c).0) (outcome-sends c h)
        (run_send-Ends C confirm (ipc_client-IsLawful in_time in_time) cmd stdin c)

  -- The command `send`, for a target with no wildcard in it, brings the payload that it is given, or
  -- else the standard input, to the reader of the target, and puts out "OK" or panics as the
  -- confirmation with the frame's id comes to: if both writes go through, the names of the target and
  -- the sender are text without a zero byte, the lengths fit into 32 bits, and the way to the target is
  -- free.
  pub run_send-Passes :
      (given : Bytes) (c : Client) (to : ℕ) (rd : Reader) (e : Ending)
      → IsGiven cmd.payload stdin given
      → has_any (codes "*?") cmd.target ≡ false
      → IsText cmd.target
      → IsText (db.heap from).name
      → length cmd.target + length given + 1 < 2 ^ 32
      → length (db.heap from).name + length given + 1 < 2 ^ 32
      → IsFree X A encode room from aaa db cmd.target to rd
      → Passes given c (after c) to rd e
  run_send-Passes given c to rd e g plain text named h k
        (allowed, l, roomy, ne, queued, listening) =
      let is_given = get_payload-IsGiven cmd.payload stdin given g in
      let passed =
        subst
          (λ d.
            Arrives c d FrameOp.message QoS.processed (cmd.target ++ (0 ∷ content))
            × Delivered (db.heap to).queue
                ((process_request X A encode room from aaa
                    (asked X A encode room from aaa d.frame_id cmd.target content QoS.processed db
                      FrameOp.message)
                    db).1.heap
                  to).queue
                rd e FrameKind.message (db.heap from).name none content)
          (after-sent c plain)
          (message-Delivered X A encode room from aaa c cmd.target content QoS.processed db to rd e
            text named (subst (λ p. length cmd.target + length p + 1 < 2 ^ 32) is_given h)
            (subst (λ p. length (db.heap from).name + length p + 1 < 2 ^ 32) is_given k) allowed l
            roomy ne queued listening) in
      subst (λ p. Passes p c (after c) to rd e) (sym is_given)
        (passed.0, passed.1, run_send-EndsConfirmed c plain)

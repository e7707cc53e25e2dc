-- ===== src/Wire/Calls.antt =====
-- Calls of src/rpc.rs on their way through the broker: from the client that calls to the processor of
-- another one, and the answer back.
use elbus.Base.{
  ℕ, ◌+◌, ◌^◌, ◌<◌, ◌≡◌, ◌≢◌, refl, arith, true, false, Bytes, [], ◌∷◌, ◌++◌, Option, some, none,
  if◌then◌else◌, ◌∙◌, ap, length, length-append, All, NoZero, lt→ltb, option_bind,
}
use elbus.Proto.{Result, FrameOp, QoS, FrameKind, FrameData}
use elbus.Stream.{Ending}
use elbus.Broker.Maps.{Maps}
use elbus.Broker.Db.{Db, lookup}
use elbus.Broker.Deliver.{Room, BrokerEvent}
use elbus.Broker.Deliver.Effects.{HasRoom}
use elbus.Broker.Access.{Lists, ClientAaa, p2p_allowed}
use elbus.Broker.Handler.{process_request}
use elbus.Ipc.{Client, has_id, remove_id}
use elbus.Ipc.Send.{zc_send, in_time}
use elbus.Ipc.Read.{takes, Reader}
use elbus.Rpc.Event.{RpcEvent, method, event_payload}
use elbus.Rpc.Client.{RpcClient, Options, begin_call, prepare_call_payload, answered, end_call}
use elbus.Rpc.Processor.{
  Processor, RpcResult, process_frame, process_event, start, start_call, handle_call, answer_qos,
  answer,
}
use elbus.Rpc.Calls.{ShowsCall, prepare_call_payload-ShowsCall, begin_call-fresh}
use elbus.Rpc.Answers.{Gives, FitsCode, answer-Gives, process_frame-event}
use elbus.Wire.Delivery.{IsRouted, IsText}
use elbus.Wire.Requests.{Arrives}
use elbus.Wire.Sends.{send_with_header-Arrives}
use elbus.Wire.Handled.{Delivered, asked, handled_message}

-- The processor starts one task for the frame: the handler of calls, with an event that has this
-- method and these parameters, and whose answer goes to this caller under this id.
abbrev pub StartsCall : Options → Processor → FrameData → Bytes → ℕ → Bytes → Bytes → Type 0
StartsCall opts p f caller id m params =
    (e : RpcEvent) × (method e ≡ some m)
    × (event_payload e ≡ some params)
    × (process_frame opts p f
        ≡ some (
            start p (
              handle_call e (some (record { target = caller; call_id = id; qos = answer_qos f })))))

abbrev reply_to : Processor → RpcEvent → ℕ → FrameData → Option Bytes → Option Processor
reply_to p e n f o = elim o [
  | none ↦ none
  | some s ↦
      some (start p (handle_call e (some (record { target = s; call_id = n; qos = answer_qos f }))))
]

start_call-reply_to :
    (p : Processor) (e : RpcEvent) (n : ℕ)
    → 0 < n
    → start_call p e n ≡ reply_to p e n e.frame e.frame.sender
unfolding start_call
start_call-reply_to p e n h = rw (lt→ltb 0 n h, start_call) refl

process_frame-StartsCall :
    (opts : Options) (p : Processor) (f : FrameData) (caller : Bytes) (n : ℕ) (m params : Bytes)
    → f.kind ≡ FrameKind.message
    → f.sender ≡ some caller
    → 0 < n
    → ShowsCall f n m params
    → StartsCall opts p f caller n m params
unfolding process_event option_bind
process_frame-StartsCall opts p f caller n m params k s h
      (e, read, same, kind, number, name, params_read) =
    (
      e,
      name,
      params_read,
      process_frame-event opts p f e k read
          ∙ ap (λ k. process_event opts p k e) kind
          ∙ ap (λ i. option_bind i (start_call p e)) number
          ∙ start_call-reply_to p e n h
          ∙ ap (λ (g : FrameData). reply_to p e n g g.sender) same
          ∙ ap (reply_to p e n f) s,
    )

module _ (X : Maps) (A : Lists) (encode : BrokerEvent → Result Bytes) (room : ℕ → Room) (from : ℕ)
    (aaa : Option (ClientAaa A)) (db : Db X) where
  abbrev pub from_name : Bytes
  from_name = (db.heap from).name

  -- What `zc_send` makes of a header and a payload.
  abbrev pub zc_sent : Client → Bytes → Bytes → Bytes → QoS → Client
  zc_sent c target header payload qos = (zc_send c target header payload qos in_time in_time).1

  -- The broker after it.
  abbrev pub handled : Client → Bytes → Bytes → Bytes → QoS → Db X
  handled c target header payload qos =
      (process_request X A encode room from aaa
        (asked X A encode room from aaa (zc_sent c target header payload qos).frame_id target
          (header ++ payload) qos db FrameOp.message)
        db).1

  -- The way to the target is free: it is registered for another client than the sender, with room in
  -- its queue, which holds routed frames only, the access rules allow it, and its reader has someone
  -- who listens.
  abbrev pub IsFree : Bytes → ℕ → Reader → Type 0
  IsFree target to rd =
      (p2p_allowed A aaa target ≡ true)
      × (lookup target db.clients ≡ some to)
      × HasRoom (db.heap to)
      × (to ≢ from)
      × All IsRouted (db.heap to).queue
      × (rd.listening ≡ takes)

  -- The broker reads the request that was sent, and the target's reader gets a frame with these bytes.
  abbrev pub Passes : Client → Bytes → Bytes → Bytes → QoS → ℕ → Reader → Ending → Type 0
  Passes c target header payload qos to rd e =
      Arrives c (zc_sent c target header payload qos) FrameOp.message qos
        (target ++ (0 ∷ (header ++ payload)))
      × Delivered (db.heap to).queue ((handled c target header payload qos).heap to).queue rd e
          FrameKind.message from_name none (header ++ payload)

  zc_send-Passes :
      (c : Client) (target header payload : Bytes) (qos : QoS) (to : ℕ) (rd : Reader) (e : Ending)
      → IsText target
      → IsText from_name
      → length target + length header + length payload + 1 < 2 ^ 32
      → length from_name + length header + length payload + 1 < 2 ^ 32
      → IsFree target to rd
      → Passes c target header payload qos to rd e
  zc_send-Passes c target header payload qos to rd e (v, z) named h k
        (allowed, l, roomy, ne, queued, listening) =
      let (arrives, reads) =
        send_with_header-Arrives c target header payload FrameOp.message qos (λ e. cc) v z
          (omega (arith, h)) in
      (
        arrives,
        handled_message X A encode room from aaa (zc_sent c target header payload qos).frame_id
            target (header ++ payload) qos db to rd e reads named
            (omega (arith, k, length-append header payload)) allowed l roomy ne queued listening,
      )

  -- A call that a client makes comes to the processor of the target, which starts the handler of
  -- calls with the method and the parameters, whose answer goes to the caller under the call's new
  -- id: if both writes go through, the names of the target and the caller are text without a zero
  -- byte, the method has no zero byte, the lengths and the last call's id fit into 32 bits, and the
  -- way to the target is free.
  pub call-Delivered :
      (c : Client) (rpc : RpcClient) (target m params : Bytes) (qos : QoS) (to : ℕ) (rd : Reader)
      (e : Ending) (opts : Options) (p : Processor)
      → IsText target
      → IsText from_name
      → NoZero m
      → rpc.call_id < 2 ^ 32
      → length target + length m + length params + 7 < 2 ^ 32
      → length from_name + length m + length params + 7 < 2 ^ 32
      → IsFree target to rd
      → let (id, head) = (begin_call rpc m).0 in
        (passed : Passes c target head params qos to rd e) × StartsCall opts p passed.1.frame
          from_name id m params
  unfolding begin_call prepare_call_payload
  call-Delivered c rpc target m params qos to rd e opts p v named z fits h k free =
      let (positive, _, n, _) = begin_call-fresh rpc m fits in
      let (id, head) = (begin_call rpc m).0 in
      let size : length head ≡ length m + 6 = omega (arith, length-append m (0 ∷ [])) in
      let passed =
        zc_send-Passes c target head params qos to rd e v named (omega (arith, size, h))
          (omega (arith, size, k)) free in
      let f = passed.1 in
      (
        passed,
        process_frame-StartsCall opts p f.frame from_name id m params f.same_kind f.same_sender
            positive
            (prepare_call_payload-ShowsCall f.frame false id m params n z
              (f.no_header, f.same_payload)),
      )

  -- The answer of a handler comes back to the processor of the caller, which hands it to the call
  -- with its id, if one waits for it, and this ends with the handler's result: if both writes go
  -- through, the names of either side are text without a zero byte, the id fits into 32 bits and the
  -- code of an error into 16, the lengths fit into 32 bits, and the way to the caller is free.
  pub answer-Delivered :
      (c : Client) (caller : Bytes) (n : ℕ) (r : RpcResult) (qos : QoS) (to : ℕ) (rd : Reader)
      (e : Ending) (opts : Options) (p : Processor) (rpc : RpcClient)
      → IsText caller
      → IsText from_name
      → n < 2 ^ 32
      → FitsCode r
      → length caller + length (answer n r).0 + length (answer n r).1 + 1 < 2 ^ 32
      → length from_name + length (answer n r).0 + length (answer n r).1 + 1 < 2 ^ 32
      → IsFree caller to rd
      → (passed : Passes c caller (answer n r).0 (answer n r).1 qos to rd e) × (event : RpcEvent)
        × (process_frame opts p passed.1.frame
            ≡ some (
                if has_id n p.calls
                then record p {
                  calls = remove_id n p.calls;
                  resolved = p.resolved ++ ((n, event) ∷ []);
                }
                else p))
        × Gives event r (end_call rpc n (answered event)).0
  answer-Delivered c caller n r qos to rd e opts p rpc v named fits code h k free =
      let passed =
        zc_send-Passes c caller (answer n r).0 (answer n r).1 qos to rd e v named h k free in
      let (event, done, gives) =
        answer-Gives opts p rpc passed.1.frame false n r fits code passed.1.same_kind
          (passed.1.no_header, passed.1.same_payload) in
      (passed, event, done, gives)

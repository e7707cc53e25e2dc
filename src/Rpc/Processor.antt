-- ===== src/Rpc/Processor.antt =====
-- src/rpc.rs: `processor`, which handles the incoming frames one after another, and the answers to
-- requests.
use elbus.Base.{
  ℕ, Bool, Bytes, List, [], ◌∷◌, ◌++◌, Option, none, some, option_bind, ltb, if◌then◌else◌,
}
use elbus.Proto.{Result, ok, err, FrameKind, FrameData, QoS}
use elbus.Ipc.{has_id, remove_id}
use elbus.Rpc.Event.{
  RpcEvent, RpcEventKind, notification, request, reply, error_reply, event_of_frame, id,
}
use elbus.Rpc.Client.{Options, RpcError, reply_head, error_head}

-- Where the answer to a request goes.
pub record ReplyTo : Type 0 where
  pub target : Bytes
  pub call_id : ℕ
  pub qos : QoS

-- What the processor starts; a task that is not `blocking` runs beside it.
pub data Task : Type 0 where
  handle_notification : RpcEvent → Bool → Task
  handle_call : RpcEvent → Option ReplyTo → Task
  handle_frame : FrameData → Bool → Task

-- `calls` is shared with the client; `resolved` lists the answers that went to their calls.
pub record Processor : Type 0 where
  pub calls : List ℕ
  pub resolved : List (ℕ × RpcEvent)
  pub tasks : List Task

abbrev pub start : Processor → Task → Processor
start p t = record p { tasks = p.tasks ++ (t ∷ []) }

-- the answer takes the request's call out of the map, if it is there
unfoldable pub resolve : Processor → ℕ → RpcEvent → Processor
unfolding has_id remove_id
resolve p n e =
    if has_id n p.calls
    then record p { calls = remove_id n p.calls; resolved = p.resolved ++ ((n, e) ∷ []) }
    else p

abbrev pub answer_qos : FrameData → QoS
answer_qos frame = if frame.realtime then QoS.realtime_processed else QoS.processed

-- an answer is wanted for an id that is not 0, and goes to the sender, whom the frame must have
unfoldable pub start_call : Processor → RpcEvent → ℕ → Option Processor
start_call p e n =
    if ltb 0 n
    then elim e.frame.sender [
      | none ↦ none
      | some s ↦ some (
          start p
            (handle_call e (some (record { target = s; call_id = n; qos = answer_qos e.frame }))))
    ]
    else some (start p (handle_call e none))

unfoldable pub process_event : Options → Processor → RpcEventKind → RpcEvent → Option Processor
unfolding id start_call resolve
process_event opts p notification e =
    some (start p (handle_notification e opts.blocking_notifications))
process_event opts p request e = option_bind (id e) (start_call p e)
process_event opts p reply e = option_bind (id e) (λ n. some (resolve p n e))
process_event opts p error_reply e = option_bind (id e) (λ n. some (resolve p n e))

-- an event that cannot be read is only logged
unfoldable pub process_result : Options → Processor → Result RpcEvent → Option Processor
unfolding process_event
process_result opts p (ok e) = process_event opts p e.kind e
process_result opts p (err e) = some p

-- the loop's body; `none` where it panics
unfoldable pub process_frame : Options → Processor → FrameData → Option Processor
unfolding process_result event_of_frame
process_frame opts p frame = elim frame.kind [
  | FrameKind.message ↦ option_bind (event_of_frame frame) (process_result opts p)
  | FrameKind.prepared ↦ some (start p (handle_frame frame opts.blocking_frames))
  | FrameKind.broadcast ↦ some (start p (handle_frame frame opts.blocking_frames))
  | FrameKind.publish ↦ some (start p (handle_frame frame opts.blocking_frames))
  | FrameKind.acknowledge ↦ some (start p (handle_frame frame opts.blocking_frames))
  | FrameKind.nop ↦ some (start p (handle_frame frame opts.blocking_frames))
]

-- What a handler returns: data, or an error.
pub data RpcResult : Type 0 where
  returned : Option Bytes → RpcResult
  refused : RpcError → RpcResult

abbrev pub bytes_of : Option Bytes → Bytes
bytes_of none = []
bytes_of (some b) = b

-- The head and the payload that are sent to the caller as an answer.
unfoldable pub answer : ℕ → RpcResult → Bytes × Bytes
answer n (returned v) = (reply_head n, bytes_of v)
answer n (refused e) = (error_head n e.code, bytes_of e.data_bytes)

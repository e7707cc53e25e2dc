-- ===== src/Rpc/Running.antt =====
-- src/rpc.rs: `RpcClient` with its tasks, the processor and the pinger.
pub mod Stranded
use elbus.Base.{codes, ℕ, Bool, true, false, Bytes, List, [], ◌∷◌, ◌++◌, Option, none, some}
use elbus.Proto.{Result, ok, err, Error, FrameData}
use elbus.Rpc.Client.{
  Options, RpcClient, rpc_error_new, rpc_error_code_method_not_found, begin_call, send_failed,
  end_call,
}
use elbus.Rpc.Processor.{Processor, process_frame, RpcResult, refused}

-- The map of calls is the processor's: both tasks and the callers share it. `connected` is the
-- beacon of the client underneath, if it has one. `queued` is what waits in the event channel, which
-- `closed` tells to be closed, and `aborted` that the processor's task is to be aborted, which it is
-- when it next waits.
pub record Running : Type 0 where
  pub call_id : ℕ
  pub processor : Processor
  pub opts : Options
  pub timeout : Option ℕ
  pub connected : Option Bool
  pub queued : List FrameData
  pub closed : Bool
  pub processing : Bool
  pub aborted : Bool
  pub pinging : Bool

-- `RpcClient::init`: the pinger runs if the client underneath has a timeout
unfoldable pub init : Option ℕ → Option Bool → Options → Running
init timeout connected opts = record {
  call_id = 0;
  processor = record { calls = []; resolved = []; tasks = [] };
  opts = opts;
  timeout = timeout;
  connected = connected;
  queued = [];
  closed = false;
  processing = true;
  aborted = false;
  pinging = elim timeout [ none ↦ false | some t ↦ true ];
}

unfoldable is_connected : Running → Bool
is_connected r = elim r.connected [ none ↦ true | some b ↦ b ]

-- one round of the pinger, by what the ping comes to
unfoldable pub pinged : Result (Unit {0}) → Running → Running
pinged (ok u) r = r
pinged (err e) r = record r { aborted = true; pinging = false }

-- the abort comes through
abbrev pub stopped : Running → Running
stopped r = record r { processing = false }

-- the processor takes a frame; a panic ends its task
unfoldable pub received : FrameData → Running → Running
unfolding process_frame
received frame r = elim (process_frame r.opts r.processor frame) [
  | none ↦ record r { processing = false }
  | some p ↦ record r { processor = p }
]

-- a frame comes into the event channel, and the channel is closed
abbrev pub arrived : FrameData → Running → Running
arrived frame r = record r { queued = r.queued ++ (frame ∷ []) }

abbrev pub events_closed : Running → Running
events_closed r = record r { closed = true }

-- one round of the processor: a closed channel still gives what waits in it, and then ends the loop
unfoldable pub next_of : List FrameData → Bool → Running → Running
unfolding received
next_of (frame ∷ frames) closed r = received frame (record r { queued = frames })
next_of [] true r = stopped r
next_of [] false r = r

unfoldable pub next_event : Running → Running
unfolding next_of
next_event r = next_of r.queued r.closed r

abbrev pub caller_of : Running → RpcClient
caller_of r = record { call_id = r.call_id; calls = r.processor.calls }

abbrev pub with_caller : Running → RpcClient → Running
with_caller r c = record r {
  call_id = c.call_id;
  processor = record r.processor { calls = c.calls };
}

-- a call begins
unfoldable pub called : Bytes → Running → (ℕ × Bytes) × Running
unfolding begin_call
called method r = let (sent, c) = begin_call (caller_of r) method in (sent, with_caller r c)

-- the call is cancelled, since its frame, or the acknowledgement of that, failed
unfoldable pub cancelled : ℕ → Error → Running → Running
unfolding end_call
cancelled id e r = with_caller r (end_call (caller_of r) id (send_failed e)).1

-- `Drop for RpcClient`
abbrev dropped : Running → Running
dropped r = record r { aborted = true; pinging = false }

-- `DummyHandlers::handle_call`
abbrev dummy_result : RpcResult
dummy_result =
    refused (
      rpc_error_new rpc_error_code_method_not_found (some (codes "RPC handler is not implemented")))

-- ===== src/Rpc/Answers.antt =====
-- src/rpc.rs: what the processor and the waiting call make of an answer.
use elbus.Base.{
  ℕ, ◌^◌, ◌<◌, ◌≡◌, refl, ◌∙◌, ap, Bool, Bytes, [], ◌∷◌, ◌++◌, Option, some, option_bind,
  if◌then◌else◌, ◌⊎◌, inl, inr,
}
use elbus.Proto.{ok, err, error_data, literal, FrameData, FrameKind}
use elbus.Ipc.{has_id, remove_id}
use elbus.Rpc.Event.{RpcEvent, error_reply, event_of_frame, code, event_payload, is_error_reply}
use elbus.Rpc.Client.{
  Options, RpcError, rpc_error_new, rpc_error_of_event, with_data, RpcClient, answered, end_call,
  result_of_event,
}
use elbus.Rpc.Processor.{
  Processor, resolve, process_event, process_result, process_frame, RpcResult, returned, refused,
  answer, bytes_of,
}
use elbus.Rpc.Views.{Carries, reply_head-Shows, error_head-Shows}

-- The handler's result as the caller gets it: the data of a reply, or the error with its code and
-- with data that are empty where there were none.
abbrev pub Gives : RpcEvent → RpcResult → Option (RpcEvent ⊎ RpcError) → Type 0
Gives e (returned v) o = (o ≡ some (inl e)) × (event_payload e ≡ some (bytes_of v))
Gives e (refused x) o = o ≡ some (inr (rpc_error_new x.code (some (bytes_of x.data_bytes))))

-- The code of a result fits in 16 bits.
abbrev pub FitsCode : RpcResult → Type 0
FitsCode (returned v) = Unit {0}
FitsCode (refused x) = x.code < 2 ^ 16

-- A frame that is read as an event is handled as that.
pub process_frame-event :
    (opts : Options) (p : Processor) (f : FrameData) (e : RpcEvent)
    → f.kind ≡ FrameKind.message
    → event_of_frame f ≡ some (ok e)
    → process_frame opts p f ≡ process_event opts p e.kind e
unfolding process_frame process_result option_bind
process_frame-event opts p f e k h = rw (k, h, process_frame) refl

end_call-error :
    (c : RpcClient) (n x : ℕ) (p : Bytes) (e : RpcEvent)
    → e.kind ≡ error_reply
    → code e ≡ some x
    → event_payload e ≡ some p
    → (end_call c n (answered e)).0 ≡ some (inr (rpc_error_new x (some p)))
unfolding end_call rpc_error_of_event is_error_reply with_data result_of_event
end_call-error c n x p e hk hc hp = ap (result_of_event e) (
    ap
      (λ k.
        if is_error_reply k
        then with_data (code e) (event_payload e)
        else some (err (error_data (literal "not a RPC error"))))
      hk
    ∙ ap (λ o. with_data o (event_payload e)) hc
    ∙ ap (with_data (some x)) hp)

-- The answer that a handler's result makes, in either form of the frame, goes to the call with its
-- id, which then ends with that result; without a call of that id, the processor stays as it was.
pub answer-Gives :
    (opts : Options) (p : Processor) (c : RpcClient) (f : FrameData) (b : Bool) (n : ℕ)
    (r : RpcResult)
    → n < 2 ^ 32
    → FitsCode r
    → f.kind ≡ FrameKind.message
    → Carries f b (answer n r).0 (answer n r).1
    → (e : RpcEvent) × (process_frame opts p f
        ≡ some (
            if has_id n p.calls
            then record p { calls = remove_id n p.calls; resolved = p.resolved ++ ((n, e) ∷ []) }
            else p))
      × Gives e r (end_call c n (answered e)).0
unfolding answer process_event resolve end_call rpc_error_of_event is_error_reply option_bind
    with_data result_of_event
answer-Gives opts p c f b n (returned v) h w k carries =
    let (e, he, hk, hi, hc, hp) = reply_head-Shows f b n (bytes_of v) h carries in
    (
      e,
      process_frame-event opts p f e k he ∙ rw (hk, process_event) (rw (hi, process_event) refl),
      (rw (hk, end_call, rpc_error_of_event) refl, hp),
    )
answer-Gives opts p c f b n (refused x) h w k carries =
    let (e, he, hk, hi, hc, hp) =
      error_head-Shows f b n x.code (bytes_of x.data_bytes) h w carries in
    (
      e,
      process_frame-event opts p f e k he ∙ rw (hk, process_event) (rw (hi, process_event) refl),
      end_call-error c n x.code (bytes_of x.data_bytes) e hk hc hp,
    )

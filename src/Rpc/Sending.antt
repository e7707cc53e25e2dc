-- ===== src/Rpc/Sending.antt =====
-- src/rpc.rs: `notify`, `call0` and `call` of `RpcClient`, over any client.
pub mod Settles
use elbus.Base.{ℕ, Bytes, Option, none, some, ◌⊎◌}
use elbus.Proto.{Result, ok, err, error_timeout, QoS}
use elbus.Stream.{Outcome, done, failed, waits}
use elbus.Client.{AsyncClient}
use elbus.Ipc.{remove_id}
use elbus.Rpc.Event.{RpcEvent}
use elbus.Rpc.Client.{
  RpcClient, RpcError, notification_head, call0_head, begin_call, send_failed, channel_closed,
  answered, end_call,
}

-- `tokio::time::timeout`, if the client has a timeout
unfoldable pub within {ℓ} : {B : Type ℓ} → Option ℕ → Outcome B → Outcome B
within none o = o
within (some t) (done b) = done b
within (some t) (failed e) = failed e
within (some t) waits = failed error_timeout

-- either of the two results that `unwrap_or_cancel!` takes apart
unfoldable pub flat : Outcome (Result (Unit {0})) → Outcome (Unit {0})
flat (done (ok u)) = done u
flat (done (err e)) = failed e
flat (failed e) = failed e
flat waits = waits

module _ (C : AsyncClient) where
  abbrev pub notify : Bytes → Bytes → QoS → C.State → Outcome (Result (Option C.Receiver)) × C.State
  notify target payload qos s = C.zc_send target notification_head payload qos s

  abbrev pub call0 :
      Bytes → Bytes → Bytes → QoS → C.State → Outcome (Result (Option C.Receiver)) × C.State
  call0 target method params qos s = C.zc_send target (call0_head method) params qos s

  -- What the frame of a call comes to: it is sent, and confirmed if there is a confirmation, whose
  -- outcome `confirm` gives.
  unfoldable pub sending :
      (C.Receiver → Outcome (Result (Unit {0})))
      → Outcome (Result (Option C.Receiver))
      → Outcome (Unit {0})
  unfolding flat
  sending confirm (done (ok none)) = done tt
  sending confirm (done (ok (some r))) = flat (confirm r)
  sending confirm (done (err e)) = failed e
  sending confirm (failed e) = failed e
  sending confirm waits = waits

  -- the answer that comes in on the channel of a call, whose entry the processor takes out of the
  -- map for that, or the end of that channel
  unfoldable pub receiving :
      RpcClient → ℕ → Outcome (Option RpcEvent) → Outcome (Option (RpcEvent ⊎ RpcError)) × RpcClient
  unfolding end_call
  receiving c id (done none) = let r = end_call c id channel_closed in (done r.0, r.1)
  receiving c id (done (some e)) =
      let r = end_call (record c { calls = remove_id id c.calls }) id (answered e) in
      (done r.0, r.1)
  receiving c id (failed e) = let r = end_call c id channel_closed in (done r.0, r.1)
  receiving c id waits = (waits, c)

  -- the rest of a call, once its frame has been dealt with
  unfoldable pub settled :
      RpcClient
      → ℕ
      → Outcome (Option RpcEvent)
      → Outcome (Unit {0})
      → Outcome (Option (RpcEvent ⊎ RpcError)) × RpcClient
  unfolding receiving end_call
  settled c id answer (done u) = receiving c id answer
  settled c id answer (failed e) = let r = end_call c id (send_failed e) in (done r.0, r.1)
  settled c id answer waits = (waits, c)

  unfoldable pub call :
      (C.Receiver → Outcome (Result (Unit {0})))
      → Outcome (Option RpcEvent)
      → Option ℕ
      → RpcClient
      → Bytes
      → Bytes
      → Bytes
      → QoS
      → C.State
      → (Outcome (Option (RpcEvent ⊎ RpcError)) × RpcClient) × C.State
  unfolding settled sending within begin_call
  call confirm answer timeout c target method params qos s =
      let ((id, head), begun) = begin_call c method in
      let (sent, after) = C.zc_send target head params qos s in
      (settled begun id answer (sending confirm (within timeout sent)), after)

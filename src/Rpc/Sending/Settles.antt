-- ===== src/Rpc/Sending/Settles.antt =====
-- src/rpc.rs, `call`: what is left of a call in the map of calls.
use elbus.Base.{ℕ, ◌≡◌, Bool, true, false, Option, none, some, ◌⊎◌, inl, inr, if◌then◌else◌, ◌==◌}
use elbus.Proto.{Result, ok, err, error_eof}
use elbus.Stream.{Outcome, done, failed, waits}
use elbus.Ipc.{has_id}
use elbus.Rpc.Event.{RpcEvent}
use elbus.Rpc.Client.{RpcClient, RpcError, rpc_error_of_event, rpc_error_of_error}

-- The ids that wait are those from before, but for one.
abbrev pub AllBut : ℕ → Bool → RpcClient → RpcClient → Type 0
AllBut id waiting before after =
    (n : ℕ) → has_id n after.calls ≡ (if id == n then waiting else has_id n before.calls)

-- The answer is a reply, which is the result, or an error reply, whose error is.
abbrev pub Answers : RpcEvent → Option (RpcEvent ⊎ RpcError) → Type 0
Answers event result = (o : Option (Result RpcError)) × (rpc_error_of_event event ≡ o) × elim o [
  | none ↦ result ≡ none
  | some r ↦ elim r [ ok error ↦ result ≡ some (inr error) | err e ↦ result ≡ some (inl event) ]
]

-- How a call goes on whose frame was sent: it ends with its answer, and its id is free; or it ends with
-- an error, since another call has taken over its id, which closes its channel; or it waits under its id.
abbrev pub Receives :
    RpcClient
    → ℕ
    → Outcome (Option RpcEvent)
    → Outcome (Option (RpcEvent ⊎ RpcError)) × RpcClient
    → Type 0
Receives c id (done (some event)) (r, after) =
    ((result : Option (RpcEvent ⊎ RpcError)) × (r ≡ done result) × Answers event result)
    × AllBut id false c after
Receives c id (done none) (r, after) =
    (r ≡ done (some (inr (rpc_error_of_error error_eof)))) × AllBut id true c after
Receives c id (failed e) (r, after) =
    (r ≡ done (some (inr (rpc_error_of_error error_eof)))) × AllBut id true c after
Receives c id waits (r, after) = (r ≡ waits) × AllBut id true c after

-- How the map of calls and the result of a call go with what its frame has come to: a call that could
-- not be sent, or was not confirmed, ends with that error, and its id is free again; a call that was
-- sent goes on with its answer; and one whose frame is still on its way waits under its id. Other calls
-- wait as before.
abbrev pub Settles :
    RpcClient
    → ℕ
    → Outcome (Option RpcEvent)
    → Outcome (Unit {0})
    → Outcome (Option (RpcEvent ⊎ RpcError)) × RpcClient
    → Type 0
Settles c id answer (done u) o = Receives c id answer o
Settles c id answer (failed e) (r, after) =
    (r ≡ done (some (inr (rpc_error_of_error e)))) × AllBut id false c after
Settles c id answer waits (r, after) = (r ≡ waits) × AllBut id true c after

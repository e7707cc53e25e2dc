-- ===== src/Rpc/Client.antt =====
-- src/rpc.rs: options, error values, the heads of RPC frames, and how `RpcClient` makes a call.
use elbus.Base.{
  ℕ, ◌+◌, ◌-◌, ◌^◌, ◌==◌, Bool, true, false, Bytes, List, [], ◌∷◌, ◌++◌, Option, none, some,
  if◌then◌else◌, ◌⊎◌, inl, inr, u16_to_le_bytes, u32_to_le_bytes,
}
use elbus.Proto.{Result, ok, err, Error, error_data, error_eof, literal, kind_code}
use elbus.Ipc.{u32_max, insert_id, remove_id}
use elbus.Rpc.Event.{
  RpcEvent, rpc_notification, rpc_request, rpc_reply, rpc_error, is_error_reply, code,
  event_payload,
}

-- The five codes are negative `i16` numbers, held as their 16 bits.
abbrev pub negative : ℕ → ℕ
negative n = 2 ^ 16 - n

abbrev pub rpc_error_code_parse : ℕ
rpc_error_code_parse = negative 32700

abbrev pub rpc_error_code_invalid_request : ℕ
rpc_error_code_invalid_request = negative 32600

abbrev pub rpc_error_code_method_not_found : ℕ
rpc_error_code_method_not_found = negative 32601

abbrev pub rpc_error_code_invalid_method_params : ℕ
rpc_error_code_invalid_method_params = negative 32602

abbrev pub rpc_error_code_internal : ℕ
rpc_error_code_internal = negative 32603

pub record Options : Type 0 where
  pub blocking_notifications : Bool
  pub blocking_frames : Bool

abbrev pub options_new : Options
options_new = record { blocking_notifications = false; blocking_frames = false }

abbrev pub blocking_notifications : Options → Options
blocking_notifications o = record o { blocking_notifications = true }

abbrev pub blocking_frames : Options → Options
blocking_frames o = record o { blocking_frames = true }

pub record RpcError : Type 0 where
  pub code : ℕ
  pub data_bytes : Option Bytes

abbrev pub rpc_error_new : ℕ → Option Bytes → RpcError
rpc_error_new code data_bytes = record { code = code; data_bytes = data_bytes }

-- `RpcError::method`, `params`, `parse`, `invalid` and `internal`
abbrev pub method_error : Option Bytes → RpcError
method_error = rpc_error_new rpc_error_code_method_not_found

abbrev pub params_error : Option Bytes → RpcError
params_error = rpc_error_new rpc_error_code_invalid_method_params

abbrev pub parse_error : Option Bytes → RpcError
parse_error = rpc_error_new rpc_error_code_parse

abbrev pub invalid_error : Option Bytes → RpcError
invalid_error = rpc_error_new rpc_error_code_invalid_request

abbrev pub internal_error : Option Bytes → RpcError
internal_error = rpc_error_new rpc_error_code_internal

-- `From<Error>`: -32000 less the code of the kind
unfoldable pub rpc_error_of_error : Error → RpcError
unfolding kind_code
rpc_error_of_error e = rpc_error_new (negative (32000 + kind_code e.kind)) none

unfoldable pub with_data : Option ℕ → Option Bytes → Option (Result RpcError)
with_data (some c) (some p) = some (ok (rpc_error_new c (some p)))
with_data (some c) none = none
with_data none p = none

-- `From` the errors of the encoder, of the standard library and of the decoder, by their texts
abbrev rpc_error_of_encode : Bytes → RpcError
rpc_error_of_encode text = internal_error (some text)

abbrev rpc_error_of_io : Bytes → RpcError
rpc_error_of_io text = internal_error (some text)

abbrev rpc_error_of_decode : Bytes → RpcError
rpc_error_of_decode text = parse_error (some text)

-- `TryFrom<&RpcEvent>`; `none` where reading the event panics
unfoldable pub rpc_error_of_event : RpcEvent → Option (Result RpcError)
unfolding code event_payload with_data
rpc_error_of_event e =
    if is_error_reply e.kind
    then with_data (code e) (event_payload e)
    else some (err (error_data (literal "not a RPC error")))

unfoldable pub prepare_call_payload : Bytes → Bytes → Bytes
prepare_call_payload method id_bytes = rpc_request ∷ (id_bytes ++ (method ++ (0x00 ∷ [])))

-- the heads of the other frames: `notify`, and the two answers that the processor sends
abbrev pub notification_head : Bytes
notification_head = rpc_notification ∷ []

abbrev pub reply_head : ℕ → Bytes
reply_head id = rpc_reply ∷ u32_to_le_bytes id

abbrev pub error_head : ℕ → ℕ → Bytes
error_head id code = rpc_error ∷ (u32_to_le_bytes id ++ u16_to_le_bytes code)

-- `call0`: no answer is wanted, which is the id 0
abbrev pub call0_head : Bytes → Bytes
call0_head method = prepare_call_payload method (0 ∷ 0 ∷ 0 ∷ 0 ∷ [])

unfoldable pub next_call_id : ℕ → ℕ
next_call_id call_id = if call_id == u32_max then 1 else call_id + 1

-- `calls` holds the ids of the calls that wait for their answer.
pub record RpcClient : Type 0 where
  pub call_id : ℕ
  pub calls : List ℕ

-- `call`, up to the frame that it sends: its head and its id
unfoldable pub begin_call : RpcClient → Bytes → (ℕ × Bytes) × RpcClient
unfolding next_call_id prepare_call_payload
begin_call c method =
    let call_id = next_call_id c.call_id in
    (
      (call_id, prepare_call_payload method (u32_to_le_bytes call_id)),
      record { call_id = call_id; calls = insert_id call_id c.calls },
    )

-- How the rest of a call goes: sending the frame, or its acknowledgement, fails or runs into the
-- timeout; the answer's channel is closed; or the answer arrives.
pub data CallEnd : Type 0 where
  send_failed : Error → CallEnd
  channel_closed : CallEnd
  answered : RpcEvent → CallEnd

unfoldable pub result_of_event : RpcEvent → Option (Result RpcError) → Option (RpcEvent ⊎ RpcError)
result_of_event e none = none
result_of_event e (some (ok error)) = some (inr error)
result_of_event e (some (err _)) = some (inl e)

unfoldable pub end_call : RpcClient → ℕ → CallEnd → Option (RpcEvent ⊎ RpcError) × RpcClient
unfolding rpc_error_of_event rpc_error_of_error result_of_event
end_call c call_id (send_failed e) =
    (some (inr (rpc_error_of_error e)), record c { calls = remove_id call_id c.calls })
end_call c call_id channel_closed = (some (inr (rpc_error_of_error error_eof)), c)
end_call c call_id (answered e) = (result_of_event e (rpc_error_of_event e), c)

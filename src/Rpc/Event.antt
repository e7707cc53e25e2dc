-- ===== src/Rpc/Event.antt =====
-- src/rpc.rs: `RpcEvent` and what it reads in its frame. A slice out of range panics, which is `none`.
use elbus.Base.{
  ℕ, ◌+◌, ◌-◌, Bool, true, false, Bytes, [], ◌∷◌, Option, none, some, option_map, option_bind, ltb,
  leb, ◌==◌, ◌&&◌, if◌then◌else◌, length, take, drop, split_zero, from_le_bytes, not,
}
use elbus.Proto.{Result, ok, err, error_data, literal, with_number, FrameData, payload, slice_from}
use elbus.Stream.{from_utf8}

abbrev pub rpc_notification : ℕ
rpc_notification = 0x00

abbrev pub rpc_request : ℕ
rpc_request = 0x01

abbrev pub rpc_reply : ℕ
rpc_reply = 0x11

abbrev pub rpc_error : ℕ
rpc_error = 0x12

pub data RpcEventKind : Type 0 where
  notification request reply error_reply : RpcEventKind

unfoldable pub is_error_reply : RpcEventKind → Bool
is_error_reply notification = false
is_error_reply request = false
is_error_reply reply = false
is_error_reply error_reply = true

pub record RpcEvent : Type 0 where
  pub kind : RpcEventKind
  pub frame : FrameData
  pub payload_pos : ℕ
  pub use_header : Bool

-- `bytes[from..to]`
unfoldable pub slice : ℕ → ℕ → Bytes → Option Bytes
slice from to bytes =
    if leb from to && leb to (length bytes) then some (take (to - from) (drop from bytes)) else none

abbrev pub invalid : Result RpcEvent
invalid = err (error_data (literal "Invalid RPC frame"))

abbrev pub event : RpcEventKind → FrameData → ℕ → Bool → RpcEvent
event kind frame payload_pos use_header = record {
  kind = kind;
  frame = frame;
  payload_pos = payload_pos;
  use_header = use_header;
}

-- the position of the payload behind a method that ends with a zero byte
method_end : FrameData → Bytes × Option Bytes → Result RpcEvent
method_end frame (method, none) = err (error_data (literal "No RPC params block"))
method_end frame (method, some rest) = ok (event request frame (6 + length method) false)

-- the `match` on the first byte of a body that is not empty
unfoldable pub event_of_body : FrameData → Bytes → Bool → ℕ → Result RpcEvent
unfolding method_end
event_of_body frame body use_header code =
    if code == rpc_notification
    then ok (event notification frame (if use_header then 0 else 1) false)
    else if code == rpc_request
    then if ltb (length body) 6
      then invalid
      else if use_header
      then ok (event request frame 0 true)
      else method_end frame (split_zero (drop 5 body))
    else if code == rpc_reply
    then if ltb (length body) 5
      then invalid
      else ok (event reply frame (if use_header then 0 else 5) use_header)
    else if code == rpc_error
    then if ltb (length body) 7
      then invalid
      else ok (event error_reply frame (if use_header then 0 else 7) use_header)
    else err (error_data (with_number "Unsupported RPC frame code " code))

parse : FrameData → Bytes → Bool → Result RpcEvent
unfolding event_of_body
parse frame [] use_header = err (error_data (literal "Empty RPC frame"))
parse frame (code ∷ rest) use_header = event_of_body frame (code ∷ rest) use_header code

-- the body is the frame's header, or else its payload
unfoldable pub event_of_parts : FrameData → Option Bytes → Option Bytes → Option (Result RpcEvent)
unfolding parse
event_of_parts frame (some h) p = some (parse frame h true)
event_of_parts frame none (some p) = some (parse frame p false)
event_of_parts frame none none = none

-- `TryFrom<Frame>`
unfoldable pub event_of_frame : FrameData → Option (Result RpcEvent)
unfolding event_of_parts
event_of_frame frame = event_of_parts frame frame.header (payload frame)

-- the bytes that hold the event's head
unfoldable pub head : RpcEvent → Option Bytes
head e = if e.use_header then e.frame.header else payload e.frame

unfoldable pub event_payload : RpcEvent → Option Bytes
event_payload e = option_bind (payload e.frame) (slice_from e.payload_pos)

unfoldable pub id : RpcEvent → Option ℕ
id e = option_map from_le_bytes (option_bind (head e) (slice 1 5))

unfoldable pub is_response_required : RpcEvent → Option Bool
unfolding id
is_response_required e = option_map (λ (n : ℕ). not (n == 0)) (id e)

unfoldable pub method : RpcEvent → Option Bytes
method e =
    if e.use_header
    then option_bind e.frame.header (λ h. slice 5 (length h - 1) h)
    else option_bind (payload e.frame) (slice 5 (e.payload_pos - 1))

unfoldable pub parse_method : RpcEvent → Option (Result Bytes)
unfolding method
parse_method e = option_map from_utf8 (method e)

-- A code is an `i16`, held as its 16 bits.
unfoldable pub code : RpcEvent → Option ℕ
code e =
    if is_error_reply e.kind
    then option_map from_le_bytes (option_bind (head e) (slice 5 7))
    else some 0

-- ===== src/Broker/Request.antt =====
-- src/broker.rs, `Broker::handle_reader`: what the loop reads from the socket before it acts.
use Prim.Native.Nat.{min}
use elbus.Base.{
  ℕ, zero, suc, Bool, ◌+◌, ◌-◌, ◌/◌, Bytes, Option, none, some, [], ◌∷◌, ◌++◌, length, take, drop,
  ltb, ◌==◌, if◌then◌else◌, bit_and, from_le_bytes, split_zero,
}
use elbus.Proto.{
  FrameOp, FrameKind, FrameData, op_ack, QoS, op_of_code, qos_of_code, Result, ok, err, error_data,
  literal,
}
use elbus.Proto
use elbus.Stream.{
  Stream, closed, silent, Outcome, done, waits, ◌>>=◌, from_result, with_timeout, advance,
  read_exact, from_utf8,
}

pub record Request : Type 0 where
  pub op_id : Bytes
  pub op : FrameOp
  pub qos : QoS
  pub buf : Bytes

pub data Incoming : Type 0 where
  hangup ping : Incoming
  request : Request → Incoming

-- `reader.read` returns at least one byte where there is one, and at most nine: `ready` more than
-- one have come in. The rest of the nine is read with a timeout.
unfoldable pub read_header : ℕ → Stream → Outcome (Option (Bytes × Stream))
unfolding read_exact
read_header ready s =
    let r_len = min (suc ready) (min 9 (length s.bytes)) in
    elim s.bytes [
      | [] ↦ elim s.ending [ closed ↦ done none | silent ↦ waits ]
      | _ ∷ _ ↦
          if ltb r_len 9
          then (do
            (rest, s') ← with_timeout (read_exact (9 - r_len) (advance r_len s))
            done (some (take r_len s.bytes ++ rest, s')))
          else done (some (take 9 s.bytes, advance 9 s))
    ]

abbrev pub index : Bytes → ℕ → ℕ
index [] i = 0
index (b ∷ bs) zero = b
index (b ∷ bs) (suc i) = index bs i

-- the nine bytes of the header, and then the body
unfoldable pub read_body : Bytes → Stream → Outcome (Incoming × Stream)
unfolding read_exact
read_body buf s =
    let flags = index buf 4 in
    if flags == 0 then done (ping, s) else do
      op ← from_result (op_of_code (bit_and flags 0b0011_1111))
      qos ← from_result (qos_of_code (bit_and (flags / 64) 0b0011_1111))
      (body, s') ← with_timeout (read_exact (from_le_bytes (take 4 (drop 5 buf))) s)
      done (request (record { op_id = take 4 buf; op = op; qos = qos; buf = body }), s')

unfoldable pub read_request : ℕ → Stream → Outcome (Incoming × Stream)
unfolding read_header read_body
read_request ready s = do
  header ← read_header ready s
  elim header [ none ↦ done (hangup, s) | some (buf, s') ↦ read_body buf s' ]

-- The target and the position of the payload, for a message, a broadcast or a publication.
unfoldable pub parse_target : Bytes → Result (Bytes × ℕ)
unfolding split_zero from_utf8
parse_target buf =
    let (tgt, rest) = split_zero buf in
    Proto.◌>>=◌ (from_utf8 tgt) λ target. elim rest [
      | none ↦ err (error_data (literal "broken frame"))
      | some _ ↦ ok (target, length tgt + 1)
    ]

-- the frame that `send_ack!` puts into the client's own queue
abbrev pub ack_frame : Bytes → ℕ → Bool → FrameData
ack_frame op_id code realtime = record {
  kind = FrameKind.prepared;
  sender = none;
  topic = none;
  header = none;
  buf = op_ack ∷ (op_id ++ (code ∷ []));
  payload_pos = 0;
  realtime = realtime;
}

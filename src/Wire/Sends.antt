-- ===== src/Wire/Sends.antt =====
-- Each sending operation of src/ipc.rs, up to the request that src/broker.rs makes of it.
use elbus.Base.{
  ℕ, ◌+◌, ◌^◌, ◌<◌, ◌≡◌, ◌≢◌, refl, sym, arith, true, Bytes, [], ◌∷◌, ◌++◌, length, drop,
  valid_utf8, NoZero, split_zero-append, length-append, append_assoc, append-nil, Bool-cases, inl,
  inr, u32_to_le_bytes, drop-behind,
}
use elbus.Proto.{ok, FrameOp, QoS, needs_ack}
use elbus.Comm.{written_bytes, written_bytes-append}
use elbus.Broker.Request.{parse_target}
use elbus.Ipc.{Client, increment_frame_id, next_frame_id}
use elbus.Ipc.Send.{
  frame_prefix, send_frame_and_confirm, send_to, send_with_header, send_plain, in_time,
}
use elbus.Wire.Requests.{Arrives, frame-Arrives, frame_header}

ruleset wire_laws = (written_bytes-append, append_assoc, append-nil)

-- With both writes in time, the two chunks are written, in this order.
module _ (c : Client) (buf payload : Bytes) (qos : QoS) where
  abbrev after : Client
  after = (send_frame_and_confirm c buf payload qos in_time in_time).1

  written-send_frame_and_confirm :
      written_bytes after.written ≡ written_bytes c.written ++ (buf ++ payload)
  unfolding send_frame_and_confirm
  written-send_frame_and_confirm = elim (Bool-cases (needs_ack qos)) [
    | inl h ↦ rw (h, send_frame_and_confirm) (simp wire_laws)
    | inr h ↦ rw (h, send_frame_and_confirm) (simp wire_laws)
  ]

  frame_id-send_frame_and_confirm : after.frame_id ≡ c.frame_id
  unfolding send_frame_and_confirm
  frame_id-send_frame_and_confirm = ground arith

-- A frame whose two chunks together are a header and a body arrives as that body.
send-Arrives :
    (c : Client) (op : FrameOp) (qos : QoS) (buf payload body : Bytes)
    → op ≢ FrameOp.nop
    → length body < 2 ^ 32
    → buf ++ payload ≡ frame_header (next_frame_id c.frame_id) op qos (length body) ++ body
    → Arrives c (after (increment_frame_id c) buf payload qos) op qos body
send-Arrives c op qos buf payload body ne h eq =
    frame-Arrives c (after c₁ buf payload qos) op qos buf payload body ne h
      (written-send_frame_and_confirm c₁ buf payload qos)
      (rw (frame_id-send_frame_and_confirm c₁ buf payload qos) eq)
  where
    c₁ : Client
    c₁ = increment_frame_id c

targeted_frame :
    (id : ℕ) (op : FrameOp) (qos : QoS) (target header payload : Bytes) (len : ℕ)
    → len ≡ length (target ++ (0 ∷ (header ++ payload)))
    → (frame_prefix id op qos ++ (u32_to_le_bytes len ++ (target ++ (0 ∷ header)))) ++ payload
      ≡ frame_header id op qos (length (target ++ (0 ∷ (header ++ payload))))
        ++ (target ++ (0 ∷ (header ++ payload)))
unfolding frame_prefix
targeted_frame id op qos target header payload len e = rw (← e) (simp append_assoc)

-- What the broker takes for target and payload.
abbrev pub Reads : Bytes → Bytes → Bytes → Type 0
Reads body target payload =
    (parse_target body ≡ ok (target, length target + 1)) × (drop (length target + 1) body ≡ payload)

pub Reads-target :
    (target payload : Bytes)
    → valid_utf8 target ≡ true
    → NoZero target
    → Reads (target ++ (0 ∷ payload)) target payload
unfolding parse_target
Reads-target target payload v z =
    (ground (arith, split_zero-append target payload z, v), drop-behind target payload 0)

module _ (c : Client) (target header payload : Bytes) (op : FrameOp) (qos : QoS) where
  -- The body of a frame with a target: the target, a zero byte, the header and the payload.
  abbrev body : Bytes
  body = target ++ (0 ∷ (header ++ payload))

  length-body : length body ≡ length target + length payload + length header + 1
  length-body =
      omega (arith, length-append target (0 ∷ (header ++ payload)), length-append header payload)

  -- `send`, `send_broadcast`, `publish`: if both writes go through, the broker reads a request with
  -- the client's new frame id, the operation, the QoS level, the target and the payload that were
  -- given, for a target that is text with no zero byte and a body of less than 2^32 bytes.
  pub send_to-Arrives :
      op ≢ FrameOp.nop
      → valid_utf8 target ≡ true
      → NoZero target
      → length target + length payload + 1 < 2 ^ 32
      → Arrives c
          (send_to c target payload op qos in_time in_time).1
          op
          qos
          (target ++ (0 ∷ payload))
        × Reads (target ++ (0 ∷ payload)) target payload
  unfolding send_to
  send_to-Arrives ne v z h = (
    send-Arrives c op qos _ payload (target ++ (0 ∷ payload)) ne
        (omega (arith, length-append target (0 ∷ payload)))
        (targeted_frame (next_frame_id c.frame_id) op qos target [] payload _
          (omega (arith, length-append target (0 ∷ payload)))),
    Reads-target target payload v z,
  )

  -- `zc_send`: the same, where the payload that the broker reads is the header with the payload
  -- behind it.
  pub send_with_header-Arrives :
      op ≢ FrameOp.nop
      → valid_utf8 target ≡ true
      → NoZero target
      → length target + length payload + length header + 1 < 2 ^ 32
      → Arrives c (send_with_header c target header payload op qos in_time in_time).1 op qos body
        × Reads body target (header ++ payload)
  unfolding send_with_header
  send_with_header-Arrives ne v z h = (
    send-Arrives c op qos _ payload body ne (omega (arith, length-body)) (
        targeted_frame (next_frame_id c.frame_id) op qos target header payload _ (sym length-body)),
    Reads-target target (header ++ payload) v z,
  )

-- `subscribe`, `unsubscribe` and their bulk forms: if both writes go through, the broker reads a
-- request with the payload as its body, for a payload of less than 2^32 bytes.
send_plain-Arrives :
    (c : Client) (payload : Bytes) (op : FrameOp) (qos : QoS)
    → op ≢ FrameOp.nop
    → length payload < 2 ^ 32
    → Arrives c (send_plain c payload op qos in_time in_time).1 op qos payload
unfolding send_plain frame_prefix
send_plain-Arrives c payload op qos ne h = send-Arrives c op qos _ payload payload ne h refl

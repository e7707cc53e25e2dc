-- ===== src/Ipc/Send.antt =====
-- src/ipc.rs: what `Client` writes for each operation of `AsyncClient`.
use elbus.Base.{
  ℕ, ◌+◌, ◌*◌, Bool, false, Bytes, List, [], ◌∷◌, ◌++◌, Option, none, some, length, if◌then◌else◌,
  bit_or, u32_to_le_bytes,
}
use elbus.Proto.{
  Error, error_of_io, error_timeout, Result, ok, err, FrameOp, message, broadcast, publish_topic,
  subscribe_topic, unsubscribe_topic, op_code, QoS, qos_code, needs_ack, is_realtime,
}
use elbus.Comm.{Flush, no_flush, instant, write, flush_of_realtime}
use elbus.Ipc.Defs.{Client, increment_frame_id, insert_id}

-- How a `write` on the socket ends; the flag tells a broken connection from other I/O errors.
pub data Written : Type 0 where
  in_time : Written
  io_failed : Bool → Written
  timed_out : Written

-- `send_data_or_mark_disconnected!`: the error that it returns, if any.
unfoldable pub send_data : Client → Bytes → Flush → Written → Option Error × Client
send_data c chunk flush in_time =
    (none, record c { written = c.written ++ (write chunk flush ∷ []) })
send_data c chunk flush (io_failed b) =
    (some (error_of_io b), record c { reading = false; connected = false })
send_data c chunk flush timed_out = (some error_timeout, c)

-- `OpConfirm`: the id of the frame whose acknowledgement the receiver gets.
abbrev pub Confirm : Type 0
Confirm = Option ℕ

unfoldable pub finish : Confirm → Option Error × Client → Result Confirm × Client
finish rx (none, c) = (ok rx, c)
finish rx (some e, c) = (err e, c)

-- the second write is made only if the first has gone through
unfoldable pub then_send :
    Confirm → Bytes → Flush → Written → Option Error × Client → Result Confirm × Client
unfolding finish send_data
then_send rx chunk flush w (none, c) = finish rx (send_data c chunk flush w)
then_send rx chunk flush w (some e, c) = (err e, c)

-- `send_frame_and_confirm!`
unfoldable pub send_frame_and_confirm :
    Client → Bytes → Bytes → QoS → Written → Written → Result Confirm × Client
unfolding then_send needs_ack is_realtime flush_of_realtime
send_frame_and_confirm c buf payload qos w₁ w₂ =
    let rx = if needs_ack qos then some c.frame_id else none in
    let c₁ =
      if needs_ack qos then record c { responses = insert_id c.frame_id c.responses } else c in
    then_send rx payload (flush_of_realtime (is_realtime qos)) w₂ (send_data c₁ buf no_flush w₁)

-- `prepare_frame_buf!`, after the id has been incremented
unfoldable pub frame_prefix : ℕ → FrameOp → QoS → Bytes
frame_prefix frame_id op qos =
    u32_to_le_bytes frame_id ++ (bit_or (op_code op) (qos_code qos * 64) ∷ [])

-- The three arms of `send_frame!`: with a target, with a target and a header, and with neither.
unfoldable pub send_to :
    Client → Bytes → Bytes → FrameOp → QoS → Written → Written → Result Confirm × Client
unfolding send_frame_and_confirm frame_prefix
send_to c target payload op qos w₁ w₂ =
    let c₁ = increment_frame_id c in
    let buf =
      frame_prefix c₁.frame_id op qos
      ++ (u32_to_le_bytes (length target + length payload + 1) ++ (target ++ (0 ∷ []))) in
    send_frame_and_confirm c₁ buf payload qos w₁ w₂

unfoldable pub send_with_header :
    Client → Bytes → Bytes → Bytes → FrameOp → QoS → Written → Written → Result Confirm × Client
unfolding send_frame_and_confirm frame_prefix
send_with_header c target header payload op qos w₁ w₂ =
    let c₁ = increment_frame_id c in
    let buf =
      frame_prefix c₁.frame_id op qos
      ++ (u32_to_le_bytes (length target + length payload + length header + 1)
          ++ (target ++ (0 ∷ header))) in
    send_frame_and_confirm c₁ buf payload qos w₁ w₂

unfoldable pub send_plain :
    Client → Bytes → FrameOp → QoS → Written → Written → Result Confirm × Client
unfolding send_frame_and_confirm frame_prefix
send_plain c payload op qos w₁ w₂ =
    let c₁ = increment_frame_id c in
    let buf = frame_prefix c₁.frame_id op qos ++ u32_to_le_bytes (length payload) in
    send_frame_and_confirm c₁ buf payload qos w₁ w₂

-- The topics with a zero byte between them.
join_from : Bytes → List Bytes → Bytes
join_from payload [] = payload
join_from payload (topic ∷ topics) =
    join_from (elim payload [ [] ↦ topic | b ∷ bs ↦ (b ∷ bs) ++ (0 ∷ topic) ]) topics

unfoldable pub join_topics : List Bytes → Bytes
unfolding join_from
join_topics topics = join_from [] topics

-- `impl AsyncClient for Client`
abbrev pub send : Client → Bytes → Bytes → QoS → Written → Written → Result Confirm × Client
send c target payload = send_to c target payload message

abbrev pub zc_send :
    Client → Bytes → Bytes → Bytes → QoS → Written → Written → Result Confirm × Client
zc_send c target header payload = send_with_header c target header payload message

abbrev pub send_broadcast :
    Client → Bytes → Bytes → QoS → Written → Written → Result Confirm × Client
send_broadcast c target payload = send_to c target payload broadcast

abbrev pub publish : Client → Bytes → Bytes → QoS → Written → Written → Result Confirm × Client
publish c target payload = send_to c target payload publish_topic

abbrev pub subscribe : Client → Bytes → QoS → Written → Written → Result Confirm × Client
subscribe c topic = send_plain c topic subscribe_topic

abbrev pub unsubscribe : Client → Bytes → QoS → Written → Written → Result Confirm × Client
unsubscribe c topic = send_plain c topic unsubscribe_topic

abbrev pub subscribe_bulk : Client → List Bytes → QoS → Written → Written → Result Confirm × Client
subscribe_bulk c topics = send_plain c (join_topics topics) subscribe_topic

abbrev pub unsubscribe_bulk :
    Client → List Bytes → QoS → Written → Written → Result Confirm × Client
unsubscribe_bulk c topics = send_plain c (join_topics topics) unsubscribe_topic

abbrev pub ping_frame : Bytes
ping_frame = 0 ∷ 0 ∷ 0 ∷ 0 ∷ 0 ∷ 0 ∷ 0 ∷ 0 ∷ 0 ∷ []

ping_result : Option Error × Client → Result (Unit {0}) × Client
ping_result (none, c) = (ok tt, c)
ping_result (some e, c) = (err e, c)

unfoldable pub ping : Client → Written → Result (Unit {0}) × Client
unfolding ping_result send_data
ping c w = ping_result (send_data c ping_frame instant w)

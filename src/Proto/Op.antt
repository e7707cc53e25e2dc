-- ===== src/Proto/Op.antt =====
-- src/lib.rs: `FrameOp`, `QoS`, `FrameKind`, with the codes that they have on the wire.
use elbus.Base.{ℕ, Bool, not, ◌==◌, if◌then◌else◌, bit_and}
use elbus.Proto.Errors.{Result, ok, err, error_data, with_number}

abbrev pub op_nop : ℕ
op_nop = 0x00

abbrev pub op_publish : ℕ
op_publish = 0x01

abbrev pub op_subscribe : ℕ
op_subscribe = 0x02

abbrev pub op_unsubscribe : ℕ
op_unsubscribe = 0x03

abbrev pub op_message : ℕ
op_message = 0x12

abbrev pub op_broadcast : ℕ
op_broadcast = 0x13

abbrev pub op_ack : ℕ
op_ack = 0xfe

pub data FrameOp : Type 0 where
  nop message broadcast publish_topic subscribe_topic unsubscribe_topic : FrameOp

-- `op as u8`
unfoldable pub op_code : FrameOp → ℕ
op_code nop = op_nop
op_code message = op_message
op_code broadcast = op_broadcast
op_code publish_topic = op_publish
op_code subscribe_topic = op_subscribe
op_code unsubscribe_topic = op_unsubscribe

unfoldable pub op_of_code : ℕ → Result FrameOp
op_of_code tp =
    if tp == op_nop
    then ok nop
    else if tp == op_message
    then ok message
    else if tp == op_broadcast
    then ok broadcast
    else if tp == op_publish
    then ok publish_topic
    else if tp == op_subscribe
    then ok subscribe_topic
    else if tp == op_unsubscribe
    then ok unsubscribe_topic
    else err (error_data (with_number "Invalid frame type: " tp))

-- `no_confirm` is the source's `No`.
pub data QoS : Type 0 where
  no_confirm processed realtime realtime_processed : QoS

unfoldable pub qos_code : QoS → ℕ
qos_code no_confirm = 0
qos_code processed = 1
qos_code realtime = 2
qos_code realtime_processed = 3

unfoldable pub is_realtime : QoS → Bool
unfolding qos_code
is_realtime q = not (bit_and (qos_code q) 0b10 == 0)

unfoldable pub needs_ack : QoS → Bool
unfolding qos_code
needs_ack q = not (bit_and (qos_code q) 0b1 == 0)

unfoldable pub qos_of_code : ℕ → Result QoS
qos_of_code q =
    if q == 0
    then ok no_confirm
    else if q == 1
    then ok processed
    else if q == 2
    then ok realtime
    else if q == 3
    then ok realtime_processed
    else err (error_data (with_number "Invalid QoS: " q))

pub data FrameKind : Type 0 where
  prepared message broadcast publish acknowledge nop : FrameKind

unfoldable pub frame_kind_code : FrameKind → ℕ
frame_kind_code FrameKind.prepared = 0xff
frame_kind_code FrameKind.message = op_message
frame_kind_code FrameKind.broadcast = op_broadcast
frame_kind_code FrameKind.publish = op_publish
frame_kind_code FrameKind.acknowledge = op_ack
frame_kind_code FrameKind.nop = op_nop

unfoldable pub frame_kind_of_code : ℕ → Result FrameKind
frame_kind_of_code code =
    if code == op_message
    then ok FrameKind.message
    else if code == op_broadcast
    then ok FrameKind.broadcast
    else if code == op_publish
    then ok FrameKind.publish
    else if code == op_ack
    then ok FrameKind.acknowledge
    else if code == op_nop
    then ok FrameKind.nop
    else err (error_data (with_number "Invalid frame type: " code))

-- ===== src/Proto/Codes.antt =====
-- src/lib.rs: what the numeric codes of errors, operations and kinds keep.
use elbus.Base.{◌==◌, false, ◌*◌, ◌/◌, ◌≡◌, ◌≢◌, ◌↔◌, refl, arith, bit_and, bit_or, ◌<◌}
use elbus.Proto.Errors.{
  ErrorKind, not_registered, not_supported, io, timeout, bad_data, busy, not_delivered, access,
  other, eof, kind_code, kind_of_code, ok,
}
use elbus.Proto.Op.{
  FrameOp, nop, op_code, op_of_code, QoS, no_confirm, processed, realtime, qos_code, qos_of_code,
  FrameKind, frame_kind_code, frame_kind_of_code,
}

-- An error kind is read back from its code exactly if it is neither `Timeout` nor `Eof`.
pub kind_of_code-kind_code :
    (k : ErrorKind) → (kind_of_code (kind_code k) ≡ k) ↔ ((k ≢ timeout) × (k ≢ eof))
unfolding kind_of_code kind_code
kind_of_code-kind_code not_registered = (λ _. (λ e. cc, λ e. cc), λ _. refl)
kind_of_code-kind_code not_supported = (λ _. (λ e. cc, λ e. cc), λ _. refl)
kind_of_code-kind_code io = (λ _. (λ e. cc, λ e. cc), λ _. refl)
kind_of_code-kind_code timeout = (λ e. cc, λ h. absurd (h.0 refl))
kind_of_code-kind_code bad_data = (λ _. (λ e. cc, λ e. cc), λ _. refl)
kind_of_code-kind_code busy = (λ _. (λ e. cc, λ e. cc), λ _. refl)
kind_of_code-kind_code not_delivered = (λ _. (λ e. cc, λ e. cc), λ _. refl)
kind_of_code-kind_code access = (λ _. (λ e. cc, λ e. cc), λ _. refl)
kind_of_code-kind_code other = (λ _. (λ e. cc, λ e. cc), λ _. refl)
kind_of_code-kind_code eof = (λ e. cc, λ h. absurd (h.1 refl))

-- The flags byte of a client's frame, `op | qos << 6`, gives back the operation and the QoS level
-- that it was made from, by the masks and the shift that the broker reads it with.
pub flags_fields :
    (op : FrameOp) (qos : QoS)
    → let flags = bit_or (op_code op) (qos_code qos * 64) in
      (flags < 256)
      × (op_of_code (bit_and flags 0b0011_1111) ≡ ok op)
      × (qos_of_code (bit_and (flags / 64) 0b0011_1111) ≡ ok qos)
unfolding op_code qos_code op_of_code qos_of_code
flags_fields nop no_confirm = (omega arith, refl, refl)
flags_fields _ no_confirm = (omega arith, refl, refl)
flags_fields _ processed = (omega arith, refl, refl)
flags_fields _ realtime = (omega arith, refl, refl)
flags_fields _ _ = (omega arith, refl, refl)

-- The broker takes such a frame for a ping only if its operation is `Nop`.
pub flags-ne-zero :
    (op : FrameOp) (qos : QoS) → op ≢ nop → (bit_or (op_code op) (qos_code qos * 64) == 0) ≡ false
unfolding op_code qos_code
flags-ne-zero nop _ h = absurd (h refl)
flags-ne-zero _ no_confirm h = refl
flags-ne-zero _ processed h = refl
flags-ne-zero _ realtime h = refl
flags-ne-zero _ _ h = refl

-- The code of a frame's kind is read back as that kind, unless the frame is a prepared one, whose
-- code is refused.
pub frame_kind_of_code-frame_kind_code :
    (k : FrameKind) → k ≢ FrameKind.prepared → frame_kind_of_code (frame_kind_code k) ≡ ok k
unfolding frame_kind_of_code frame_kind_code
frame_kind_of_code-frame_kind_code FrameKind.prepared h = absurd (h refl)
frame_kind_of_code-frame_kind_code FrameKind.message h = refl
frame_kind_of_code-frame_kind_code FrameKind.broadcast h = refl
frame_kind_of_code-frame_kind_code FrameKind.publish h = refl
frame_kind_of_code-frame_kind_code FrameKind.acknowledge h = refl
frame_kind_of_code-frame_kind_code FrameKind.nop h = refl

-- ===== src/Broker/Writer.antt =====
-- src/broker.rs, `Broker::handle_writer`: what goes to a client's socket for each frame of its
-- queue. `none` stands for the panic on a payload position behind the end of the buffer.
use elbus.Base.{
  ℕ, ◌+◌, ◌-◌, Bytes, List, [], ◌∷◌, ◌++◌, Option, none, some, length, if◌then◌else◌,
  u32_to_le_bytes,
}
use elbus.Proto.{FrameKind, prepared, frame_kind_code, FrameData, payload}
use elbus.Comm.{Write, write, no_flush, flush_of_realtime}

-- `sender.map_or(0, |v| v.len() + 1)`, and the same for the topic
abbrev pub part_len : Option Bytes → ℕ
part_len none = 0
part_len (some v) = length v + 1

abbrev pub header_len : Option Bytes → ℕ
header_len none = 0
header_len (some h) = length h

-- a sender or a topic, with its zero byte
abbrev pub part_bytes : Option Bytes → Bytes
part_bytes none = []
part_bytes (some v) = v ++ (0 ∷ [])

abbrev pub extra_len : FrameData → ℕ
extra_len f = part_len f.sender + part_len f.topic + header_len f.header

unfoldable pub frame_head : FrameData → Bytes
unfolding frame_kind_code
frame_head f =
    let frame_len = extra_len f + length f.buf - f.payload_pos in
    frame_kind_code f.kind ∷ u32_to_le_bytes frame_len
    ++ ((if f.realtime then 1 else 0) ∷ (part_bytes f.sender ++ part_bytes f.topic))

abbrev pub header_writes : Option Bytes → List Write
header_writes none = []
header_writes (some h) = write h no_flush ∷ []

-- any frame that is not a prepared one
unfoldable pub write_built : FrameData → Option (List Write)
unfolding frame_head payload flush_of_realtime
write_built f = elim (payload f) [
  | none ↦ none
  | some p ↦ some (
      write (frame_head f) no_flush
      ∷ (header_writes f.header ++ (write p (flush_of_realtime f.realtime) ∷ [])))
]

unfoldable write_kind : FrameKind → FrameData → Option (List Write)
unfolding write_built flush_of_realtime
write_kind prepared f = some (write f.buf (flush_of_realtime f.realtime) ∷ [])
write_kind _ f = write_built f

unfoldable pub write_frame : FrameData → Option (List Write)
unfolding write_kind
write_frame f = write_kind f.kind f

-- The loop over the frames that the queue holds.
unfoldable pub write_frames : List FrameData → Option (List Write)
unfolding write_frame
write_frames [] = some []
write_frames (f ∷ fs) = elim (write_frame f) [
  | none ↦ none
  | some ws ↦ elim (write_frames fs) [ none ↦ none | some rest ↦ some (ws ++ rest) ]
]

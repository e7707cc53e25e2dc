-- ===== src/Wire/Frames.antt =====
-- From the broker to the client: one frame of src/broker.rs, `handle_writer`, as `handle_read` of
-- src/ipc.rs reads it.
use elbus.Base.{
  ℕ, ◌+◌, ◌-◌, ◌^◌, ◌≤◌, ◌<◌, ◌≡◌, ◌≢◌, refl, arith, Bool, Bytes, List, [], ◌∷◌, ◌++◌, Option, some,
  none, length, drop, length-append, length-drop, append_assoc, append-nil, u32_to_le_bytes,
  u32_le_bytes_lem, le→leb, if◌then◌else◌,
}
use elbus.Proto.{FrameKind, prepared, frame_kind_code, FrameData, payload}
use elbus.Proto.Codes.{frame_kind_of_code-frame_kind_code}
use elbus.Comm.{Write, written_bytes, written_bytes-append, write, no_flush, flush_of_realtime}
use elbus.Stream.{Stream, Ending, read_exact-append}
use elbus.Broker.Writer.{
  part_bytes, part_len, header_len, header_writes, extra_len, frame_head, write_built,
}
use elbus.Ipc.Read.{Reader, read_once, dispatch}

abbrev pub header_bytes : Option Bytes → Bytes
header_bytes none = []
header_bytes (some h) = h

abbrev pub body_bytes : FrameData → Bytes
body_bytes f =
    part_bytes f.sender
    ++ (part_bytes f.topic ++ (header_bytes f.header ++ drop f.payload_pos f.buf))

abbrev flag : Bool → ℕ
flag realtime = if realtime then 1 else 0

abbrev pub frame_bytes : FrameKind → Bool → Bytes → Bytes
frame_bytes kind realtime body =
    frame_kind_code kind ∷ (u32_to_le_bytes (length body) ++ (flag realtime ∷ body))

pub length-part_bytes : (v : Option Bytes) → length (part_bytes v) ≡ part_len v
length-part_bytes none = refl
length-part_bytes (some v) = omega (arith, length-append v (0 ∷ []))

length-header_bytes : (h : Option Bytes) → length (header_bytes h) ≡ header_len h
length-header_bytes none = refl
length-header_bytes (some h) = refl

length-body_bytes :
    (f : FrameData)
    → f.payload_pos ≤ length f.buf
    → length (body_bytes f) ≡ extra_len f + length f.buf - f.payload_pos
length-body_bytes f h =
    let tail = header_bytes f.header ++ drop f.payload_pos f.buf in
    omega (
      arith,
      length-append (part_bytes f.sender) (part_bytes f.topic ++ tail),
      length-append (part_bytes f.topic) tail,
      length-append (header_bytes f.header) (drop f.payload_pos f.buf),
      length-drop f.payload_pos f.buf,
      length-part_bytes f.sender,
      length-part_bytes f.topic,
      length-header_bytes f.header,
    )

written-header_writes : (h : Option Bytes) → written_bytes (header_writes h) ≡ header_bytes h
written-header_writes none = refl
written-header_writes (some h) = append-nil h

-- What the writes of one frame put on the wire.
abbrev pub WritesBytes : Option (List Write) → Bytes → Type 0
WritesBytes r bytes = (ws : List Write) × (r ≡ some ws) × (written_bytes ws ≡ bytes)

pub write_built-WritesBytes :
    (f : FrameData)
    → f.payload_pos ≤ length f.buf
    → WritesBytes (write_built f) (frame_bytes f.kind f.realtime (body_bytes f))
unfolding write_built payload frame_head
write_built-WritesBytes f h = (
  write (frame_head f) no_flush
      ∷ (header_writes f.header
          ++ (write (drop f.payload_pos f.buf) (flush_of_realtime f.realtime) ∷ [])),
  ground (arith, le→leb f.payload_pos (length f.buf) h),
  rw (length-body_bytes f h)
      (simp (written_bytes-append, written-header_writes, append_assoc, append-nil)),
)

abbrev pub stream : Bytes → Ending → Stream
stream bytes ending = record { bytes = bytes; ending = ending }

module _ (r : Reader) (realtime : Bool) (rest : Bytes) (e : Ending) where
  -- The head of six bytes, and then what the kind asks for.
  pub read_once-frame_bytes :
      (kind : FrameKind) (body : Bytes)
      → kind ≢ prepared
      → length body < 2 ^ 32
      → read_once r (stream (frame_bytes kind realtime body ++ rest) e)
        ≡ dispatch r kind (length body) (flag realtime) (stream (body ++ rest) e)
  unfolding read_once
  read_once-frame_bytes kind body ne h = rw (
    read_exact-append
        (frame_kind_code kind ∷ (u32_to_le_bytes (length body) ++ (flag realtime ∷ [])))
        (body ++ rest) e,
    frame_kind_of_code-frame_kind_code kind ne,
    u32_le_bytes_lem (length body) h,
    read_once,
  )

-- ===== src/Wire/Streams.antt =====
-- From the broker to the client: whole connections, as sequences of frames and acknowledgements.
use elbus.Base.{
  ℕ, zero, suc, ◌+◌, ◌≤◌, ◌<◌, ◌≡◌, refl, ap, ◌∙◌, sym, arith, Bytes, List, [], ◌∷◌, ◌++◌, map, All,
  some, length, drop, append_assoc, append-nil, drop-length-append, length-append, le→leb,
}
use elbus.Proto.{error_eof, FrameData, payload, slice_from}
use elbus.Comm.{Write, written_bytes, written_bytes-append}
use elbus.Stream.{Ending, closed, silent, read_exact}
use elbus.Broker.Writer.{part_len, part_bytes, write_frames}
use elbus.Ipc.Read.{takes, Reader, Stop, on_error, on_wait, read_once, read_loop, handle_read}
use elbus.Wire.Frames.{
  header_bytes, body_bytes, frame_bytes, write_built-WritesBytes, stream, length-part_bytes,
}
use elbus.Wire.Delivery.{IsRouted, received, read_once-routed, write_frame-routed, routed_bounds}

abbrev wire_bytes : List FrameData → Bytes
wire_bytes [] = []
wire_bytes (f ∷ fs) = frame_bytes f.kind f.realtime (body_bytes f) ++ wire_bytes fs

write_frames-wire_bytes :
    (fs : List FrameData)
    → All IsRouted fs
    → (ws : List Write) × (write_frames fs ≡ some ws) × (written_bytes ws ≡ wire_bytes fs)
unfolding write_frames
write_frames-wire_bytes [] w = ([], refl, refl)
write_frames-wire_bytes (f ∷ fs) (w, v) =
    let one = write_built-WritesBytes f (routed_bounds f w).1 in
    let (ws, e, b) = one in
    let (vs, e', b') = write_frames-wire_bytes fs v in
    (
      ws ++ vs,
      rw (write_frame-routed f w, e, e', write_frames) refl,
      rw (written_bytes-append ws vs, b, b') refl,
    )

-- How the reader's loop stops where the stream ends between two frames.
abbrev pub stop_of : Ending → Stop
stop_of closed = on_error error_eof
stop_of silent = on_wait

abbrev pub after_frames : Reader → List FrameData → Reader
after_frames r fs = record r { delivered = r.delivered ++ map received fs }

read_loop-nil :
    (fuel : ℕ) (r : Reader) (e : Ending) → read_loop (suc fuel) r (stream [] e) ≡ (r, stop_of e)
unfolding read_loop read_once read_exact
read_loop-nil fuel r closed = refl
read_loop-nil fuel r silent = refl

after_frames-cons :
    (r : Reader) (f : FrameData) (fs : List FrameData)
    → after_frames (after_frames r (f ∷ [])) fs ≡ after_frames r (f ∷ fs)
after_frames-cons r f fs =
    ap (λ (d : List FrameData). record r { delivered = d })
      (append_assoc r.delivered (received f ∷ []) (map received fs))

read_loop-wire_bytes :
    (fs : List FrameData)
    → All IsRouted fs
    → (fuel : ℕ) (r : Reader) (e : Ending) → length fs < fuel
    → r.listening ≡ takes
    → read_loop fuel r (stream (wire_bytes fs) e) ≡ (after_frames r fs, stop_of e)
unfolding read_loop
read_loop-wire_bytes fs w zero r e h l = absurd (omega arith)
read_loop-wire_bytes [] w (suc fuel) r e h l =
    read_loop-nil fuel r e
    ∙ ap (λ (d : List FrameData). (record r { delivered = d }, stop_of e))
        (sym (append-nil r.delivered))
read_loop-wire_bytes (f ∷ fs) w (suc fuel) r e h l =
    rw (read_once-routed f w.0 r (wire_bytes fs) e l, read_loop)
      (read_loop-wire_bytes fs w.1 fuel (after_frames r (f ∷ [])) e (omega arith) l
        ∙ ap (λ (q : Reader). (q, stop_of e)) (after_frames-cons r f fs))

length-wire_bytes : (fs : List FrameData) → length fs ≤ length (wire_bytes fs)
length-wire_bytes [] = omega arith
length-wire_bytes (f ∷ fs) = omega (
  arith,
  length-append (frame_bytes f.kind f.realtime (body_bytes f)) (wire_bytes fs),
  length-wire_bytes fs,
)

-- Routed frames that the broker's writer sends on a connection come out of the client's reader in the
-- same order, each with its kind, sender, topic and realtime flag, and with its header in front of its
-- payload, as long as someone takes them from the event channel. The senders and topics are text
-- without a zero byte, and each body is shorter than 2^32 bytes. The reader then stops at the end of
-- the stream: with `Eof` if the broker has closed it, or else waiting.
pub handle_read-write_frames :
    (fs : List FrameData) (r : Reader) (e : Ending)
    → All IsRouted fs
    → r.listening ≡ takes
    → (ws : List Write) × (write_frames fs ≡ some ws)
      × (handle_read r (stream (written_bytes ws) e) ≡ (after_frames r fs, stop_of e))
unfolding handle_read
handle_read-write_frames fs r e w l =
    let (ws, eq, b) = write_frames-wire_bytes fs w in
    (
      ws,
      eq,
      rw b (
          read_loop-wire_bytes fs w (suc (length (wire_bytes fs))) r e
            (omega (arith, length-wire_bytes fs)) l),
    )

slice_from-append : (n : ℕ) (xs ys : Bytes) → n ≡ length xs → slice_from n (xs ++ ys) ≡ some ys
unfolding slice_from
slice_from-append n xs ys e = rw (
  e,
  le→leb (length xs) (length (xs ++ ys)) (omega (arith, length-append xs ys)),
  drop-length-append xs ys,
)

-- The payload of a frame that has come through is the header of the frame that was sent, with its
-- payload behind it.
pub payload-received :
    (f : FrameData)
    → payload (received f) ≡ some (header_bytes f.header ++ drop f.payload_pos f.buf)
unfolding payload
payload-received f =
    let ps = part_bytes f.sender in
    let pt = part_bytes f.topic in
    let content = header_bytes f.header ++ drop f.payload_pos f.buf in
    ap (slice_from (part_len f.sender + part_len f.topic)) (sym (append_assoc ps pt content))
    ∙ slice_from-append (part_len f.sender + part_len f.topic) (ps ++ pt) content
        (omega (arith, length-append ps pt, length-part_bytes f.sender, length-part_bytes f.topic))

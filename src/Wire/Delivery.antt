-- ===== src/Wire/Delivery.antt =====
-- From the broker to the client: every frame that the broker of src/broker.rs queues for a client,
-- up to what the reader task of src/ipc.rs does with it.
use elbus.Base.{
  ℕ, ◌+◌, ◌^◌, ◌≤◌, ◌<◌, ◌≡◌, ◌≢◌, ◌⊎◌, refl, ap, ◌∙◌, arith, Bool, true, false, if◌then◌else◌,
  Bytes, [], ◌∷◌, ◌++◌, some, none, length, drop, valid_utf8, NoZero, split_zero-append,
  append_assoc, inl, inr, not, ◌==◌,
}
use elbus.Proto.{ok, FrameKind, message, broadcast, publish, prepared, FrameData, frame_new}
use elbus.Stream.{Stream, Ending, done, read_exact-append}
use elbus.Broker.Writer.{part_len, write_built, write_frame}
use elbus.Ipc.Read.{
  takes, Reader, read_once, read_frame, dispatch, split_frame, split_message, split_publication,
  deliver,
}
use elbus.Wire.Frames.{header_bytes, body_bytes, frame_bytes, stream, read_once-frame_bytes}

abbrev pub IsText : Bytes → Type 0
IsText s = (valid_utf8 s ≡ true) × NoZero s

-- The frames that the broker makes for other clients: a message or a broadcast with its sender, and
-- a publication with its sender and its topic, of less than 2^32 bytes.
pub data IsRouted (f : FrameData) : Type 0 where
  direct :
      (s : Bytes)
      → (f.kind ≡ message) ⊎ (f.kind ≡ broadcast)
      → f.sender ≡ some s
      → f.topic ≡ none
      → IsText s
      → f.payload_pos ≤ length f.buf
      → length (body_bytes f) < 2 ^ 32
      → IsRouted f
  publication :
      (s t : Bytes)
      → f.kind ≡ publish
      → f.sender ≡ some s
      → f.topic ≡ some t
      → IsText s
      → IsText t
      → f.payload_pos ≤ length f.buf
      → length (body_bytes f) < 2 ^ 32
      → IsRouted f

-- The frame as the client's reader builds it again: kind, sender, topic and the realtime flag are
-- kept, and the header has become the front of the payload.
abbrev pub received : FrameData → FrameData
received f =
    frame_new f.kind f.sender f.topic none (body_bytes f) (part_len f.sender + part_len f.topic)
      f.realtime

split_message-text :
    (s p : Bytes) → IsText s → split_message (s ++ (0 ∷ p)) ≡ ok (some s, none, length s + 1)
unfolding split_message
split_message-text s p (v, z) = ground (arith, split_zero-append s p z)

split_publication-text :
    (s t p : Bytes)
    → IsText s
    → IsText t
    → split_publication (s ++ (0 ∷ (t ++ (0 ∷ p)))) ≡ ok (some s, some t, length s + length t + 2)
unfolding split_publication
split_publication-text s t p (v, z) (w, y) =
    ground (arith, split_zero-append s (t ++ (0 ∷ p)) z, split_zero-append t p y)

abbrev content : FrameData → Bytes
content f = header_bytes f.header ++ drop f.payload_pos f.buf

direct_len : (s : Bytes) → length s + 1 ≡ length s + 1 + 0
direct_len s = omega arith

publication_len : (s t : Bytes) → length s + length t + 2 ≡ length s + 1 + (length t + 1)
publication_len s t = omega arith

split_message-body :
    (f : FrameData) (s : Bytes)
    → f.sender ≡ some s
    → f.topic ≡ none
    → IsText s
    → split_message (body_bytes f) ≡ ok (f.sender, f.topic, part_len f.sender + part_len f.topic)
split_message-body f s es et ts =
    rw (es, et)
      (ap split_message (append_assoc s (0 ∷ []) (content f))
        ∙ split_message-text s (content f) ts
        ∙ ap (λ (n : ℕ). ok (some s, none, n)) (direct_len s))

split_publication-body :
    (f : FrameData) (s t : Bytes)
    → f.sender ≡ some s
    → f.topic ≡ some t
    → IsText s
    → IsText t
    → split_publication (body_bytes f)
      ≡ ok (f.sender, f.topic, part_len f.sender + part_len f.topic)
split_publication-body f s t es et ts tt =
    rw (es, et)
      (ap split_publication (
          append_assoc s (0 ∷ []) ((t ++ (0 ∷ [])) ++ content f)
          ∙ ap (λ (b : Bytes). s ++ (0 ∷ b)) (append_assoc t (0 ∷ []) (content f)))
        ∙ split_publication-text s t (content f) ts tt
        ∙ ap (λ (n : ℕ). ok (some s, some t, n)) (publication_len s t))

split_frame-body :
    (f : FrameData)
    → IsRouted f
    → split_frame f.kind (body_bytes f)
      ≡ ok (f.sender, f.topic, part_len f.sender + part_len f.topic)
unfolding split_frame
split_frame-body f (direct s (inl k) es et ts le h) =
    ap (λ (m : FrameKind). split_frame m (body_bytes f)) k ∙ split_message-body f s es et ts
split_frame-body f (direct s (inr k) es et ts le h) =
    ap (λ (m : FrameKind). split_frame m (body_bytes f)) k ∙ split_message-body f s es et ts
split_frame-body f (publication s t k es et ts tt le h) =
    ap (λ (m : FrameKind). split_frame m (body_bytes f)) k
    ∙ split_publication-body f s t es et ts tt

pub write_frame-routed : (f : FrameData) → IsRouted f → write_frame f ≡ write_built f
unfolding write_frame
write_frame-routed f (direct s (inl k) es et ts le h) = ground arith
write_frame-routed f (direct s (inr k) es et ts le h) = ground arith
write_frame-routed f (publication s t k es et ts tt le h) = ground arith

dispatch-routed :
    (f : FrameData)
    → IsRouted f
    → (r : Reader) (n code : ℕ) (s : Stream)
    → dispatch r f.kind n code s ≡ read_frame r f.kind n (not (code == 0)) s
unfolding dispatch
dispatch-routed f (direct s (inl k) es et ts le h) r n code st = rw k
dispatch-routed f (direct s (inr k) es et ts le h) r n code st = rw k
dispatch-routed f (publication s t k es et ts tt le h) r n code st = rw k

pub routed_bounds :
    (f : FrameData)
    → IsRouted f
    → (f.kind ≢ prepared) × (f.payload_pos ≤ length f.buf) × (length (body_bytes f) < 2 ^ 32)
routed_bounds f (direct s (inl k) es et ts le h) = (λ e. cc, le, h)
routed_bounds f (direct s (inr k) es et ts le h) = (λ e. cc, le, h)
routed_bounds f (publication s t k es et ts tt le h) = (λ e. cc, le, h)

flag_back : (b : Bool) → not ((if b then 1 else 0) == 0) ≡ b
flag_back true = refl
flag_back false = refl

-- The reader takes exactly the bytes of the frame and puts the frame into the event channel.
pub read_once-routed :
    (f : FrameData)
    → IsRouted f
    → (r : Reader) (rest : Bytes) (e : Ending) → r.listening ≡ takes
    → read_once r (stream (frame_bytes f.kind f.realtime (body_bytes f) ++ rest) e)
      ≡ done (record r { delivered = r.delivered ++ (received f ∷ []) }, stream rest e)
unfolding read_frame deliver
read_once-routed f w r rest e l =
    read_once-frame_bytes r f.realtime rest e f.kind (body_bytes f) (routed_bounds f w).0
      (routed_bounds f w).2
    ∙ dispatch-routed f w r (length (body_bytes f)) _ (stream (body_bytes f ++ rest) e)
    ∙ rw (
      read_exact-append (body_bytes f) rest e,
      split_frame-body f w,
      l,
      read_frame,
      flag_back f.realtime,
    )

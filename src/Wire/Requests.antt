-- ===== src/Wire/Requests.antt =====
-- From the client to the broker: the frames of src/ipc.rs as `handle_reader` of src/broker.rs reads
-- them.
use Prim.Native.Nat.{min}
use elbus.Base.{
  ℕ, suc, ◌-◌, ◌*◌, ◌/◌, ◌%◌, ◌^◌, ◌<◌, ◌≡◌, ◌≢◌, refl, sym, ap, ◌∙◌, arith, Bytes, [], ◌∷◌, ◌++◌,
  Option, some, length, take, drop, leb, if◌then◌else◌, bit_or, u32_to_le_bytes, u32_le_bytes_lem,
  take-append-take, drop-drop, length-drop, length-append, drop-length-append, take-length-append,
}
use elbus.Proto.{FrameOp, QoS, op_code, qos_code}
use elbus.Proto.Codes.{flags_fields, flags-ne-zero}
use elbus.Stream.{Stream, Ending, Outcome, done, read_exact-append, at_end, with_timeout}
use elbus.Broker.Request.{request, read_header, read_body, read_request}
use elbus.Comm.{written_bytes}
use elbus.Ipc.{Client}

-- What the two reads of a header come to, where there is a byte at all.
unfoldable pub nine_bytes : Bytes → Ending → Outcome (Option (Bytes × Stream))
nine_bytes bs e =
    if leb 9 (length bs)
    then done (some (take 9 bs, record { bytes = drop 9 bs; ending = e }))
    else with_timeout (at_end e)

pub read_header-eq-nine_bytes :
    (n : ℕ) (c : ℕ) (cs : Bytes) (e : Ending)
    → read_header n (record { bytes = c ∷ cs; ending = e }) ≡ nine_bytes (c ∷ cs) e
unfolding read_header nine_bytes
read_header-eq-nine_bytes n c cs e = ground (
  arith,
  take-append-take r (9 - r) (c ∷ cs),
  drop-drop r (9 - r) (c ∷ cs),
  length-drop r (c ∷ cs),
)
  where
    r : ℕ
    r = min (suc n) (min 9 (length (c ∷ cs)))

read_header_chunks_from :
    (n m : ℕ) (bs : Bytes) (e : Ending)
    → read_header n (record { bytes = bs; ending = e })
      ≡ read_header m (record { bytes = bs; ending = e })
unfolding read_header
read_header_chunks_from n m [] e = refl
read_header_chunks_from n m (c ∷ cs) e =
    read_header-eq-nine_bytes n c cs e ∙ sym (read_header-eq-nine_bytes m c cs e)

-- The header that the broker reads does not depend on how many bytes its first read finds.
pub read_header_chunks : (n m : ℕ) (s : Stream) → read_header n s ≡ read_header m s
read_header_chunks n m s = read_header_chunks_from n m s.bytes s.ending

-- Nine bytes at the front of the stream are the header.
read_header_nine :
    (n : ℕ) (c : ℕ) (cs rest : Bytes) (e : Ending)
    → length (c ∷ cs) ≡ 9
    → read_header n (record { bytes = c ∷ (cs ++ rest); ending = e })
      ≡ done (some (c ∷ cs, record { bytes = rest; ending = e }))
unfolding nine_bytes
read_header_nine n c cs rest e l =
    read_header-eq-nine_bytes n c (cs ++ rest) e
    ∙ ground (
      arith,
      length-append cs rest,
      ap (λ k. take k ((c ∷ cs) ++ rest)) l,
      ap (λ k. drop k ((c ∷ cs) ++ rest)) l,
      take-length-append (c ∷ cs) rest,
      drop-length-append (c ∷ cs) rest,
    )

-- The nine bytes of a frame with operation `op` and `len` bytes behind them.
abbrev pub frame_tail : ℕ → FrameOp → QoS → ℕ → Bytes
frame_tail id op qos len =
    id / 256 % 256
    ∷ id / 65536 % 256
    ∷ id / 16777216 % 256
    ∷ bit_or (op_code op) (qos_code qos * 64)
    ∷ u32_to_le_bytes len

abbrev pub frame_header : ℕ → FrameOp → QoS → ℕ → Bytes
frame_header id op qos len = id % 256 ∷ frame_tail id op qos len

read_body_frame :
    (id : ℕ) (op : FrameOp) (qos : QoS) (body rest : Bytes) (e : Ending)
    → op ≢ FrameOp.nop
    → length body < 2 ^ 32
    → read_body (frame_header id op qos (length body)) (record { bytes = body ++ rest; ending = e })
      ≡ done (
        request (record { op_id = u32_to_le_bytes id; op = op; qos = qos; buf = body }),
        record { bytes = rest; ending = e },
      )
unfolding read_body
read_body_frame id op qos body rest e n h = rw (
  flags-ne-zero op qos n,
  (flags_fields op qos).1,
  (flags_fields op qos).2,
  u32_le_bytes_lem (length body) h,
  read_exact-append body rest e,
  read_body,
)

-- The frame of an operation that is no ping, as the broker reads it from the front of the stream.
read_request_frame :
    (n id : ℕ) (op : FrameOp) (qos : QoS) (body rest : Bytes) (e : Ending)
    → op ≢ FrameOp.nop
    → length body < 2 ^ 32
    → read_request n
        (record { bytes = frame_header id op qos (length body) ++ (body ++ rest); ending = e })
      ≡ done (
        request (record { op_id = u32_to_le_bytes id; op = op; qos = qos; buf = body }),
        record { bytes = rest; ending = e },
      )
unfolding read_request
read_request_frame n id op qos body rest e ne h =
    rw
      (
        read_header_nine n (id % 256) (frame_tail id op qos (length body)) (body ++ rest) e refl,
        read_request,
      )
      (read_body_frame id op qos body rest e ne h)

-- Going from `before` to `after` the client has written one frame, which the broker reads as the
-- request with these fields, whatever comes behind it and however the bytes come in.
abbrev pub Arrives : Client → Client → FrameOp → QoS → Bytes → Type 0
Arrives before after op qos body =
    (wire : Bytes) × (written_bytes after.written ≡ written_bytes before.written ++ wire)
    × ((n : ℕ) (rest : Bytes) (e : Ending)
        → read_request n (record { bytes = wire ++ rest; ending = e })
          ≡ done (
            request
                (record { op_id = u32_to_le_bytes after.frame_id; op = op; qos = qos; buf = body }),
            record { bytes = rest; ending = e },
          ))

pub frame-Arrives :
    (before after : Client) (op : FrameOp) (qos : QoS) (head tail body : Bytes)
    → op ≢ FrameOp.nop
    → length body < 2 ^ 32
    → written_bytes after.written ≡ written_bytes before.written ++ (head ++ tail)
    → head ++ tail ≡ frame_header after.frame_id op qos (length body) ++ body
    → Arrives before after op qos body
frame-Arrives before after op qos head tail body ne h w eq = (
  frame_header after.frame_id op qos (length body) ++ body,
  rw (← eq) w,
  λ n rest e. read_request_frame n after.frame_id op qos body rest e ne h,
)

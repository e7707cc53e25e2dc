-- ===== src/Comm/Buffer/Due.antt =====
-- src/comm.rs, `TtlBufWriter`: what is scheduled is flushed before long.
use elbus.Base.{
  ℕ, ◌+◌, ◌≤◌, ◌≡◌, ◌⊎◌, inl, inr, refl, sym, ◌∙◌, arith, true, Bytes, length, Bool-cases,
}
use elbus.Comm.{Flush, no_flush, scheduled, instant}
use elbus.Comm.Buffer.{
  IoResult, fine, io_error, BufWriter, IsBuffered, TtlBufWriter, with_writer, after_flush, flush_as,
  write_buffered, take_signal, wake,
}

module _ (B : BufWriter) where
  -- What the writer comes to from some state on, as long as the flusher gets the lock in time and its
  -- flushes go through: writes, whatever becomes of them, and rounds of the flusher, in any order.
  pub data Later (w : TtlBufWriter B) : TtlBufWriter B → Type 0 where
    now : Later w w
    writes :
        {v : TtlBufWriter B}
        → Later w v
        → (end : B.WriteEnd) (last : B.FlushEnd) (chunk : Bytes) (flush : Flush)
        → Later w (write_buffered B end last chunk flush v).1
    takes : {v : TtlBufWriter B} → Later w v → v.signalled ≡ true → Later w (take_signal B v)
    wakes :
        {v : TtlBufWriter B}
        → Later w v
        → v.asleep ≡ true
        → (end : B.FlushEnd) → (B.flush end v.writer).0 ≡ fine
        → Later w (wake B true end v)

  -- The socket has got so many bytes, or a flush of as many is due.
  abbrev pub IsDue : ℕ → TtlBufWriter B → Type 0
  IsDue n w = (n ≤ B.sent w.writer) ⊎ ((w.signalled ≡ true) ⊎ (w.asleep ≡ true))

  abbrev Holds : ℕ → TtlBufWriter B → Type 0
  Holds n w = (n ≤ B.taken w.writer) × IsDue n w

  -- A writer that has got no fewer bytes, and is as awake as before, is no less due.
  abbrev Grows : TtlBufWriter B → TtlBufWriter B → Type 0
  Grows w v =
      (B.sent w.writer ≤ B.sent v.writer)
      × (B.taken w.writer ≤ B.taken v.writer)
      × (w.signalled ≡ true → v.signalled ≡ true)
      × (w.asleep ≡ v.asleep)

  Grows-refl : (w : TtlBufWriter B) → Grows w w
  Grows-refl w = (omega arith, omega arith, λ h. h, refl)

  Grows-trans : (u v w : TtlBufWriter B) → Grows u v → Grows v w → Grows u w
  Grows-trans u v w (a, b, c, d) (e, f, g, h) = (omega arith, omega arith, λ k. g (c k), d ∙ h)

  Holds-Grows : (n : ℕ) (w v : TtlBufWriter B) → Grows w v → Holds n w → Holds n v
  Holds-Grows n w v (a, b, c, d) (h, inl k) = (omega arith, inl (omega arith))
  Holds-Grows n w v (a, b, c, d) (h, inr (inl k)) = (omega arith, inr (inl (c k)))
  Holds-Grows n w v (a, b, c, d) (h, inr (inr k)) = (omega arith, inr (inr (sym d ∙ k)))

  module _ (L : IsBuffered B) where
    Grows-write_all :
        (end : B.WriteEnd) (chunk : Bytes) (w : TtlBufWriter B)
        → Grows w (with_writer B w (B.write_all end chunk w.writer)).1
    Grows-write_all end chunk w =
        (L.sent-write_all end chunk w.writer, L.taken-write_all end chunk w.writer, λ h. h, refl)

    Grows-flush :
        (end : B.FlushEnd) (w : TtlBufWriter B) → Grows w (with_writer B w (B.flush end w.writer)).1
    Grows-flush end w =
        (L.sent-flush end w.writer, omega (arith, L.taken-flush end w.writer), λ h. h, refl)

    Grows-after_flush :
        (result : IoResult) (o : IoResult × TtlBufWriter B) → Grows o.1 (after_flush B result o).1
    unfolding after_flush
    Grows-after_flush result (fine, w) = Grows-refl w
    Grows-after_flush result (io_error b, w) = Grows-refl w

    Grows-flush_as :
        (end : B.FlushEnd) (flush : Flush) (o : IoResult × TtlBufWriter B)
        → Grows o.1 (flush_as B end flush o).1
    unfolding flush_as
    Grows-flush_as end no_flush (result, w) = Grows-refl w
    Grows-flush_as end scheduled (result, w) = elim (Bool-cases w.signalled) [
      | inl h ↦ rw (h, flush_as) (omega arith, omega arith, λ k. refl, refl)
      | inr h ↦ rw (h, flush_as) (omega arith, omega arith, λ k. refl, refl)
    ]
    Grows-flush_as end instant (result, w) =
        Grows-trans w (with_writer B w (B.flush end w.writer)).1 _ (Grows-flush end w)
          (Grows-after_flush result (with_writer B w (B.flush end w.writer)))

    Grows-write_buffered :
        (end : B.WriteEnd) (last : B.FlushEnd) (chunk : Bytes) (flush : Flush) (w : TtlBufWriter B)
        → Grows w (write_buffered B end last chunk flush w).1
    unfolding write_buffered
    Grows-write_buffered end last chunk flush w =
        Grows-trans w (with_writer B w (B.write_all end chunk w.writer)).1 _
          (Grows-write_all end chunk w)
          (Grows-flush_as last flush (with_writer B w (B.write_all end chunk w.writer)))

    Holds-Later : (n : ℕ) {w v : TtlBufWriter B} → Later w v → Holds n w → Holds n v
    unfolding wake
    Holds-Later n now h = h
    Holds-Later n (writes {v} s end last chunk flush) h =
        Holds-Grows n v _ (Grows-write_buffered end last chunk flush v) (Holds-Later n s h)
    Holds-Later n (takes s k) h = let g = Holds-Later n s h in (g.0, inr (inr refl))
    Holds-Later n (wakes {v} s k end o) h =
        let g = Holds-Later n s h in
        (
          omega (arith, g.0, L.taken-flush end v.writer),
          inl (omega (arith, g.0, L.flush-fine end v.writer o)),
        )

    -- After a scheduled write that goes through, whatever is written later, either everything up to
    -- that write has gone to the socket or the flusher has a signal or sleeps on one, as long as the
    -- flusher gets the lock in time and its flushes go through. The buffered writer of the runtime
    -- does what is documented of it.
    pub Later-IsDue :
        (w v : TtlBufWriter B) (end : B.WriteEnd) (last : B.FlushEnd) (chunk : Bytes)
        → (B.write_all end chunk w.writer).0 ≡ fine
        → Later (write_buffered B end last chunk scheduled w).1 v
        → IsDue (B.taken w.writer + length chunk) v
    unfolding write_buffered flush_as
    Later-IsDue w v end last chunk o s =
        let n = B.taken w.writer + length chunk in
        let size = L.write_all-fine end chunk w.writer o in
        let start = (write_buffered B end last chunk scheduled w).1 in
        let written : Holds n start = elim (Bool-cases w.signalled) [
          | inl h ↦ rw (h, write_buffered, flush_as) (omega (arith, size), inr (inl refl))
          | inr h ↦ rw (h, write_buffered, flush_as) (omega (arith, size), inr (inl refl))
        ] in
        (Holds-Later n s written).1

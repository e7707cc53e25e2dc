-- ===== src/Comm/Buffer.antt =====
-- src/comm.rs: `TtlBufWriter`, a buffered writer with a flusher of its own, which a write wakes and
-- which flushes a little later. The buffered writer of the runtime that it stands on is an interface.
pub mod Due
use elbus.Base.{ℕ, ◌+◌, ◌≤◌, ◌≡◌, Bool, true, false, Bytes, length, if◌then◌else◌}
use elbus.Comm.{Flush, no_flush, scheduled, instant}

-- `std::io::Result<()>`; the flag tells a broken connection from other errors
pub data IoResult : Type 0 where
  fine : IoResult
  io_error : Bool → IoResult

-- `tokio::io::BufWriter`: its state, and its operations, by how they go. `sent` is how many bytes the
-- socket has got, and `taken` how many the writer has taken in all.
pub record BufWriter : Type 1 where
  pub State : Type 0
  pub WriteEnd : Type 0
  pub FlushEnd : Type 0
  pub write_all : WriteEnd → Bytes → State → IoResult × State
  pub flush : FlushEnd → State → IoResult × State
  pub sent : State → ℕ
  pub taken : State → ℕ

-- What is documented of it: a write that succeeds has taken all its bytes, a flush takes none and, if
-- it succeeds, has passed on all that was taken; and no byte that was taken or passed on comes back.
pub record IsBuffered (B : BufWriter) : Type 0 where
  pub sent-write_all :
      (e : B.WriteEnd) (chunk : Bytes) (w : B.State) → B.sent w ≤ B.sent (B.write_all e chunk w).1
  pub taken-write_all :
      (e : B.WriteEnd) (chunk : Bytes) (w : B.State) → B.taken w ≤ B.taken (B.write_all e chunk w).1
  pub write_all-fine :
      (e : B.WriteEnd) (chunk : Bytes) (w : B.State)
      → (B.write_all e chunk w).0 ≡ fine
      → B.taken (B.write_all e chunk w).1 ≡ B.taken w + length chunk
  pub sent-flush : (e : B.FlushEnd) (w : B.State) → B.sent w ≤ B.sent (B.flush e w).1
  pub taken-flush : (e : B.FlushEnd) (w : B.State) → B.taken (B.flush e w).1 ≡ B.taken w
  pub flush-fine :
      (e : B.FlushEnd) (w : B.State) → (B.flush e w).0 ≡ fine → B.sent (B.flush e w).1 ≡ B.taken w

module _ (B : BufWriter) where
  -- The buffered writer, whether a signal waits in the channel to the flusher, and whether the flusher
  -- has taken one and sleeps.
  pub record TtlBufWriter : Type 0 where
    pub writer : B.State
    pub signalled : Bool
    pub asleep : Bool

  abbrev pub writer_new : B.State → TtlBufWriter
  writer_new w = record { writer = w; signalled = false; asleep = false }

  abbrev pub with_writer : TtlBufWriter → IoResult × B.State → IoResult × TtlBufWriter
  with_writer w (result, b) = (result, record w { writer = b })

  -- `writer.flush().await?`, and then the result of the write
  unfoldable after_flush : IoResult → IoResult × TtlBufWriter → IoResult × TtlBufWriter
  after_flush result (fine, w) = (result, w)
  after_flush result (io_error b, w) = (io_error b, w)

  unfoldable flush_as : B.FlushEnd → Flush → IoResult × TtlBufWriter → IoResult × TtlBufWriter
  unfolding after_flush
  flush_as end no_flush (result, w) = (result, w)
  flush_as end scheduled (result, w) =
      (result, if w.signalled then w else record w { signalled = true })
  flush_as end instant (result, w) = after_flush result (with_writer w (B.flush end w.writer))

  -- `TtlBufWriter::write`
  unfoldable pub write_buffered :
      B.WriteEnd → B.FlushEnd → Bytes → Flush → TtlBufWriter → IoResult × TtlBufWriter
  unfolding flush_as
  write_buffered end last chunk flush w =
      flush_as last flush (with_writer w (B.write_all end chunk w.writer))

  -- the flusher: it takes a signal and sleeps
  abbrev pub take_signal : TtlBufWriter → TtlBufWriter
  take_signal w = record w { signalled = false; asleep = true }

  -- and flushes, if it gets the lock of the writer in time
  unfoldable pub wake : Bool → B.FlushEnd → TtlBufWriter → TtlBufWriter
  wake true end w = record w { writer = (B.flush end w.writer).1; asleep = false }
  wake false end w = record w { asleep = false }

  -- `Drop for TtlBufWriter`: the flusher is gone, and what waits is flushed
  unfoldable drop_writer : B.FlushEnd → TtlBufWriter → TtlBufWriter
  drop_writer end w = record {
    writer = (B.flush end w.writer).1;
    signalled = false;
    asleep = false;
  }

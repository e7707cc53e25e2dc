-- ===== src/Comm/Tests.antt =====
-- The theorem on the buffered writer at a concrete run.
use elbus.Base.{
  ℕ, ◌+◌, ◌≤◌, ◌≡◌, refl, arith, Bool, true, false, Bytes, [], ◌++◌, codes, length, take, drop,
  length-append, take-append-drop, ap, sym, ◌∙◌,
}
use elbus.Comm.{no_flush, scheduled}
use elbus.Comm.Buffer.{
  IoResult, fine, io_error, BufWriter, IsBuffered, TtlBufWriter, writer_new, write_buffered,
  take_signal, wake,
}
use elbus.Comm.Buffer.Due.{Later, now, IsDue, Later-IsDue}

-- What the socket has got and what waits; each operation passes on so many of the waiting bytes, and
-- then fails or not.
abbrev Held : Type 0
Held = Bytes × Bytes

abbrev result_of : Bool → IoResult
result_of true = io_error true
result_of false = fine

abbrev pass_on : ℕ → Held → Held
pass_on n (sent, waiting) = (sent ++ take n waiting, drop n waiting)

abbrev size : Held → ℕ
size w = length w.0 + length w.1

-- A write takes all its bytes or none, and a flush passes on all or none.
abbrev flush_held : Bool → Held → IoResult × Held
flush_held true w = (io_error true, w)
flush_held false w = (fine, (w.0 ++ w.1, []))

abbrev write_held : ℕ × Bool → Bytes → Held → IoResult × Held
write_held (n, true) chunk w = (io_error true, pass_on n w)
write_held (n, false) chunk w = (fine, pass_on n (w.0, w.1 ++ chunk))

abbrev buffered : BufWriter
buffered = record {
  State = Held;
  WriteEnd = ℕ × Bool;
  FlushEnd = Bool;
  write_all = write_held;
  flush = flush_held;
  sent = λ w. length w.0;
  taken = size;
}

size-pass_on : (n : ℕ) (w : Held) → size (pass_on n w) ≡ size w
size-pass_on n w = omega (
  arith,
  length-append w.0 (take n w.1),
  sym (length-append (take n w.1) (drop n w.1)) ∙ ap length (take-append-drop n w.1),
)

write_held-grows :
    (e : ℕ × Bool) (chunk : Bytes) (w : Held)
    → (length w.0 ≤ length (write_held e chunk w).1.0) × (size w ≤ size (write_held e chunk w).1)
write_held-grows (n, true) chunk w =
    (omega (arith, length-append w.0 (take n w.1)), omega (arith, size-pass_on n w))
write_held-grows (n, false) chunk w = (
  omega (arith, length-append w.0 (take n (w.1 ++ chunk))),
  omega (arith, size-pass_on n (w.0, w.1 ++ chunk), length-append w.1 chunk),
)

write_held-fine :
    (e : ℕ × Bool) (chunk : Bytes) (w : Held)
    → (write_held e chunk w).0 ≡ fine
    → size (write_held e chunk w).1 ≡ size w + length chunk
write_held-fine (n, true) chunk w h = cc
write_held-fine (n, false) chunk w h =
    omega (arith, size-pass_on n (w.0, w.1 ++ chunk), length-append w.1 chunk)

flush_held-grows :
    (e : Bool) (w : Held)
    → (length w.0 ≤ length (flush_held e w).1.0) × (size (flush_held e w).1 ≡ size w)
flush_held-grows true w = (omega arith, refl)
flush_held-grows false w =
    (omega (arith, length-append w.0 w.1), omega (arith, length-append w.0 w.1))

flush_held-fine :
    (e : Bool) (w : Held) → (flush_held e w).0 ≡ fine → length (flush_held e w).1.0 ≡ size w
flush_held-fine true w h = cc
flush_held-fine false w h = length-append w.0 w.1

buffered-IsBuffered : IsBuffered buffered
buffered-IsBuffered = record {
  sent-write_all = λ e chunk w. (write_held-grows e chunk w).0;
  taken-write_all = λ e chunk w. (write_held-grows e chunk w).1;
  write_all-fine = write_held-fine;
  sent-flush = λ e w. (flush_held-grows e w).0;
  taken-flush = λ e w. (flush_held-grows e w).1;
  flush-fine = flush_held-fine;
}

abbrev fresh : TtlBufWriter buffered
fresh = writer_new buffered ([], [])

abbrev begun : TtlBufWriter buffered
begun = (write_buffered buffered (1, false) false (codes "ab") scheduled fresh).1

abbrev asleep : TtlBufWriter buffered
asleep =
    (write_buffered buffered (0, true) false (codes "cd") no_flush (take_signal buffered begun)).1

-- Two bytes are scheduled, a write fails while the flusher sleeps, and the flusher passes on both.
later : Later buffered begun (wake buffered true false asleep)
unfolding write_buffered
later =
    Later.wakes (Later.writes (Later.takes now refl) (0, true) false (codes "cd") no_flush) refl
      false refl

Later-IsDue_example : IsDue buffered (0 + 2) (wake buffered true false asleep)
Later-IsDue_example =
    Later-IsDue buffered buffered-IsBuffered fresh (wake buffered true false asleep) (1, false)
      false (codes "ab") refl later

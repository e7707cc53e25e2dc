-- ===== src/Stream.antt =====
-- The receiving half of a socket, as the readers of src/broker.rs and src/ipc.rs use it: the bytes
-- that the peer sends, and whether it closes the connection or falls silent behind them.
use elbus.Base.{
  refl, ◌+◌, ℕ, ◌≡◌, arith, Bytes, ◌++◌, length, take, drop, leb, if◌then◌else◌, le→leb,
  length-append, length-drop, take-length-append, length-drop, drop-length-append, length-drop,
  valid_utf8,
}
use elbus.Proto.{Error, error_eof, error_timeout, error_data, foreign, Result, ok, err}

pub data Ending : Type 0 where
  closed silent : Ending

pub record Stream : Type 0 where
  pub bytes : Bytes
  pub ending : Ending

-- What becomes of an `await`; `waits` is one that never completes.
pub data Outcome {ℓ} (A : Type ℓ) : Type ℓ where
  done : A → Outcome A
  failed : Error → Outcome A
  waits : Outcome A

infixl 5 ◌>>=◌
abbrev pub ◌>>=◌ {ℓ κ} : {A : Type ℓ} {B : Type κ} → Outcome A → (A → Outcome B) → Outcome B
done a >>= f = f a
failed e >>= f = failed e
waits >>= f = waits

-- `?` on a result inside an async function
abbrev pub from_result {ℓ} : {A : Type ℓ} → Result A → Outcome A
from_result (ok a) = done a
from_result (err e) = failed e

-- `time::timeout(timeout, f).await??`
abbrev pub with_timeout {ℓ} : {A : Type ℓ} → Outcome A → Outcome A
with_timeout (done a) = done a
with_timeout (failed e) = failed e
with_timeout waits = failed error_timeout

abbrev pub at_end {ℓ} : {A : Type ℓ} → Ending → Outcome A
at_end closed = failed error_eof
at_end silent = waits

abbrev pub advance : ℕ → Stream → Stream
advance n s = record s { bytes = drop n s.bytes }

-- `reader.read_exact(&mut buf)` with a buffer of `n` bytes
unfoldable pub read_exact : ℕ → Stream → Outcome (Bytes × Stream)
read_exact n s =
    if leb n (length s.bytes) then done (take n s.bytes, advance n s) else at_end s.ending

-- `std::str::from_utf8(b)?`
unfoldable pub from_utf8 : Bytes → Result Bytes
from_utf8 b = if valid_utf8 b then ok b else err (error_data foreign)

-- Reading as many bytes as a known prefix has gives that prefix.
pub read_exact-append :
    (xs rest : Bytes) (e : Ending)
    → read_exact (length xs) (record { bytes = xs ++ rest; ending = e })
      ≡ done (xs, record { bytes = rest; ending = e })
unfolding read_exact
read_exact-append xs rest e = rw (
  le→leb (length xs) (length (xs ++ rest)) (omega (arith, length-append xs rest)),
  take-length-append xs rest,
  drop-length-append xs rest,
)

pub >>=-eq-done {ℓ κ} :
    {A : Type ℓ} {B : Type κ} (m : Outcome A) (f : A → Outcome B) {b : B}
    → (m >>= f) ≡ done b
    → (a : A) × (m ≡ done a) × (f a ≡ done b)
>>=-eq-done (done a) f h = (a, refl, h)
>>=-eq-done (failed e) f h = cc
>>=-eq-done waits f h = cc

pub with_timeout-eq-done {ℓ} :
    {A : Type ℓ} (m : Outcome A) {a : A} → with_timeout m ≡ done a → m ≡ done a
with_timeout-eq-done (done a) h = h
with_timeout-eq-done (failed e) h = cc
with_timeout-eq-done waits h = cc

pub read_exact_bytes :
    (n : ℕ) (s : Stream) {b : Bytes} {s' : Stream}
    → read_exact n s ≡ done (b, s')
    → length s'.bytes + n ≡ length s.bytes
unfolding read_exact
read_exact_bytes n s h = ground (arith, length-drop n s.bytes)

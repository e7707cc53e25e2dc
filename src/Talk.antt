-- ===== src/Talk.antt =====
-- The two halves of a handshake, as src/ipc.rs and src/broker.rs hold them: reads from a stream and
-- writes into a sink, in turns.
use elbus.Base.{ℕ, Bytes, List, [], ◌∷◌, ◌++◌}
use elbus.Proto.{Error, Result, ok, err}
use elbus.Comm.{Flush, Write, write}
use elbus.Stream.{Stream, Outcome, done, failed, waits, with_timeout, read_exact}

-- What becomes of the next write, given what has been written.
abbrev pub Sink : Type 0
Sink = List Write → Outcome (Unit {0})

abbrev pub Talk : Type 0 → Type 0
Talk A = Stream → List Write → Outcome (A × Stream) × List Write

unfoldable pub bind :
    {A B : Type 0}
    → Outcome (A × Stream) × List Write
    → (A → Talk B)
    → Outcome (B × Stream) × List Write
bind (done (a, s), ws) f = f a s ws
bind (failed e, ws) f = (failed e, ws)
bind (waits, ws) f = (waits, ws)

infixl 5 ◌>>=◌
unfoldable pub ◌>>=◌ : {A B : Type 0} → Talk A → (A → Talk B) → Talk B
unfolding bind
(m >>= f) s ws = bind (m s ws) f

abbrev pub return : {A : Type 0} → A → Talk A
return a s ws = (done (a, s), ws)

abbrev pub fail : {A : Type 0} → Error → Talk A
fail e s ws = (failed e, ws)

abbrev pub lift : {A : Type 0} → Result A → Talk A
lift (ok a) s ws = (done (a, s), ws)
lift (err e) s ws = (failed e, ws)

-- `reader.read_exact(&mut buf).await?`, and the same under a timeout
abbrev pub hear : ℕ → Talk Bytes
hear n s ws = (read_exact n s, ws)

abbrev pub hear_in_time : ℕ → Talk Bytes
hear_in_time n s ws = (with_timeout (read_exact n s), ws)

written_if : Outcome (Unit {0}) → Bytes → Flush → Talk (Unit {0})
written_if (done u) chunk flush s ws = (done (tt, s), ws ++ (write chunk flush ∷ []))
written_if (failed e) chunk flush s ws = (failed e, ws)
written_if waits chunk flush s ws = (waits, ws)

-- a write, and a write under a timeout
unfoldable pub say : Sink → Bytes → Flush → Talk (Unit {0})
unfolding written_if
say sink chunk flush s ws = written_if (sink ws) chunk flush s ws

unfoldable pub say_in_time : Sink → Bytes → Flush → Talk (Unit {0})
unfolding written_if
say_in_time sink chunk flush s ws = written_if (with_timeout (sink ws)) chunk flush s ws

-- ===== src/Comm.antt =====
-- src/comm.rs: the flush modes of `TtlBufWriter`, and what a `write` hands over.
pub mod Buffer
mod Tests
use elbus.Base.{Bool, Bytes, List, [], ◌∷◌, ◌++◌, if◌then◌else◌, ◌≡◌, refl, sym, append_assoc}

pub data Flush : Type 0 where
  no_flush scheduled instant : Flush

-- `impl From<bool> for Flush`
unfoldable pub flush_of_realtime : Bool → Flush
flush_of_realtime realtime = if realtime then instant else scheduled

-- One call of `TtlBufWriter::write`.
pub record Write : Type 0 where
  pub chunk : Bytes
  pub flush : Flush

abbrev pub write : Bytes → Flush → Write
write chunk flush = record { chunk = chunk; flush = flush }

-- The bytes that a sequence of writes puts on the wire.
abbrev pub written_bytes : List Write → Bytes
written_bytes [] = []
written_bytes (w ∷ ws) = w.chunk ++ written_bytes ws

pub written_bytes-append :
    (ws vs : List Write) → written_bytes (ws ++ vs) ≡ written_bytes ws ++ written_bytes vs
written_bytes-append [] vs = refl
written_bytes-append (w ∷ ws) vs =
    rw (written_bytes-append ws vs)
      (sym (append_assoc w.chunk (written_bytes ws) (written_bytes vs)))

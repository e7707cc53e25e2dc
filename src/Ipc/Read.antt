-- ===== src/Ipc/Read.antt =====
-- src/ipc.rs, `handle_read`: the client's reader task.
use elbus.Base.{
  ℕ, zero, suc, ◌+◌, Bool, not, Bytes, List, [], ◌∷◌, ◌++◌, Option, none, some, length, take, drop,
  ◌==◌, if◌then◌else◌, from_le_bytes, split_zero,
}
use elbus.Proto.{
  Error, error_data, error_io, literal, foreign, Result, ok, err, to_elbus_result, FrameKind,
  publish, nop, acknowledge, frame_kind_of_code, FrameData, frame_new,
}
use elbus.Proto
use elbus.Stream.{
  Stream, Outcome, done, failed, waits, ◌>>=◌, from_result, with_timeout, read_exact, from_utf8,
}
use elbus.Ipc.Defs.{remove_id, has_id}

-- The receiving end of the event channel, which holds as many frames as `queue_size`: it takes what
-- comes in, has stopped with room left for some frames, or is gone.
pub data Listener : Type 0 where
  takes gone : Listener
  idle : ℕ → Listener

-- `responses` is shared with the client; `resolved` lists the confirmations that were completed,
-- and `delivered` the frames that went into the event channel, oldest first. `listening` is what the
-- receiving end of that channel does.
pub record Reader : Type 0 where
  pub responses : List ℕ
  pub resolved : List (ℕ × Result (Unit {0}))
  pub delivered : List FrameData
  pub listening : Listener

-- the arm `FrameKind::Acknowledge`
unfoldable pub acknowledge_id : Reader → ℕ → ℕ → Reader
unfolding has_id remove_id to_elbus_result
acknowledge_id r ack_id code =
    if has_id ack_id r.responses
    then record r {
      responses = remove_id ack_id r.responses;
      resolved = r.resolved ++ ((ack_id, to_elbus_result code) ∷ []);
    }
    else r

missing {ℓ} : {A : Type ℓ} → Result A
missing = err (error_data (literal "broken frame"))

-- sender, topic and payload position of a publication (`splitn(3, …)`)
unfoldable pub split_publication : Bytes → Result (Option Bytes × Option Bytes × ℕ)
unfolding split_zero from_utf8 missing
split_publication buf =
    let (s, rest) = split_zero buf in
    Proto.◌>>=◌ (from_utf8 s) λ sender. elim rest [
      | none ↦ missing
      | some tail ↦
          let (t, rest') = split_zero tail in
          Proto.◌>>=◌ (from_utf8 t) λ topic. elim rest' [
            | none ↦ missing
            | some _ ↦ ok (some sender, some topic, length s + length t + 2)
          ]
    ]

-- sender and payload position of any other frame (`splitn(2, …)`)
unfoldable pub split_message : Bytes → Result (Option Bytes × Option Bytes × ℕ)
unfolding split_zero from_utf8 missing
split_message buf =
    let (s, rest) = split_zero buf in
    Proto.◌>>=◌ (from_utf8 s)
      λ sender. elim rest [ none ↦ missing | some _ ↦ ok (some sender, none, length s + 1) ]

unfoldable pub split_frame : FrameKind → Bytes → Result (Option Bytes × Option Bytes × ℕ)
unfolding split_publication split_message
split_frame publish buf = split_publication buf
split_frame _ buf = split_message buf

-- `tx.send(frame).await.map_err(Error::io)?`, which waits for room
unfoldable pub deliver_to : Listener → Reader → FrameData → Outcome Reader
deliver_to takes r frame = done (record r { delivered = r.delivered ++ (frame ∷ []) })
deliver_to gone r frame = failed (error_io foreign)
deliver_to (idle zero) r frame = waits
deliver_to (idle (suc n)) r frame =
    done (record r { delivered = r.delivered ++ (frame ∷ []); listening = idle n })

unfoldable pub deliver : Reader → FrameData → Outcome Reader
unfolding deliver_to
deliver r frame = deliver_to r.listening r frame

-- what follows the six bytes of a frame's head, for a kind that is neither a ping nor an ack
unfoldable pub read_frame : Reader → FrameKind → ℕ → Bool → Stream → Outcome (Reader × Stream)
unfolding read_exact split_frame deliver
read_frame r kind frame_len realtime s = do
  (buf, s') ← with_timeout (read_exact frame_len s)
  (sender, topic, payload_pos) ← from_result (split_frame kind buf)
  r' ← deliver r (frame_new kind sender topic none buf payload_pos realtime)
  done (r', s')

unfoldable pub dispatch : Reader → FrameKind → ℕ → ℕ → Stream → Outcome (Reader × Stream)
unfolding acknowledge_id read_frame
dispatch r nop n code s = done (r, s)
dispatch r acknowledge n code s = done (acknowledge_id r n code, s)
dispatch r kind n code s = read_frame r kind n (not (code == 0)) s

abbrev pub index : Bytes → ℕ → ℕ
index [] i = 0
index (b ∷ bs) zero = b
index (b ∷ bs) (suc i) = index bs i

-- what follows the head of a frame
unfoldable pub after_head : Reader → Bytes → Stream → Outcome (Reader × Stream)
unfolding frame_kind_of_code dispatch
after_head r buf s = do
  kind ← from_result (frame_kind_of_code (index buf 0))
  dispatch r kind (from_le_bytes (take 4 (drop 1 buf))) (index buf 5) s

-- One round of the loop.
unfoldable pub read_once : Reader → Stream → Outcome (Reader × Stream)
unfolding read_exact after_head
read_once r s = do (buf, s') ← read_exact 6 s; after_head r buf s'

-- How the loop stops: by an error, by waiting, for bytes that do not come or for room in the event
-- channel, or, in the model alone, for want of fuel.
pub data Stop : Type 0 where
  on_error : Error → Stop
  on_wait on_fuel : Stop

-- A round reads six bytes at least, so as many rounds as there are bytes are enough.
unfoldable pub read_loop : ℕ → Reader → Stream → Reader × Stop
unfolding read_once
read_loop zero r s = (r, on_fuel)
read_loop (suc fuel) r s = elim (read_once r s) [
  | done (r', s') ↦ read_loop fuel r' s'
  | failed e ↦ (r, on_error e)
  | waits ↦ (r, on_wait)
]

unfoldable pub handle_read : Reader → Stream → Reader × Stop
unfolding read_loop
handle_read r s = read_loop (suc (length s.bytes)) r s

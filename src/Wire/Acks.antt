-- ===== src/Wire/Acks.antt =====
-- Acknowledgements and pings: what `send_ack!` and `handle_pinger` of src/broker.rs queue for a
-- client, as the reader of src/ipc.rs takes it; and the reader's loop on any input at all.
use elbus.Base.{
  ℕ, zero, suc, ◌+◌, ◌^◌, ◌≤◌, ◌<◌, ◌≡◌, ◌≢◌, refl, ap, arith, Bool, true, false, Bytes, List, [],
  ◌∷◌, ◌++◌, some, none, length, drop, take, u32_to_le_bytes, u32_le_bytes_lem, from_le_bytes, ◌==◌,
  if◌then◌else◌, Bool-cases, inl, inr, ◌⊎◌,
}
use elbus.Proto.{
  ok, err, error_new, kind_of_code, to_elbus_result, response_ok, FrameKind, op_ack,
  frame_kind_of_code,
}
use elbus.Comm.{Write, written_bytes, write, flush_of_realtime}
use elbus.Stream.{
  Stream, Ending, Outcome, done, failed, waits, >>=-eq-done, with_timeout-eq-done, read_exact_bytes,
  read_exact, read_exact-append, with_timeout, from_result,
}
use elbus.Broker.Request.{ack_frame}
use elbus.Broker.Writer.{write_frame}
use elbus.Ipc.{has_id, has_id-remove_id}
use elbus.Ipc.Read.{
  Reader, on_fuel, acknowledge_id, read_once, read_frame, dispatch, after_head, index, read_loop,
  handle_read, deliver, split_frame,
}
use elbus.Wire.Frames.{stream}

-- An acknowledgement that the broker queues for a frame id is read as one for the same id, with the
-- same code; nothing behind it is touched.
read_once-ack :
    (id code : ℕ) (realtime : Bool) (r : Reader) (rest : Bytes) (e : Ending)
    → id < 2 ^ 32
    → (ws : List Write) × (write_frame (ack_frame (u32_to_le_bytes id) code realtime) ≡ some ws)
      × (read_once r (stream (written_bytes ws ++ rest) e)
          ≡ done (acknowledge_id r id code, stream rest e))
unfolding write_frame read_once frame_kind_of_code dispatch
read_once-ack id code realtime r rest e h = (
  write (op_ack ∷ (u32_to_le_bytes id ++ (code ∷ []))) (flush_of_realtime realtime) ∷ [],
  refl,
  rw (
    read_exact-append (op_ack ∷ (u32_to_le_bytes id ++ (code ∷ []))) rest e,
    u32_le_bytes_lem id h,
    read_once,
  ),
)

-- The confirmation that a client awaits for a frame id is completed by the first acknowledgement of
-- that id, with success exactly for the code 1 and otherwise with the kind that the code stands for,
-- and the id is awaited no more; an acknowledgement of any other id changes nothing.
acknowledge_id_cases :
    (r : Reader) (id code : ℕ)
    → ((has_id id r.responses ≡ false) × (acknowledge_id r id code ≡ r))
      ⊎ ((has_id id r.responses ≡ true)
          × (has_id id (acknowledge_id r id code).responses ≡ false)
          × ((acknowledge_id r id code).resolved
              ≡ r.resolved
                ++ ((
                  id,
                  if code == response_ok then ok tt else err (error_new (kind_of_code code) none),
                )
                    ∷ [])))
unfolding acknowledge_id to_elbus_result
acknowledge_id_cases r id code = elim (Bool-cases (has_id id r.responses)) [
  | inl h ↦
      inr (h, rw (h, acknowledge_id) (has_id-remove_id id r.responses), rw (h, acknowledge_id))
  | inr h ↦ inl (h, rw (h, acknowledge_id))
]

-- what a finished step has left of the stream
length_left : Outcome (Reader × Stream) → ℕ
length_left (done (r, s)) = length s.bytes
length_left _ = 0

-- A round of the reader's loop that goes on has taken six bytes at least.
read_frame-le :
    (r : Reader) (kind : FrameKind) (n : ℕ) (realtime : Bool) (s : Stream) {r' : Reader}
    {s' : Stream}
    → read_frame r kind n realtime s ≡ done (r', s')
    → length s'.bytes ≤ length s.bytes
unfolding read_frame length_left
read_frame-le r kind n realtime s h =
    let (got, e, k) = >>=-eq-done (with_timeout (read_exact n s)) _ h in
    let (split, e', k') = >>=-eq-done (from_result (split_frame kind got.0)) _ k in
    let (q, e'', k'') = >>=-eq-done (deliver r _) _ k' in
    omega
      (arith, read_exact_bytes n s (with_timeout-eq-done (read_exact n s) e), ap length_left k'')

dispatch-le :
    (r : Reader) (kind : FrameKind) (n code : ℕ) (s : Stream) {r' : Reader} {s' : Stream}
    → dispatch r kind n code s ≡ done (r', s')
    → length s'.bytes ≤ length s.bytes
unfolding dispatch length_left
dispatch-le r FrameKind.nop n code s h = omega (arith, ap length_left h)
dispatch-le r FrameKind.acknowledge n code s h = omega (arith, ap length_left h)
dispatch-le r FrameKind.prepared n code s h = read_frame-le r FrameKind.prepared n _ s h
dispatch-le r FrameKind.message n code s h = read_frame-le r FrameKind.message n _ s h
dispatch-le r FrameKind.broadcast n code s h = read_frame-le r FrameKind.broadcast n _ s h
dispatch-le r FrameKind.publish n code s h = read_frame-le r FrameKind.publish n _ s h

after_head-le :
    (r : Reader) (buf : Bytes) (s : Stream) {r' : Reader} {s' : Stream}
    → after_head r buf s ≡ done (r', s')
    → length s'.bytes ≤ length s.bytes
unfolding after_head
after_head-le r buf s h =
    let (kind, e, k) = >>=-eq-done (from_result (frame_kind_of_code (index buf 0))) _ h in
    dispatch-le r kind (from_le_bytes (take 4 (drop 1 buf))) (index buf 5) s k

read_once-lt :
    (r : Reader) (s : Stream) {r' : Reader} {s' : Stream}
    → read_once r s ≡ done (r', s')
    → length s'.bytes + 6 ≤ length s.bytes
unfolding read_once
read_once-lt r s h =
    let (got, e, k) = >>=-eq-done (read_exact 6 s) _ h in
    omega (arith, read_exact_bytes 6 s e, after_head-le r got.0 got.1 k)

read_loop-fuel :
    (fuel : ℕ) (r : Reader) (s : Stream) → length s.bytes < fuel → (read_loop fuel r s).1 ≢ on_fuel
unfolding read_loop
read_loop-fuel zero r s h = absurd (omega arith)
read_loop-fuel (suc fuel) r s h = next (read_once r s) (read_loop-fuel fuel) refl
  where
    next :
        (o : Outcome (Reader × Stream))
        → ((q : Reader) (t : Stream) → length t.bytes < fuel → (read_loop fuel q t).1 ≢ on_fuel)
        → read_once r s ≡ o
        → (read_loop (suc fuel) r s).1 ≢ on_fuel
    next (done (r', s')) rec e = rw (e, read_loop) (rec r' s' (omega (arith, read_once-lt r s e)))
    next (failed x) rec e = rw (e, read_loop) (λ p. cc)
    next waits rec e = rw (e, read_loop) (λ p. cc)

-- Whatever bytes come in, and whatever the receiver of events does, the reader's loop ends by an error
-- or by waiting, for more bytes or for room in the event channel: the rounds that the model allows it
-- are enough.
pub handle_read_total : (r : Reader) (s : Stream) → (handle_read r s).1 ≢ on_fuel
unfolding handle_read
handle_read_total r s = read_loop-fuel (suc (length s.bytes)) r s (omega arith)

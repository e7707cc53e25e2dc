-- ===== src/Wire/Progress.antt =====
-- src/broker.rs, `handle_reader`: the loop takes bytes from the stream for each frame, so it ends.
use elbus.Base.{
  ℕ, zero, suc, ◌/◌, ◌≤◌, ◌<◌, ◌≡◌, ◌≢◌, refl, sym, ◌∙◌, ap, arith, Bytes, [], ◌∷◌, Option, some,
  none, length, take, drop, ◌==◌, length-drop, Bool-cases, inl, inr, bit_and, from_le_bytes,
}
use elbus.Proto.{Result, op_of_code, qos_of_code, FrameOp, QoS}
use elbus.Stream.{
  Stream, Ending, closed, silent, Outcome, done, failed, waits, ◌>>=◌, >>=-eq-done,
  with_timeout-eq-done, with_timeout, from_result, read_exact, read_exact_bytes,
}
use elbus.Broker.Maps.{Maps}
use elbus.Broker.Db.{Db}
use elbus.Broker.Deliver.{Room, BrokerEvent}
use elbus.Broker.Access.{Lists, ClientAaa}
use elbus.Broker.Request.{
  Incoming, hangup, ping, request, read_header, read_body, read_request, index,
}
use elbus.Broker.Reader.{Ended, on_fuel, proceed, after_read, reader_loop, handle_reader}
use elbus.Wire.Requests.{nine_bytes, read_header-eq-nine_bytes}

nine_bytes-shorter :
    (bs : Bytes) (e : Ending) (h : Bytes) (s : Stream)
    → nine_bytes bs e ≡ done (some (h, s))
    → length s.bytes < length bs
unfolding nine_bytes
nine_bytes-shorter bs closed h s eq = ground (arith, length-drop 9 bs)
nine_bytes-shorter bs silent h s eq = ground (arith, length-drop 9 bs)

read_header-shorter :
    (n : ℕ) (bs : Bytes) (e : Ending) (h : Bytes) (s : Stream)
    → read_header n (record { bytes = bs; ending = e }) ≡ done (some (h, s))
    → length s.bytes < length bs
unfolding read_header
read_header-shorter n [] closed h s eq = absurd (cc)
read_header-shorter n [] silent h s eq = absurd (cc)
read_header-shorter n (c ∷ cs) e h s eq =
    nine_bytes-shorter (c ∷ cs) e h s (sym (read_header-eq-nine_bytes n c cs e) ∙ eq)

-- what a read has left of the stream
length_left : Outcome (Incoming × Stream) → ℕ
length_left (done (inc, s)) = length s.bytes
length_left _ = 0

read_body-shorter :
    (buf : Bytes) (s : Stream) (inc : Incoming) (s' : Stream)
    → read_body buf s ≡ done (inc, s')
    → length s'.bytes ≤ length s.bytes
unfolding read_body length_left
read_body-shorter buf s inc s' h = elim (Bool-cases (index buf 4 == 0)) [
  | inl z ↦
      let k : done (ping, s) ≡ done (inc, s') = rw (z, read_body) at h in
      omega (arith, ap length_left k)
  | inr z ↦ frame (rw (z, read_body) at h)
]
  where
    body : FrameOp → QoS → Outcome (Incoming × Stream)
    body op qos = with_timeout (read_exact (from_le_bytes (take 4 (drop 5 buf))) s) >>= λ (b, t).
        done (request (record { op_id = take 4 buf; op = op; qos = qos; buf = b }), t)

    frame :
        (from_result (op_of_code (bit_and (index buf 4) 0b0011_1111)) >>= λ op.
        from_result (qos_of_code (bit_and (index buf 4 / 64) 0b0011_1111)) >>= body op)
          ≡ done (inc, s')
        → length s'.bytes ≤ length s.bytes
    frame k =
        let (op, e, k₁) =
          >>=-eq-done (from_result (op_of_code (bit_and (index buf 4) 0b0011_1111))) _ k in
        let (qos, e₁, k₂) =
          >>=-eq-done (from_result (qos_of_code (bit_and (index buf 4 / 64) 0b0011_1111))) _ k₁ in
        let (got, e₂, k₃) =
          >>=-eq-done (with_timeout (read_exact (from_le_bytes (take 4 (drop 5 buf))) s)) _ k₂ in
        omega (
          arith,
          read_exact_bytes (from_le_bytes (take 4 (drop 5 buf))) s
              (with_timeout-eq-done (read_exact (from_le_bytes (take 4 (drop 5 buf))) s) e₂),
          ap length_left k₃,
        )

incoming_of : Outcome (Incoming × Stream) → Incoming
incoming_of (done (inc, s)) = inc
incoming_of _ = hangup

read_request-shorter :
    (ready : ℕ) (s : Stream) (inc : Incoming) (s' : Stream)
    → read_request ready s ≡ done (inc, s')
    → inc ≢ hangup
    → length s'.bytes < length s.bytes
unfolding read_request incoming_of
read_request-shorter ready s inc s' h ne =
    let (header, e, k) = >>=-eq-done (read_header ready s) _ h in read header e k
  where
    read :
        (header : Option (Bytes × Stream))
        → read_header ready s ≡ done header
        → (elim header as (λ _. Outcome (Incoming × Stream)) [
          | none ↦ done (hangup, s)
          | some (buf, t) ↦ read_body buf t
        ])
          ≡ done (inc, s')
        → length s'.bytes < length s.bytes
    read none e k = absurd (ne (sym (ap incoming_of k)))
    read (some (buf, t)) e k = omega (
      arith,
      read_header-shorter ready s.bytes s.ending buf t e,
      read_body-shorter buf t inc s' k,
    )

module _ (X : Maps) (A : Lists) (encode : BrokerEvent → Result Bytes) (room : ℕ → Room) (id : ℕ)
    (aaa : Option (ClientAaa A)) (ready : ℕ) where
  abbrev loop : ℕ → Stream → Db X → Ended × Db X
  loop = reader_loop X A encode room id aaa ready

  proceed-ends :
      (rest : Db X → Ended × Db X) (o : Outcome (Unit {0}) × Db X)
      → ((db : Db X) → (rest db).0 ≢ on_fuel)
      → (proceed X A encode room id aaa ready rest o).0 ≢ on_fuel
  unfolding proceed
  proceed-ends rest (done u, db) k = k db
  proceed-ends rest (failed e, db) k = λ p. cc
  proceed-ends rest (waits, db) k = λ p. cc

  after_read-ends :
      (rest : Stream → Db X → Ended × Db X) (o : Outcome (Incoming × Stream)) (db : Db X)
      → ((inc : Incoming) (s : Stream) (db : Db X)
          → o ≡ done (inc, s)
          → inc ≢ hangup
          → (rest s db).0 ≢ on_fuel)
      → (after_read X A encode room id aaa ready rest o db).0 ≢ on_fuel
  unfolding after_read
  after_read-ends rest (failed e) db k = λ p. cc
  after_read-ends rest waits db k = λ p. cc
  after_read-ends rest (done (hangup, s)) db k = λ p. cc
  after_read-ends rest (done (ping, s)) db k = k ping s db refl (λ p. cc)
  after_read-ends rest (done (request r, s)) db k =
      proceed-ends (rest s) _ (λ d. k (request r) s d refl (λ p. cc))

  reader_loop-ends :
      (fuel : ℕ) (s : Stream) (db : Db X) → length s.bytes < fuel → (loop fuel s db).0 ≢ on_fuel
  unfolding reader_loop
  reader_loop-ends zero s db h = absurd (omega arith)
  reader_loop-ends (suc fuel) s db h =
      after_read-ends (loop fuel) (read_request ready s) db (λ inc t d e ne.
        reader_loop-ends fuel t d (omega (arith, read_request-shorter ready s inc t e ne)))

  -- The broker's reader never runs out of the fuel that it is given: the peer hangs up, something
  -- goes wrong, or it waits.
  pub handle_reader_total :
      (s : Stream) (db : Db X) → (handle_reader X A encode room id aaa ready s db).0 ≢ on_fuel
  unfolding handle_reader
  handle_reader_total s db = reader_loop-ends (suc (length s.bytes)) s db (omega arith)

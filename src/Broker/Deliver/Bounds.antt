-- ===== src/Broker/Deliver/Bounds.antt =====
-- src/broker.rs: what the sending operations keep. Queues stay within their capacity, and the maps
-- stay consistent.
use elbus.Base.{
  ℕ, ◌≤◌, ◌<◌, ◌≡◌, refl, arith, Bool, true, false, [], ◌∷◌, length, drop, length-append,
  length-drop, Bool-cases, inl, inr, if◌then◌else◌,
}
use elbus.Proto.{Result, ok, err, error_eof, FrameData}
use elbus.Stream.{Outcome, done, failed, waits}
use elbus.Broker.Client.{is_internal, is_full, push, swap_one, close, count_read, count_write}
use elbus.Broker.Maps.{Maps}
use elbus.Broker.Db.{Db, modify}
use elbus.Broker.Registry.Invariant.{Inv, Inv-modify}
use elbus.Broker.Deliver.{
  Act, Room, freed, stuck, gone, wait_for_room, after_unregister, safe_send_frame, count_incoming,
  count_outgoing,
}
use elbus.Broker.Deliver.Keeps.{Keeps}

-- Every queue holds at most its capacity, which is not zero.
abbrev pub Bounded : (X : Maps) → Db X → Type 0
Bounded X db =
    (id : ℕ) → (length (db.heap id).queue ≤ (db.heap id).queue_size) × (0 < (db.heap id).queue_size)

module _ (X : Maps) (unregister : ℕ → Act X (Unit {0})) (room : ℕ → Room) (limited : Bool) where
  abbrev pub UnregisterKeeps : (Db X → Type 0) → Type 0
  UnregisterKeeps P = (id : ℕ) (db : Db X) → P db → P (unregister id db).1

  -- The steps of a delivery, given what `P` says of each of them.
  safe-keeps :
      (P : Db X → Type 0)
      → UnregisterKeeps P
      → ((i : ℕ) (f : FrameData) (db : Db X)
          → P db
          → is_full (db.heap i) ≡ false
          → P (modify db i (push f)))
      → ((i : ℕ) (f : FrameData) (db : Db X) → P db → P (modify db i (swap_one f)))
      → ((i : ℕ) (db : Db X) → P db → P (modify db i close))
      → (i : ℕ) (f : FrameData) (db : Db X) → P db
      → P (safe_send_frame X unregister room limited i f db).1
  unfolding safe_send_frame wait_for_room after_unregister
  safe-keeps P ku kp ks kc i f db v = elim (Bool-cases (is_full (db.heap i))) [
    | inr h ↦ rw (h, safe_send_frame) (put (db.heap i).closed (kp i f db v h))
    | inl h ↦ elim (Bool-cases (is_internal (db.heap i).kind)) [
      | inl g ↦ rw (h, g, safe_send_frame) (wait (room i) limited)
      | inr g ↦ rw (h, g, safe_send_frame) (left (unregister i db) (ku i db v))
    ]
  ]
    where
      put :
          (b : Bool)
          → P (modify db i (push f))
          → P
              (if◌then◌else◌ {A = Outcome (Result (Unit {0})) × Db X} b
                (done (err error_eof), db)
                (done (ok tt), modify db i (push f))).1
      put true w = v
      put false w = w

      wait : (r : Room) (b : Bool) → P (wait_for_room X r b f i db).1
      wait freed b = ks i f db v
      wait gone b = kc i db v
      wait stuck true = v
      wait stuck false = v

      left : (o : Outcome (Unit {0}) × Db X) → P o.1 → P (after_unregister X i o).1
      left (done u, d) w = kc i d w
      left (failed e, d) w = w
      left (waits, d) w = w

  pub Inv-Keeps : UnregisterKeeps (Inv X) → Keeps X unregister room limited (Inv X)
  unfolding count_incoming count_outgoing
  Inv-Keeps ku = record {
    reads = λ from len db v.
        let w = Inv-modify X db from (count_read len) (λ c. refl) (λ c. refl) v in
        record {
          subs = w.subs;
          casts = w.casts;
          names = w.names;
          flags = w.flags;
          unique = w.unique;
        };
    totals = λ n len db v. record {
      subs = v.subs;
      casts = v.casts;
      names = v.names;
      flags = v.flags;
      unique = v.unique;
    };
    writes = λ id len db v. Inv-modify X db id (count_write len) (λ c. refl) (λ c. refl) v;
    delivers =
        safe-keeps (Inv X) ku (λ i f db v h. Inv-modify X db i (push f) (λ c. refl) (λ c. refl) v)
          (λ i f db v. Inv-modify X db i (swap_one f) (λ c. refl) (λ c. refl) v)
          (λ i db v. Inv-modify X db i close (λ c. refl) (λ c. refl) v);
  }

  pub Bounded-Keeps : UnregisterKeeps (Bounded X) → Keeps X unregister room limited (Bounded X)
  unfolding count_incoming count_outgoing
  Bounded-Keeps ku = record {
    reads = λ from len db v id. ground (arith, v id);
    totals = λ n len db v id. v id;
    writes = λ i len db v id. ground (arith, v id);
    delivers =
        safe-keeps (Bounded X) ku
          (λ i f db v h id. ground (arith, v id, length-append (db.heap id).queue (f ∷ [])))
          (λ i f db v id. ground (
            arith,
            v id,
            length-append (drop 1 (db.heap id).queue) (f ∷ []),
            length-drop 1 (db.heap id).queue,
          ))
          (λ i db v id. ground (arith, v id));
  }

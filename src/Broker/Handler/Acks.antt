-- ===== src/Broker/Handler/Acks.antt =====
-- src/broker.rs, `handle_reader`: acknowledgements keep the broker safe.
use elbus.Base.{ℕ, ◌≡◌, refl, false, Bytes, Option, Bool-cases, inl, inr}
use elbus.Proto.{Result, ok, err, needs_ack, FrameData}
use elbus.Stream.{Outcome, done, failed, waits}
use elbus.Broker.Client.{is_full, push, swap_one, close}
use elbus.Broker.Maps.{Maps}
use elbus.Broker.Db.{Db}
use elbus.Broker.Deliver.{Room, freed, stuck, gone, BrokerEvent, wait_for_room, put_frame}
use elbus.Broker.Access.{Lists, ClientAaa}
use elbus.Broker.Request.{Request}
use elbus.Broker.Safety.{Safe}
use elbus.Broker.Safety.Steps.{Safe-modify, Safe-count, Fits-push, Fits-swap_one}
use elbus.Broker.Handler.{question, and_then, enqueue, send_ack, ack_if_needed}

module _ (X : Maps) (A : Lists) (encode : BrokerEvent → Result Bytes) (room : ℕ → Room) (id : ℕ)
    (aaa : Option (ClientAaa A)) where
  abbrev S : Db X → Type 0
  S = Safe X

  pub question-Safe :
      (o : Outcome (Result (Unit {0})) × Db X) → S o.1 → S (question X A encode room id aaa o).1
  unfolding question
  question-Safe (done (ok u), db) v = v
  question-Safe (done (err e), db) v = v
  question-Safe (failed e, db) v = v
  question-Safe (waits, db) v = v

  pub and_then-Safe :
      (o : Outcome (Unit {0}) × Db X) (f : Db X → Outcome (Unit {0}) × Db X)
      → ((db : Db X) → S db → S (f db).1)
      → S o.1
      → S (and_then X A encode room id aaa o f).1
  unfolding and_then
  and_then-Safe (done u, db) f k v = k db v
  and_then-Safe (failed e, db) f k v = v
  and_then-Safe (waits, db) f k v = v

  pub wait_for_room-Safe :
      (r : Room) (frame : FrameData) (db : Db X) → S db → S (wait_for_room X r false frame id db).1
  unfolding wait_for_room
  wait_for_room-Safe freed frame db v =
      Safe-modify X encode room db id (swap_one frame) (λ c. refl) (λ c. refl)
        (Fits-swap_one frame (db.heap id)) v
  wait_for_room-Safe gone frame db v =
      Safe-modify X encode room db id close (λ c. refl) (λ c. refl) (λ h. h) v
  wait_for_room-Safe stuck frame db v = v

  pub put_frame-Safe :
      (frame : FrameData) (db : Db X)
      → is_full (db.heap id) ≡ false
      → S db
      → S (put_frame X frame id db).1
  put_frame-Safe frame db h v = elim (Bool-cases (db.heap id).closed) [
    | inl g ↦ rw g v
    | inr g ↦ rw g (
        Safe-modify X encode room db id (push frame) (λ c. refl) (λ c. refl)
          (Fits-push frame (db.heap id) h) v)
  ]

  pub enqueue-Safe :
      (frame : FrameData) (db : Db X) → S db → S (enqueue X A encode room id aaa frame db).1
  unfolding enqueue
  enqueue-Safe frame db v = elim (Bool-cases (is_full (db.heap id))) [
    | inl h ↦ rw (h, enqueue) (question-Safe _ (wait_for_room-Safe (room id) frame db v))
    | inr h ↦ rw (h, enqueue) (question-Safe _ (put_frame-Safe frame db h v))
  ]

  pub ack_if_needed-Safe :
      (r : Request) (code : ℕ) (db : Db X)
      → S db
      → S (ack_if_needed X A encode room id aaa r code db).1
  unfolding ack_if_needed send_ack
  ack_if_needed-Safe r code db v = elim (Bool-cases (needs_ack r.qos)) [
    | inl h ↦
        rw (h, ack_if_needed)
          (enqueue-Safe _ _
            (Safe-count X encode room 0 1 _ _ (Safe-count X encode room id 0 _ db v).2).1)
    | inr h ↦ rw (h, ack_if_needed) v
  ]

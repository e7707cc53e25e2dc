-- ===== src/Broker/Deliver/Keeps.antt =====
-- src/broker.rs: what holds of the broker's state and is kept by each step of a delivery is kept by
-- the sending operations.
use elbus.Base.{ℕ, Bool, Bytes, List, [], ◌∷◌, none, some, length, Option-cases, inl, inr}
use elbus.Proto.{Result, FrameData, FrameKind}
use elbus.Stream.{Outcome, done, failed, waits}
use elbus.Broker.Client.{count_write}
use elbus.Broker.Maps.{Maps, Ref}
use elbus.Broker.Db.{Db, lookup, modify}
use elbus.Broker.Deliver.{
  Act, Room, Parcel, safe_send_frame, count_incoming, count_outgoing, frame_of, send, then_all,
  send_all, send_to_list, send_broadcast, publish,
}

-- The steps of a delivery keep `P`.
pub record Keeps (X : Maps) (unregister : ℕ → Act X (Unit {0})) (room : ℕ → Room) (limited : Bool)
    (P : Db X → Type 0) : Type 0 where
  pub reads : (from len : ℕ) (db : Db X) → P db → P (count_incoming X from len db)
  pub totals : (n len : ℕ) (db : Db X) → P db → P (count_outgoing X n len db)
  pub writes : (id len : ℕ) (db : Db X) → P db → P (modify db id (count_write len))
  pub delivers :
      (id : ℕ) (frame : FrameData) (db : Db X)
      → P db
      → P (safe_send_frame X unregister room limited id frame db).1

module _ (X : Maps) (unregister : ℕ → Act X (Unit {0})) (room : ℕ → Room) (limited : Bool)
    (P : Db X → Type 0) (k : Keeps X unregister room limited P) where
  pub send-keeps :
      (from : ℕ) (target : Bytes) (p : Parcel) (db : Db X)
      → P db
      → P (send X unregister room limited from target p db).1
  unfolding send
  send-keeps from target p db h =
      let h₁ = k.reads from p.len db h in
      elim (Option-cases (lookup target db.clients)) [
        | inl e ↦ rw (e, send) h₁
        | inr (id, e) ↦
            rw (e, send) (k.delivers id _ _ (k.totals 1 p.len _ (k.writes id p.len _ h₁)))
      ]

  then_all-keeps :
      (rest : Db X → Outcome (Unit {0}) × Db X)
      → ((db : Db X) → P db → P (rest db).1)
      → (o : Outcome (Result (Unit {0})) × Db X) → P o.1
      → P (then_all X unregister room limited rest o).1
  unfolding then_all
  then_all-keeps rest kr (done r, db) h = kr db h
  then_all-keeps rest kr (failed e, db) h = h
  then_all-keeps rest kr (waits, db) h = h

  send_all-keeps :
      (len : ℕ) (frame : FrameData) (cs : List Ref) (db : Db X)
      → P db
      → P (send_all X unregister room limited len frame cs db).1
  unfolding send_all
  send_all-keeps len frame [] db h = h
  send_all-keeps len frame (c ∷ cs) db h =
      then_all-keeps _ (send_all-keeps len frame cs) _
        (k.delivers c.id frame (modify db c.id (count_write len)) (k.writes c.id len db h))

  send_to_list-keeps :
      (len : ℕ) (frame : FrameData) (cs : List Ref) (db : Db X)
      → P db
      → P (send_to_list X unregister room limited len frame cs db).1
  unfolding send_to_list
  send_to_list-keeps len frame [] db h = h
  send_to_list-keeps len frame (c ∷ cs) db h =
      send_all-keeps len frame (c ∷ cs) _ (k.totals (length (c ∷ cs)) len db h)

  pub send_broadcast-keeps :
      (from : ℕ) (target : Bytes) (p : Parcel) (db : Db X)
      → P db
      → P (send_broadcast X unregister room limited from target p db).1
  unfolding send_broadcast
  send_broadcast-keeps from target p db h =
      let db₁ = count_incoming X from p.len db in
      send_to_list-keeps p.len (frame_of X FrameKind.broadcast (db₁.heap from).name none p)
        (X.get_clients_by_mask db₁.broadcasts target) db₁ (k.reads from p.len db h)

  pub publish-keeps :
      (from : ℕ) (topic : Bytes) (p : Parcel) (db : Db X)
      → P db
      → P (publish X unregister room limited from topic p db).1
  unfolding publish
  publish-keeps from topic p db h =
      let db₁ = count_incoming X from p.len db in
      send_to_list-keeps p.len (frame_of X FrameKind.publish (db₁.heap from).name (some topic) p)
        (X.get_subscribers db₁.subscriptions topic) db₁ (k.reads from p.len db h)

-- ===== src/Broker/Deliver/Effects.antt =====
-- src/broker.rs: what a delivery puts into which queue.
use elbus.Base.{
  ℕ, ◌≡◌, refl, subst, arith, Bool, true, false, Bytes, List, [], ◌∷◌, ◌++◌, none, some,
  if◌then◌else◌, ◌==◌, length, All,
}
use elbus.Proto.{ok, FrameKind, FrameData}
use elbus.Stream.{done}
use elbus.Broker.Client.{ElbusClient, is_full, push, count_write}
use elbus.Broker.Maps.{Maps, Ref}
use elbus.Broker.Db.{Db, lookup, modify}
use elbus.Broker.Deliver.{
  Act, Room, Parcel, safe_send_frame, count_incoming, count_outgoing, frame_of, send, then_all,
  send_all, send_to_list, send_broadcast, publish,
}

-- The object has room for a frame, and someone who may still take it.
abbrev pub HasRoom : ElbusClient → Type 0
HasRoom c = (is_full c ≡ false) × (c.closed ≡ false)

-- Whether an object is among the receivers.
unfoldable pub listed : ℕ → List Ref → Bool
listed i [] = false
listed i (c ∷ cs) = let rest = listed i cs in if c.id == i then true else rest

-- No object is listed twice.
abbrev pub Distinct : List Ref → Type 0
Distinct [] = Unit {0}
Distinct (c ∷ cs) = (listed c.id cs ≡ false) × Distinct cs

module _ (X : Maps) (unregister : ℕ → Act X (Unit {0})) (room : ℕ → Room) (limited : Bool) where
  safe_send_frame-room :
      (id : ℕ) (frame : FrameData) (db : Db X)
      → HasRoom (db.heap id)
      → safe_send_frame X unregister room limited id frame db
        ≡ (done (ok tt), modify db id (push frame))
  unfolding safe_send_frame
  safe_send_frame-room id frame db (h, g) = rw (h, g, safe_send_frame) refl

  -- The queues after a frame has gone to some objects.
  abbrev pub Queued : (ℕ → Bool) → FrameData → Db X → Db X → Type 0
  Queued to frame before after =
      (i : ℕ)
      → (after.heap i).queue
        ≡ (if to i then (before.heap i).queue ++ (frame ∷ []) else (before.heap i).queue)

  -- A message to a registered client with room in its queue is put behind what waits there, with the
  -- sender's name, and into no other queue, and the sender learns that it is delivered.
  pub send-Queued :
      (from id : ℕ) (target : Bytes) (p : Parcel) (db : Db X)
      → lookup target db.clients ≡ some id
      → HasRoom (db.heap id)
      → let r = send X unregister room limited from target p db in
        (r.0 ≡ done (ok tt))
        × Queued (λ i. id == i) (frame_of X FrameKind.message (db.heap from).name none p) db r.1
  unfolding send count_incoming count_outgoing
  send-Queued from id target p db e (h, g) =
      let s =
        safe_send_frame-room id
          (frame_of X FrameKind.message ((count_incoming X from p.len db).heap from).name none p)
          (count_outgoing X 1 p.len
            (modify (count_incoming X from p.len db) id (count_write p.len)))
          (ground (arith, h), ground (arith, g)) in
      (rw (e, s, send) refl, λ i. rw (e, s, send) (ground arith))

  HasRoom-send :
      (i j len : ℕ) (frame : FrameData) (db : Db X)
      → (i == j) ≡ false
      → HasRoom (db.heap j)
      → HasRoom ((modify (modify db i (count_write len)) i (push frame)).heap j)
  HasRoom-send i j len frame db h v = ground (arith, h, v)

  send_keeps_room :
      (i len : ℕ) (frame : FrameData) (db : Db X) (cs : List Ref)
      → listed i cs ≡ false
      → All (λ (c : Ref). HasRoom (db.heap c.id)) cs
      → All
          (λ (c : Ref). HasRoom ((modify (modify db i (count_write len)) i (push frame)).heap c.id))
          cs
  unfolding listed
  send_keeps_room i len frame db [] h v = tt
  send_keeps_room i len frame db (c ∷ cs) h v = (
    HasRoom-send i c.id len frame db (ground (arith, h)) v.0,
    send_keeps_room i len frame db cs (ground (arith, h)) v.1,
  )

  send_all-Queued :
      (len : ℕ) (frame : FrameData) (cs : List Ref) (db : Db X)
      → Distinct cs
      → All (λ (c : Ref). HasRoom (db.heap c.id)) cs
      → let r = send_all X unregister room limited len frame cs db in
        (r.0 ≡ done tt) × Queued (λ i. listed i cs) frame db r.1
  unfolding send_all then_all listed
  send_all-Queued len frame [] db d v = (refl, λ i. refl)
  send_all-Queued len frame (c ∷ cs) db (d, ds) (v, vs) =
      let db₁ = modify db c.id (count_write len) in
      let s = safe_send_frame-room c.id frame db₁ (ground (arith, v.0), ground (arith, v.1)) in
      let (o, q) =
        send_all-Queued len frame cs (modify db₁ c.id (push frame)) ds
          (send_keeps_room c.id len frame db cs d vs) in
      (rw (s, send_all) o, λ i. rw (s, send_all) (ground (arith, q i, d)))

  count_keeps_room :
      (from n len : ℕ) (db : Db X) (cs : List Ref)
      → All (λ (c : Ref). HasRoom (db.heap c.id)) cs
      → All
          (λ (c : Ref). HasRoom ((count_outgoing X n len (count_incoming X from len db)).heap c.id))
          cs
  unfolding count_incoming count_outgoing
  count_keeps_room from n len db [] v = tt
  count_keeps_room from n len db (c ∷ cs) v =
      (ground (arith, v.0), count_keeps_room from n len db cs v.1)

  send_to_list-Queued :
      (from len : ℕ) (frame : FrameData) (cs : List Ref) (db : Db X)
      → Distinct cs
      → All (λ (c : Ref). HasRoom (db.heap c.id)) cs
      → let r =
          send_to_list X unregister room limited len frame cs (count_incoming X from len db) in
        (r.0 ≡ done tt) × Queued (λ i. listed i cs) frame db r.1
  unfolding send_to_list listed count_incoming count_outgoing
  send_to_list-Queued from len frame [] db d v = (refl, λ i. ground arith)
  send_to_list-Queued from len frame (c ∷ cs) db d v =
      let (o, q) =
        send_all-Queued len frame (c ∷ cs)
          (count_outgoing X (length (c ∷ cs)) len (count_incoming X from len db)) d
          (count_keeps_room from (length (c ∷ cs)) len db (c ∷ cs) v) in
      (o, λ i. ground (arith, q i))

  sender-count_incoming :
      (from len : ℕ) (db : Db X)
      → ((count_incoming X from len db).heap from).name ≡ (db.heap from).name
  unfolding count_incoming
  sender-count_incoming from len db = ground arith

  -- A publication goes to the queue of every subscriber of its topic, once and at the end, and to no
  -- other queue, if the subscribers are distinct clients with room in their queues.
  pub publish-Queued :
      (from : ℕ) (topic : Bytes) (p : Parcel) (db : Db X)
      → Distinct (X.get_subscribers db.subscriptions topic)
      → All (λ (c : Ref). HasRoom (db.heap c.id)) (X.get_subscribers db.subscriptions topic)
      → let r = publish X unregister room limited from topic p db in
        (r.0 ≡ done tt)
        × Queued
            (λ i. listed i (X.get_subscribers db.subscriptions topic))
            (frame_of X FrameKind.publish (db.heap from).name (some topic) p)
            db
            r.1
  unfolding publish
  publish-Queued from topic p db d v =
      let r = publish X unregister room limited from topic p db in
      subst
        (λ (n : Bytes).
          (r.0 ≡ done tt)
          × Queued (λ i. listed i (X.get_subscribers db.subscriptions topic))
              (frame_of X FrameKind.publish n (some topic) p) db r.1)
        (sender-count_incoming from p.len db)
        (send_to_list-Queued from p.len
          (frame_of X FrameKind.publish ((count_incoming X from p.len db).heap from).name
            (some topic) p)
          (X.get_subscribers db.subscriptions topic) db d v)

  -- A broadcast goes to the queue of every client that its mask matches, once and at the end, and to
  -- no other queue, if these are distinct clients with room in their queues.
  pub send_broadcast-Queued :
      (from : ℕ) (mask : Bytes) (p : Parcel) (db : Db X)
      → Distinct (X.get_clients_by_mask db.broadcasts mask)
      → All (λ (c : Ref). HasRoom (db.heap c.id)) (X.get_clients_by_mask db.broadcasts mask)
      → let r = send_broadcast X unregister room limited from mask p db in
        (r.0 ≡ done tt)
        × Queued
            (λ i. listed i (X.get_clients_by_mask db.broadcasts mask))
            (frame_of X FrameKind.broadcast (db.heap from).name none p)
            db
            r.1
  unfolding send_broadcast
  send_broadcast-Queued from mask p db d v =
      let r = send_broadcast X unregister room limited from mask p db in
      subst
        (λ (n : Bytes).
          (r.0 ≡ done tt)
          × Queued (λ i. listed i (X.get_clients_by_mask db.broadcasts mask))
              (frame_of X FrameKind.broadcast n none p) db r.1)
        (sender-count_incoming from p.len db)
        (send_to_list-Queued from p.len
          (frame_of X FrameKind.broadcast ((count_incoming X from p.len db).heap from).name none p)
          (X.get_clients_by_mask db.broadcasts mask) db d v)

-- ===== src/Broker/Safety/Steps.antt =====
-- src/broker.rs: single changes of the broker's state that keep it safe.
use elbus.Base.{
  ℕ, ◌≤◌, ◌<◌, ◌≡◌, refl, arith, Bool, false, Bytes, length, [], ◌∷◌, drop, length-append,
  length-drop,
}
use elbus.Proto.{Result, FrameData}
use elbus.Broker.Client.{ElbusClient, is_full, push, swap_one, count_read, count_write}
use elbus.Broker.Maps.{Maps}
use elbus.Broker.Db.{Db, modify}
use elbus.Broker.Registry.Invariant.{Inv-modify}
use elbus.Broker.Deliver.{Room, BrokerEvent, count_incoming, count_outgoing}
use elbus.Broker.Deliver.Keeps.{Keeps}
use elbus.Broker.Announce.{unregister_client, unregister_locked}
use elbus.Broker.Safety.{Safe, delivery_Inv, delivery_Bounded, locked_Inv, locked_Bounded}

-- The queue holds at most its capacity, which is not zero.
abbrev pub Fits : ElbusClient → Type 0
Fits c = (length c.queue ≤ c.queue_size) × (0 < c.queue_size)

pub Fits-push : (f : FrameData) (c : ElbusClient) → is_full c ≡ false → Fits c → Fits (push f c)
Fits-push f c h v = ground (arith, length-append c.queue (f ∷ []))

pub Fits-swap_one : (f : FrameData) (c : ElbusClient) → Fits c → Fits (swap_one f c)
Fits-swap_one f c v = ground (arith, length-append (drop 1 c.queue) (f ∷ []), length-drop 1 c.queue)

module _ (X : Maps) (encode : BrokerEvent → Result Bytes) (room : ℕ → Room) where
  -- A change of one object that keeps its name, its mark and the bound of its queue.
  pub Safe-modify :
      (db : Db X) (id : ℕ) (f : ElbusClient → ElbusClient)
      → ((c : ElbusClient) → (f c).name ≡ c.name)
      → ((c : ElbusClient) → (f c).registered ≡ c.registered)
      → (Fits (db.heap id) → Fits (f (db.heap id)))
      → Safe X db
      → Safe X (modify db id f)
  Safe-modify db id f hn hr hf v = record {
    consistent = Inv-modify X db id f hn hr v.consistent;
    bounded = λ i. ground (arith, v.bounded i, hf (v.bounded id));
  }

  -- Counting frames changes no name, no mark and no queue.
  pub Safe-count :
      (id n len : ℕ) (db : Db X)
      → Safe X db
      → Safe X (count_incoming X id len db)
        × Safe X (count_outgoing X n len db)
        × Safe X (modify db id (count_write len))
  unfolding count_incoming count_outgoing
  Safe-count id n len db v =
      let w = Safe-modify db id (count_read len) (λ c. refl) (λ c. refl) (λ h. h) v in
      (
        record {
          consistent = record {
            subs = w.consistent.subs;
            casts = w.consistent.casts;
            names = w.consistent.names;
            flags = w.consistent.flags;
            unique = w.consistent.unique;
          };
          bounded = w.bounded;
        },
        record {
          consistent = record {
            subs = v.consistent.subs;
            casts = v.consistent.casts;
            names = v.consistent.names;
            flags = v.consistent.flags;
            unique = v.consistent.unique;
          };
          bounded = v.bounded;
        },
        Safe-modify db id (count_write len) (λ c. refl) (λ c. refl) (λ h. h) v,
      )

  -- Another map of subscriptions, with the same clients in it.
  pub Safe-subscriptions :
      (db : Db X) (subs : X.Subs)
      → ((n : Bytes) → X.has subs n ≡ X.has db.subscriptions n)
      → Safe X db
      → Safe X (record db { subscriptions = subs })
  Safe-subscriptions db subs h v = record {
    consistent = record {
      subs = λ n. ground (arith, h n, v.consistent.subs n);
      casts = v.consistent.casts;
      names = v.consistent.names;
      flags = v.consistent.flags;
      unique = v.consistent.unique;
    };
    bounded = v.bounded;
  }

  -- A delivery, whatever it comes to.
  pub Safe-Keeps :
      (limited : Bool) → Keeps X (unregister_client X encode room) room limited (Safe X)
  Safe-Keeps limited =
      let a = delivery_Inv X encode room limited in
      let b = delivery_Bounded X encode room limited in
      record {
        reads = λ from len db v. (Safe-count from 0 len db v).0;
        totals = λ n len db v. (Safe-count 0 n len db v).1;
        writes = λ id len db v. (Safe-count id 0 len db v).2;
        delivers = λ id frame db v. record {
          consistent = a.delivers id frame db v.consistent;
          bounded = b.delivers id frame db v.bounded;
        };
      }

  -- A delivery while the lock of the core client is held.
  pub Safe-locked-Keeps : Keeps X (unregister_locked X encode room) room false (Safe X)
  Safe-locked-Keeps =
      let a = locked_Inv X encode room in
      let b = locked_Bounded X encode room in
      record {
        reads = λ from len db v. (Safe-count from 0 len db v).0;
        totals = λ n len db v. (Safe-count 0 n len db v).1;
        writes = λ id len db v. (Safe-count id 0 len db v).2;
        delivers = λ id frame db v. record {
          consistent = a.delivers id frame db v.consistent;
          bounded = b.delivers id frame db v.bounded;
        };
      }

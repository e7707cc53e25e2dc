-- ===== src/Broker/Maps.antt =====
-- What src/broker.rs uses of the crate `submap`, which is not part of the repository: the map of
-- subscriptions and the map of broadcast names, with the behaviour that the broker relies on.
use elbus.Base.{ℕ, Bool, true, false, Bytes, List, All, ◌≡◌, if◌then◌else◌, eq_bytes}

-- An `Arc<ElbusClient>`: the object, and the name by which clients are compared and hashed.
pub record Ref : Type 0 where
  pub id : ℕ
  pub name : Bytes

pub record Maps : Type 1 where
  -- `SubMap<BrokerClient>`; `has` is whether a client of that name is registered in it.
  pub Subs : Type 0
  pub register_client : Subs → Ref → Subs
  pub unregister_client : Subs → Ref → Subs
  pub subscribe : Subs → Bytes → Ref → Subs × Bool
  pub unsubscribe : Subs → Bytes → Ref → Subs × Bool
  pub get_subscribers : Subs → Bytes → List Ref
  pub has : Subs → Bytes → Bool
  pub has-register :
      (s : Subs) (c : Ref) (n : Bytes)
      → has (register_client s c) n ≡ (if eq_bytes c.name n then true else has s n)
  pub has-unregister :
      (s : Subs) (c : Ref) (n : Bytes)
      → has (unregister_client s c) n ≡ (if eq_bytes c.name n then false else has s n)
  pub has-subscribe :
      (s : Subs) (t : Bytes) (c : Ref) (n : Bytes) → has (subscribe s t c).0 n ≡ has s n
  pub has-unsubscribe :
      (s : Subs) (t : Bytes) (c : Ref) (n : Bytes) → has (unsubscribe s t c).0 n ≡ has s n
  -- whether the client could subscribe, or unsubscribe: whether it is registered
  pub subscribe_result : (s : Subs) (t : Bytes) (c : Ref) → (subscribe s t c).1 ≡ has s c.name
  pub unsubscribe_result : (s : Subs) (t : Bytes) (c : Ref) → (unsubscribe s t c).1 ≡ has s c.name
  -- `BroadcastMap<BrokerClient>`
  pub Casts : Type 0
  pub register_name : Casts → Bytes → Ref → Casts
  pub unregister_name : Casts → Bytes → Ref → Casts
  pub get_clients_by_mask : Casts → Bytes → List Ref
  pub knows : Casts → Bytes → Bool
  pub knows-register :
      (s : Casts) (m : Bytes) (c : Ref) (n : Bytes)
      → knows (register_name s m c) n ≡ (if eq_bytes m n then true else knows s n)
  pub knows-unregister :
      (s : Casts) (m : Bytes) (c : Ref) (n : Bytes)
      → knows (unregister_name s m c) n ≡ (if eq_bytes m n then false else knows s n)
  -- only registered clients are subscribers, or match a mask
  pub subscribers_registered :
      (s : Subs) (t : Bytes) → All (λ (c : Ref). has s c.name ≡ true) (get_subscribers s t)
  pub masked_registered :
      (s : Casts) (m : Bytes) → All (λ (c : Ref). knows s c.name ≡ true) (get_clients_by_mask s m)

-- The maps that a new broker has: nobody is registered in them.
pub record NewMaps (X : Maps) : Type 0 where
  pub new_subs : X.Subs
  pub new_casts : X.Casts
  pub has-new : (n : Bytes) → X.has new_subs n ≡ false
  pub knows-new : (n : Bytes) → X.knows new_casts n ≡ false

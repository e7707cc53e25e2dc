-- ===== src/Broker/Registry.antt =====
-- src/broker.rs: `insert_client`, `drop_client` and `trigger_disconnect` of `BrokerDb`.
pub mod Invariant
pub mod Effects
use elbus.Base.{ℕ, zero, suc, true, Bytes, List, [], ◌∷◌, Option, none, some, if◌then◌else◌, codes}
use elbus.Proto.{
  Result, ok, err, error_not_registered, error_busy, error_not_supported, with_text, literal,
}
use elbus.Broker.Client.{
  is_internal, add_secondary, remove_secondary, clear_secondaries, set_registered, set_disconnect,
}
use elbus.Broker.Maps.{Maps}
use elbus.Broker.Db.{Db, lookup, remove, insert, modify, ref}

abbrev pub broker_warn_topic : Bytes
broker_warn_topic = codes ".broker/warn"

module _ (X : Maps) where
  -- What the vacant entry is filled with: the primary client of a secondary one learns of it, and
  -- the three maps get the client.
  unfoldable pub join_primary : Db X → Bytes → Option ℕ → Db X
  join_primary db name none = db
  join_primary db name (some p) = modify db p (add_secondary name)

  unfoldable pub join_maps : Db X → ℕ → Db X
  join_maps db id =
      let c = ref db id in
      record (modify db id (set_registered true)) {
        broadcasts = X.register_name db.broadcasts c.name c;
        subscriptions = (X.subscribe (X.register_client db.subscriptions c) broker_warn_topic c).0;
        clients = insert c.name id db.clients;
      }

  unfoldable pub fill_entry : Db X → ℕ → Option ℕ → Db X
  unfolding join_primary join_maps
  fill_entry db id pc = join_maps (join_primary db (db.heap id).name pc) id

  unfoldable pub take_entry : Db X → ℕ → Option ℕ → Result (Unit {0}) × Db X
  unfolding fill_entry
  take_entry db id pc = elim (lookup (db.heap id).name db.clients) [
    | none ↦ (ok tt, fill_entry db id pc)
    | some _ ↦
        (err (error_busy (with_text "the client is already registred: " (db.heap id).name)), db)
  ]

  unfoldable pub insert_client : Db X → ℕ → Result (Unit {0}) × Db X
  unfolding take_entry
  insert_client db id =
      if (db.heap id).primary
      then take_entry db id none
      else elim (lookup (db.heap id).primary_name db.clients) [
        | none ↦ (err error_not_registered, db)
        | some p ↦ take_entry db id (some p)
      ]

  unfoldable pub trigger_disconnect : Db X → Bytes → Result (Unit {0}) × Db X
  trigger_disconnect db name = elim (lookup name db.clients) [
    | none ↦ (err error_not_registered, db)
    | some id ↦
        if is_internal (db.heap id).kind
        then (err (error_not_supported (literal "the client is internal")), db)
        else (ok tt, modify db id set_disconnect)
  ]

  -- the client leaves the three maps, by its name
  unfoldable pub leave_maps : Db X → ℕ → Db X
  leave_maps db id =
      let c = ref db id in
      record db {
        subscriptions = X.unregister_client db.subscriptions c;
        broadcasts = X.unregister_name db.broadcasts c.name c;
        clients = remove c.name db.clients;
      }

  unfoldable pub trigger_secondary : Db X → ℕ → Db X
  trigger_secondary db id =
      if is_internal (db.heap id).kind then db else modify db id set_disconnect

  -- the loop over the secondary clients, with the call that drops one
  unfoldable pub drop_secondaries : (Db X → ℕ → Db X) → Db X → List Bytes → Db X
  unfolding trigger_secondary
  drop_secondaries dropping db [] = db
  drop_secondaries dropping db (s ∷ ss) =
      drop_secondaries dropping
        (elim (lookup s db.clients) [ none ↦ db | some id ↦ dropping (trigger_secondary db id) id ])
        ss

  -- a secondary client leaves the set of its primary one, if that is registered
  unfoldable pub leave_primary : Db X → ℕ → Db X
  leave_primary db id = elim (lookup (db.heap id).primary_name db.clients) [
    | none ↦ db
    | some p ↦ modify db p (remove_secondary (db.heap id).name)
  ]

  -- `drop_client`, with fuel for the depth of its calls of itself.
  unfoldable pub drop_to_depth : ℕ → Db X → ℕ → Db X
  unfolding leave_maps drop_secondaries leave_primary
  drop_to_depth zero db id = db
  drop_to_depth (suc depth) db id =
      let secs = (db.heap id).secondaries in
      let rest = drop_secondaries (drop_to_depth depth) (leave_maps db id) secs in
      if (db.heap id).primary
      then modify rest id clear_secondaries
      else leave_primary (leave_maps db id) id

  -- Only a primary client's secondary ones are dropped along with it, so two calls deep is enough.
  unfoldable pub drop_client : Db X → ℕ → Db X
  unfolding drop_to_depth
  drop_client = drop_to_depth 2

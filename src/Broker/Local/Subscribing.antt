-- ===== src/Broker/Local/Subscribing.antt =====
-- src/broker.rs, `Client`: when the broker's own clients may subscribe and unsubscribe.
use elbus.Base.{ℕ, ◌≡◌, refl, arith, Bool, Bytes, List, [], ◌∷◌, if◌then◌else◌}
use elbus.Proto.{Result, err, error_not_registered, QoS}
use elbus.Broker.Maps.{Maps}
use elbus.Broker.Db.{Db, lookup, ref}
use elbus.Broker.Registry.Invariant.{Inv, is_some}
use elbus.Broker.Local.{
  Confirm, make_confirm_channel, confirmed, subscribe, unsubscribe, for_topics, subscribe_bulk,
  unsubscribe_bulk,
}

module _ (X : Maps) where
  -- The answer for a client: a confirmation if a client of its name is registered, or else an error.
  abbrev pub answer_for : Db X → ℕ → QoS → Result Confirm
  answer_for db id qos =
      if is_some (lookup (db.heap id).name db.clients)
      then make_confirm_channel qos
      else err error_not_registered

  -- A loop whose steps all answer alike answers like each of them.
  for_topics-alike :
      (one : X.Subs → Bytes → X.Subs × Bool) (n t : Bytes) (ts : List Bytes) (s : X.Subs)
      → ((s : X.Subs) (t : Bytes) → (one s t).1 ≡ X.has s n)
      → ((s : X.Subs) (t : Bytes) → X.has (one s t).0 n ≡ X.has s n)
      → (for_topics X one (t ∷ ts) s).1 ≡ X.has s n
  unfolding for_topics
  for_topics-alike one n t [] s answers keeps = ground (arith, answers s t)
  for_topics-alike one n t (u ∷ ts) s answers keeps =
      ground (arith, answers s t, keeps s t, for_topics-alike one n u ts (one s t).0 answers keeps)

  -- Under consistent maps, a client of the broker's own may subscribe to a topic, or unsubscribe from
  -- one, exactly if a client of its name is registered, and likewise for several topics at once.
  pub subscribing-answer :
      (db : Db X) (id : ℕ) (t : Bytes) (ts : List Bytes) (qos : QoS)
      → Inv X db
      → ((subscribe X id t qos db).0 ≡ answer_for db id qos)
        × ((unsubscribe X id t qos db).0 ≡ answer_for db id qos)
        × ((subscribe_bulk X id (t ∷ ts) qos db).0 ≡ answer_for db id qos)
        × ((unsubscribe_bulk X id (t ∷ ts) qos db).0 ≡ answer_for db id qos)
  unfolding subscribe unsubscribe subscribe_bulk unsubscribe_bulk confirmed
  subscribing-answer db id t ts qos v =
      let c = ref db id in
      let known = v.subs (db.heap id).name in
      (
        rw (X.subscribe_result db.subscriptions t c, known) refl,
        rw (X.unsubscribe_result db.subscriptions t c, known) refl,
        rw
            (
              for_topics-alike (λ s t. X.subscribe s t c) c.name t ts db.subscriptions
                  (λ s t. X.subscribe_result s t c) (λ s t. X.has-subscribe s t c c.name),
              known,
            )
            refl,
        rw
            (
              for_topics-alike (λ s t. X.unsubscribe s t c) c.name t ts db.subscriptions
                  (λ s t. X.unsubscribe_result s t c) (λ s t. X.has-unsubscribe s t c c.name),
              known,
            )
            refl,
      )

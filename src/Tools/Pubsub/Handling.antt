-- ===== src/Tools/Pubsub/Handling.antt =====
-- src/tools/pubsub.rs: what registering does to the maps, and what a handler is given.
use elbus.Base.{
  ℕ, ◌≡◌, refl, sym, ◌∙◌, ap, arith, true, Bytes, [], ◌++◌, Option, none, some, if◌then◌else◌,
  length, drop, starts_with, starts_with→append, eq_bytes, Option-cases, inl, inr, le→leb,
  length-append,
}
use elbus.Proto.{Result, ok, err, FrameData, slice_from}
use elbus.Stream.{Outcome, done, >>=-eq-done}
use elbus.Broker.Db.{lookup}
use elbus.Tools.Pubsub.{
  Publication, subtopic, TopicBroker, register_topic_tx, register_prefix_tx, register_topic,
  register_prefix, route, with_channel, process, pass_on, Processed,
}
use elbus.Tools.Pubsub.Order.{IsSorted, insert_entry-IsSorted}
use elbus.Tools.Pubsub.Routing.{Goes, exactly, by_prefix, nowhere, route-Goes, lookup-insert_entry}

-- Both maps are in the order of their keys.
pub record IsOrdered (b : TopicBroker) : Type 0 where
  pub topics : IsSorted b.topics
  pub prefixes : IsSorted b.prefixes

-- What registering comes to: an error that changes nothing, for a name that is taken; or the name,
-- which was free, with the channel, and every other name as before.
abbrev pub Taken :
    Bytes
    → ℕ
    → Option ℕ
    → TopicBroker
    → Result ℕ × TopicBroker
    → (Bytes → Option ℕ)
    → (Bytes → Option ℕ)
    → Type 0
Taken name tx old b (err e, after) before found = (after ≡ b) × ((ty : ℕ) × (old ≡ some ty))
Taken name tx old b (ok channel, after) before found =
    (channel ≡ tx)
    × (old ≡ none)
    × ((n : Bytes) → found n ≡ (if eq_bytes name n then some tx else before n))

-- Registering a topic takes its name, if that is free, for the channel, and no other name, and leaves
-- the prefixes alone; registering a prefix does the same for prefixes. The maps stay in order.
pub register-Taken :
    (b : TopicBroker) (name : Bytes) (tx : ℕ)
    → IsOrdered b
    → let t = register_topic b name tx in
      let p = register_prefix b name tx in
      Taken name tx (lookup name b.topics) b t (λ n. lookup n b.topics) (λ n. lookup n t.1.topics)
      × IsOrdered t.1
      × (t.1.prefixes ≡ b.prefixes)
      × Taken name tx
          (lookup name b.prefixes)
          b
          p
          (λ n. lookup n b.prefixes)
          (λ n. lookup n p.1.prefixes)
      × IsOrdered p.1
      × (p.1.topics ≡ b.topics)
unfolding register_topic register_prefix register_topic_tx register_prefix_tx with_channel
register-Taken b name tx v = (topic.0, topic.1, topic.2, prefix.0, prefix.1, prefix.2)
  where
    topic :
        Taken name tx
          (lookup name b.topics)
          b
          (register_topic b name tx)
          (λ n. lookup n b.topics)
          (λ n. lookup n (register_topic b name tx).1.topics)
        × IsOrdered (register_topic b name tx).1
        × ((register_topic b name tx).1.prefixes ≡ b.prefixes)
    topic = elim (Option-cases (lookup name b.topics)) [
      | inl h ↦
          rw (h, register_topic, register_topic_tx, with_channel)
            (
              (refl, refl, λ n. lookup-insert_entry name n tx b.topics h),
              record {
                topics = insert_entry-IsSorted name tx b.topics h v.topics;
                prefixes = v.prefixes;
              },
              refl,
            )
      | inr (ty, h) ↦
          rw (h, register_topic, register_topic_tx, with_channel) ((refl, (ty, refl)), v, refl)
    ]

    prefix :
        Taken name tx
          (lookup name b.prefixes)
          b
          (register_prefix b name tx)
          (λ n. lookup n b.prefixes)
          (λ n. lookup n (register_prefix b name tx).1.prefixes)
        × IsOrdered (register_prefix b name tx).1
        × ((register_prefix b name tx).1.topics ≡ b.topics)
    prefix = elim (Option-cases (lookup name b.prefixes)) [
      | inl h ↦
          rw (h, register_prefix, register_prefix_tx, with_channel)
            (
              (refl, refl, λ n. lookup-insert_entry name n tx b.prefixes h),
              record {
                topics = v.topics;
                prefixes = insert_entry-IsSorted name tx b.prefixes h v.prefixes;
              },
              refl,
            )
      | inr (ty, h) ↦
          rw (h, register_prefix, register_prefix_tx, with_channel) ((refl, (ty, refl)), v, refl)
    ]

-- What a frame that has been processed comes to: it is returned, because it has no topic or its topic
-- goes nowhere; or it went to a channel, with the topic split into what is registered there (nothing,
-- for the topic itself) and the subtopic.
pub data Handled (b : TopicBroker) (f : FrameData) (r : Processed) : Type 0 where
  untitled : f.topic ≡ none → r.returned ≡ some f → r.sent ≡ none → Handled b f r
  unwanted :
      (topic : Bytes)
      → f.topic ≡ some topic
      → Goes b topic none
      → r.returned ≡ some f
      → r.sent ≡ none
      → Handled b f r
  handed :
      (topic p s : Bytes) (tx : ℕ)
      → f.topic ≡ some topic
      → Goes b topic (some (tx, length p))
      → r.returned ≡ none
      → r.sent ≡ some (tx, record { subtopic_pos = length p; frame = f })
      → subtopic (record { subtopic_pos = length p; frame = f }) ≡ some s
      → p ++ s ≡ topic
      → Handled b f r

subtopic-length :
    (f : FrameData) (p topic : Bytes)
    → f.topic ≡ some topic
    → starts_with p topic ≡ true
    → (subtopic (record { subtopic_pos = length p; frame = f }) ≡ some (drop (length p) topic))
      × (p ++ drop (length p) topic ≡ topic)
unfolding subtopic slice_from
subtopic-length f p topic h k =
    let e = starts_with→append p topic k in
    (
      ground (
        arith,
        h,
        le→leb (length p) (length topic)
            (omega (arith, ap length e, length-append p (drop (length p) topic))),
      ),
      e,
    )

pass_on-sent :
    (send : ℕ → Publication → Outcome (Unit {0})) (f : FrameData) (tx pos : ℕ) (r : Processed)
    → pass_on send f (some (tx, pos)) ≡ done r
    → (r.returned ≡ none) × (r.sent ≡ some (tx, record { subtopic_pos = pos; frame = f }))
unfolding pass_on
pass_on-sent send f tx pos r h =
    let (u, e, k) = >>=-eq-done (send tx (record { subtopic_pos = pos; frame = f })) _ h in
    (ground (arith, k), ground (arith, k))

pass_on-none :
    (send : ℕ → Publication → Outcome (Unit {0})) (f : FrameData) (r : Processed)
    → pass_on send f none ≡ done r
    → (r.returned ≡ some f) × (r.sent ≡ none)
unfolding pass_on
pass_on-none send f r h = (ground (arith, h), ground (arith, h))

routed-Handled :
    (send : ℕ → Publication → Outcome (Unit {0})) (b : TopicBroker) (f : FrameData) (topic : Bytes)
    (r : Processed)
    → f.topic ≡ some topic
    → {to : Option (ℕ × ℕ)} → Goes b topic to
    → pass_on send f to ≡ done r
    → Handled b f r
unfolding starts_with
routed-Handled send b f topic r t (nowhere l n) h =
    let (back, out) = pass_on-none send f r h in unwanted topic t (nowhere l n) back out
routed-Handled send b f topic r t (exactly tx l) h =
    let (back, out) = pass_on-sent send f tx 0 r h in
    let (sub, e) = subtopic-length f [] topic t refl in
    handed topic [] topic tx t (exactly tx l) back out sub e
routed-Handled send b f topic r t (by_prefix p tx l m k least) h =
    let (back, out) = pass_on-sent send f tx (length p) r h in
    let (sub, e) = subtopic-length f p topic t k in
    handed topic p (drop (length p) topic) tx t (by_prefix p tx l m k least) back out sub e

-- Whatever `process` does with a frame, if its sends complete, is as described: the frame comes back
-- or goes to the one channel that its topic goes to, with the subtopic behind the prefix.
pub process-Handled :
    (send : ℕ → Publication → Outcome (Unit {0})) (b : TopicBroker) (f : FrameData) (r : Processed)
    → IsOrdered b
    → process send b f ≡ done r
    → Handled b f r
unfolding process
process-Handled send b f r v h = elim (Option-cases f.topic) [
  | inl t ↦
      let (back, out) = pass_on-none send f r (ap (λ o. for_topic o) (sym t) ∙ h) in
      untitled t back out
  | inr (topic, t) ↦
      routed-Handled send b f topic r t (route-Goes b topic v.prefixes)
        (ap (λ o. for_topic o) (sym t) ∙ h)
]
  where
    for_topic : Option Bytes → Outcome Processed
    for_topic o = elim o [
      | none ↦ pass_on send f none
      | some topic ↦ pass_on send f (route b topic)
    ]

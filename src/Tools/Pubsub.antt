-- ===== src/Tools/Pubsub.antt =====
-- src/tools/pubsub.rs: `TopicBroker`, which hands publications to the channels of their handlers.
pub mod Order
pub mod Routing
pub mod Handling
use elbus.Base.{
  ℕ, ◌&&◌, ◌==◌, Bool, true, false, Bytes, List, [], ◌∷◌, Option, none, some, if◌then◌else◌, ltb,
  length, starts_with,
}
use elbus.Proto.{Result, ok, err, error_busy, literal, FrameData, slice_from}
use elbus.Stream.{Outcome, done, ◌>>=◌}
use elbus.Broker.Db.{lookup}

pub record Publication : Type 0 where
  pub subtopic_pos : ℕ
  pub frame : FrameData

-- `&topic[subtopic_pos..]`; `none` where it panics
unfoldable pub subtopic : Publication → Option Bytes
unfolding slice_from
subtopic p = elim p.frame.topic [ none ↦ none | some t ↦ slice_from p.subtopic_pos t ]

-- the order of strings
unfoldable pub less : Bytes → Bytes → Bool
less xs [] = false
less [] (y ∷ ys) = true
less (x ∷ xs) (y ∷ ys) = let rest = less xs ys in if ltb x y then true else x == y && rest

-- A `BTreeMap` is the list of its entries in the order of their keys; a channel is a number.
abbrev pub Entries : Type 0
Entries = List (Bytes × ℕ)

unfoldable pub insert_entry : Bytes → ℕ → Entries → Entries
unfolding less
insert_entry k tx [] = (k, tx) ∷ []
insert_entry k tx ((j, ty) ∷ m) =
    let rest = insert_entry k tx m in if less k j then (k, tx) ∷ (j, ty) ∷ m else (j, ty) ∷ rest

pub record TopicBroker : Type 0 where
  pub prefixes : Entries
  pub topics : Entries

abbrev pub broker_new : TopicBroker
broker_new = record { prefixes = []; topics = [] }

unfoldable pub register_topic_tx : TopicBroker → Bytes → ℕ → Result (Unit {0}) × TopicBroker
unfolding insert_entry
register_topic_tx b topic tx = elim (lookup topic b.topics) [
  | none ↦ (ok tt, record b { topics = insert_entry topic tx b.topics })
  | some _ ↦ (err (error_busy (literal "topic already registered")), b)
]

unfoldable pub register_prefix_tx : TopicBroker → Bytes → ℕ → Result (Unit {0}) × TopicBroker
unfolding insert_entry
register_prefix_tx b prefix tx = elim (lookup prefix b.prefixes) [
  | none ↦ (ok tt, record b { prefixes = insert_entry prefix tx b.prefixes })
  | some _ ↦ (err (error_busy (literal "topic prefix already registered")), b)
]

with_channel : ℕ → Result (Unit {0}) × TopicBroker → Result ℕ × TopicBroker
with_channel tx (ok u, b) = (ok tx, b)
with_channel tx (err e, b) = (err e, b)

-- `register_topic` and `register_prefix` make the channel themselves: a new number is their argument.
unfoldable pub register_topic : TopicBroker → Bytes → ℕ → Result ℕ × TopicBroker
unfolding register_topic_tx with_channel
register_topic b topic tx = with_channel tx (register_topic_tx b topic tx)

unfoldable pub register_prefix : TopicBroker → Bytes → ℕ → Result ℕ × TopicBroker
unfolding register_prefix_tx with_channel
register_prefix b prefix tx = with_channel tx (register_prefix_tx b prefix tx)

-- the loop over the prefixes
unfoldable pub find_prefix : Bytes → Entries → Option (Bytes × ℕ)
unfolding starts_with
find_prefix topic [] = none
find_prefix topic ((pfx, tx) ∷ m) =
    let rest = find_prefix topic m in if starts_with pfx topic then some (pfx, tx) else rest

-- The channel that a frame goes to, and where the subtopic starts.
unfoldable pub route : TopicBroker → Bytes → Option (ℕ × ℕ)
unfolding find_prefix
route b topic = elim (lookup topic b.topics) [
  | some tx ↦ some (tx, 0)
  | none ↦ elim (find_prefix topic b.prefixes) [
    | some (pfx, tx) ↦ some (tx, length pfx)
    | none ↦ none
  ]
]

-- What `process` returns, and what it has sent: a frame that nobody handles comes back.
pub record Processed : Type 0 where
  pub returned : Option FrameData
  pub sent : Option (ℕ × Publication)

pass_on : (ℕ → Publication → Outcome (Unit {0})) → FrameData → Option (ℕ × ℕ) → Outcome Processed
pass_on send frame none = done (record { returned = some frame; sent = none })
pass_on send frame (some (tx, pos)) = do
  _ ← send tx (record { subtopic_pos = pos; frame = frame })
  done (record { returned = none; sent = some (tx, record { subtopic_pos = pos; frame = frame }) })

-- `process`, given what becomes of a publication that is sent on a channel
unfoldable pub process :
    (ℕ → Publication → Outcome (Unit {0})) → TopicBroker → FrameData → Outcome Processed
unfolding route pass_on
process send b frame = elim frame.topic [
  | none ↦ pass_on send frame none
  | some topic ↦ pass_on send frame (route b topic)
]

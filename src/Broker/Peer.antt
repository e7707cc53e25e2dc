-- ===== src/Broker/Peer.antt =====
-- src/broker.rs: `Broker::handle_peer`, from the greetings to the registration and to the end of the
-- connection, and `handle_pinger`.
use elbus.Base.{
  ◌++◌, ℕ, Bytes, List, [], ◌∷◌, Option, none, some, if◌then◌else◌, ◌==◌, starts_with, codes,
  from_le_bytes, u16_to_le_bytes,
}
use elbus.Proto.{
  Error, error_data, error_io, error_access, error_not_supported, literal, with_text, Result, ok,
  err, response_ok, err_not_supported, err_data, err_access, kind_code, primary_name, new_nop,
}
use elbus.Comm.{instant, Write}
use elbus.Stream.{Stream, Outcome, done, failed, waits, from_utf8}
use elbus.Talk.{Sink, Talk, ◌>>=◌, return, fail, lift, hear_in_time, say_in_time}
use elbus.Ipc.Chat.{greetings, protocol_version, version_of}
use elbus.Ipc.Read.{index}
use elbus.Broker.Client.{ClientKind, client_new, is_full}
use elbus.Broker.Maps.{Maps}
use elbus.Broker.Db.{Db, modify}
use elbus.Broker.Deliver.{Act, Room, BrokerEvent, put_frame}
use elbus.Broker.Announce.{register_client, unregister_client}
use elbus.Broker.Access.{Lists, ClientAaa, connect_allowed}

-- `ClientIp`: only TCP connections have an address.
pub data ClientIp (A : Lists) : Type 0 where
  no : ClientIp A
  addr : A.Address → ClientIp A

-- `PeerHandlerParams`, without the socket; `aaa_map` is the lookup in the map, if there is one.
pub record Params (A : Lists) : Type 0 where
  pub aaa_map : Option (Bytes → Option (ClientAaa A))
  pub ip : ClientIp A
  pub queue_size : ℕ
  pub kind : ClientKind
  pub source : Option Bytes
  pub source_port : Option Bytes

module _ (A : Lists) where
  -- Who has said hello, and the access rules for that client.
  pub record Peer : Type 0 where
    pub name : Bytes
    pub aaa : Option (ClientAaa A)

  module _ (sink : Sink) where
    -- an answer of one byte, and the error that ends the connection
    unfoldable pub refuse : {B : Type 0} → ℕ → Error → Talk B
    unfolding ◌>>=◌ say_in_time
    refuse code e = say_in_time sink (code ∷ []) instant >>= λ _. fail e

    unfoldable pub check_address : ClientIp A → Bytes → ClientAaa A → Talk Peer
    unfolding refuse connect_allowed
    check_address no name aaa = return (record { name = name; aaa = some aaa })
    check_address (addr a) name aaa =
        if connect_allowed A aaa a
        then return (record { name = name; aaa = some aaa })
        else refuse err_access (
            error_access (
              with_text "Client "
                (name ++ (codes " is not allowed to connect from " ++ A.show_address a))))

    unfoldable pub check_entry : ClientIp A → Bytes → Option (ClientAaa A) → Talk Peer
    unfolding check_address refuse
    check_entry ip name none =
        refuse err_access (error_access (with_text "Client not in AAA map: " name))
    check_entry ip name (some aaa) = check_address ip name aaa

    unfoldable pub check_access : Params A → Bytes → Talk Peer
    unfolding check_entry
    check_access params name = elim params.aaa_map [
      | none ↦ return (record { name = name; aaa = none })
      | some find ↦ check_entry params.ip name (find (primary_name name))
    ]

    -- the checks of the client's greetings
    unfoldable pub greeted : Bytes → Talk (Unit {0})
    unfolding refuse
    greeted buf =
        if index buf 0 == greetings
        then if version_of buf == protocol_version
          then return tt
          else refuse err_not_supported
              (error_not_supported (literal "unsupported protocol version"))
        else refuse err_not_supported (error_not_supported (literal "invalid protocol"))

    unfoldable pub named : Params A → Bytes → Talk Peer
    unfolding refuse check_access starts_with
    named params [] = refuse err_data (error_data (with_text "Invalid client name: " []))
    named params (c ∷ cs) =
        if starts_with (codes ".") (c ∷ cs)
        then refuse err_data (error_data (with_text "Invalid client name: " (c ∷ cs)))
        else check_access params (c ∷ cs)

    -- everything before the registration
    unfoldable pub handshake : Params A → Talk Peer
    unfolding ◌>>=◌ say_in_time greeted named from_utf8
    handshake params = do
      _ ← say_in_time sink (greetings ∷ u16_to_le_bytes protocol_version) instant
      buf ← hear_in_time 3
      _ ← greeted buf
      _ ← say_in_time sink (response_ok ∷ []) instant
      size ← hear_in_time 2
      text ← hear_in_time (from_le_bytes size)
      name ← lift (from_utf8 text)
      named params name

    module _ (X : Maps) (encode : BrokerEvent → Result Bytes) (room : ℕ → Room) where
      -- how the registration is answered
      unfoldable pub answer_registration :
          Peer
          → Outcome (Result (Unit {0})) × Db X
          → Stream
          → List Write
          → (Outcome (Peer × Stream) × List Write) × Db X
      unfolding say_in_time ◌>>=◌ refuse
      answer_registration peer (done (ok u), db) s ws =
          ((say_in_time sink (response_ok ∷ []) instant >>= λ _. return peer) s ws, db)
      answer_registration peer (done (err e), db) s ws = (refuse (kind_code e.kind) e s ws, db)
      answer_registration peer (failed e, db) s ws = ((failed e, ws), db)
      answer_registration peer (waits, db) s ws = ((waits, ws), db)

      unfoldable pub registration :
          Params A
          → ℕ
          → Db X
          → Outcome (Peer × Stream) × List Write
          → (Outcome (Peer × Stream) × List Write) × Db X
      unfolding answer_registration
      registration params id db (done (peer, s), ws) =
          answer_registration peer
            (register_client X encode room id (
              modify db id (λ _.
                client_new peer.name (primary_name peer.name) params.queue_size params.kind
                  params.source params.source_port)))
            s ws
      registration params id db (failed e, ws) = ((failed e, ws), db)
      registration params id db (waits, ws) = ((waits, ws), db)

      -- the handshake and the registration of the new object `id`
      unfoldable pub accept_peer :
          Params A → ℕ → Stream → Db X → (Outcome (Peer × Stream) × List Write) × Db X
      unfolding handshake registration
      accept_peer params id s db = registration params id db (handshake params s [])

module _ (X : Maps) where
  -- one round of `handle_pinger`: a full queue ends the connection
  unfoldable pub ping_once : ℕ → Act X (Result (Unit {0}))
  ping_once id db =
      if is_full (db.heap id)
      then (done (err (error_io (literal "client queue overflow"))), db)
      else put_frame X new_nop id db

module _ (X : Maps) (encode : BrokerEvent → Result Bytes) (room : ℕ → Room) where
  -- `finish_peer!`, whichever of the tasks has ended the connection
  unfoldable pub finish_peer : ℕ → Act X (Unit {0})
  finish_peer id db = unregister_client X encode room id db

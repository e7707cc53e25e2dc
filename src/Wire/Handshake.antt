-- ===== src/Wire/Handshake.antt =====
-- The handshake of src/ipc.rs (`chat`) and src/broker.rs (`handle_peer`), with each other.
use elbus.Base.{
  ℕ, ◌^◌, ◌-◌, ◌<◌, ◌≡◌, ◌≢◌, refl, ◌∙◌, ap, arith, true, false, Bytes, List, [], ◌∷◌, ◌++◌, Option,
  some, none, length, ltb, ◌==◌, valid_utf8, append-nil, u16_to_le_bytes, u16_le_bytes_lem,
  Bool-cases, inl, inr, if◌then◌else◌, starts_with, codes,
}
use elbus.Proto.{
  Result, ok, err, error_new, kind_code, kind_of_code, response_ok, with_number, primary_name,
}
use elbus.Comm.{Write, write, instant, written_bytes}
use elbus.Stream.{Stream, Ending, Outcome, done, failed, from_utf8, read_exact-append, read_exact}
use elbus.Talk.{Sink, bind, ◌>>=◌, say, say_in_time}
use elbus.Ipc.Chat.{chat, greetings, protocol_version}
use elbus.Broker.Client.{client_new}
use elbus.Broker.Maps.{Maps}
use elbus.Broker.Db.{Db, modify}
use elbus.Broker.Deliver.{Room, BrokerEvent}
use elbus.Broker.Announce.{register_client}
use elbus.Broker.Access.{Lists, ClientAaa, connect_allowed}
use elbus.Broker.Peer.{
  no, addr, Params, refuse, check_address, check_entry, check_access, greeted, named, handshake,
  answer_registration, registration, accept_peer,
}
use elbus.Wire.Frames.{stream}

-- Every write goes through.
abbrev pub open_sink : Sink
open_sink ws = done tt

-- What the client says: the greetings, the length of its name, and its name.
abbrev pub client_hello : Bytes → List Write
client_hello name =
    write (greetings ∷ u16_to_le_bytes protocol_version) instant
    ∷ write (u16_to_le_bytes (length name)) instant
    ∷ write name instant
    ∷ []

-- What the broker says: the greetings, that they match, and how the registration went.
abbrev pub broker_hello : ℕ → List Write
broker_hello code =
    write (greetings ∷ u16_to_le_bytes protocol_version) instant
    ∷ write (response_ok ∷ []) instant
    ∷ write (code ∷ []) instant
    ∷ []

-- What the client makes of the answer.
abbrev pub answer_outcome : ℕ → Stream → Outcome (Unit {0} × Stream)
answer_outcome code s =
    if code == response_ok
    then done (tt, s)
    else failed
        (error_new (kind_of_code code) (some (with_number "Server registration response: " code)))

pub chat_hello :
    (name rest : Bytes) (code : ℕ) (e : Ending)
    → length name < 2 ^ 16
    → chat open_sink name (stream (written_bytes (broker_hello code) ++ rest) e) []
      ≡ (answer_outcome code (stream rest e), client_hello name)
unfolding chat ◌>>=◌ bind say
chat_hello name rest code e h = elim (Bool-cases (code == response_ok)) [
  | inl g ↦ rw (long, first, second, third, g, chat) refl
  | inr g ↦ rw (long, first, second, third, g, chat) refl
]
  where
    long : ltb (2 ^ 16 - 1) (length name) ≡ false
    long = ground (arith, h)

    first :
        read_exact 3 (stream (greetings ∷ 1 ∷ 0 ∷ 1 ∷ code ∷ rest) e)
        ≡ done (greetings ∷ 1 ∷ 0 ∷ [], stream (1 ∷ code ∷ rest) e)
    first = read_exact-append (greetings ∷ 1 ∷ 0 ∷ []) (1 ∷ code ∷ rest) e

    second : read_exact 1 (stream (1 ∷ code ∷ rest) e) ≡ done (1 ∷ [], stream (code ∷ rest) e)
    second = read_exact-append (1 ∷ []) (code ∷ rest) e

    third : read_exact 1 (stream (code ∷ rest) e) ≡ done (code ∷ [], stream rest e)
    third = read_exact-append (code ∷ []) rest e

module _ (A : Lists) where
  -- The access rules that a client gets: none, where there is no map of them; or its entry in the map,
  -- which allows the address that it connects from, if it has one.
  pub data IsAdmitted (params : Params A) (name : Bytes) : Option (ClientAaa A) → Type 0 where
    freely : params.aaa_map ≡ none → IsAdmitted params name none
    locally :
        (find : Bytes → Option (ClientAaa A)) (a : ClientAaa A)
        → params.aaa_map ≡ some find
        → find (primary_name name) ≡ some a
        → params.ip ≡ no
        → IsAdmitted params name (some a)
    remotely :
        (find : Bytes → Option (ClientAaa A)) (a : ClientAaa A) (ip : A.Address)
        → params.aaa_map ≡ some find
        → find (primary_name name) ≡ some a
        → params.ip ≡ addr ip
        → connect_allowed A a ip ≡ true
        → IsAdmitted params name (some a)

  check_access-IsAdmitted :
      (params : Params A) (name : Bytes) {aaa : Option (ClientAaa A)} (s : Stream) (ws : List Write)
      → IsAdmitted params name aaa
      → check_access A open_sink params name s ws
        ≡ (done (record { name = name; aaa = aaa }, s), ws)
  unfolding check_access check_entry check_address
  check_access-IsAdmitted params name s ws (freely m) = rw (m, check_access) refl
  check_access-IsAdmitted params name s ws (locally find a m f i) =
      rw (m, f, i, check_access, check_entry, check_address) refl
  check_access-IsAdmitted params name s ws (remotely find a ip m f i c) =
      rw (m, f, i, c, check_access, check_entry, check_address) refl

  module _ (params : Params A) (c : ℕ) (cs rest : Bytes) (e : Ending) where
    abbrev name : Bytes
    name = c ∷ cs

    -- The broker takes the greetings and the name, and nothing more of the stream, for a name of
    -- text that is short enough and does not begin with a full stop.
    handshake_hello :
        {aaa : Option (ClientAaa A)}
        → length name < 2 ^ 16
        → valid_utf8 name ≡ true
        → c ≢ b'.'
        → IsAdmitted params name aaa
        → handshake A open_sink params (stream (written_bytes (client_hello name) ++ rest) e) [] ≡ (
          done (record { name = name; aaa = aaa }, stream rest e),
          write (greetings ∷ u16_to_le_bytes protocol_version) instant
              ∷ write (response_ok ∷ []) instant
              ∷ [],
        )
    unfolding handshake ◌>>=◌ bind say_in_time greeted named from_utf8 starts_with
    handshake_hello {aaa} h v d a =
        rw
          (
            append-nil cs,
            first,
            second,
            u16_le_bytes_lem (length name) h,
            read_exact-append name rest e,
            v,
            dot,
            check_access-IsAdmitted params name (stream rest e) _ a,
            handshake,
          )
          refl
      where
        first :
            read_exact 3
              (stream (greetings ∷ 1 ∷ 0 ∷ (u16_to_le_bytes (length name) ++ (name ++ rest))) e)
            ≡ done
                (greetings ∷ 1 ∷ 0 ∷ [], stream (u16_to_le_bytes (length name) ++ (name ++ rest)) e)
        first = read_exact-append (greetings ∷ 1 ∷ 0 ∷ []) _ e

        second :
            read_exact 2 (stream (u16_to_le_bytes (length name) ++ (name ++ rest)) e)
            ≡ done (u16_to_le_bytes (length name), stream (name ++ rest) e)
        second = read_exact-append (u16_to_le_bytes (length name)) (name ++ rest) e

        dot : starts_with (codes ".") (c ∷ cs) ≡ false
        dot = ground (arith, d)

-- How a registration is answered.
abbrev pub answer_code : Result (Unit {0}) → ℕ
answer_code (ok u) = response_ok
answer_code (err e) = kind_code e.kind

-- What the broker's side of the handshake comes to.
abbrev pub accepted : {P : Type 0} → Result (Unit {0}) → P → Stream → Outcome (P × Stream)
accepted (ok u) peer s = done (peer, s)
accepted (err e) peer s = failed e

-- What the client's side comes to: an error has the kind that the code of the broker's error stands
-- for.
abbrev pub joined : Result (Unit {0}) → Stream → Outcome (Unit {0} × Stream)
joined (ok u) s = done (tt, s)
joined (err e) s = failed (
    error_new (kind_of_code (kind_code e.kind))
      (some (with_number "Server registration response: " (kind_code e.kind))))

answer_outcome-code :
    (reg : Result (Unit {0})) (s : Stream) → answer_outcome (answer_code reg) s ≡ joined reg s
unfolding kind_code
answer_outcome-code (ok u) s = refl
answer_outcome-code (err e) s = ground arith

module _ (X : Maps) (A : Lists) (encode : BrokerEvent → Result Bytes) (room : ℕ → Room)
    (params : Params A) (id c : ℕ) (cs : Bytes) where
  -- The broker with the new client's object, before it is registered.
  abbrev pub with_object : Db X → Db X
  with_object db = modify db id (λ _.
      client_new (c ∷ cs) (primary_name (c ∷ cs)) params.queue_size params.kind params.source
        params.source_port)

  -- The two sides of the handshake agree, if every write of either side goes through. For a client
  -- that is admitted under a name that is text, shorter than 2^16 bytes, not empty and without a full
  -- stop in front, and a registration that does not block: each side takes exactly what the other one
  -- says from its stream, and both connections are set up, or both fail, as the registration does.
  pub handshake_agrees :
      {aaa : Option (ClientAaa A)} (reg : Result (Unit {0})) (db after : Db X) (s t : Stream)
      → length (c ∷ cs) < 2 ^ 16
      → valid_utf8 (c ∷ cs) ≡ true
      → c ≢ b'.'
      → IsAdmitted A params (c ∷ cs) aaa
      → register_client X encode room id (with_object db) ≡ (done reg, after)
      → let said = client_hello (c ∷ cs) in
        let answered = broker_hello (answer_code reg) in
        (accept_peer A open_sink X encode room params id
            (stream (written_bytes said ++ s.bytes) s.ending)
            db
          ≡ ((accepted reg (record { name = c ∷ cs; aaa = aaa }) s, answered), after))
        × (chat open_sink (c ∷ cs) (stream (written_bytes answered ++ t.bytes) t.ending) []
            ≡ (joined reg t, said))
  unfolding accept_peer registration answer_registration refuse ◌>>=◌ bind say_in_time
  handshake_agrees {aaa} reg db after s t h v d a r = (
    rw (handshake_hello A params c cs s.bytes s.ending h v d a, r, accept_peer, registration)
        (answer reg),
    chat_hello (c ∷ cs) t.bytes (answer_code reg) t.ending h
        ∙ ap (λ o. (o, client_hello (c ∷ cs))) (answer_outcome-code reg t),
  )
    where
      answer :
          (reg : Result (Unit {0}))
          → answer_registration A open_sink X encode room
              (record { name = c ∷ cs; aaa = aaa })
              (done reg, after)
              s
              (write (greetings ∷ u16_to_le_bytes protocol_version) instant
                ∷ write (response_ok ∷ []) instant
                ∷ [])
            ≡ (
              (
                accepted reg (record { name = c ∷ cs; aaa = aaa }) s,
                broker_hello (answer_code reg),
              ),
              after,
            )
      answer (ok u) = refl
      answer (err e) = refl

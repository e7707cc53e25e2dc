-- ===== src/Broker/Example.antt =====
-- A broker with exact topics and names in place of the crate `submap`, and two clients.
use elbus.Base.{
  ℕ, ◌≡◌, refl, arith, true, false, Bytes, List, [], ◌∷◌, none, if◌then◌else◌, All, ◌==◌, eq_bytes,
  eq_bytes→eq, eq_bytes_refl, codes, Bool-cases, inl, inr, ◌&&◌,
}
use elbus.Proto.{Result, ok}
use elbus.Broker.Client.{
  ElbusClient, internal, local_ipc, client_new, has_name, insert_name, remove_name,
}
use elbus.Broker.Maps.{Maps, Ref}
use elbus.Broker.Db.{Db, lookup}
use elbus.Broker.Deliver.{Room, stuck, BrokerEvent, Parcel}
use elbus.Broker.Safety.{Safe}
use elbus.Broker.Access.{Lists}

pub has_name-remove_name :
    (k n : Bytes) (ms : List Bytes)
    → has_name n (remove_name k ms) ≡ (if eq_bytes k n then false else has_name n ms)
unfolding has_name remove_name
has_name-remove_name k n [] = ground arith
has_name-remove_name k n (m ∷ ms) = ground (
  arith,
  has_name-remove_name k n ms,
  eq_bytes→eq m k,
  eq_bytes→eq m n,
  eq_bytes→eq k n,
  eq_bytes_refl k,
  eq_bytes_refl m,
  eq_bytes_refl n,
)

pub has_name-insert_name :
    (k n : Bytes) (ms : List Bytes)
    → has_name n (insert_name k ms) ≡ (if eq_bytes k n then true else has_name n ms)
unfolding has_name
has_name-insert_name k n ms = ground (arith, has_name-remove_name k n ms)

-- The registered names, and who asked for what.
pub record Table : Type 0 where
  pub names : List Bytes
  pub wishes : List (Bytes × Ref)

unfoldable pub wanted : List Bytes → Bytes → List (Bytes × Ref) → List Ref
wanted names t [] = []
wanted names t ((w, c) ∷ rest) =
    let later = wanted names t rest in
    if has_name c.name names && eq_bytes w t then c ∷ later else later

pub wanted_registered :
    (names : List Bytes) (t : Bytes) (ws : List (Bytes × Ref))
    → All (λ (c : Ref). has_name c.name names ≡ true) (wanted names t ws)
unfolding wanted
wanted_registered names t [] = tt
wanted_registered names t ((w, c) ∷ rest) = elim (Bool-cases (has_name c.name names)) [
  | inl h ↦ elim (Bool-cases (eq_bytes w t)) [
    | inl g ↦ rw (h, g, wanted) (h, wanted_registered names t rest)
    | inr g ↦ rw (h, g, wanted) (wanted_registered names t rest)
  ]
  | inr h ↦ rw (h, wanted) (wanted_registered names t rest)
]

abbrev pub enter : Table → Bytes → Ref → Table
enter s n c = record { names = insert_name n s.names; wishes = (n, c) ∷ s.wishes }

abbrev pub leave : Table → Bytes → Table
leave s n = record s { names = remove_name n s.names }

abbrev pub exact_maps : Maps
exact_maps = record {
  Subs = Table;
  register_client = λ s c. record s { names = insert_name c.name s.names };
  unregister_client = λ s c. leave s c.name;
  subscribe = λ s t c. (record s { wishes = (t, c) ∷ s.wishes }, has_name c.name s.names);
  unsubscribe = λ s t c. (s, has_name c.name s.names);
  get_subscribers = λ s t. wanted s.names t s.wishes;
  has = λ s n. has_name n s.names;
  has-register = λ s c n. has_name-insert_name c.name n s.names;
  has-unregister = λ s c n. has_name-remove_name c.name n s.names;
  has-subscribe = λ s t c n. refl;
  has-unsubscribe = λ s t c n. refl;
  subscribe_result = λ s t c. refl;
  unsubscribe_result = λ s t c. refl;
  Casts = Table;
  register_name = enter;
  unregister_name = λ s m c. leave s m;
  get_clients_by_mask = λ s m. wanted s.names m s.wishes;
  knows = λ s n. has_name n s.names;
  knows-register = λ s m c n. has_name-insert_name m n s.names;
  knows-unregister = λ s m c n. has_name-remove_name m n s.names;
  subscribers_registered = λ s t. wanted_registered s.names t s.wishes;
  masked_registered = λ s m. wanted_registered s.names m s.wishes;
}

abbrev pub client_of : ℕ → ElbusClient
client_of id =
    if id == 0
    then client_new (codes "a") (codes "a") 1 internal none none
    else if id == 1
    then client_new (codes "b") (codes "b") 2 local_ipc none none
    else client_new (codes "a") (codes "a") 3 internal none none

abbrev pub empty_db : Db exact_maps
empty_db = record {
  clients = [];
  heap = client_of;
  broadcasts = record { names = []; wishes = [] };
  subscriptions = record { names = []; wishes = [] };
  core = none;
  r_frames = 0;
  r_bytes = 0;
  w_frames = 0;
  w_bytes = 0;
}

-- an encoder of events, what becomes of full queues, and a frame to send
abbrev pub encode : BrokerEvent → Result Bytes
encode event = ok event.topic

abbrev pub room : ℕ → Room
room id = stuck

abbrev pub parcel : Parcel
parcel = record { header = none; buf = codes "hello"; payload_pos = 0; len = 5; realtime = false }

pub Safe-empty_db : Safe exact_maps empty_db
unfolding has_name lookup client_new
Safe-empty_db = record {
  consistent = record {
    subs = λ n. refl;
    casts = λ n. refl;
    names = λ n i e. cc;
    flags = λ n i e. cc;
    unique = tt;
  };
  bounded = λ id. elim (Bool-cases (id == 0)) [
    | inl h ↦ rw h (omega arith, omega arith)
    | inr h ↦ elim (Bool-cases (id == 1)) [
      | inl g ↦ rw (h, g) (omega arith, omega arith)
      | inr g ↦ rw (h, g) (omega arith, omega arith)
    ]
  ];
}

pub no_name : (n : Bytes) → has_name n [] ≡ false
unfolding has_name
no_name n = refl

-- access lists that match the masks themselves
abbrev pub exact_lists : Lists
exact_lists = record {
  Acl = List Bytes;
  acl_new = [];
  acl_with = λ separator wildcard any. [];
  acl_insert = λ acl mask. mask ∷ acl;
  matches = λ acl target. has_name target acl;
  matches-acl_new = no_name;
  Network = ℕ;
  Address = ℕ;
  contains = λ network address. true;
  everywhere = 0;
  show_address = λ address. [];
}

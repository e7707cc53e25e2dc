-- ===== src/Broker/Client.antt =====
-- src/broker.rs: `ElbusClient`, with the sending half of its frame queue.
use elbus.Base.{
  ℕ, ◌+◌, ◌%◌, ◌^◌, Bool, true, false, Bytes, List, [], ◌∷◌, ◌++◌, Option, length, drop, leb,
  if◌then◌else◌, eq_bytes,
}
use elbus.Proto.{FrameData}

pub data ClientKind : Type 0 where
  internal local_ipc tcp : ClientKind

unfoldable pub is_internal : ClientKind → Bool
is_internal internal = true
is_internal local_ipc = false
is_internal tcp = false

-- `queue` holds what the channel `tx` holds, oldest first, and `queue_size` is its capacity;
-- `disconnect` is whether `disconnect_trig` has been triggered. The counters are 64 bits wide.
pub record ElbusClient : Type 0 where
  pub name : Bytes
  pub primary_name : Bytes
  pub kind : ClientKind
  pub source : Option Bytes
  pub port : Option Bytes
  pub disconnect : Bool
  pub queue : List FrameData
  pub queue_size : ℕ
  pub closed : Bool
  pub registered : Bool
  pub r_frames : ℕ
  pub r_bytes : ℕ
  pub w_frames : ℕ
  pub w_bytes : ℕ
  pub primary : Bool
  pub secondaries : List Bytes

-- `ElbusClient::new`
unfoldable pub client_new :
    Bytes → Bytes → ℕ → ClientKind → Option Bytes → Option Bytes → ElbusClient
client_new name primary_name queue_size kind source port = record {
  name = name;
  primary_name = primary_name;
  kind = kind;
  source = source;
  port = port;
  disconnect = false;
  queue = [];
  queue_size = queue_size;
  closed = false;
  registered = false;
  r_frames = 0;
  r_bytes = 0;
  w_frames = 0;
  w_bytes = 0;
  primary = eq_bytes name primary_name;
  secondaries = [];
}

-- `fetch_add` on an `AtomicU64`
abbrev pub add64 : ℕ → ℕ → ℕ
add64 a b = (a + b) % 2 ^ 64

abbrev pub count_read : ℕ → ElbusClient → ElbusClient
count_read len c = record c { r_frames = add64 c.r_frames 1; r_bytes = add64 c.r_bytes len }

abbrev pub count_write : ℕ → ElbusClient → ElbusClient
count_write len c = record c { w_frames = add64 c.w_frames 1; w_bytes = add64 c.w_bytes len }

-- `tx.is_full()`
abbrev pub is_full : ElbusClient → Bool
is_full c = leb c.queue_size (length c.queue)

abbrev pub push : FrameData → ElbusClient → ElbusClient
push f c = record c { queue = c.queue ++ (f ∷ []) }

-- the set of names that `secondaries` holds
unfoldable pub remove_name : Bytes → List Bytes → List Bytes
remove_name n [] = []
remove_name n (m ∷ ms) = let rest = remove_name n ms in if eq_bytes m n then rest else m ∷ rest

abbrev pub insert_name : Bytes → List Bytes → List Bytes
insert_name n ms = n ∷ remove_name n ms

unfoldable pub has_name : Bytes → List Bytes → Bool
has_name n [] = false
has_name n (m ∷ ms) = let rest = has_name n ms in if eq_bytes m n then true else rest

abbrev pub set_disconnect : ElbusClient → ElbusClient
set_disconnect c = record c { disconnect = true }

abbrev pub set_registered : Bool → ElbusClient → ElbusClient
set_registered b c = record c { registered = b }

abbrev pub add_secondary : Bytes → ElbusClient → ElbusClient
add_secondary n c = record c { secondaries = insert_name n c.secondaries }

abbrev pub remove_secondary : Bytes → ElbusClient → ElbusClient
remove_secondary n c = record c { secondaries = remove_name n c.secondaries }

abbrev pub clear_secondaries : ElbusClient → ElbusClient
clear_secondaries c = record c { secondaries = [] }

-- the receiver takes a frame; `tx.close()`
abbrev pub take_one : ElbusClient → ElbusClient
take_one c = record c { queue = drop 1 c.queue }

abbrev pub swap_one : FrameData → ElbusClient → ElbusClient
swap_one f c = push f (take_one c)

abbrev pub close : ElbusClient → ElbusClient
close c = record c { closed = true }

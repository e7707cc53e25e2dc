-- ===== src/Ipc/Defs.antt =====
-- src/ipc.rs: `Config`, the state of `Client`, and frame ids.
use elbus.Base.{
  ◌≡◌, refl, arith, ℕ, ◌+◌, ◌-◌, ◌^◌, Bool, true, false, Bytes, List, [], ◌∷◌, ◌==◌, if◌then◌else◌,
}
use elbus.Comm.{Write}

pub record Config : Type 0 where
  pub path : Bytes
  pub name : Bytes
  pub buf_size : ℕ
  pub buf_ttl : ℕ
  pub queue_size : ℕ
  pub timeout : ℕ

-- The defaults; durations are in nanoseconds.
abbrev pub config_new : Bytes → Bytes → Config
config_new path name = record {
  path = path;
  name = name;
  buf_size = 8192;
  buf_ttl = 10_000;
  queue_size = 8192;
  timeout = 1_000_000_000;
}

-- `Config::buf_size`, `buf_ttl`, `queue_size` and `timeout`
abbrev set_buf_size : ℕ → Config → Config
set_buf_size size c = record c { buf_size = size }

abbrev set_buf_ttl : ℕ → Config → Config
set_buf_ttl ttl c = record c { buf_ttl = ttl }

abbrev set_queue_size : ℕ → Config → Config
set_queue_size size c = record c { queue_size = size }

abbrev set_timeout : ℕ → Config → Config
set_timeout timeout c = record c { timeout = timeout }

-- `responses` holds the ids of the frames whose acknowledgement is awaited; `written` is what the
-- socket has taken so far; `reading` is whether the reader's task still runs.
pub record Client : Type 0 where
  pub name : Bytes
  pub written : List Write
  pub reading : Bool
  pub frame_id : ℕ
  pub responses : List ℕ
  pub has_events : Bool
  pub connected : Bool
  pub config : Config
  pub secondary_counter : ℕ

abbrev pub u32_max : ℕ
u32_max = 2 ^ 32 - 1

-- `Client::increment_frame_id`
unfoldable pub next_frame_id : ℕ → ℕ
next_frame_id id = if id == u32_max then 1 else id + 1

abbrev pub increment_frame_id : Client → Client
increment_frame_id c = record c { frame_id = next_frame_id c.frame_id }

-- `responses.insert(id, tx)` and `responses.remove(&id)`
unfoldable pub remove_id : ℕ → List ℕ → List ℕ
remove_id id [] = []
remove_id id (i ∷ is) = let rest = remove_id id is in if i == id then rest else i ∷ rest

abbrev pub insert_id : ℕ → List ℕ → List ℕ
insert_id id is = id ∷ remove_id id is

unfoldable pub has_id : ℕ → List ℕ → Bool
has_id id [] = false
has_id id (i ∷ is) = let rest = has_id id is in if i == id then true else rest

pub has_id-remove_id : (id : ℕ) (is : List ℕ) → has_id id (remove_id id is) ≡ false
unfolding has_id remove_id
has_id-remove_id id [] = refl
has_id-remove_id id (i ∷ is) = ground (arith, has_id-remove_id id is)

-- ===== src/Rpc/Tests.antt =====
-- The theorems on RPC at concrete inputs.
use elbus.Base.{ℕ, inl, ◌∷◌, ◌≡◌, ◌≢◌, ◌<◌, ◌^◌, ◌-◌, refl, arith, true, none, some, codes, []}
use elbus.Proto.{err, error_eof, Result}
use elbus.Ipc.{has_id}
use elbus.Rpc.Client.{RpcClient, begin_call, options_new}
use elbus.Rpc.Running.{Running, init, pinged, stopped, called}
use elbus.Rpc.Running.Stranded.{Later, now, calls, IsStranded, ended-IsStranded}
use elbus.Rpc.Calls.{begin_call-fresh}
use elbus.Stream.{Outcome, done}
use elbus.Ipc.{Client, config_new}
use elbus.Rpc.Sending.Settles.{Settles}

begin_call_example :
    let r = begin_call (record { call_id = 2 ^ 32 - 1; calls = [] }) (codes "add") in
    (0 < r.0.0) × (r.0.0 ≢ 2 ^ 32 - 1) × (r.0.0 < 2 ^ 32) × (has_id r.0.0 r.1.calls ≡ true)
begin_call_example =
    begin_call-fresh (record { call_id = 2 ^ 32 - 1; calls = [] }) (codes "add") (omega arith)

abbrev caller : RpcClient
caller = record { call_id = 300; calls = 300 ∷ [] }

-- A call waits, a ping fails, and another call begins.
abbrev busy : Running
busy = record (init none (some true) options_new) {
  call_id = 5;
  processor = record { calls = 5 ∷ []; resolved = []; tasks = [] };
}

after_ping :
    Later 5
      (stopped (pinged (err error_eof) busy))
      (called (codes "add") (stopped (pinged (err error_eof) busy))).1
after_ping = calls now (codes "add")

ended-IsStranded_example :
    IsStranded 5 busy (called (codes "add") (stopped (pinged (err error_eof) busy))).1
unfolding has_id
ended-IsStranded_example =
    ended-IsStranded 5 error_eof busy
      (called (codes "add") (stopped (pinged (err error_eof) busy))).1 refl (inl after_ping)

abbrev client : Client
client = record {
  name = codes "a";
  written = [];
  reading = true;
  frame_id = 7;
  responses = [];
  has_events = true;
  connected = true;
  config = config_new (codes "/tmp/b.sock") (codes "a");
  secondary_counter = 0;
}

-- a broker that does not confirm
abbrev refuses : ℕ → Outcome (Result (Unit {0}))
refuses n = done (err error_eof)

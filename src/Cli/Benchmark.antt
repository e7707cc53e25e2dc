-- ===== src/Cli/Benchmark.antt =====
-- src/cli.rs: the handler of calls that the benchmarks run with.
use elbus.Base.{Bytes, Option, none, some, option_map, if◌then◌else◌, eq_bytes, codes}
use elbus.Proto.{Result, ok, err}
use elbus.Rpc.Event.{RpcEvent, parse_method, event_payload}
use elbus.Rpc.Client.{method_error, rpc_error_of_error}
use elbus.Rpc.Processor.{RpcResult, returned, refused}

-- `BenchmarkHandlers::handle_call`; `none` where reading the event panics
unfoldable answered : Option Bytes → Option (Result Bytes) → Option RpcResult
unfolding eq_bytes
answered payload none = none
answered payload (some (err e)) = some (refused (rpc_error_of_error e))
answered payload (some (ok m)) =
    if eq_bytes m (codes "benchmark.selftest")
    then option_map (λ p. returned (some p)) payload
    else some (refused (method_error none))

unfoldable handle_call : RpcEvent → Option RpcResult
unfolding answered
handle_call event = answered (event_payload event) (parse_method event)

-- ===== src/Cli.antt =====
-- src/cli.rs: the command line client. Its commands, and what they put out; the colours of the
-- terminal are left out, and what the parser of the command line makes of its arguments is the data
-- types here.
pub mod Print
pub mod Handlers
pub mod Shown
pub mod Run
pub mod Listing
pub mod Acked
pub mod Benchmark
pub mod Reaches
mod Tests
use elbus.Base.{ℕ, Bool, Bytes, List, Option}

pub data BrokerCommand : Type 0 where
  client_list info stats test : BrokerCommand

pub record TargetPayload : Type 0 where
  pub target : Bytes
  pub payload : Option Bytes

pub record RpcCall : Type 0 where
  pub target : Bytes
  pub method : Bytes
  pub params : List Bytes

pub record PublishCommand : Type 0 where
  pub topic : Bytes
  pub payload : Option Bytes

pub data RpcCommand : Type 0 where
  rpc_listen : List Bytes → RpcCommand
  notify : TargetPayload → RpcCommand
  call0 : RpcCall → RpcCommand
  call : RpcCall → RpcCommand

pub record BenchmarkCommand : Type 0 where
  pub workers : ℕ
  pub payload_size : ℕ
  pub iters : ℕ

pub data Command : Type 0 where
  broker : BrokerCommand → Command
  listen : List Bytes → Command
  send : TargetPayload → Command
  publish : PublishCommand → Command
  rpc : RpcCommand → Command
  benchmark : BenchmarkCommand → Command

-- Durations are in microseconds.
pub record Opts : Type 0 where
  pub path : Bytes
  pub name : Option Bytes
  pub buf_size : ℕ
  pub queue_size : ℕ
  pub timeout : ℕ
  pub verbose : Bool
  pub silent : Bool
  pub command : Command

-- What is put out: a line, bytes without an end of line, a table, and an error in the log.
pub data Out : Type 0 where
  line : Bytes → Out
  raw : Bytes → Out
  table : List (List Bytes) → Out
  log_error : ℕ → Bytes → Out

-- What a command comes to.
pub data Ran : Type 0 where
  finished : List Out → Ran
  exited : ℕ → List Out → Ran
  panicked : Ran
  hangs : Ran

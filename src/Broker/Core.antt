-- ===== src/Broker/Core.antt =====
-- src/broker.rs: `BrokerRpcHandlers`, the core RPC methods of the broker, with the data types of
-- src/common.rs that they answer with.
pub mod Listing
use elbus.Base.{
  ℕ, ◌+◌, ◌⊎◌, inl, inr, Bytes, List, [], ◌∷◌, Option, none, some, if◌then◌else◌, length, eq_bytes,
  codes,
}
use elbus.Proto.{ok, err}
use elbus.Tools.Pubsub.{less}
use elbus.Broker.Client.{ElbusClient, ClientKind, internal, local_ipc, tcp}
use elbus.Broker.Maps.{Maps}
use elbus.Broker.Db.{Db}
use elbus.Rpc.Event.{RpcEvent, event_payload, parse_method}
use elbus.Rpc.Client.{
  rpc_error_new, rpc_error_code_parse, rpc_error_code_internal, method_error, params_error,
  rpc_error_of_error,
}
use elbus.Rpc.Processor.{RpcResult, returned, refused}

pub record ClientInfo : Type 0 where
  pub name : Bytes
  pub kind : Bytes
  pub source : Option Bytes
  pub port : Option Bytes
  pub r_frames : ℕ
  pub r_bytes : ℕ
  pub w_frames : ℕ
  pub w_bytes : ℕ
  pub queue : ℕ
  pub instances : ℕ

pub record BrokerStats : Type 0 where
  pub uptime : ℕ
  pub r_frames : ℕ
  pub r_bytes : ℕ
  pub w_frames : ℕ
  pub w_bytes : ℕ

pub record BrokerInfo : Type 0 where
  pub author : Bytes
  pub version : Bytes

-- What the handlers use of the crate `rmp_serde`: a value or the text of an error. A map of
-- parameters is the list of its entries.
pub record Codec : Type 1 where
  pub Value : Type 0
  pub from_slice : Bytes → List (Bytes × Value) ⊎ Bytes
  pub info_to_vec : BrokerInfo → Bytes ⊎ Bytes
  pub stats_to_vec : BrokerStats → Bytes ⊎ Bytes
  pub list_to_vec : List ClientInfo → Bytes ⊎ Bytes

abbrev pub kind_name : ClientKind → Bytes
kind_name internal = codes "internal"
kind_name local_ipc = codes "local_ipc"
kind_name tcp = codes "tcp"

abbrev pub info_of : ElbusClient → ClientInfo
info_of c = record {
  name = c.name;
  kind = kind_name c.kind;
  source = c.source;
  port = c.port;
  r_frames = c.r_frames;
  r_bytes = c.r_bytes;
  w_frames = c.w_frames;
  w_bytes = c.w_bytes;
  queue = length c.queue;
  instances = length c.secondaries + 1;
}

-- `clients.sort()`, which keeps the order of clients of one name
unfoldable pub insert_info : ClientInfo → List ClientInfo → List ClientInfo
unfolding less
insert_info c [] = c ∷ []
insert_info c (d ∷ ds) =
    let rest = insert_info c ds in if less d.name c.name then d ∷ rest else c ∷ d ∷ ds

unfoldable pub sort_infos : List ClientInfo → List ClientInfo
unfolding insert_info
sort_infos [] = []
sort_infos (c ∷ cs) = insert_info c (sort_infos cs)

-- the values of the map of clients, primary ones only
unfoldable pub primary_infos : (ℕ → ElbusClient) → List (Bytes × ℕ) → List ClientInfo
primary_infos heap [] = []
primary_infos heap ((n, id) ∷ rest) =
    let later = primary_infos heap rest in
    if (heap id).primary then info_of (heap id) ∷ later else later

abbrev pub rpc_ok : Bytes
rpc_ok = 129 ∷ 162 ∷ 111 ∷ 107 ∷ 195 ∷ []

module _ (X : Maps) where
  unfoldable pub client_list : Db X → List ClientInfo
  unfolding sort_infos primary_infos
  client_list db = sort_infos (primary_infos db.heap db.clients)

  -- `BrokerDb::stats`, given how many seconds the broker has been up
  unfoldable pub stats : ℕ → Db X → BrokerStats
  stats uptime db = record {
    uptime = uptime;
    r_frames = db.r_frames;
    r_bytes = db.r_bytes;
    w_frames = db.w_frames;
    w_bytes = db.w_bytes;
  }

  module _ (C : Codec) (version : Bytes) (uptime : ℕ) where
    unfoldable pub encoded : Bytes ⊎ Bytes → RpcResult
    encoded (inl b) = returned (some b)
    encoded (inr text) = refused (rpc_error_new rpc_error_code_internal (some text))

    -- the methods that take no parameters
    unfoldable pub without_params : List (Bytes × C.Value) → RpcResult → RpcResult
    without_params [] r = r
    without_params (p ∷ ps) r = refused (params_error none)

    -- `match event.parse_method()?`, on the parameters
    unfoldable pub with_params : Bytes → List (Bytes × C.Value) ⊎ Bytes → Db X → RpcResult
    unfolding encoded without_params client_list stats eq_bytes
    with_params m (inr text) db = refused (rpc_error_new rpc_error_code_parse (some text))
    with_params m (inl params) db =
        if eq_bytes m (codes "test")
        then without_params params (returned (some rpc_ok))
        else if eq_bytes m (codes "info")
        then without_params params (
            encoded (
              C.info_to_vec (record {
                author = codes "(c) 2022 Bohemia Automation / Altertech";
                version = version;
              })))
        else if eq_bytes m (codes "stats")
        then without_params params (encoded (C.stats_to_vec (stats uptime db)))
        else if eq_bytes m (codes "client.list")
        then without_params params (encoded (C.list_to_vec (client_list db)))
        else refused (method_error none)

    unfoldable pub parse_params : Bytes → List (Bytes × C.Value) ⊎ Bytes
    parse_params [] = inl []
    parse_params (b ∷ bs) = C.from_slice (b ∷ bs)

    unfoldable pub call_method : Bytes → Bytes → Db X → RpcResult
    unfolding with_params parse_params
    call_method m payload db =
        if eq_bytes m (codes "benchmark.test")
        then returned (some payload)
        else with_params m (parse_params payload) db

    -- `handle_call`; `none` where it panics
    unfoldable pub handle_call : RpcEvent → Db X → Option RpcResult
    unfolding call_method parse_method event_payload rpc_error_of_error
    handle_call event db = elim (parse_method event) [
      | none ↦ none
      | some (err e) ↦ some (refused (rpc_error_of_error e))
      | some (ok m) ↦ elim (event_payload event) [
        | none ↦ none
        | some payload ↦ some (call_method m payload db)
      ]
    ]

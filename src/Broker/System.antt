-- ===== src/Broker/System.antt =====
-- src/broker.rs: the broker as a whole, one step at a time: its own clients, the tasks of its
-- connections and the receivers of its queues, in any order. What happens to full queues may differ
-- from step to step.
pub mod Safety
use elbus.Base.{ℕ, ◌<◌, ◌≢◌, Bytes, List, Option, some}
use elbus.Proto.{Result, QoS, primary_name}
use elbus.Broker.Client.{ElbusClient, ClientKind, client_new, take_one, close}
use elbus.Broker.Maps.{Maps}
use elbus.Broker.Db.{Db, lookup, modify}
use elbus.Broker.Registry.{trigger_disconnect}
use elbus.Broker.Deliver.{Room, BrokerEvent}
use elbus.Broker.Announce.{register_client}
use elbus.Broker.Access.{Lists, ClientAaa}
use elbus.Broker.Request.{Request}
use elbus.Broker.Handler.{process_request}
use elbus.Broker.Local.{
  subscribe_bulk, unsubscribe_bulk, client_send, client_zc_send, client_send_broadcast,
  client_publish, unregister, drop_handle,
}
use elbus.Common.Params.{Params}
use elbus.Broker.Fifo.{send_fifo_cmd}
use elbus.Broker.Peer.{ping_once, finish_peer}

-- The object `id` is not registered under any name.
abbrev pub IsNew : {X : Maps} → ℕ → Db X → Type 0
IsNew id db = (n : Bytes) → lookup n db.clients ≢ some id

module _ (X : Maps) (A : Lists) (encode : BrokerEvent → Result Bytes) where
  abbrev pub fresh_client :
      Bytes → ℕ → ClientKind → Option Bytes → Option Bytes → ElbusClient → ElbusClient
  fresh_client name queue_size kind source port _ =
      client_new name (primary_name name) queue_size kind source port

  pub data Step (db : Db X) : Db X → Type 0 where
    -- a new object, of one of the broker's own clients or of a connection, and its registration; a
    -- channel has room for one frame at least
    create :
        (id queue_size : ℕ) (name : Bytes) (kind : ClientKind) (source port : Option Bytes)
        → IsNew id db
        → 0 < queue_size
        → Step db (modify db id (fresh_client name queue_size kind source port))
    register : (room : ℕ → Room) (id : ℕ) → Step db (register_client X encode room id db).1
    -- a connection ends, or the broker unregisters one of its own clients
    finish : (room : ℕ → Room) (id : ℕ) → Step db (finish_peer X encode room id db).1
    -- one of the broker's own clients is unregistered, or goes away
    leave : (room : ℕ → Room) (id : ℕ) → Step db (unregister X encode room id db).1
    drop_client_handle : (room : ℕ → Room) (id : ℕ) → Step db (drop_handle X encode room id db)
    -- a request comes in on a connection
    handle :
        (room : ℕ → Room) (id : ℕ) (aaa : Option (ClientAaa A)) (r : Request)
        → Step db (process_request X A encode room id aaa r db).1
    -- the operations of the broker's own clients
    local_send :
        (room : ℕ → Room) (id : ℕ) (target payload : Bytes) (qos : QoS)
        → Step db (client_send X encode room id target payload qos db).1
    local_zc_send :
        (room : ℕ → Room) (id : ℕ) (target header payload : Bytes) (qos : QoS)
        → Step db (client_zc_send X encode room id target header payload qos db).1
    local_broadcast :
        (room : ℕ → Room) (id : ℕ) (target payload : Bytes) (qos : QoS)
        → Step db (client_send_broadcast X encode room id target payload qos db).1
    local_publish :
        (room : ℕ → Room) (id : ℕ) (topic payload : Bytes) (qos : QoS)
        → Step db (client_publish X encode room id topic payload qos db).1
    local_subscribe :
        (id : ℕ) (topics : List Bytes) (qos : QoS) → Step db (subscribe_bulk X id topics qos db).1
    local_unsubscribe :
        (id : ℕ) (topics : List Bytes) (qos : QoS) → Step db (unsubscribe_bulk X id topics qos db).1
    -- a line comes in through the fifo
    command :
        (room : ℕ → Room) (to_vec : Params → Result Bytes) (line : Bytes)
        → Step db (send_fifo_cmd X encode room to_vec line db).1
    -- the pinger of a connection, and a forced disconnect
    ping : (id : ℕ) → Step db (ping_once X id db).1
    disconnect : (name : Bytes) → Step db (trigger_disconnect X db name).1
    -- a receiver takes a frame, or goes away; the core RPC client is set
    receive : (id : ℕ) → Step db (modify db id take_one)
    hang_up : (id : ℕ) → Step db (modify db id close)
    set_core : (id : ℕ) → Step db (record db { core = some id })

  -- What the broker can come to.
  pub data Reach (db : Db X) : Db X → Type 0 where
    here : Reach db db
    next : {d e : Db X} → Reach db d → Step d e → Reach db e

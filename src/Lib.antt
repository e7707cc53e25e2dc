-- ===== src/Lib.antt =====
-- Verification of elbus, a local and network message broker with an RPC layer.
--
-- The parts of the program, and the modules that model them:
--
-- Proto (src/lib.rs): the codes of operations, QoS levels, errors and frame kinds, the error
--   constructors and texts, `FrameData` and its accessors, the name of a secondary client's primary
--   client.
-- Comm (src/comm.rs) and Stream: what is written to a connection, chunk by chunk with the flush
--   that each asks for, and what is read from one. A stream is the bytes that will come and what
--   follows them: the end, or silence, in which a read with a timeout fails and another one waits.
--   Comm.Buffer is `TtlBufWriter` with its flusher, over the buffered writer of the runtime, which
--   is an interface with what is documented of it as its laws.
-- Common (src/common.rs): `str_to_params_map`. A floating point number is kept as its text.
-- Ipc (src/ipc.rs): `Config`, the client's state, the macros `prepare_frame_buf!`,
--   `send_data_or_mark_disconnected!`, `send_frame_and_confirm!` and `send_frame!`, the operations
--   of `AsyncClient`, and `handle_read`, whose event channel is bounded: its receiver takes what comes,
--   has stopped, or is gone. How a write ends is an argument of the operation. Chat is
--   `chat`, with `connect`, over how opening a socket ends, and `register_secondary`.
-- Client (src/client.rs): `AsyncClient`, an interface over the state of a client, with the law that
--   its users rely on; Client.Instances has the clients of src/ipc.rs and src/broker.rs as its
--   instances.
-- Talk: reads and writes in turns, on which both sides of the handshake are written.
-- Broker (src/broker.rs): Request reads what `handle_reader` reads; Writer is `handle_writer`;
--   Client is `ElbusClient`; Db, Registry and Announce are `BrokerDb`; Deliver is
--   `safe_send_frame!`, `send!`, `send_broadcast!` and `publish!`; Access is `ClientAaa` and
--   Config `ServerConfig`; Handler is what `handle_reader` does with a request and Reader its
--   loop; Peer is `handle_peer` with the pinger; Local is `Client`, the broker's own client;
--   System has the broker as a whole, a relation of steps; Core is `BrokerRpcHandlers`, with the
--   data types of src/common.rs, over an encoder that is an argument; Fifo is `send_fifo_cmd`,
--   which reads a line as a command and carries it out; Servers is `Broker` with its services: what
--   `spawn_unix_server`, `spawn_tcp_server` and `spawn_fifo` start, what a round of an accept
--   loop hands to `handle_peer`, the loop that reads the fifo, and `init_default_core_rpc`;
--   Servers.Start is how a broker comes up. Client objects live in a heap, since the maps, the
--   tasks of connections and the caller share them. What becomes of a full queue of an internal
--   client is an argument of a delivery.
-- Wire: the clients of src/ipc.rs and the broker of src/broker.rs on the two ends of a connection;
--   Transit goes from one client through the broker to another, and Calls from `RpcClient` to the
--   processor of another one and back.
-- Rpc (src/rpc.rs): `RpcEvent`, the heads of RPC frames, call ids, `processor` and the answers;
--   Running is `RpcClient` with its tasks, the processor and the pinger; Sending is `notify`, `call0`
--   and `call` over any client of the interface.
-- Server (src/server.rs): the part of `main` that makes the broker, starts its core client and binds
--   the services for the given paths, and `terminate`. Server.Start is how it comes up.
-- Cli (src/cli.rs): the command line client. Print is `print_payload`, `print_hex` and
--   `print_frame`; Run is what `main` does for each command, over any client of the interface
--   that is connected; Handlers is what the handlers of `rpc listen` put out, Listing the tables,
--   Benchmark the handler of the benchmark's calls; Reaches follows the command `send` to the
--   client that the message is for. What is put out is a list of lines and tables; what decodes
--   and encodes JSON and MessagePack is an argument, as are the standard input and what
--   confirmations and answers come to.
-- Tools (src/tools/pubsub.rs): `TopicBroker`, which hands publications to the channels of
--   handlers.
-- Base: lists, bytes, text and UTF-8, pieces of text, shared by all of them.
--
-- The maps of the crate `submap` are not in the repository: Broker.Maps has them as an interface,
-- whose laws are what the broker relies on, and Broker.Example is an instance. Its access lists,
-- and IP networks, are the interface Lists of Broker.Access. What stamps events with the
-- time and encodes them is an argument.
--
-- Bounds and fuel. Counters wrap at 2^64 and lengths are written in 32 bits, as in the source; the
-- theorems on frames ask for bodies of less than 2^32 bytes. The loop of `handle_read` has one
-- more unit of fuel than the stream has bytes, and each frame takes six bytes at least; the loop
-- of `handle_reader` likewise, with nine bytes. `drop_client` calls itself for secondary clients
-- only, which have none, so it goes two calls deep. A code of `RpcError` is an `i16`, held as its
-- 16 bits. Bytes are numbers; a slice that panics is `none`. `trim` has
-- as much fuel as the text has bytes, since it takes one at least with each character.
--
-- A step of System is one operation from its lock to its end: waits inside a delivery are not
-- interleaved with other steps, and what becomes of a full queue meanwhile is chosen for each
-- step.
--
-- Not modelled: timers, sockets and task start-up, and that the services of a broker run beside
-- each other; the accessors that only pass on others and the zero-copy payloads of src/borrow.rs,
-- which are bytes here; of the server program the command line, signals, logging and the set-up
-- of the process; of the command line client the parser of its arguments, colours, the log, the
-- loops of the benchmark with their measurement of time, and the wait of `rpc listen` while its
-- handlers show what comes in; the bindings for other languages, and the examples.
pub mod Base
pub mod Proto
pub mod Comm
pub mod Common
pub mod Stream
pub mod Talk
pub mod Ipc
pub mod Broker
pub mod Wire
pub mod Rpc
pub mod Cli
pub mod Client
pub mod Server
pub mod Tools

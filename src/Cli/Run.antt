-- ===== src/Cli/Run.antt =====
-- src/cli.rs: what `main` does for each command, over a client that is connected. What the standard
-- input holds, what confirmations come to and what an answer is are arguments.
use elbus.Base.{
  ℕ, Bool, Bytes, List, [], ◌∷◌, ◌++◌, Option, none, some, option_map, option_bind, ◌⊎◌, inl, inr,
  if◌then◌else◌, eq_bytes, codes, has_any, valid_utf8,
}
use elbus.Proto.{Result, ok, err, QoS, FrameData}
use elbus.Stream.{Outcome, done, failed, waits}
use elbus.Client.{AsyncClient}
use elbus.Common.Params.{Params, str_to_params_map}
use elbus.Ipc.{Config, config_new}
use elbus.Rpc.Event.{RpcEvent, event_payload}
use elbus.Rpc.Client.{RpcClient, RpcError}
use elbus.Rpc.Processor.{RpcResult, returned}
use elbus.Rpc.Sending
use elbus.Cli.{
  TargetPayload, RpcCall, PublishCommand, Out, line, log_error, Ran, finished, exited, panicked,
  hangs, Opts,
}
use elbus.Cli.Print.{Codec, print_payload, print_frame, sep}

abbrev pub get_payload : Option Bytes → Bytes → Bytes
get_payload none stdin = stdin
get_payload (some p) stdin = p

-- `create_client`, up to the configuration that it connects with
abbrev pub client_config : Opts → Bytes → Config
client_config opts name = record (config_new opts.path name) {
  buf_size = opts.buf_size;
  queue_size = opts.queue_size;
  timeout = opts.timeout;
}

abbrev pub ok_line : List Out
ok_line = line (codes "OK") ∷ []

-- What the program shows, or that it panics while it makes that.
abbrev pub shown : Option (List Out) → Ran
shown none = panicked
shown (some outs) = finished outs

-- `prepare_rpc_call!`, for the payload; `none` where the program panics
unfoldable pub encoded_params : (Params → Result Bytes) → Result Params → Option Bytes
encoded_params to_vec (err e) = none
encoded_params to_vec (ok params) = elim (to_vec params) [ ok b ↦ some b | err e ↦ none ]

unfoldable pub prepare_payload : (Params → Result Bytes) → List Bytes → Bytes → Option Bytes
unfolding encoded_params str_to_params_map
prepare_payload to_vec [] stdin = some []
prepare_payload to_vec (p ∷ []) stdin =
    if eq_bytes p (codes "-")
    then some stdin
    else encoded_params to_vec (str_to_params_map (p ∷ []))
prepare_payload to_vec (p ∷ q ∷ ps) stdin = encoded_params to_vec (str_to_params_map (p ∷ q ∷ ps))

-- What `Handlers::handle_call` answers to every call.
abbrev handler_result : RpcResult
handler_result = returned none

module _ (C : AsyncClient) (confirm : C.Receiver → Outcome (Result (Unit {0}))) where
  -- the last two `unwrap`s of a command
  unfoldable pub confirmed : Outcome (Result (Unit {0})) → Ran
  confirmed (done (ok u)) = finished ok_line
  confirmed (done (err e)) = panicked
  confirmed (failed e) = panicked
  confirmed waits = hangs

  -- `.await.unwrap().unwrap().await.unwrap().unwrap()`, and then "OK"
  unfoldable pub acknowledged : Outcome (Result (Option C.Receiver)) → Ran
  unfolding confirmed
  acknowledged (done (ok (some r))) = confirmed (confirm r)
  acknowledged (done (ok none)) = panicked
  acknowledged (done (err e)) = panicked
  acknowledged (failed e) = panicked
  acknowledged waits = hangs

  abbrev pub ended : Outcome (Result (Option C.Receiver)) × C.State → Ran × C.State
  ended (o, s) = (acknowledged o, s)

  -- `Command::Send`: a broadcast, if the target has a wildcard in it
  unfoldable pub send_operation :
      TargetPayload → Bytes → C.State → Outcome (Result (Option C.Receiver)) × C.State
  unfolding has_any
  send_operation cmd stdin s =
      if has_any (codes "*?") cmd.target
      then C.send_broadcast cmd.target (get_payload cmd.payload stdin) QoS.processed s
      else C.send cmd.target (get_payload cmd.payload stdin) QoS.processed s

  unfoldable pub run_send : TargetPayload → Bytes → C.State → Ran × C.State
  unfolding send_operation acknowledged
  run_send cmd stdin s = ended (send_operation cmd stdin s)

  -- `Command::Publish`
  unfoldable pub run_publish : PublishCommand → Bytes → C.State → Ran × C.State
  unfolding acknowledged
  run_publish cmd stdin s =
      ended (C.publish cmd.topic (get_payload cmd.payload stdin) QoS.processed s)

  -- `RpcCommand::Notify`
  unfoldable pub run_notify : TargetPayload → Bytes → C.State → Ran × C.State
  unfolding acknowledged
  run_notify cmd stdin s =
      ended (Sending.notify C cmd.target (get_payload cmd.payload stdin) QoS.processed s)

  -- `RpcCommand::Call0`
  unfoldable pub run_call0 : (Params → Result Bytes) → RpcCall → Bytes → C.State → Ran × C.State
  unfolding acknowledged prepare_payload
  run_call0 to_vec cmd stdin s = elim (prepare_payload to_vec cmd.params stdin) [
    | none ↦ (panicked, s)
    | some payload ↦ ended (Sending.call0 C cmd.target cmd.method payload QoS.processed s)
  ]

  -- `subscribe_topics`, whose outcome is unwrapped: what follows goes on the connected client
  unfoldable pub after_confirm : Ran → Outcome (Result (Unit {0})) → Ran
  after_confirm next (done (ok u)) = next
  after_confirm next (done (err e)) = panicked
  after_confirm next (failed e) = panicked
  after_confirm next waits = hangs

  unfoldable pub after_subscription : Ran → Outcome (Result (Option C.Receiver)) → Ran
  unfolding after_confirm
  after_subscription next (done (ok (some r))) = after_confirm next (confirm r)
  after_subscription next (done (ok none)) = panicked
  after_subscription next (done (err e)) = panicked
  after_subscription next (failed e) = panicked
  after_subscription next waits = hangs

  module _ (K : Codec) where
    -- the loop of `Command::Listen`, over the frames that come in until the channel is closed
    unfoldable pub print_frames : List FrameData → Option (List Out)
    unfolding print_frame
    print_frames [] = some []
    print_frames (f ∷ fs) =
        option_bind (print_frame K f) λ outs. option_map (λ rest. outs ++ rest) (print_frames fs)

    -- what is shown once the event channel has been taken
    unfoldable pub listening : Bytes → List FrameData → Ran
    unfolding print_frames
    listening name frames = shown (
        option_map
          (λ outs.
            sep K ∷ (line (codes "Listening to messages for " ++ (name ++ codes " ...")) ∷ outs))
          (print_frames frames))

    unfoldable pub run_listen : List Bytes → Bytes → List FrameData → C.State → Ran × C.State
    unfolding after_subscription listening
    run_listen topics name frames s =
        let (o, subscribed) = C.subscribe_bulk topics QoS.processed s in
        let (events, after) = C.take_event_channel subscribed in
        (after_subscription (if events then listening name frames else panicked) o, after)

    -- the result of a call that is made with `unwrap`
    unfoldable pub unwrapped : (Bytes → Ran) → Outcome (Option (RpcEvent ⊎ RpcError)) → Ran
    unwrapped show (done (some (inl e))) = elim (event_payload e) [
      | none ↦ panicked
      | some p ↦ show p
    ]
    unwrapped show (done (some (inr x))) = panicked
    unwrapped show (done none) = panicked
    unwrapped show (failed e) = panicked
    unwrapped show waits = hangs

    -- the text of an RPC error: its data, if they are UTF-8
    abbrev pub error_text : Option Bytes → Bytes
    error_text none = []
    error_text (some b) = if valid_utf8 b then b else []

    -- `RpcCommand::Call`, by the result of the call
    unfoldable pub call_ended : Bool → Outcome (Option (RpcEvent ⊎ RpcError)) → Ran
    unfolding print_payload
    call_ended silent (done (some (inl e))) =
        shown (option_bind (event_payload e) λ p. print_payload K p silent)
    call_ended silent (done (some (inr x))) =
        exited 1 (log_error x.code (error_text x.data_bytes) ∷ [])
    call_ended silent (done none) = panicked
    call_ended silent (failed e) = panicked
    call_ended silent waits = hangs

    unfoldable pub run_call :
        (Params → Result Bytes)
        → Outcome (Option RpcEvent)
        → Option ℕ
        → Bool
        → RpcCall
        → Bytes
        → RpcClient
        → C.State
        → Ran × C.State
    unfolding call_ended prepare_payload
    run_call to_vec answer timeout silent cmd stdin c s =
        elim (prepare_payload to_vec cmd.params stdin) [
          | none ↦ (panicked, s)
          | some payload ↦
              let r =
                Sending.call C confirm answer timeout c cmd.target cmd.method payload QoS.processed
                  s in
              (call_ended silent r.0.0, r.1)
        ]

    -- the core RPC methods, called with no parameters
    abbrev pub core_call :
        Outcome (Option RpcEvent)
        → Option ℕ
        → Bytes
        → RpcClient
        → C.State
        → (Outcome (Option (RpcEvent ⊎ RpcError)) × RpcClient) × C.State
    core_call answer timeout method c s =
        Sending.call C confirm answer timeout c (codes ".broker") method [] QoS.processed s

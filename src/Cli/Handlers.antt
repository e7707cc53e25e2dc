-- ===== src/Cli/Handlers.antt =====
-- src/cli.rs: what `Handlers`, the handlers of the command `rpc listen`, put out.
use elbus.Base.{
  false, Bytes, List, [], ◌∷◌, ◌++◌, Option, some, none, option_bind, option_map, codes,
}
use elbus.Proto.{Result, ok, err, primary_sender}
use elbus.Rpc.Event.{
  RpcEvent, RpcEventKind, notification, request, reply, error_reply, event_payload, method,
  parse_method,
}
use elbus.Cli.{Out, line}
use elbus.Cli.Print.{Codec, print_payload, from_line, sep}

-- `Debug` for `RpcEventKind`
unfoldable event_kind_text : RpcEventKind → Bytes
event_kind_text notification = codes "Notification"
event_kind_text request = codes "Request"
event_kind_text reply = codes "Reply"
event_kind_text error_reply = codes "ErrorReply"

module _ (C : Codec) where
  -- The lines in front, the payload and a separator; `none` where the program panics.
  unfoldable print_event : (Bytes → Bytes → List Out) → RpcEvent → Option (List Out)
  unfolding print_payload
  print_event front e = option_bind e.frame.sender λ sender.
      option_bind (primary_sender e.frame) λ primary. option_bind (event_payload e) λ p.
        option_map (λ outs. front sender primary ++ (outs ++ (sep C ∷ [])))
          (print_payload C p false)

  -- `Handlers::handle_notification`
  unfoldable print_notification : RpcEvent → Option (List Out)
  unfolding print_event event_kind_text
  print_notification e =
      print_event (λ sender primary. from_line C (event_kind_text e.kind) sender primary ∷ []) e

  -- the method, or its digits if it is not UTF-8
  unfoldable method_text : Option Bytes → Option (Result Bytes) → Option Bytes
  method_text bytes none = none
  method_text bytes (some (ok m)) = some m
  method_text bytes (some (err e)) = option_map (λ m. codes "HEX: " ++ C.hex m) bytes

  -- `Handlers::handle_call`
  unfoldable print_call : RpcEvent → Option (List Out)
  unfolding print_event method_text
  print_call e = option_bind (method_text (method e) (parse_method e)) λ m.
      print_event
        (λ sender primary.
          line (codes "method: " ++ m)
          ∷ line (codes "from " ++ (sender ++ (codes " (" ++ (primary ++ codes ")"))))
          ∷ [])
        e

-- ===== src/Cli/Print.antt =====
-- src/cli.rs: `print_payload`, `print_hex` and `print_frame`. The decoders and encoders of the crates
-- that it calls are arguments.
use elbus.Base.{
  ℕ, Bool, true, false, Bytes, List, [], ◌∷◌, ◌++◌, Option, none, some, option_map, option_bind,
  if◌then◌else◌, ◌&&◌, ltb, length, take, codes, valid_utf8,
}
use elbus.Proto.{FrameData, FrameKind, payload, primary_sender}
use elbus.Cli.{Out, line, raw}

-- `serde_json`, `rmp_serde` and `hex`: decoders, the texts of decoded values, in one line or over
-- several, which may fail, and the digits of bytes; and whether `write_all` on the standard output
-- succeeds.
pub record Codec : Type 1 where
  pub Json : Type 0
  pub Value : Type 0
  pub decode_json : Bytes → Option Json
  pub json_text : Bool → Json → Option Bytes
  pub decode_msgpack : Bytes → Option Value
  pub value_text : Bool → Value → Option Bytes
  pub hex : Bytes → Bytes
  pub number : ℕ → Bytes
  pub stdout_takes : Bytes → Bool

-- no byte under 9
unfoldable pub is_str : Bytes → Bool
is_str [] = true
is_str (p ∷ ps) = let rest = is_str ps in if ltb p 9 then false else rest

module _ (C : Codec) where
  unfoldable pub print_hex : Bytes → List Out
  print_hex b =
      if ltb 256 (length b)
      then line (codes "HEX: " ++ (C.hex (take 256 b) ++ codes "...")) ∷ []
      else line (codes "HEX: " ++ C.hex b) ∷ []

  -- the title of a form, if the output is not silent
  abbrev pub titled : Bool → Bytes → List Out → List Out
  titled silent title outs = if silent then outs else line title ∷ outs

  -- JSON, whose text is unwrapped
  unfoldable pub print_json : Bool → C.Json → Option (List Out)
  print_json silent j =
      option_map (λ text. titled silent (codes "JSON:") (line text ∷ [])) (C.json_text silent j)

  unfoldable pub print_string : Bool → Bytes → List Out
  print_string silent s = line ((if silent then [] else codes "STR: ") ++ (codes " " ++ s)) ∷ []

  -- the bytes as they are, whose write is unwrapped
  unfoldable pub print_bytes : Bytes → Option (List Out)
  print_bytes payload = if C.stdout_takes payload then some (raw payload ∷ []) else none

  unfoldable pub print_value : Bool → Bytes → Option C.Value → Option (List Out)
  unfolding print_hex print_bytes
  print_value silent payload (some v) = some (
      titled silent (codes "MSGPACK:")
        (elim (C.value_text silent v) [ some text ↦ line text ∷ [] | none ↦ print_hex payload ]))
  print_value silent payload none = if silent then print_bytes payload else some (print_hex payload)

  -- `none` where the program panics
  unfoldable pub print_payload : Bytes → Bool → Option (List Out)
  unfolding is_str print_json print_string print_value
  print_payload payload silent =
      if is_str payload && valid_utf8 payload
      then elim (C.decode_json payload) [
        | some j ↦ print_json silent j
        | none ↦ some (print_string silent payload)
      ]
      else print_value silent payload (C.decode_msgpack payload)

  -- `Debug` for `FrameKind`
  unfoldable pub kind_text : FrameKind → Bytes
  kind_text FrameKind.prepared = codes "Prepared"
  kind_text FrameKind.message = codes "Message"
  kind_text FrameKind.broadcast = codes "Broadcast"
  kind_text FrameKind.publish = codes "Publish"
  kind_text FrameKind.acknowledge = codes "Acknowledge"
  kind_text FrameKind.nop = codes "Nop"

  abbrev pub from_line : Bytes → Bytes → Bytes → Out
  from_line front sender primary =
      line (front ++ (codes " from " ++ (sender ++ (codes " (" ++ (primary ++ codes ")")))))

  abbrev pub sep : Out
  sep = line (codes "----")

  abbrev topic_lines : Option Bytes → List Out
  topic_lines none = []
  topic_lines (some topic) = line (codes "topic: " ++ topic) ∷ []

  -- a frame without a sender, or whose payload starts behind its end, makes the program panic
  unfoldable pub print_frame : FrameData → Option (List Out)
  unfolding print_payload kind_text
  print_frame f = option_bind f.sender λ sender. option_bind (primary_sender f) λ primary.
      option_bind (payload f) λ p.
        option_map
          (λ outs.
            from_line (kind_text f.kind) sender primary
            ∷ (topic_lines f.topic ++ (outs ++ (sep ∷ []))))
          (print_payload p false)

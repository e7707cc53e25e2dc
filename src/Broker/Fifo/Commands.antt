-- ===== src/Broker/Fifo/Commands.antt =====
-- src/broker.rs, `spawn_fifo` and `send_fifo_cmd`: the lines that the broker's fifo is meant for.
use elbus.Base.{
  ℕ, ◌≡◌, ◌≢◌, refl, ap, ◌∙◌, arith, true, false, Bytes, List, [], ◌∷◌, ◌++◌, ◌==◌, codes, All,
  split_on, Lacks, split_on-append, split_on-none, has_any, trim,
}
use elbus.Proto.{ok, ◌>>=◌}
use elbus.Common.Params.{Params, str_to_params_map}
use elbus.Broker.Fifo.{
  Command, publication, notification, call0, broadcast, message, publication_of, frame_to, marked,
  target_and_payload, command_of, fifo_command,
}

-- A word: no space in it.
abbrev pub IsWord : Bytes → Type 0
IsWord = Lacks 32

-- words with a space between each and the next
abbrev pub joined : Bytes → List Bytes → Bytes
joined w [] = w
joined w (v ∷ vs) = w ++ (32 ∷ joined v vs)

-- The text does not begin with this character.
abbrev pub NotFirst : ℕ → Bytes → Type 0
NotFirst c [] = Unit {0}
NotFirst c (b ∷ bs) = b ≢ c

-- The forms of a line that the broker's documentation gives, with the words in them and what each
-- asks for: `=TOPIC MESSAGE`, `TARGET .MESSAGE`, `TARGET :method param=value …`, and `TARGET MESSAGE`
-- with a wildcard in the target or without one.
pub data Says : Bytes → Command → Type 0 where
  publishes :
      (topic payload : Bytes)
      → IsWord topic
      → IsWord payload
      → Says (61 ∷ joined topic (payload ∷ [])) (publication topic payload)
  notifies :
      (target payload : Bytes)
      → IsWord target
      → IsWord payload
      → NotFirst 61 target
      → Says (joined target ((46 ∷ payload) ∷ [])) (notification target payload)
  calls :
      (target method : Bytes) (words : List Bytes) (params : Params)
      → IsWord target
      → IsWord method
      → All IsWord words
      → NotFirst 61 target
      → str_to_params_map words ≡ ok params
      → Says (joined target ((58 ∷ method) ∷ words)) (call0 target method params)
  broadcasts :
      (target payload : Bytes)
      → IsWord target
      → IsWord payload
      → NotFirst 61 target
      → NotFirst 46 payload
      → NotFirst 58 payload
      → has_any (codes "*?") target ≡ true
      → Says (joined target (payload ∷ [])) (broadcast target payload)
  sends :
      (target payload : Bytes)
      → IsWord target
      → IsWord payload
      → NotFirst 61 target
      → NotFirst 46 payload
      → NotFirst 58 payload
      → has_any (codes "*?") target ≡ false
      → Says (joined target (payload ∷ [])) (message target payload)

split_on-joined :
    (w : Bytes) (ws : List Bytes) → IsWord w → All IsWord ws → split_on 32 (joined w ws) ≡ w ∷ ws
split_on-joined w [] h v = split_on-none 32 w h
split_on-joined w (x ∷ xs) h (k, v) =
    split_on-append 32 w (joined x xs) h ∙ ap (λ rest. w ∷ rest) (split_on-joined x xs k v)

-- A line whose first word does not begin with `=` is split as it is.
command_of-joined :
    (w : Bytes) (x : Bytes) (xs : List Bytes)
    → IsWord w
    → All IsWord (x ∷ xs)
    → NotFirst 61 w
    → command_of (joined w (x ∷ xs)) (joined w (x ∷ xs)) ≡ marked w x xs
unfolding command_of target_and_payload
command_of-joined [] x xs h v n = ap target_and_payload (split_on-joined [] (x ∷ xs) h v)
command_of-joined (c ∷ cs) x xs h v n =
    let e : (c == 61) ≡ false = ground (arith, n) in
    rw e (ap target_and_payload (split_on-joined (c ∷ cs) (x ∷ xs) h v))

marked-plain :
    (target payload : Bytes) (more : List Bytes)
    → NotFirst 46 payload
    → NotFirst 58 payload
    → marked target payload more ≡ frame_to target payload
unfolding marked
marked-plain target [] more h k = refl
marked-plain target (c ∷ cs) more h k = ground (arith, h, k)

command_of-Says : (line : Bytes) (c : Command) → Says line c → command_of line line ≡ ok c
unfolding command_of publication_of marked frame_to
command_of-Says line c (publishes topic payload h k) =
    ap publication_of (split_on-joined topic (payload ∷ []) h (k, tt))
command_of-Says line c (notifies target payload h k n) =
    command_of-joined target (46 ∷ payload) [] h ((omega arith, k), tt) n
command_of-Says line c (calls target method words params h k v n e) =
    command_of-joined target (58 ∷ method) words h ((omega arith, k), v) n
    ∙ ap (λ r. r >>= λ ps. ok (call0 target method ps)) e
command_of-Says line c (broadcasts target payload h k n p q w) =
    command_of-joined target payload [] h (k, tt) n
    ∙ marked-plain target payload [] p q
    ∙ rw (w, frame_to) refl
command_of-Says line c (sends target payload h k n p q w) =
    command_of-joined target payload [] h (k, tt) n
    ∙ marked-plain target payload [] p q
    ∙ rw (w, frame_to) refl

-- A line of the fifo in one of the documented forms, whose words have no space in them and whose
-- payload is one word, with nothing to trim, is read as the command that it asks for.
pub fifo_command-Says :
    (line : Bytes) (c : Command) → Says line c → trim line ≡ line → fifo_command line ≡ ok c
unfolding fifo_command
fifo_command-Says line c s t = ap (λ l. command_of l line) t ∙ command_of-Says line c s

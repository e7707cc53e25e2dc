-- ===== src/Cli/Shown.antt =====
-- src/cli.rs, `print_payload`: which payloads are shown in which form.
use elbus.Base.{
  ◌≡◌, ◌≤◌, ◌<◌, ◌⊎◌, refl, arith, Bool, true, false, Bytes, List, [], ◌∷◌, ◌++◌, Option, none,
  some, ◌&&◌, codes, length, take, ltb, All, valid_utf8, Bool-cases, Option-cases, inl, inr,
}
use elbus.Cli.{Out, line, raw}
use elbus.Cli.Print.{
  Codec, is_str, print_hex, print_json, print_string, print_bytes, print_value, print_payload,
}

-- Text: UTF-8 without the control characters in front of the tab.
abbrev pub IsPlain : Bytes → Type 0
IsPlain payload = All (λ b. 9 ≤ b) payload × (valid_utf8 payload ≡ true)

module _ (C : Codec) where
  -- The digits of a payload, or of its first 256 bytes.
  pub data ShowsDigits (payload : Bytes) : List Out → Type 0 where
    all_digits :
        length payload ≤ 256 → ShowsDigits payload (line (codes "HEX: " ++ C.hex payload) ∷ [])
    first_digits :
        256 < length payload
        → ShowsDigits payload
            (line (codes "HEX: " ++ (C.hex (take 256 payload) ++ codes "...")) ∷ [])

  -- How a payload that is text is shown, in silent mode or not.
  pub data ShowsText (payload : Bytes) : Bool → List Out → Type 0 where
    json :
        (j : C.Json) (text : Bytes)
        → C.decode_json payload ≡ some j
        → C.json_text false j ≡ some text
        → ShowsText payload false (line (codes "JSON:") ∷ line text ∷ [])
    silent_json :
        (j : C.Json) (text : Bytes)
        → C.decode_json payload ≡ some j
        → C.json_text true j ≡ some text
        → ShowsText payload true (line text ∷ [])
    string :
        C.decode_json payload ≡ none
        → ShowsText payload false (line (codes "STR:  " ++ payload) ∷ [])
    silent_string :
        C.decode_json payload ≡ none → ShowsText payload true (line (codes " " ++ payload) ∷ [])

  -- How any other payload is shown.
  pub data ShowsBytes (payload : Bytes) : Bool → List Out → Type 0 where
    value :
        (v : C.Value) (text : Bytes)
        → C.decode_msgpack payload ≡ some v
        → C.value_text false v ≡ some text
        → ShowsBytes payload false (line (codes "MSGPACK:") ∷ line text ∷ [])
    silent_value :
        (v : C.Value) (text : Bytes)
        → C.decode_msgpack payload ≡ some v
        → C.value_text true v ≡ some text
        → ShowsBytes payload true (line text ∷ [])
    untold_value :
        (v : C.Value) {outs : List Out}
        → C.decode_msgpack payload ≡ some v
        → C.value_text false v ≡ none
        → ShowsDigits payload outs
        → ShowsBytes payload false (line (codes "MSGPACK:") ∷ outs)
    silent_untold_value :
        (v : C.Value) {outs : List Out}
        → C.decode_msgpack payload ≡ some v
        → C.value_text true v ≡ none
        → ShowsDigits payload outs
        → ShowsBytes payload true outs
    digits :
        {outs : List Out}
        → C.decode_msgpack payload ≡ none
        → ShowsDigits payload outs
        → ShowsBytes payload false outs
    silent_bytes :
        C.decode_msgpack payload ≡ none
        → C.stdout_takes payload ≡ true
        → ShowsBytes payload true (raw payload ∷ [])

  -- Where the program panics: the text of the JSON cannot be made, or the standard output fails.
  pub data Panics (payload : Bytes) : Bool → Type 0 where
    no_json_text :
        {silent : Bool} (j : C.Json)
        → IsPlain payload
        → C.decode_json payload ≡ some j
        → C.json_text silent j ≡ none
        → Panics payload silent
    no_output :
        ¬ IsPlain payload
        → C.decode_msgpack payload ≡ none
        → C.stdout_takes payload ≡ false
        → Panics payload true

  abbrev pub IsShown : Bytes → Bool → Option (List Out) → Type 0
  IsShown payload silent none = Panics payload silent
  IsShown payload silent (some outs) =
      (IsPlain payload × ShowsText payload silent outs)
      ⊎ ((¬ IsPlain payload) × ShowsBytes payload silent outs)

  is_str-All : (b : Bytes) → is_str b ≡ true → All (λ x. 9 ≤ x) b
  unfolding is_str
  is_str-All [] h = tt
  is_str-All (b ∷ bs) h = (ground (arith, h), is_str-All bs (ground (arith, h)))

  All-is_str : (b : Bytes) → All (λ x. 9 ≤ x) b → is_str b ≡ true
  unfolding is_str
  All-is_str [] h = refl
  All-is_str (b ∷ bs) (h, k) = ground (arith, h, All-is_str bs k)

  is_str-IsPlain : (b : Bytes) → (is_str b && valid_utf8 b) ≡ true → IsPlain b
  is_str-IsPlain b h = (is_str-All b (ground (arith, h)), ground (arith, h))

  not-IsPlain : (b : Bytes) → (is_str b && valid_utf8 b) ≡ false → ¬ IsPlain b
  not-IsPlain b h (k, l) = ground (arith, h, All-is_str b k, l)

  print_hex-ShowsDigits : (payload : Bytes) → ShowsDigits payload (print_hex C payload)
  unfolding print_hex
  print_hex-ShowsDigits payload = elim (Bool-cases (ltb 256 (length payload))) [
    | inl h ↦ rw (h, print_hex) (first_digits (ground (arith, h)))
    | inr h ↦ rw (h, print_hex) (all_digits (ground (arith, h)))
  ]

  print_json-IsShown :
      (payload : Bytes) (silent : Bool) (j : C.Json)
      → IsPlain payload
      → C.decode_json payload ≡ some j
      → IsShown payload silent (print_json C silent j)
  unfolding print_json
  print_json-IsShown payload true j s h = elim (Option-cases (C.json_text true j)) [
    | inl g ↦ rw (g, print_json) (no_json_text j s h g)
    | inr (text, g) ↦ rw (g, print_json) (inl (s, silent_json j text h g))
  ]
  print_json-IsShown payload false j s h = elim (Option-cases (C.json_text false j)) [
    | inl g ↦ rw (g, print_json) (no_json_text j s h g)
    | inr (text, g) ↦ rw (g, print_json) (inl (s, json j text h g))
  ]

  print_string-ShowsText :
      (payload : Bytes) (silent : Bool)
      → C.decode_json payload ≡ none
      → ShowsText payload silent (print_string C silent payload)
  unfolding print_string
  print_string-ShowsText payload true h = silent_string h
  print_string-ShowsText payload false h = string h

  print_bytes-IsShown :
      (payload : Bytes) (silent : Bool)
      → ¬ IsPlain payload
      → C.decode_msgpack payload ≡ none
      → IsShown payload silent (print_value C silent payload none)
  unfolding print_value print_bytes
  print_bytes-IsShown payload false s h = inr (s, digits h (print_hex-ShowsDigits payload))
  print_bytes-IsShown payload true s h = elim (Bool-cases (C.stdout_takes payload)) [
    | inl g ↦ rw (g, print_value, print_bytes) (inr (s, silent_bytes h g))
    | inr g ↦ rw (g, print_value, print_bytes) (no_output s h g)
  ]

  print_some-IsShown :
      (payload : Bytes) (silent : Bool) (v : C.Value)
      → ¬ IsPlain payload
      → C.decode_msgpack payload ≡ some v
      → IsShown payload silent (print_value C silent payload (some v))
  unfolding print_value
  print_some-IsShown payload true v s h = elim (Option-cases (C.value_text true v)) [
    | inl g ↦
        rw (g, print_value) (inr (s, silent_untold_value v h g (print_hex-ShowsDigits payload)))
    | inr (text, g) ↦ rw (g, print_value) (inr (s, silent_value v text h g))
  ]
  print_some-IsShown payload false v s h = elim (Option-cases (C.value_text false v)) [
    | inl g ↦ rw (g, print_value) (inr (s, untold_value v h g (print_hex-ShowsDigits payload)))
    | inr (text, g) ↦ rw (g, print_value) (inr (s, value v text h g))
  ]

  -- A payload that is text, UTF-8 with no byte under 9, is shown as JSON if it is that, and else as
  -- it is behind a blank, which is there in silent mode too; any other payload is shown as the value
  -- that it encodes, and else, in silent mode, byte for byte, or as the digits of its first 256 bytes.
  -- But in silent mode there are no titles. The program panics on JSON of which no text can be made,
  -- and where the bytes cannot be written; that a line can be written is taken for granted.
  pub print_payload-IsShown :
      (payload : Bytes) (silent : Bool) → IsShown payload silent (print_payload C payload silent)
  unfolding print_payload
  print_payload-IsShown payload silent = elim (Bool-cases (is_str payload && valid_utf8 payload)) [
    | inl s ↦
        let plain = is_str-IsPlain payload s in
        elim (Option-cases (C.decode_json payload)) [
          | inl h ↦
              rw (s, print_payload) (rw h (inl (plain, print_string-ShowsText payload silent h)))
          | inr (j, h) ↦ rw (s, print_payload) (rw h (print_json-IsShown payload silent j plain h))
        ]
    | inr s ↦
        let other = not-IsPlain payload s in
        elim (Option-cases (C.decode_msgpack payload)) [
          | inl h ↦ rw (s, print_payload) (rw h (print_bytes-IsShown payload silent other h))
          | inr (v, h) ↦ rw (s, print_payload) (rw h (print_some-IsShown payload silent v other h))
        ]
  ]

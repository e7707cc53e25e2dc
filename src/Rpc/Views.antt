-- ===== src/Rpc/Views.antt =====
-- src/rpc.rs: an RPC frame is read in the same way whether its head comes as the frame's header, as
-- between clients inside the broker, or as the front of the payload, as on a connection.
use elbus.Base.{
  ℕ, ◌+◌, ◌-◌, ◌^◌, ◌<◌, ◌≡◌, refl, ◌∙◌, ap, arith, Bool, true, false, Bytes, [], ◌∷◌, ◌++◌, none,
  some, option_map, option_bind, if◌then◌else◌, length, take, length-append, take-length-append,
  drop-length-append, le→leb, u16_to_le_bytes, u32_to_le_bytes, u16_le_bytes_lem, u32_le_bytes_lem,
  from_le_bytes,
}
use elbus.Proto.{ok, FrameData, payload, slice_from}
use elbus.Rpc.Event.{
  RpcEvent, RpcEventKind, reply, error_reply, event, event_of_frame, event_of_parts, event_of_body,
  slice, id, code, event_payload, head, is_error_reply,
}
use elbus.Rpc.Client.{reply_head, error_head}

pub slice-append : (a b c : Bytes) → slice (length a) (length a + length b) (a ++ (b ++ c)) ≡ some b
unfolding slice
slice-append a b c =
    rw
      (
        le→leb (length a) (length a + length b) (omega arith),
        le→leb (length a + length b) (length (a ++ (b ++ c)))
            (omega (arith, length-append a (b ++ c), length-append b c)),
        slice,
        drop-length-append a (b ++ c),
      )
      (ap some (cut (length a + length b - length a) (omega arith)))
  where
    cut : (k : ℕ) → k ≡ length b → take k (b ++ c) ≡ b
    cut k e = rw e (take-length-append b c)

-- A frame is read as an event of this kind, with this id, code and payload.
abbrev pub Shows : FrameData → RpcEventKind → ℕ → ℕ → Bytes → Type 0
Shows f kind n c p =
    (e : RpcEvent) × (event_of_frame f ≡ some (ok e))
    × (e.kind ≡ kind)
    × (id e ≡ some n)
    × (code e ≡ some c)
    × (event_payload e ≡ some p)

-- The frame has `h` as its header and the payload `p`, or no header and both in its payload.
abbrev pub Carries : FrameData → Bool → Bytes → Bytes → Type 0
Carries f true h p = (f.header ≡ some h) × (payload f ≡ some p)
Carries f false h p = (f.header ≡ none) × (payload f ≡ some (h ++ p))

pub event_of_frame-Carries :
    (f : FrameData) (b : Bool) (c : ℕ) (h p : Bytes)
    → Carries f b (c ∷ h) p
    → event_of_frame f ≡ some (event_of_body f (c ∷ (if b then h else h ++ p)) b c)
unfolding event_of_frame
event_of_frame-Carries f true c h p (eh, ep) = ap (λ x. event_of_parts f x (payload f)) eh
event_of_frame-Carries f false c h p (eh, ep) =
    ap (λ x. event_of_parts f x (payload f)) eh ∙ ap (event_of_parts f none) ep

-- The head of an event holds the bytes of the head that was sent, at least.
pub head-Carries :
    (f : FrameData) (b : Bool) (k : RpcEventKind) (n : ℕ) (h p : Bytes)
    → Carries f b h p
    → head (event k f n b) ≡ some (if b then h else h ++ p)
unfolding head
head-Carries f true k n h p (eh, ep) = eh
head-Carries f false k n h p (eh, ep) = ep

pub payload-Carries :
    (f : FrameData) (b w : Bool) (k : RpcEventKind) (n : ℕ) (h p : Bytes)
    → Carries f b h p
    → n ≡ (if b then 0 else length h)
    → event_payload (event k f n w) ≡ some p
unfolding event_payload slice_from option_bind
payload-Carries f true w k n h p (eh, ep) e =
    ap (λ x. option_bind x (slice_from n)) ep ∙ ground (arith, e)
payload-Carries f false w k n h p (eh, ep) e =
    ap (λ x. option_bind x (slice_from n)) ep
    ∙ rw (e, le→leb (length h) (length (h ++ p)) (omega (arith, length-append h p)))
        (ap some (drop-length-append h p))

-- An answer to a call is read as a reply with the call's id and the data that were sent, in either
-- form of the frame.
pub reply_head-Shows :
    (f : FrameData) (b : Bool) (n : ℕ) (p : Bytes)
    → n < 2 ^ 32
    → Carries f b (reply_head n) p
    → Shows f reply n 0 p
unfolding event_of_body id code slice is_error_reply option_bind
reply_head-Shows f b n p h c = (
  event reply f (if b then 0 else 5) b,
  event_of_frame-Carries f b _ (u32_to_le_bytes n) p c ∙ body b,
  refl,
  ap (λ x. option_map from_le_bytes (option_bind x (slice 1 5)))
        (head-Carries f b reply (if b then 0 else 5) (reply_head n) p c)
      ∙ number b,
  refl,
  payload-Carries f b b reply _ (reply_head n) p c refl,
)
  where
    body :
        (b : Bool)
        → some (
            event_of_body f
              (0x11 ∷ (if b then u32_to_le_bytes n else u32_to_le_bytes n ++ p))
              b
              0x11)
          ≡ some (ok (event reply f (if b then 0 else 5) b))
    body true = refl
    body false = ground arith

    number :
        (b : Bool)
        → option_map from_le_bytes
            (option_bind (some (if b then reply_head n else reply_head n ++ p)) (slice 1 5))
          ≡ some n
    number true = ap some (u32_le_bytes_lem n h)
    number false =
        ap (option_map from_le_bytes) (slice-append (0x11 ∷ []) (u32_to_le_bytes n) p)
        ∙ ap some (u32_le_bytes_lem n h)

-- An error is read as an error with the call's id, the code of 16 bits and the data, in either form.
pub error_head-Shows :
    (f : FrameData) (b : Bool) (n c : ℕ) (p : Bytes)
    → n < 2 ^ 32
    → c < 2 ^ 16
    → Carries f b (error_head n c) p
    → Shows f error_reply n c p
unfolding event_of_body id code slice is_error_reply option_bind
error_head-Shows f b n c p h w v = (
  event error_reply f (if b then 0 else 7) b,
  event_of_frame-Carries f b _ (u32_to_le_bytes n ++ u16_to_le_bytes c) p v ∙ body b,
  refl,
  ap (λ x. option_map from_le_bytes (option_bind x (slice 1 5)))
        (head-Carries f b error_reply (if b then 0 else 7) (error_head n c) p v)
      ∙ number b,
  ap (λ x. option_map from_le_bytes (option_bind x (slice 5 7)))
        (head-Carries f b error_reply (if b then 0 else 7) (error_head n c) p v)
      ∙ reason b,
  payload-Carries f b b error_reply _ (error_head n c) p v refl,
)
  where
    rest : Bytes
    rest = u32_to_le_bytes n ++ u16_to_le_bytes c

    body :
        (b : Bool)
        → some (event_of_body f (0x12 ∷ (if b then rest else rest ++ p)) b 0x12)
          ≡ some (ok (event error_reply f (if b then 0 else 7) b))
    body true = refl
    body false = ground arith

    number :
        (b : Bool)
        → option_map from_le_bytes
            (option_bind (some (if b then error_head n c else error_head n c ++ p)) (slice 1 5))
          ≡ some n
    number true = ap some (u32_le_bytes_lem n h)
    number false =
        ap (option_map from_le_bytes)
          (slice-append (0x12 ∷ []) (u32_to_le_bytes n) (u16_to_le_bytes c ++ p))
        ∙ ap some (u32_le_bytes_lem n h)

    reason :
        (b : Bool)
        → option_map from_le_bytes
            (option_bind (some (if b then error_head n c else error_head n c ++ p)) (slice 5 7))
          ≡ some c
    reason true = ap some (u16_le_bytes_lem c w)
    reason false =
        ap (option_map from_le_bytes)
          (slice-append (0x12 ∷ u32_to_le_bytes n) (u16_to_le_bytes c) p)
        ∙ ap some (u16_le_bytes_lem c w)

-- ===== src/Rpc/Calls.antt =====
-- src/rpc.rs: calls, from the client that makes one to the processor that reads it, and back.
use elbus.Base.{
  ℕ, ◌+◌, ◌-◌, ◌^◌, ◌<◌, ◌≡◌, ◌≢◌, refl, ◌∙◌, ap, arith, Bool, true, false, Bytes, [], ◌∷◌, ◌++◌,
  some, option_map, option_bind, if◌then◌else◌, length, NoZero, split_zero-append, length-append,
  append_assoc, u32_to_le_bytes, u32_le_bytes_lem, from_le_bytes,
}
use elbus.Proto.{ok, FrameData}
use elbus.Ipc.{has_id}
use elbus.Rpc.Event.{
  RpcEvent, request, event, event_of_frame, event_of_body, slice, id, method, event_payload, head,
}
use elbus.Rpc.Client.{RpcClient, prepare_call_payload, next_call_id, begin_call}
use elbus.Rpc.Views.{Carries, slice-append, event_of_frame-Carries, head-Carries, payload-Carries}

-- A frame is read as a request, in this frame, with this id, method and parameters.
abbrev pub ShowsCall : FrameData → ℕ → Bytes → Bytes → Type 0
ShowsCall f n m p =
    (e : RpcEvent) × (event_of_frame f ≡ some (ok e))
    × (e.frame ≡ f)
    × (e.kind ≡ request)
    × (id e ≡ some n)
    × (method e ≡ some m)
    × (event_payload e ≡ some p)

call_tail : ℕ → Bytes → Bytes
call_tail n m = u32_to_le_bytes n ++ (m ++ (0 ∷ []))

-- A call is read as a request with its id, its method and its parameters, in either form of the
-- frame, for a method with no zero byte in it.
pub prepare_call_payload-ShowsCall :
    (f : FrameData) (b : Bool) (n : ℕ) (m p : Bytes)
    → n < 2 ^ 32
    → NoZero m
    → Carries f b (prepare_call_payload m (u32_to_le_bytes n)) p
    → ShowsCall f n m p
unfolding prepare_call_payload event_of_body id method head slice option_bind call_tail
prepare_call_payload-ShowsCall f b n m p h z v = (
  event request f (pos b) b,
  event_of_frame-Carries f b 1 (call_tail n m) p v ∙ body b,
  refl,
  refl,
  ap (λ x. option_map from_le_bytes (option_bind x (slice 1 5))) (carried b v) ∙ number b,
  name b v,
  payload-Carries f b b request _ (1 ∷ call_tail n m) p v (position b),
)
  where
    pos : Bool → ℕ
    pos true = 0
    pos false = 6 + length m

    position : (b : Bool) → pos b ≡ (if b then 0 else length (1 ∷ call_tail n m))
    position true = refl
    position false = omega (arith, length-append m (0 ∷ []))

    carried :
        (b : Bool)
        → Carries f b (1 ∷ call_tail n m) p
        → head (event request f (pos b) b)
          ≡ some (if b then 1 ∷ call_tail n m else 1 ∷ call_tail n m ++ p)
    carried b v = head-Carries f b request (pos b) (1 ∷ call_tail n m) p v

    body :
        (b : Bool)
        → some (event_of_body f (1 ∷ (if b then call_tail n m else call_tail n m ++ p)) b 1)
          ≡ some (ok (event request f (pos b) b))
    body true = ground (arith, length-append m (0 ∷ []))
    body false = ground (
      arith,
      length-append m (0 ∷ []),
      length-append (m ++ (0 ∷ [])) p,
      append_assoc m (0 ∷ []) p,
      split_zero-append m p z,
    )

    number :
        (b : Bool)
        → option_map from_le_bytes (
            option_bind
              (some (if b then 1 ∷ call_tail n m else 1 ∷ call_tail n m ++ p))
              (slice 1 5))
          ≡ some n
    number true =
        ap (option_map from_le_bytes) (slice-append (1 ∷ []) (u32_to_le_bytes n) (m ++ (0 ∷ [])))
        ∙ ap some (u32_le_bytes_lem n h)
    number false =
        ap (option_map from_le_bytes)
          (slice-append (1 ∷ []) (u32_to_le_bytes n) (m ++ (0 ∷ []) ++ p))
        ∙ ap some (u32_le_bytes_lem n h)

    name :
        (b : Bool) → Carries f b (1 ∷ call_tail n m) p → method (event request f (pos b) b) ≡ some m
    name true (eh, ep) =
        ap (λ x. option_bind x (λ h. slice 5 (length h - 1) h)) eh
        ∙ ap (λ k. slice 5 k (1 ∷ call_tail n m)) {x = length (1 ∷ call_tail n m) - 1}
            {y = 5 + length m} (omega (arith, length-append m (0 ∷ [])))
        ∙ slice-append (1 ∷ u32_to_le_bytes n) m (0 ∷ [])
    name false (eh, ep) =
        ap (λ x. option_bind x (slice 5 (6 + length m - 1))) ep
        ∙ ap (λ k. slice 5 k (1 ∷ call_tail n m ++ p)) {x = 6 + length m - 1} {y = 5 + length m}
            (omega arith)
        ∙ ap (slice 5 (5 + length m))
            (ap (λ t. 1 ∷ (u32_to_le_bytes n ++ t)) (append_assoc m (0 ∷ []) p))
        ∙ slice-append (1 ∷ u32_to_le_bytes n) m (0 ∷ p)

-- A call's id is not 0, is not the one before, fits in 32 bits, and is waited for.
pub begin_call-fresh :
    (c : RpcClient) (m : Bytes)
    → c.call_id < 2 ^ 32
    → let r = begin_call c m in
      (0 < r.0.0) × (r.0.0 ≢ c.call_id) × (r.0.0 < 2 ^ 32) × (has_id r.0.0 r.1.calls ≡ true)
unfolding begin_call next_call_id has_id
begin_call-fresh c m h = ground arith

-- ===== src/Rpc/Running/Stranded.antt =====
-- src/rpc.rs: what becomes of the calls when the processor ends.
use elbus.Base.{
  subst, ap, ◌∙◌, ℕ, ◌⊎◌, inl, inr, ◌≡◌, ◌≢◌, refl, arith, true, false, Bytes, List, [], ◌∷◌,
}
use elbus.Proto.{Result, ok, err, Error, FrameData}
use elbus.Ipc.{has_id, remove_id, insert_id}
use elbus.Rpc.Client.{begin_call, end_call}
use elbus.Rpc.Running.{
  Running, pinged, stopped, arrived, events_closed, next_of, next_event, called, cancelled,
}

-- What the client comes to from some state on, while the call with this id is not cancelled, which
-- happens only until its frame is sent. The call borrows the client, which so is not dropped.
pub data Later (n : ℕ) (r : Running) : Running → Type 0 where
  now : Later n r r
  pings :
      {t : Running}
      → Later n r t
      → t.pinging ≡ true
      → (o : Result (Unit {0})) → Later n r (pinged o t)
  arrives : {t : Running} → Later n r t → (f : FrameData) → Later n r (arrived f t)
  proceeds : {t : Running} → Later n r t → t.processing ≡ true → Later n r (next_event t)
  stops : {t : Running} → Later n r t → t.aborted ≡ true → Later n r (stopped t)
  closes : {t : Running} → Later n r t → Later n r (events_closed t)
  calls : {t : Running} → Later n r t → (m : Bytes) → Later n r (called m t).1
  cancels : {t : Running} → Later n r t → (k : ℕ) (e : Error) → k ≢ n → Later n r (cancelled k e t)

-- The processor has ended, no answer goes to a call any more, and the call still waits.
abbrev pub IsStranded : ℕ → Running → Running → Type 0
IsStranded n r s =
    (s.processing ≡ false)
    × (s.processor.resolved ≡ r.processor.resolved)
    × (has_id n s.processor.calls ≡ true)

has_id-remove_other :
    (n k : ℕ) (is : List ℕ) → k ≢ n → has_id n is ≡ true → has_id n (remove_id k is) ≡ true
unfolding has_id remove_id
has_id-remove_other n k [] ne h = h
has_id-remove_other n k (i ∷ is) ne h = ground (arith, has_id-remove_other n k is ne, h)

has_id-insert_id : (n k : ℕ) (is : List ℕ) → has_id n is ≡ true → has_id n (insert_id k is) ≡ true
unfolding has_id
has_id-insert_id n k is h = ground (arith, has_id-remove_other n k is, h)

Later-IsStranded :
    (n : ℕ) (r s : Running)
    → r.processing ≡ false
    → has_id n r.processor.calls ≡ true
    → Later n r s
    → IsStranded n r s
unfolding pinged called cancelled begin_call end_call
Later-IsStranded n r s ended h now = (ended, refl, h)
Later-IsStranded n r s ended h (pings l p (ok u)) = Later-IsStranded n r _ ended h l
Later-IsStranded n r s ended h (pings l p (err x)) =
    let (over, same, waits) = Later-IsStranded n r _ ended h l in (over, same, waits)
Later-IsStranded n r s ended h (arrives l f) =
    let (over, same, waits) = Later-IsStranded n r _ ended h l in (over, same, waits)
Later-IsStranded n r s ended h (stops l p) =
    let (_, same, waits) = Later-IsStranded n r _ ended h l in (refl, same, waits)
Later-IsStranded n r s ended h (proceeds l p) =
    let (over, _, _) = Later-IsStranded n r _ ended h l in cc
Later-IsStranded n r s ended h (closes l) =
    let (over, same, waits) = Later-IsStranded n r _ ended h l in (over, same, waits)
Later-IsStranded n r s ended h (calls {t} l m) =
    let (over, same, waits) = Later-IsStranded n r _ ended h l in
    (over, same, has_id-insert_id n _ t.processor.calls waits)
Later-IsStranded n r s ended h (cancels {t} l k x ne) =
    let (over, same, waits) = Later-IsStranded n r _ ended h l in
    (over, same, has_id-remove_other n k t.processor.calls ne waits)

-- Once the abort that follows a failed ping has come through, or the processor has found the event
-- channel closed and empty, a call that still waits for its answer is never answered, whatever the
-- tasks and other callers do, and its entry stays in the map of calls, unless it is cancelled itself.
pub ended-IsStranded :
    (n : ℕ) (e : Error) (r s : Running)
    → has_id n r.processor.calls ≡ true
    → Later n (stopped (pinged (err e) r)) s
      ⊎ ((r.closed ≡ true) × (r.queued ≡ []) × Later n (next_event r) s)
    → IsStranded n r s
unfolding pinged next_event next_of
ended-IsStranded n e r s h (inl l) = Later-IsStranded n (stopped (pinged (err e) r)) s refl h l
ended-IsStranded n e r s h (inr (c, q, l)) =
    Later-IsStranded n (stopped r) s refl h (subst (λ t. Later n t s) (ended c q) l)
  where
    ended : r.closed ≡ true → r.queued ≡ [] → next_event r ≡ stopped r
    ended c q = ap (λ q. next_of q r.closed r) q ∙ ap (λ c. next_of [] c r) c

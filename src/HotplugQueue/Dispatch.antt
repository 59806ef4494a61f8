-- ===== src/HotplugQueue/Dispatch.antt =====
-- `runRequest` of pkg/csi/driver/hotplug_queue.go: the check before a request runs, and its time limit.
use storage_provider_openneb.Prelude.{
  ◌≡◌, ◌≢◌, String, Bool, false, Option, none, some, arith, if◌then◌else◌, ◌&&◌, ◌⊎◌,
}
use storage_provider_openneb.Prelude.Int.{pos, ltb_ℤ}
use storage_provider_openneb.Golang.Clock.{Duration}
use storage_provider_openneb.HotplugQueue.Request.{Request}
use storage_provider_openneb.HotplugQueue.Manager.{
  Manager, QueueError, active_timed_out, stale, paused, failed,
}

pub data Decision : Type 0 where
  -- `valid` stands for every value that is none of the other three.
  valid completed is_stale is_paused : Decision

pub record Validation : Type 0 where
  pub decision : Decision
  pub reason : String
  pub message : String

-- What a request's function returned: its error, if any, with the answer of
-- `errors.Is(err, context.DeadlineExceeded)`, and whether its context's deadline has passed by then.
pub record Outcome : Type 0 where
  pub err : Option (String × Bool)
  pub deadline_passed : Bool

-- The timeout that is put on the request's context, if any.
abbrev pub time_limit : Manager → Option Duration
time_limit m = if ltb_ℤ (pos 0) m.max_active then some m.max_active else none

unfoldable pub judge : Manager → Request → Outcome → Option QueueError
judge m req o = elim o.err [
  | none ↦
      if o.deadline_passed
      then some (active_timed_out req.node req.operation req.volume m.max_active)
      else none
  | some (text, is_deadline) ↦
      if ltb_ℤ (pos 0) m.max_active && is_deadline
      then some (active_timed_out req.node req.operation req.volume m.max_active)
      else some (failed text)
]

unfoldable pub decide_request :
    Manager → Request → (Option Duration → Outcome) → Validation → Decision → Option QueueError
unfolding judge
decide_request m req fn v completed = none
decide_request m req fn v is_stale =
    some (stale req.node req.operation req.volume v.reason v.message)
decide_request m req fn v is_paused =
    some (paused req.node req.operation req.volume v.reason v.message)
decide_request m req fn v valid = judge m req (fn (time_limit m))

-- `fn` is the request's function under its context, for the timeout that is added.
unfoldable pub run_request :
    Manager
    → Option (String → String → String → Validation)
    → Request
    → (Option Duration → Outcome)
    → Option QueueError
unfolding decide_request
run_request m none req fn = judge m req (fn (time_limit m))
run_request m (some validator) req fn =
    let v = validator req.node req.operation req.volume in decide_request m req fn v v.decision

-- With a validator in place a request succeeds exactly when the validator found the work already
-- done, or let it run and its function returned no error before its deadline.
run_request-eq-none :
    (m : Manager) (check : String → String → String → Validation) (req : Request)
    (fn : Option Duration → Outcome)
    → let d = (check req.node req.operation req.volume).decision in
      let o = fn (time_limit m) in
      ((run_request m (some check) req fn ≡ none)
        → (d ≡ completed) ⊎ ((d ≡ valid) × (o.err ≡ none) × (o.deadline_passed ≡ false)))
      × ((d ≡ completed) ⊎ ((d ≡ valid) × (o.err ≡ none) × (o.deadline_passed ≡ false))
          → run_request m (some check) req fn ≡ none)
unfolding run_request
run_request-eq-none m check req fn = (λ h. ground arith, λ h. ground arith)

-- A request that the validator calls stale or paused is not run: its error is the same for every
-- function.
pub run_request_refused :
    (m : Manager) (check : String → String → String → Validation) (req : Request)
    (fn other : Option Duration → Outcome)
    → let d = (check req.node req.operation req.volume).decision in
      (d ≡ is_stale) ⊎ (d ≡ is_paused)
      → (run_request m (some check) req fn ≡ run_request m (some check) req other)
        × (run_request m (some check) req fn ≢ none)
unfolding run_request
run_request_refused m check req fn other h = (ground arith, ground arith)

-- ===== src/Controller/Queued.antt =====
-- The controller's part of the queue in pkg/csi/driver/controllerserver.go: the check before a queued
-- operation runs, and `withQueuedHotplug` for one caller.
use storage_provider_openneb.Prelude.{
  String, str_eq, Bool, true, false, not, ◌&&◌, ◌||◌, List, [], ◌∷◌, Option, none, some,
  if◌then◌else◌,
}
use storage_provider_openneb.Prelude.Int.{ℤ, negsuc, eq_ℤ}
use storage_provider_openneb.Golang.Answer.{Answer, failed, answered}
use storage_provider_openneb.Golang.Text.{trim_space}
use storage_provider_openneb.Golang.Cases.{to_lower}
use storage_provider_openneb.HotplugGuard.{CooldownState}
use storage_provider_openneb.HotplugQueue.Manager.{QueueError}
use storage_provider_openneb.HotplugQueue.Dispatch.{Decision, valid, completed, is_stale, is_paused}
use storage_provider_openneb.Controller.Health.{hotplug_cooldown_state}
use storage_provider_openneb.Controller.Drift.{resolve_context}
use storage_provider_openneb.Controller.Sticky.{find_node, volume_in_node}
use storage_provider_openneb.Controller.{
  Run, ◌>>=◌, ◌>>◌, pure, ask, on_by_default, is_blank, RuntimeContext, ClaimState, Code,
  unavailable, deadline_exceeded, aborted, QueueReply, runs, gives_up, merged, merged_failed,
  queued, volume_looked_up, claim_state_read, diagnosed,
}

abbrev pub find_volume : String → Run (Answer ℤ)
find_volume volume = ask (λ o h. o.volume_exists h volume) (volume_looked_up volume)

-- An attachment of this volume to this node that is not being deleted.
unfoldable pub has_attachment : String → String → List (String × String × Bool) → Bool
has_attachment pv node [] = false
has_attachment pv node ((v, n, deleting) ∷ vas) =
    (str_eq v pv && (str_eq n node && not deleting)) || has_attachment pv node vas

abbrev pub lacks_attachment : String → String → Answer (List (String × String × Bool)) → Bool
lacks_attachment pv node (failed e) = false
lacks_attachment pv node (answered vas) = not (has_attachment pv node vas)

abbrev pub claim_is_stale : String → String → ClaimState → Answer Bool → Bool
claim_is_stale pv node c (failed e) = false
claim_is_stale pv node c (answered false) = true
claim_is_stale pv node c (answered true) =
    c.deleting || (c.released_or_failed || lacks_attachment pv node c.attachments)

abbrev pub context_is_stale : Answer RuntimeContext → Bool → String → Run Bool
context_is_stale (failed e) missing node = pure missing
context_is_stale (answered context) missing node = do
  c ← ask (λ o h. o.claim_state h context.pv_name) (λ _. claim_state_read context.pv_name)
  pure (claim_is_stale context.pv_name node c c.found)

unfoldable pub attach_request_stale : String → String → Run Bool
unfolding has_attachment
attach_request_stale node volume s =
    if s.settings.kube_enabled
    then (do
      missing ← (λ s. (s.outside.context_missing s.history volume, s))
      context ← resolve_context volume
      context_is_stale context missing node)
        s
    else (false, s)

pub data Operation : Type 0 where
  attach detach other_operation : Operation

-- `strings.ToLower(strings.TrimSpace(operation))`
unfoldable pub operation_of : String → Operation
operation_of text =
    let t = to_lower (trim_space text) in
    if str_eq t "attach" then attach else (if str_eq t "detach" then detach else other_operation)

abbrev pub judge_operation : Operation → Answer String → String → String → Run Decision
judge_operation attach (answered target) node volume = pure completed
judge_operation attach (failed e) node volume = do
  is_old ← attach_request_stale node volume
  pure (if is_old then is_stale else valid)
judge_operation detach (answered target) node volume = pure valid
judge_operation detach (failed e) node volume = pure completed
judge_operation other_operation there node volume = pure valid

abbrev pub decide_unless_cooling :
    String → Operation → String → ℤ → ℤ → Option CooldownState → Run Decision
decide_unless_cooling node operation volume volume_id node_id (some state) = pure is_paused
decide_unless_cooling node operation volume volume_id node_id none = do
  there ← volume_in_node volume_id node_id
  judge_operation operation there node volume

abbrev pub decide_node : String → Operation → String → ℤ → Answer ℤ → Run Decision
decide_node node operation volume volume_id (failed e) = pure valid
decide_node node operation volume volume_id (answered node_id) =
    if eq_ℤ node_id (negsuc 0) then pure is_stale else (do
      cooling ← hotplug_cooldown_state node
      decide_unless_cooling node operation volume volume_id node_id cooling)

abbrev pub decide_volume : String → Operation → String → Answer ℤ → Run Decision
decide_volume node operation volume (failed e) = pure valid
decide_volume node operation volume (answered volume_id) =
    if eq_ℤ volume_id (negsuc 0)
    then pure is_stale
    else (do found ← find_node node; decide_node node operation volume volume_id found)

-- `validateHotplugQueueRequest`, its decision.
unfoldable pub validate_queue_request : String → Operation → String → Run Decision
unfolding hotplug_cooldown_state attach_request_stale
validate_queue_request node operation volume =
    if is_blank node || is_blank volume
    then pure valid
    else (do found ← find_volume volume; decide_volume node operation volume found)

-- The queue's errors, by their types.
pub data Refusal : Type 0 where
  waits_too_long runs_too_long stale paused other_refusal : Refusal

-- The type of the queue's error.
abbrev pub refusal_of : QueueError → Refusal
refusal_of (QueueError.timed_out node operation volume limit) = waits_too_long
refusal_of (QueueError.active_timed_out node operation volume limit) = runs_too_long
refusal_of (QueueError.stale node operation volume reason message) = stale
refusal_of (QueueError.paused node operation volume reason message) = paused
refusal_of (QueueError.failed text) = other_refusal

-- How a queued operation ended for its caller: its function ran and returned a value or an error; it
-- was not run, and there is no error; or the queue's error.
pub data Ended (A : Type 0) : Type 0 where
  ran : A → Ended A
  ran_failed : Code → Ended A
  not_run : Ended A
  queue_failed : Refusal → Ended A

-- What the function of a request returned.
pub data Returned (A : Type 0) : Type 0 where
  done : A → Returned A
  fails : Code → Returned A

-- `runRequest` after the function returned: its errors have a gRPC status, and none is the context's.
abbrev pub ended : {A : Type 0} → Bool → Returned A → Ended A
ended late (fails c) = ran_failed c
ended false (done a) = ran a
ended true (done a) = queue_failed runs_too_long

abbrev pub run_decided : {A : Type 0} → Bool → Run (Returned A) → Decision → Run (Ended A)
run_decided late fn valid = do r ← fn; pure (ended late r)
run_decided late fn completed = pure not_run
run_decided late fn is_stale = pure (queue_failed stale)
run_decided late fn is_paused = pure (queue_failed paused)

abbrev pub dequeue :
    {A : Type 0} → String → String → String → Run (Returned A) → QueueReply → Run (Ended A)
dequeue node operation volume fn (gives_up e) = pure (queue_failed (refusal_of e))
dequeue node operation volume fn merged = pure not_run
dequeue node operation volume fn (merged_failed c) = pure (ran_failed c)
dequeue node operation volume fn (runs late) = do
  decision ← validate_queue_request node (operation_of operation) volume
  run_decided late fn decision

abbrev pub directly : {A : Type 0} → Returned A → Ended A
directly (done a) = ran a
directly (fails c) = ran_failed c

unfoldable pub with_queued_hotplug :
    {A : Type 0} → String → String → String → Run (Returned A) → Run (Ended A)
unfolding validate_queue_request operation_of
with_queued_hotplug node operation volume fn s =
    if on_by_default s.settings.queue_enabled
    then (do
      q ← ask (λ o h. o.queue h node operation volume) (queued node operation volume)
      dequeue node operation volume fn q)
        s
    else (do r ← fn; pure (directly r)) s

-- The code of a queue's error in the two handlers. An active timeout is diagnosed first.
unfoldable pub queue_failure : String → Refusal → Run Code
queue_failure node waits_too_long = pure deadline_exceeded
queue_failure node runs_too_long = do
  ask (λ o h. tt {0}) (λ _. diagnosed node)
  pure deadline_exceeded
queue_failure node stale = pure aborted
queue_failure node paused = pure unavailable
queue_failure node other_refusal = pure aborted

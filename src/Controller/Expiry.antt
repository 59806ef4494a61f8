-- ===== src/Controller/Expiry.antt =====
-- The reaper of expired grace periods in pkg/csi/driver/controllerserver.go: `runStickyDetachReaper` and
-- `expireStickyDetach`. The locks of the node and of the volume are held around the queued function.
pub mod Spared
pub mod Forgotten
pub mod Settled
use storage_provider_openneb.Prelude.{
  String, str_eq, Bool, true, false, ◌&&◌, List, [], ◌∷◌, Option, none, some, if◌then◌else◌,
}
use storage_provider_openneb.Prelude.Int.{ℤ}
use storage_provider_openneb.Golang.Answer.{Answer, failed, answered}
use storage_provider_openneb.Golang.Clock.{Time, after}
use storage_provider_openneb.StickyAttachment
use storage_provider_openneb.StickyAttachment.{StickyState, StickyError, list_expired}
use storage_provider_openneb.HotplugGuard.{CooldownState}
use storage_provider_openneb.Controller.Health.{hotplug_cooldown_state, clear_hotplug_guard_state}
use storage_provider_openneb.Controller.Drift.{clear_quarantine, detach_metadata_drift_error}
use storage_provider_openneb.Controller.Sticky.{
  find_node, volume_in_node, detach_volume, desired_on_node, is_true, found_id, read_clock,
  clear_sticky, defer_sticky_detach,
}
use storage_provider_openneb.Controller.Moves.{code_or_internal}
use storage_provider_openneb.Controller.Queued.{find_volume, done, fails, with_queued_hotplug}
use storage_provider_openneb.Controller.Publish.{resolve_size}
use storage_provider_openneb.Controller.Unpublish.{Done}
use storage_provider_openneb.Controller.{Run, ◌>>=◌, ◌>>◌, pure, gets, internal, CallError}

-- Whether the volume is observed on the node: none, if either is not found. Both are looked up.
abbrev pub locate_ids : Option ℤ → Option ℤ → Run (Option (Answer String))
locate_ids none found s = (none, s)
locate_ids (some volume_id) none s = (none, s)
locate_ids (some volume_id) (some node_id) s =
    (do there ← volume_in_node volume_id node_id; pure (some there)) s

unfoldable pub locate : String → String → Run (Option (Answer String))
locate volume node = do
  v ← find_volume volume
  n ← find_node node
  locate_ids (found_id v) (found_id n)

-- An error of the function is the queue's outcome, which the reaper does not read.
abbrev pub done_if_cleared : Option StickyError → Done
done_if_cleared none = done tt
done_if_cleared (some e) = fails internal

abbrev pub after_expiry : StickyState → Option CallError → Run Done
after_expiry state (some e) = do
  drift ← detach_metadata_drift_error state.volume_id state.node_id e.text
  pure (fails (code_or_internal drift))
after_expiry state none = do
  clear_hotplug_guard_state state.node_id
  clear_quarantine state.volume_id
  resolve_size state.volume_id
  e ← clear_sticky state.volume_id
  pure (done_if_cleared e)

abbrev pub detach_expired : StickyState → Run Done
detach_expired state = do e ← detach_volume state.volume_id state.node_id; after_expiry state e

abbrev pub drop_absent : StickyState → Option StickyError → Run Done
drop_absent state (some e) = pure (fails internal)
drop_absent state none = do clear_quarantine state.volume_id; pure (done tt)

abbrev pub unless_gone : StickyState → Option (Answer String) → Run Done
unless_gone state none = detach_expired state
unless_gone state (some (answered device)) = detach_expired state
unless_gone state (some (failed e)) = do
  cleared ← clear_sticky state.volume_id
  drop_absent state cleared

abbrev pub expire_undesired : StickyState → Run Done
expire_undesired state = do there ← locate state.volume_id state.node_id; unless_gone state there

-- The volume is desired where it is: it stays attached, if it is.
abbrev pub keep_desired : StickyState → Option (Answer String) → Run Done
keep_desired state none = expire_undesired state
keep_desired state (some (failed e)) = expire_undesired state
keep_desired state (some (answered device)) = do
  e ← clear_sticky state.volume_id
  pure (done_if_cleared e)

abbrev pub expire_unless_desired : StickyState → Bool → Run Done
expire_unless_desired state false = expire_undesired state
expire_unless_desired state true = do
  there ← locate state.volume_id state.node_id
  keep_desired state there

abbrev pub expire_unless_cooling : StickyState → Option CooldownState → Run Done
expire_unless_cooling state (some cooling) = do defer_sticky_detach state; pure (done tt)
expire_unless_cooling state none = do
  desired ← desired_on_node state.volume_id state.node_id
  expire_unless_desired state (is_true desired)

-- The clock is read only if there is an entry.
abbrev pub expire_confirmed : Option StickyState → Run Done
expire_confirmed none = pure (done tt)
expire_confirmed (some state) = do
  now ← read_clock
  if after state.expires_at now
      then pure (done tt)
      else (do cooling ← hotplug_cooldown_state state.node_id; expire_unless_cooling state cooling)

-- The function that is queued.
unfoldable pub expire_queued : String → Run Done
unfolding locate hotplug_cooldown_state defer_sticky_detach clear_sticky clear_quarantine
    clear_hotplug_guard_state detach_metadata_drift_error
expire_queued volume s = expire_confirmed (StickyAttachment.get s.sticky volume) s

abbrev pub queue_unless_cooling : StickyState → Option CooldownState → Run (Unit {0})
queue_unless_cooling state (some cooling) = defer_sticky_detach state
queue_unless_cooling state none = do
  with_queued_hotplug state.node_id "detach" state.volume_id (expire_queued state.volume_id)
  pure tt

abbrev pub expire_current : Option StickyState → Run (Unit {0})
expire_current none = pure tt
expire_current (some current) = do
  now ← read_clock
  if after current.expires_at now then pure tt else (do
    cooling ← hotplug_cooldown_state current.node_id
    queue_unless_cooling current cooling)

unfoldable pub expire_sticky_detach : StickyState → Run (Unit {0})
unfolding expire_queued hotplug_cooldown_state with_queued_hotplug defer_sticky_detach
expire_sticky_detach state s = expire_current (StickyAttachment.get s.sticky state.volume_id) s

-- A tick of the leader's reaper: a hold of the maintenance waits for its end.
unfoldable pub reap : List StickyState → Run (Unit {0})
unfolding expire_sticky_detach
reap [] s = (tt, s)
reap (state ∷ rest) s = reap rest (
    if str_eq state.reason "maintenance_mode" && s.maintenance
    then s
    else (expire_sticky_detach state s).1)

unfoldable pub reaper_tick : Run (Unit {0})
unfolding reap
reaper_tick = do now ← read_clock; entries ← gets (λ s. s.sticky); reap (list_expired entries now)

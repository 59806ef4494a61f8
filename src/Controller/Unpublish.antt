-- ===== src/Controller/Unpublish.antt =====
-- `ControllerUnpublishVolume` of pkg/csi/driver/controllerserver.go. The response holds nothing: what is
-- returned is the error, if any.
pub mod Explained
pub mod Success
use storage_provider_openneb.Prelude.{
  String, str_eq, Bool, true, false, ◌||◌, Option, none, some, if◌then◌else◌,
}
use storage_provider_openneb.Prelude.Int.{ℤ}
use storage_provider_openneb.Golang.Answer.{Answer, failed, answered}
use storage_provider_openneb.StickyAttachment.{StickyState, StickyError}
use storage_provider_openneb.HotplugGuard.{CooldownState}
use storage_provider_openneb.Controller.Health.{
  hotplug_cooldown_state, clear_hotplug_guard_state, handle_hotplug_timeout,
}
use storage_provider_openneb.Controller.Drift.{
  is_shared_filesystem_volume_id, detach_metadata_drift_error,
}
use storage_provider_openneb.Controller.Sticky.{
  find_node, volume_in_node, detach_volume, found_id, rescue_same_node, start_maintenance_hold,
  Early, should_delay_detach, Delay, start_detach_grace,
}
use storage_provider_openneb.Controller.Moves.{code_or_internal}
use storage_provider_openneb.Controller.Queued.{
  find_volume, Ended, ran, ran_failed, not_run, queue_failed, Returned, done, fails,
  with_queued_hotplug, queue_failure,
}
use storage_provider_openneb.Controller.Publish.{resolve_size}
use storage_provider_openneb.Controller.{
  Server, Run, ◌>>=◌, ◌>>◌, pure, ask, RuntimeContext, Code, invalid_argument, not_found, internal,
  unavailable, CallError, volume_ready_checked,
}

abbrev pub Done : Type 0
Done = Returned (Unit {0})

abbrev pub after_detach_call : String → String → Option CallError → Run Done
after_detach_call volume node (some e) = do
  handle_hotplug_timeout node volume "detach" e
  drift ← detach_metadata_drift_error volume node e.text
  pure (fails (code_or_internal drift))
after_detach_call volume node none = do
  clear_hotplug_guard_state node
  resolve_size volume
  pure (done tt)

unfoldable pub detach_now : String → String → Run Done
unfolding handle_hotplug_timeout detach_metadata_drift_error clear_hotplug_guard_state
detach_now volume node = do e ← detach_volume volume node; after_detach_call volume node e

abbrev pub unless_held : String → String → Option StickyError → Run Done
unless_held volume node none = pure (done tt)
unless_held volume node (some e) = detach_now volume node

abbrev pub delay_or_detach : String → String → Delay → Run Done
delay_or_detach volume node none = detach_now volume node
delay_or_detach volume node (some (context, state)) = do
  e ← start_detach_grace context state
  unless_held volume node e

abbrev pub detach_if_there : String → String → Answer String → Run Done
detach_if_there volume node (failed e) = pure (done tt)
detach_if_there volume node (answered device) = do
  delay ← should_delay_detach volume node
  delay_or_detach volume node delay

-- The function that is queued. The locks of the node and of the volume are held around it.
unfoldable pub unpublish_queued : String → String → ℤ → ℤ → Run Done
unfolding should_delay_detach start_detach_grace detach_now
unpublish_queued volume node volume_id node_id = do
  there ← volume_in_node volume_id node_id
  detach_if_there volume node there

abbrev pub unpublish_ended : String → Ended (Unit {0}) → Run (Option Code)
unpublish_ended node (ran u) = pure none
unpublish_ended node (ran_failed c) = pure (some c)
unpublish_ended node not_run = pure none
unpublish_ended node (queue_failed e) = do c ← queue_failure node e; pure (some c)

abbrev pub unpublish_unless_cooling :
    String → String → ℤ → ℤ → Option CooldownState → Run (Option Code)
unpublish_unless_cooling volume node volume_id node_id (some state) = pure (some unavailable)
unpublish_unless_cooling volume node volume_id node_id none = do
  r ← with_queued_hotplug node "detach" volume (unpublish_queued volume node volume_id node_id)
  unpublish_ended node r

abbrev pub unless_early : String → String → ℤ → ℤ → Early → Run (Option Code)
unless_early volume node volume_id node_id (some outcome) = pure outcome
unless_early volume node volume_id node_id none = do
  cooling ← hotplug_cooldown_state node
  unpublish_unless_cooling volume node volume_id node_id cooling

abbrev pub unless_rescued : String → String → ℤ → ℤ → Early → Run (Option Code)
unless_rescued volume node volume_id node_id (some outcome) = pure outcome
unless_rescued volume node volume_id node_id none = do
  held ← start_maintenance_hold volume node
  unless_early volume node volume_id node_id held

abbrev pub unpublish_there : String → String → ℤ → ℤ → Answer String → Run (Option Code)
unpublish_there volume node volume_id node_id (failed e) = pure none
unpublish_there volume node volume_id node_id (answered device) = do
  rescued ← rescue_same_node volume node volume_id node_id
  unless_rescued volume node volume_id node_id rescued

abbrev pub unless_in_use : Answer Bool → Option Code
unless_in_use (failed e) = some internal
unless_in_use (answered false) = some not_found
unless_in_use (answered true) = none

unfoldable pub unpublish_disk : String → String → ℤ → Option ℤ → Run (Option Code)
unfolding rescue_same_node start_maintenance_hold hotplug_cooldown_state with_queued_hotplug
    unpublish_queued queue_failure
unpublish_disk volume node volume_id none = do
  ready ← ask (λ o h. o.volume_ready h volume_id) (λ _. volume_ready_checked volume_id)
  pure (unless_in_use ready)
unpublish_disk volume node volume_id (some node_id) = do
  there ← volume_in_node volume_id node_id
  unpublish_there volume node volume_id node_id there

abbrev pub unpublish_found : String → String → Option ℤ → Run (Option Code)
unpublish_found volume node none = pure none
unpublish_found volume node (some volume_id) = do
  found ← find_node node
  unpublish_disk volume node volume_id (found_id found)

unfoldable pub controller_unpublish_volume : String → String → Run (Option Code)
unfolding unpublish_disk is_shared_filesystem_volume_id
controller_unpublish_volume volume node s =
    if str_eq volume "" || str_eq node ""
    then (some invalid_argument, s)
    else (if is_shared_filesystem_volume_id volume
        then (none, s)
        else (do found ← find_volume volume; unpublish_found volume node (found_id found)) s)

-- ===== src/Controller/Moves.antt =====
-- `reuseStickyAttachment` of pkg/csi/driver/controllerserver.go: a volume whose attachment is kept is
-- published where it is, or is taken from its old node first.
use storage_provider_openneb.Prelude.{String, Option, none, some, if◌then◌else◌}
use storage_provider_openneb.Prelude.Int.{ℤ}
use storage_provider_openneb.Golang.Answer.{Answer, failed, answered}
use storage_provider_openneb.StickyAttachment
use storage_provider_openneb.StickyAttachment.{StickyState, StickyError}
use storage_provider_openneb.HotplugGuard.{CooldownState}
use storage_provider_openneb.Controller.Health.{hotplug_cooldown_state, clear_hotplug_guard_state}
use storage_provider_openneb.Controller.Drift.{detach_metadata_drift_error, clear_quarantine}
use storage_provider_openneb.Controller.Sticky.{
  find_node, volume_in_node, detach_volume, desired_on_node, is_true, found_id, same_text,
  clear_sticky,
}
use storage_provider_openneb.Controller.{
  Run, ◌>>=◌, ◌>>◌, pure, Code, internal, unavailable, CallError,
}

-- The three results: the handler goes on; it fails; or the volume is attached as this device.
pub data Reuse : Type 0 where
  not_reused : Reuse
  reuse_failed : Code → Reuse
  reused : String → Reuse

abbrev pub reused_if_cleared : String → Option StickyError → Reuse
reused_if_cleared target none = reused target
reused_if_cleared target (some e) = reuse_failed internal

abbrev pub gone_if_cleared : Option StickyError → Reuse
gone_if_cleared none = not_reused
gone_if_cleared (some e) = reuse_failed internal

-- The kept attachment is on the requested node.
abbrev pub reuse_here : String → Answer String → Run Reuse
reuse_here volume (failed e) = do clear_sticky volume; pure not_reused
reuse_here volume (answered target) = do e ← clear_sticky volume; pure (reused_if_cleared target e)

abbrev pub code_or_internal : Option Code → Code
code_or_internal none = internal
code_or_internal (some c) = c

abbrev pub after_detach : String → String → Option CallError → Run Reuse
after_detach volume old (some e) = do
  drift ← detach_metadata_drift_error volume old e.text
  pure (reuse_failed (code_or_internal drift))
after_detach volume old none = do
  clear_hotplug_guard_state old
  clear_quarantine volume
  e ← clear_sticky volume
  pure (gone_if_cleared e)

-- The volume is taken from its old node.
abbrev pub take_away : String → String → Run Reuse
take_away volume old = do e ← detach_volume volume old; after_detach volume old e

abbrev pub unless_absent : String → String → Answer String → Run Reuse
unless_absent volume old (answered target) = take_away volume old
unless_absent volume old (failed e) = do
  cleared ← clear_sticky volume
  pure (gone_if_cleared cleared)

abbrev pub leave_node : String → String → ℤ → Option ℤ → Run Reuse
leave_node volume old volume_id none = take_away volume old
leave_node volume old volume_id (some old_id) = do
  there ← volume_in_node volume_id old_id
  unless_absent volume old there

-- The kept attachment is on another node.
abbrev pub move_unless_cooling : String → String → ℤ → Option CooldownState → Run Reuse
move_unless_cooling volume old volume_id (some state) = pure (reuse_failed unavailable)
move_unless_cooling volume old volume_id none = do
  desired ← desired_on_node volume old
  if is_true desired
      then pure (reuse_failed unavailable)
      else (do found ← find_node old; leave_node volume old volume_id (found_id found))

unfoldable pub move_from : String → String → ℤ → Run Reuse
unfolding hotplug_cooldown_state clear_hotplug_guard_state clear_quarantine clear_sticky
    detach_metadata_drift_error
move_from volume old volume_id = do
  cooling ← hotplug_cooldown_state old
  move_unless_cooling volume old volume_id cooling

unfoldable pub reuse_entry : Option StickyState → String → String → ℤ → ℤ → Run Reuse
unfolding move_from clear_sticky
reuse_entry none volume node volume_id node_id s = (not_reused, s)
reuse_entry (some state) volume node volume_id node_id s =
    if same_text state.node_id node
    then (do there ← volume_in_node volume_id node_id; reuse_here volume there) s
    else move_from volume state.node_id volume_id s

unfoldable pub reuse_sticky_attachment : String → String → ℤ → ℤ → Run Reuse
unfolding reuse_entry
reuse_sticky_attachment volume node volume_id node_id s =
    reuse_entry (StickyAttachment.get s.sticky volume) volume node volume_id node_id s

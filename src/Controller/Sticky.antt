-- ===== src/Controller/Sticky.antt =====
-- Volumes that stay attached for a grace period, in pkg/csi/driver/controllerserver.go, with the helpers
-- of pkg/csi/driver/maintenance_mode.go. The locks of the nodes and of the volume are held around these
-- steps and are not part of them.
pub mod Bounds
use storage_provider_openneb.Prelude.{
  String, str_eq, Bool, true, false, not, ◌&&◌, ◌||◌, List, [], ◌∷◌, Option, none, some,
  if◌then◌else◌, ◌*◌,
}
use storage_provider_openneb.Prelude.Int.{ℤ, pos, negsuc, leb_ℤ, ltb_ℤ, eq_ℤ, ◌*ℤ◌, ◌/ℤ◌, wrap64}
use storage_provider_openneb.Golang.Answer.{Answer, failed, answered}
use storage_provider_openneb.Golang.Clock.{Time, Duration, add, second}
use storage_provider_openneb.Golang.Text.{trim_space}
use storage_provider_openneb.Golang.Cases.{equal_fold}
use storage_provider_openneb.StickyAttachment
use storage_provider_openneb.StickyAttachment.{StickyState, StickyError}
use storage_provider_openneb.HotplugGuard.{CooldownState}
use storage_provider_openneb.Controller.Health.{
  positive_setting, hotplug_cooldown_state, clear_hotplug_guard_state,
}
use storage_provider_openneb.Controller.Drift.{
  eligible_for_maintenance, is_eligible, resolve_context, has_single_writer_access_mode,
  is_shared_filesystem_volume_id, detach_metadata_drift_error, clear_quarantine,
}
use storage_provider_openneb.Controller.{
  Server, Settings, Run, ◌>>=◌, ◌>>◌, pure, gets, ask, on_by_default, is_blank, RuntimeContext,
  Code, internal, unavailable, CallError, clock_read, config_map_written, located, node_looked_up,
  desire_checked, kube_ready_checked, node_ready_checked, detach_called, pv_annotated,
}

-- The calls that the handlers share.
abbrev pub find_node : String → Run (Answer ℤ)
find_node node = ask (λ o h. o.node_exists h node) (node_looked_up node)

abbrev pub volume_in_node : ℤ → ℤ → Run (Answer String)
volume_in_node volume_id node_id =
    ask (λ o h. o.volume_in_node h volume_id node_id) (located volume_id node_id)

abbrev pub detach_volume : String → String → Run (Option CallError)
detach_volume volume node = ask (λ o h. o.detach h volume node) (detach_called volume node)

abbrev pub desired_on_node : String → String → Run (Answer Bool)
desired_on_node volume node =
    ask (λ o h. o.desired_on_node h volume node) (desire_checked volume node)

abbrev pub read_clock : Run Time
read_clock = ask (λ o h. o.now h) (λ _. clock_read)

abbrev pub write_sticky : String → Run (Option String)
write_sticky volume =
    ask (λ o h. o.write h "opennebula-csi-sticky-attachment-state" volume)
      (λ _. config_map_written "opennebula-csi-sticky-attachment-state" volume)

abbrev pub is_true : Answer Bool → Bool
is_true (failed e) = false
is_true (answered b) = b

-- An identifier that was found.
abbrev pub found_id : Answer ℤ → Option ℤ
found_id (failed e) = none
found_id (answered id) = if eq_ℤ id (negsuc 0) then none else some id

abbrev pub same_text : String → String → Bool
same_text a b = str_eq (trim_space a) (trim_space b)

-- `stickyAttachments.Clear`: whether it failed.
unfoldable pub clear_sticky : String → Run (Option StickyError)
clear_sticky volume s =
    if is_blank volume
    then (none, s)
    else (do
      write ← write_sticky volume
      entries ← gets (λ s. s.sticky)
      (λ s. (tt {0}, record s { sticky = (StickyAttachment.clear entries volume write).0 }))
      pure (StickyAttachment.clear entries volume write).1)
        s

-- `stickyAttachments.StartGrace`
unfoldable pub start_sticky : StickyState → Run (Option StickyError)
start_sticky state s =
    if is_blank state.volume_id
    then (some StickyError.volume_id_required, s)
    else (do
      write ← write_sticky state.volume_id
      entries ← gets (λ s. s.sticky)
      (λ s. (tt {0}, record s { sticky = (StickyAttachment.start_grace entries state write).0 }))
      pure (StickyAttachment.start_grace entries state write).1)
        s

unfoldable pub effective_detach_grace_seconds : Settings → ℤ → ℤ
effective_detach_grace_seconds c hint =
    let default_grace = positive_setting c.detach_grace_seconds (pos 90) in
    let max_grace = positive_setting c.detach_grace_max_seconds (pos 300) in
    let wanted = if ltb_ℤ (pos 0) hint then hint else default_grace in
    let grace = if ltb_ℤ wanted (pos 30) then pos 30 else wanted in
    if ltb_ℤ max_grace grace then max_grace else grace

abbrev pub at_least_or : Option ℤ → ℤ → ℤ → ℤ
at_least_or none low d = d
at_least_or (some a) low d = if ltb_ℤ a low then d else a

-- `maintenanceReleaseBounds`
unfoldable pub maintenance_release_bounds : Settings → Duration × Duration
maintenance_release_bounds c =
    let least = at_least_or c.release_min_seconds (pos 0) (pos 300) in
    let most = at_least_or c.release_max_seconds least least in
    (wrap64 (least *ℤ pos second), wrap64 (most *ℤ pos second))

-- `int(maxDelay.Seconds())`, for a delay whose seconds a float64 holds.
unfoldable pub maintenance_sticky_grace_seconds : Settings → ℤ
unfolding maintenance_release_bounds
maintenance_sticky_grace_seconds c =
    let seconds = (maintenance_release_bounds c).1 /ℤ pos second in
    if leb_ℤ seconds (pos 0) then pos 1800 else seconds

abbrev pub grace_state : String → String → RuntimeContext → String → ℤ → Time → Time → StickyState
grace_state volume node context reason grace started ends = record {
  volume_id = volume;
  node_id = node;
  backend = "local";
  datastore_id = context.datastore_id;
  pvc_namespace = context.pvc_namespace;
  pvc_name = context.pvc_name;
  started_at = started;
  expires_at = add ends (wrap64 (grace *ℤ pos second));
  grace_seconds = grace;
  reason = reason;
  last_known_node_ready = true;
}

-- `maintenanceLastNodeForVolume`
abbrev pub last_node_or : Option StickyState → String → String
last_node_or none annotated = annotated
last_node_or (some state) annotated =
    if is_blank state.node_id then annotated else trim_space state.node_id

unfoldable pub maintenance_last_node : Server → RuntimeContext → String → String
maintenance_last_node s context volume =
    last_node_or (StickyAttachment.get s.sticky volume) (trim_space context.last_attached_node)

abbrev pub blocks : Server → Answer RuntimeContext → String → String → Bool
blocks s (failed e) volume node = false
blocks s (answered context) volume node =
    let last = maintenance_last_node s context volume in
    eligible_for_maintenance context volume && (not (is_blank last) && not (same_text last node))

-- `maintenanceBlocksPublish`
unfoldable pub maintenance_blocks_publish : String → String → Run Bool
unfolding maintenance_last_node
maintenance_blocks_publish volume node s =
    if s.maintenance && s.settings.kube_enabled
    then (do context ← resolve_context volume; gets (λ s. blocks s context volume node)) s
    else (false, s)

-- `annotateRestartOptimization`: the write is queued.
abbrev pub annotate_pv : RuntimeContext → String → Run (Unit {0})
annotate_pv context node = ask (λ o h. tt {0}) (λ _. pv_annotated context.pv_name node)

abbrev pub annotate_answered : Answer RuntimeContext → String → Run (Unit {0})
annotate_answered (failed e) node s = (tt, s)
annotate_answered (answered context) node s = annotate_pv context node s

unfoldable pub annotate_for_volume : String → String → Run (Unit {0})
annotate_for_volume volume node s =
    if s.settings.kube_enabled
    then (do context ← resolve_context volume; annotate_answered context node) s
    else (tt, s)

-- A handler's early outcome: none, and the handler goes on; or its error, if any.
abbrev pub Early : Type 0
Early = Option (Option Code)

abbrev pub held_or_failed : RuntimeContext → String → Option StickyError → Run Early
held_or_failed context node (some e) s = (some (some internal), s)
held_or_failed context node none s = (some none, (annotate_pv context node s).1)

abbrev pub hold : Answer RuntimeContext → String → String → Run Early
hold (failed e) volume node s = (none, s)
hold (answered context) volume node s =
    if eligible_for_maintenance context volume
    then (do
      c ← gets (λ s. s.settings)
      now ← read_clock
      e ← start_sticky (
          grace_state volume node context "maintenance_mode" (maintenance_sticky_grace_seconds c)
            now now)
      held_or_failed context node e)
        s
    else (none, s)

unfoldable pub start_maintenance_hold : String → String → Run Early
unfolding start_sticky maintenance_sticky_grace_seconds
start_maintenance_hold volume node s =
    if s.maintenance && s.settings.kube_enabled
    then (do context ← resolve_context volume; hold context volume node) s
    else (none, s)

-- `rescueSameNodeUnpublish` on a volume that is desired and attached.
abbrev pub after_clear : Option StickyError → Early
after_clear none = some none
after_clear (some e) = some (some internal)

abbrev pub keep_attached : Option StickyState → String → String → Run Early
keep_attached none volume node s = (some none, s)
keep_attached (some state) volume node s =
    if same_text state.node_id node
    then (do e ← clear_sticky volume; pure (after_clear e)) s
    else (some none, s)

abbrev pub rescue_attached : Answer String → String → String → Run Early
rescue_attached (failed e) volume node s = (none, s)
rescue_attached (answered target) volume node s =
    keep_attached (StickyAttachment.get s.sticky volume) volume node s

abbrev pub rescue_eligible : String → String → ℤ → ℤ → Run Early
rescue_eligible volume node volume_id node_id = do
  desired ← desired_on_node volume node
  if is_true desired
      then (do target ← volume_in_node volume_id node_id; rescue_attached target volume node)
      else pure none

unfoldable pub rescue_same_node : String → String → ℤ → ℤ → Run Early
unfolding clear_sticky
rescue_same_node volume node volume_id node_id s =
    if s.settings.kube_enabled
    then (do
      context ← resolve_context volume
      if is_eligible context volume
          then rescue_eligible volume node volume_id node_id
          else pure none)
        s
    else (none, s)

-- What `shouldDelayDetach` finds: the volume is not eligible; or its grace period, and its context.
abbrev pub Delay : Type 0
Delay = Option (RuntimeContext × StickyState)

abbrev pub begin_delay : RuntimeContext → String → String → Run Delay
begin_delay context volume node = do
  c ← gets (λ s. s.settings)
  started ← read_clock
  ends ← read_clock
  pure (
      some (
        context,
        grace_state volume node context "stateful_restart"
            (effective_detach_grace_seconds c context.detach_grace_hint) started ends,
      ))

abbrev pub kube_ready : String → Run (Answer Bool)
kube_ready node = ask (λ o h. o.kube_ready h node) (λ _. kube_ready_checked node)

abbrev pub vm_ready : String → Run (Answer Bool)
vm_ready node = ask (λ o h. o.node_ready h node) (λ _. node_ready_checked node)

-- Whether the node is ready in both, the second asked only if the first holds.
abbrev pub node_ready : String → Run Bool
node_ready node = do
  kube ← kube_ready node
  if is_true kube then (do vm ← vm_ready node; pure (is_true vm)) else pure false

abbrev pub delay_unless_cooling :
    RuntimeContext → String → String → Option CooldownState → Run Delay
delay_unless_cooling context volume node (some state) s = (none, s)
delay_unless_cooling context volume node none s =
    if on_by_default s.settings.restart_require_node_ready
    then (do ready ← node_ready node; if ready then begin_delay context volume node else pure none)
        s
    else begin_delay context volume node s

-- The conditions of `shouldDelayDetach` on the volume's context.
unfoldable pub may_delay : RuntimeContext → String → Bool
may_delay context volume =
    str_eq context.restart_mode "sticky-local-restart-v1"
    && (equal_fold (trim_space context.backend) "local"
        && (not (is_shared_filesystem_volume_id volume)
            && has_single_writer_access_mode context.access_modes))

abbrev pub delay_context : Answer RuntimeContext → String → String → Run Delay
delay_context (failed e) volume node s = (none, s)
delay_context (answered context) volume node s =
    if may_delay context volume
    then (do
      cooling ← hotplug_cooldown_state node
      delay_unless_cooling context volume node cooling)
        s
    else (none, s)

unfoldable pub should_delay_detach : String → String → Run Delay
unfolding may_delay effective_detach_grace_seconds
should_delay_detach volume node s =
    if on_by_default s.settings.restart_enabled && s.settings.kube_enabled
    then (do context ← resolve_context volume; delay_context context volume node) s
    else (none, s)

abbrev pub annotate_started :
    RuntimeContext → String → Option StickyError → Run (Option StickyError)
annotate_started context node none s = (none, (annotate_pv context node s).1)
annotate_started context node (some e) s = (some e, s)

-- `startDetachGrace`
unfoldable pub start_detach_grace : RuntimeContext → StickyState → Run (Option StickyError)
unfolding start_sticky
start_detach_grace context state = do
  e ← start_sticky state
  annotate_started context state.node_id e

-- `clearStickyReuseState`, whose error is only logged.
abbrev pub clear_if_same : Option StickyState → String → String → Run (Unit {0})
clear_if_same none volume node s = (tt, s)
clear_if_same (some state) volume node s =
    if same_text state.node_id node then (tt, (clear_sticky volume s).1) else (tt, s)

unfoldable pub clear_sticky_reuse_state : String → String → Run (Unit {0})
unfolding clear_sticky
clear_sticky_reuse_state volume node s =
    clear_if_same (StickyAttachment.get s.sticky volume) volume node s

-- `deferStickyDetach` by a minute; an error is only logged.
unfoldable pub defer_sticky_detach : StickyState → Run (Unit {0})
defer_sticky_detach state = do
  now ← read_clock
  let later = record state { expires_at = add now (pos (60 * second)) }
  write ← write_sticky state.volume_id
  entries ← gets (λ s. s.sticky)
  (λ s. (tt {0}, record s { sticky = (StickyAttachment.update entries later write).0 }))

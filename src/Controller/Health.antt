-- ===== src/Controller/Health.antt =====
-- Whether a node takes hotplug operations: the functions on the guard in
-- pkg/csi/driver/controllerserver.go.
use storage_provider_openneb.Prelude.{
  String, str_eq, Bool, true, false, not, ◌&&◌, ◌||◌, List, [], ◌∷◌, Option, none, some,
  if◌then◌else◌, or_else,
}
use storage_provider_openneb.Prelude.Int.{ℤ, pos, leb_ℤ}
use storage_provider_openneb.Prelude.Keys.{lookup, string_key}
use storage_provider_openneb.Golang.Answer.{Answer, failed, answered}
use storage_provider_openneb.Golang.Clock.{Time, is_zero, after}
use storage_provider_openneb.Golang.Text.{trim_space, concat}
use storage_provider_openneb.Golang.Cases.{equal_fold}
use storage_provider_openneb.HotplugGuard
use storage_provider_openneb.HotplugGuard.{CooldownState, empty_state, mark_paused}
use storage_provider_openneb.Controller.{
  Settings, Run, ◌>>=◌, ◌>>◌, pure, gets, ask, on_by_default, is_blank, KubeHealth, NodeStatus,
  CallError, HotplugTimeout, node_ready_checked, kube_health_checked, node_status_read, clock_read,
  config_map_written, diagnosed,
}

-- `hotplugNodeHealth`
pub record NodeHealth : Type 0 where
  pub kubernetes_ready : Bool
  pub kubernetes_known : Bool
  pub open_nebula_ready : Bool
  pub unschedulable : Bool
  pub kubernetes_failed : Bool
  pub open_nebula_failed : Bool

abbrev pub guard_enabled : Settings → Bool
guard_enabled c = on_by_default c.guard_enabled

abbrev pub require_kubernetes : Settings → Bool
require_kubernetes c = on_by_default c.guard_require_kubernetes

abbrev pub require_open_nebula : Settings → Bool
require_open_nebula c = on_by_default c.guard_require_open_nebula

-- `value, ok := …; if !ok || value <= 0` with its default.
abbrev pub positive_setting : Option ℤ → ℤ → ℤ
positive_setting none d = d
positive_setting (some a) d = if leb_ℤ a (pos 0) then d else a

abbrev pub failure_threshold : Settings → ℤ
failure_threshold c = positive_setting c.guard_failure_threshold (pos 2)

-- The node's condition in Kubernetes, as far as it is asked for.
unfoldable pub with_kubernetes : NodeHealth → Option (Answer KubeHealth) → NodeHealth
with_kubernetes h none = h
with_kubernetes h (some (failed e)) = record h { kubernetes_failed = true }
with_kubernetes h (some (answered k)) = record h {
  kubernetes_ready = k.ready;
  unschedulable = k.unschedulable;
  kubernetes_known = true;
}

unfoldable pub with_open_nebula : NodeHealth → Option (Answer Bool) → NodeHealth
with_open_nebula h none = h
with_open_nebula h (some (failed e)) = record h { open_nebula_failed = true }
with_open_nebula h (some (answered ready)) = record h { open_nebula_ready = ready }

-- A call that is made only if a condition holds.
abbrev pub ask_if {ℓ} : {A : Type ℓ} → Bool → Run A → Run (Option A)
ask_if false m s = (none, s)
ask_if true m s = (some (m s).0, (m s).1)

abbrev pub initial_health : Settings → Bool → NodeHealth
initial_health c fallback = record {
  kubernetes_ready = not (require_kubernetes c);
  kubernetes_known = false;
  open_nebula_ready = fallback || not (require_open_nebula c);
  unschedulable = false;
  kubernetes_failed = false;
  open_nebula_failed = false;
}

unfoldable pub node_hotplug_health : String → Bool → Run NodeHealth
unfolding with_kubernetes with_open_nebula
node_hotplug_health node fallback = do
  c ← gets (λ s. s.settings)
  kube ←
      ask_if (require_kubernetes c && c.kube_enabled)
        (ask (λ o h. o.kube_health h node) (λ _. kube_health_checked node))
  ready ←
      ask_if (require_open_nebula c)
        (ask (λ o h. o.node_ready h node) (λ _. node_ready_checked node))
  pure (with_open_nebula (with_kubernetes (initial_health c fallback) kube) ready)

-- `nodeHotplugGuardTreatUnschedulableAsUnhealthy` is `maintenance`.
unfoldable pub hotplug_node_unhealthy : Settings → Bool → NodeHealth → Bool
hotplug_node_unhealthy c maintenance h =
    (require_kubernetes c && (h.kubernetes_known && not h.kubernetes_ready))
    || ((require_open_nebula c && not h.open_nebula_ready) || (maintenance && h.unschedulable))

abbrev pub add_reason : Bool → String → String → String
add_reason false reason rest = rest
add_reason true reason rest = if str_eq rest "" then reason else concat reason (concat "," rest)

unfoldable pub hotplug_unhealthy_reason : Settings → Bool → NodeHealth → String
hotplug_unhealthy_reason c maintenance h =
    let reasons =
      add_reason (require_kubernetes c && (h.kubernetes_known && not h.kubernetes_ready))
        "kubernetes_node_not_ready"
        (add_reason (require_open_nebula c && not h.open_nebula_ready) "opennebula_vm_not_running"
          (add_reason (maintenance && h.unschedulable) "kubernetes_node_unschedulable" "")) in
    if str_eq reasons "" then "node_unhealthy" else reasons

-- All readiness that the configuration asks for.
unfoldable pub gates_open : Settings → Bool → NodeHealth → Bool
gates_open c maintenance h =
    (not (require_kubernetes c) || h.kubernetes_ready)
    && ((not (require_open_nebula c) || h.open_nebula_ready)
        && (not maintenance || not h.unschedulable))

unfoldable pub guard_state_cleared : CooldownState → NodeHealth → Run Bool
unfolding gates_open
guard_state_cleared state health s =
    if state.pause_until_ready
    then (gates_open s.settings s.maintenance health, s)
    else (if is_zero state.expires_at
        then (health.open_nebula_ready, s)
        else (do
          now ← ask (λ o h. o.now h) (λ _. clock_read)
          pure (if after now state.expires_at then true else health.open_nebula_ready))
            s)

-- `openNebulaNodeHotplugPauseState` after the node's status is known to be stuck.
abbrev pub default_text : String → String → String
default_text t d = if str_eq t "" then d else t

abbrev pub pause_state : Settings → String → NodeStatus → NodeHealth → Time → Time → CooldownState
pause_state c node d health first last = record empty_state {
  node = node;
  operation = default_text (trim_space d.operation) "hotplug";
  volume = default_text (trim_space d.volume_handle) "unknown";
  timeout = c.stuck_after;
  last_observed_attached = equal_fold (trim_space d.disk_attach_flag) "YES";
  failure_count = pos 1;
  reason = "opennebula_hotplug_stuck";
  pause_until_ready = true;
  kubernetes_ready = health.kubernetes_ready;
  unschedulable = health.unschedulable;
  first_failure_at = or_else d.first_observed_at first;
  last_failure_at = or_else d.last_observed_at last;
}

unfoldable pub is_stuck : NodeStatus → Bool
is_stuck d =
    equal_fold (trim_space d.classification) "Stuck"
    || equal_fold (trim_space d.display_state) "HotplugStuck"

unfoldable pub pause_if_stuck : String → Answer NodeStatus → Run (Option CooldownState)
unfolding is_stuck node_hotplug_health
pause_if_stuck node (failed e) s = (none, s)
pause_if_stuck node (answered d) s =
    if is_stuck d
    then (do
      health ← node_hotplug_health node false
      first ← ask (λ o h. o.now h) (λ _. clock_read)
      last ← ask (λ o h. o.now h) (λ _. clock_read)
      c ← gets (λ s. s.settings)
      pure (some (pause_state c node d health first last)))
        s
    else (none, s)

unfoldable pub open_nebula_pause_state : String → Run (Option CooldownState)
unfolding pause_if_stuck
open_nebula_pause_state node s =
    if is_blank node
    then (none, s)
    else (do
      status ← ask (λ o h. o.node_status h node) (λ _. node_status_read node)
      pause_if_stuck node status)
        s

-- `persistHotplugStateSnapshot` and `clearHotplugStateSnapshot`: an error is only logged.
unfoldable pub write_snapshot : String → Run (Option String)
write_snapshot node =
    ask (λ o h. o.write h "opennebula-csi-hotplug-state" node)
      (λ _. config_map_written "opennebula-csi-hotplug-state" node)

abbrev pub set_guard : HotplugGuard.Guard → Run (Unit {0})
set_guard g s = (tt, record s { guard = g })

-- `hotplugCooldownState` on the pause that OpenNebula's status asks for.
unfoldable pub pause_node : CooldownState → Run (Option CooldownState)
unfolding write_snapshot
pause_node state = do
  now ← ask (λ o h. o.now h) (λ _. clock_read)
  g ← gets (λ s. s.guard)
  set_guard (mark_paused g state now).0
  write_snapshot (mark_paused g state now).1.node
  pure (some (mark_paused g state now).1)

abbrev pub with_health : CooldownState → NodeHealth → CooldownState
with_health state health = record state {
  kubernetes_ready = health.kubernetes_ready;
  open_nebula_ready = health.open_nebula_ready;
  unschedulable = health.unschedulable;
}

unfoldable pub clear_node : String → Run (Unit {0})
unfolding write_snapshot
clear_node node = do
  g ← gets (λ s. s.guard)
  set_guard (HotplugGuard.clear g node)
  write_snapshot node
  pure tt

-- `hotplugCooldownState` on the guard's entry.
unfoldable pub recheck : String → Option CooldownState → Run (Option CooldownState)
unfolding node_hotplug_health guard_state_cleared clear_node
recheck node none s = (none, s)
recheck node (some cooldown) s =
    (do
      health ← node_hotplug_health node cooldown.last_observed_ready
      cleared ← guard_state_cleared cooldown health
      if cleared then (clear_node node >> pure none) else pure (some (with_health cooldown health)))
      s

unfoldable pub guarded_state : String → Run (Option CooldownState)
unfolding recheck
guarded_state node = do
  now ← ask (λ o h. o.now h) (λ _. clock_read)
  g ← gets (λ s. s.guard)
  set_guard (HotplugGuard.get g node now).0
  recheck node (HotplugGuard.get g node now).1

abbrev pub paused_or_guarded : String → Option CooldownState → Run (Option CooldownState)
paused_or_guarded node (some state) = pause_node state
paused_or_guarded node none = guarded_state node

-- none: the node takes operations.
unfoldable pub hotplug_cooldown_state : String → Run (Option CooldownState)
unfolding open_nebula_pause_state pause_node guarded_state
hotplug_cooldown_state node s =
    if guard_enabled s.settings
    then (do paused ← open_nebula_pause_state node; paused_or_guarded node paused) s
    else (none, s)

-- `clearHotplugGuardState`: a pause stays until it is checked.
unfoldable pub clear_hotplug_guard_state : String → Run (Unit {0})
unfolding clear_node
clear_hotplug_guard_state node s =
    if is_blank node then (tt, s) else elim (lookup node s.guard.states) [
      | none ↦ clear_node node s
      | some state ↦ if state.pause_until_ready then (tt, s) else clear_node node s
    ]

abbrev pub mark_unhealthy : String → String → String → HotplugTimeout → NodeHealth → Run (Unit {0})
mark_unhealthy node operation volume t health = do
  now ← ask (λ o h. o.now h) (λ _. clock_read)
  c ← gets (λ s. s.settings)
  m ← gets (λ s. s.maintenance)
  g ← gets (λ s. s.guard)
  set_guard
      (HotplugGuard.mark_unhealthy_failure g node
        (record {
          operation = operation;
          volume = volume;
          timeout = t.timeout;
          attached = t.last_observed_attached;
          open_nebula_ready = health.open_nebula_ready;
          kubernetes_ready = health.kubernetes_ready;
          unschedulable = health.unschedulable;
          reason = hotplug_unhealthy_reason c m health;
        })
        (failure_threshold c) now).0
  write_snapshot node
  pure tt

-- `handleHotplugTimeout` on a timeout.
unfoldable pub after_timeout : String → String → String → HotplugTimeout → Run (Unit {0})
unfolding node_hotplug_health hotplug_node_unhealthy hotplug_unhealthy_reason write_snapshot
after_timeout node operation volume t = do
  ask (λ o h. tt {0}) (λ _. diagnosed node)
  c ← gets (λ s. s.settings)
  if guard_enabled c
      then (do
        health ← node_hotplug_health node t.last_observed_ready
        m ← gets (λ s. s.maintenance)
        if hotplug_node_unhealthy c m health
            then mark_unhealthy node operation volume t health
            else pure tt)
      else pure tt

unfoldable pub handle_hotplug_timeout : String → String → String → CallError → Run (Unit {0})
unfolding after_timeout
handle_hotplug_timeout node volume operation e s = elim e.timed_out [
  | none ↦ (tt, s)
  | some t ↦ after_timeout node operation volume t s
]

-- `reconcileHotplugGuardCleanup` on one node; the map's entries are in the order of their iteration.
unfoldable pub cleanup_node : String → CooldownState → Run (Unit {0})
unfolding node_hotplug_health guard_state_cleared clear_node write_snapshot
cleanup_node node state = do
  health ← node_hotplug_health node state.last_observed_ready
  if health.kubernetes_failed || health.open_nebula_failed then pure tt else (do
    cleared ← guard_state_cleared state health
    if cleared then clear_node node else (write_snapshot state.node >> pure tt))

unfoldable pub cleanup_nodes : List (String × CooldownState) → Run (Unit {0})
unfolding cleanup_node
cleanup_nodes [] s = (tt, s)
cleanup_nodes ((key, state) ∷ rest) s =
    let node = trim_space key in
    cleanup_nodes rest (if str_eq node "" then s else (cleanup_node node state s).1)

-- The leader's `reconcileHotplugGuardCleanup`.
unfoldable pub reconcile_guard_cleanup : Run (Unit {0})
unfolding cleanup_nodes
reconcile_guard_cleanup s =
    if guard_enabled s.settings then cleanup_nodes s.guard.states s else (tt, s)

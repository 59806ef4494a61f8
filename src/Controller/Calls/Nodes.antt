-- ===== src/Controller/Calls/Nodes.antt =====
-- The functions on the guard of nodes, in pkg/csi/driver/controllerserver.go.
use storage_provider_openneb.Prelude.{◌≡◌, refl, String, Bool, Option, none, some, arith}
use storage_provider_openneb.Golang.Answer.{Answer, failed, answered}
use storage_provider_openneb.HotplugGuard.{CooldownState}
use storage_provider_openneb.Controller.{Server, NodeStatus, CallError, HotplugTimeout}
use storage_provider_openneb.Controller.Health.{
  node_hotplug_health, guard_state_cleared, pause_if_stuck, open_nebula_pause_state, pause_node,
  clear_node, recheck, guarded_state, paused_or_guarded, hotplug_cooldown_state,
  clear_hotplug_guard_state, after_timeout, handle_hotplug_timeout, NodeHealth,
}
use storage_provider_openneb.Controller.Calls.{view}

pub view-node_hotplug_health :
    (node : String) (b : Bool) (s : Server) → view (node_hotplug_health node b s).1 ≡ view s
unfolding node_hotplug_health
view-node_hotplug_health node b s = ground arith

pub view-guard_state_cleared :
    (c : CooldownState) (h : NodeHealth) (s : Server) → view (guard_state_cleared c h s).1 ≡ view s
unfolding guard_state_cleared
view-guard_state_cleared c h s = ground arith

pub view-pause_if_stuck :
    (node : String) (a : Answer NodeStatus) (s : Server) → view (pause_if_stuck node a s).1 ≡ view s
unfolding pause_if_stuck
view-pause_if_stuck node (failed e) s = refl
view-pause_if_stuck node (answered d) s = grind (arith, view-node_hotplug_health)

pub view-open_nebula_pause_state :
    (node : String) (s : Server) → view (open_nebula_pause_state node s).1 ≡ view s
unfolding open_nebula_pause_state
view-open_nebula_pause_state node s = grind (arith, view-pause_if_stuck)

pub view-pause_node : (c : CooldownState) (s : Server) → view (pause_node c s).1 ≡ view s
unfolding pause_node
view-pause_node c s = refl

pub view-clear_node : (node : String) (s : Server) → view (clear_node node s).1 ≡ view s
unfolding clear_node
view-clear_node node s = refl

pub view-recheck :
    (node : String) (c : Option CooldownState) (s : Server) → view (recheck node c s).1 ≡ view s
unfolding recheck
view-recheck node none s = refl
view-recheck node (some c) s =
    grind (arith, view-node_hotplug_health, view-guard_state_cleared, view-clear_node)

pub view-guarded_state : (node : String) (s : Server) → view (guarded_state node s).1 ≡ view s
unfolding guarded_state
view-guarded_state node s = grind (arith, view-recheck)

view-paused_or_guarded :
    (node : String) (c : Option CooldownState) (s : Server)
    → view (paused_or_guarded node c s).1 ≡ view s
view-paused_or_guarded node none s = view-guarded_state node s
view-paused_or_guarded node (some c) s = view-pause_node c s

pub view-hotplug_cooldown_state :
    (node : String) (s : Server) → view (hotplug_cooldown_state node s).1 ≡ view s
unfolding hotplug_cooldown_state
view-hotplug_cooldown_state node s =
    grind (arith, view-open_nebula_pause_state, view-paused_or_guarded)

pub view-clear_hotplug_guard_state :
    (node : String) (s : Server) → view (clear_hotplug_guard_state node s).1 ≡ view s
unfolding clear_hotplug_guard_state
view-clear_hotplug_guard_state node s = grind (arith, view-clear_node)

pub view-after_timeout :
    (node operation volume : String) (t : HotplugTimeout) (s : Server)
    → view (after_timeout node operation volume t s).1 ≡ view s
unfolding after_timeout
view-after_timeout node operation volume t s = grind (arith, view-node_hotplug_health)

pub view-handle_hotplug_timeout :
    (node volume operation : String) (e : CallError) (s : Server)
    → view (handle_hotplug_timeout node volume operation e s).1 ≡ view s
unfolding handle_hotplug_timeout
view-handle_hotplug_timeout node volume operation e s = grind (arith, view-after_timeout)

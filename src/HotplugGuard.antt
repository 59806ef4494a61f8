-- ===== src/HotplugGuard.antt =====
-- pkg/csi/driver/hotplug_guard.go: which nodes are cooling down or paused after hotplug failures.
-- Each method holds the guard's mutex; `now` is the time that it reads.
pub mod Reports
pub mod Series
use storage_provider_openneb.Prelude.{
  ℕ, ◌+◌, ◌≤◌, ◌<◌, ◌≡◌, ◌≢◌, refl, String, str_eq, Bool, true, false, not, ◌&&◌, ◌||◌, List, [],
  ◌∷◌, Option, none, some, arith, if◌then◌else◌, eq_iff, ◌==◌, ltb, ◌⊎◌, inl, inr, Option-cases,
  ==_iff,
}
use storage_provider_openneb.Prelude.Int.{ℤ, pos, leb_ℤ, ltb_ℤ, ◌+ℤ◌, ◌≤ℤ◌, wrap64}
use storage_provider_openneb.Prelude.Keys.{
  lookup, insert, delete, lookup-insert_self, lookup-delete_self, lookup-delete_ne, string_key,
}
use storage_provider_openneb.Golang.Clock.{Time, Duration, is_zero, after, add, zero_time}

pub record CooldownState : Type 0 where
  pub node : String
  pub operation : String
  pub volume : String
  pub expires_at : Time
  pub timeout : Duration
  pub last_observed_ready : Bool
  pub last_observed_attached : Bool
  pub failure_count : ℤ
  pub reason : String
  pub pause_until_ready : Bool
  pub kubernetes_ready : Bool
  pub open_nebula_ready : Bool
  pub unschedulable : Bool
  pub first_failure_at : Time
  pub last_failure_at : Time

-- `opennebula.HotplugCooldownState{}`
abbrev pub empty_state : CooldownState
empty_state = record {
  node = "";
  operation = "";
  volume = "";
  expires_at = zero_time;
  timeout = pos 0;
  last_observed_ready = false;
  last_observed_attached = false;
  failure_count = pos 0;
  reason = "";
  pause_until_ready = false;
  kubernetes_ready = false;
  open_nebula_ready = false;
  unschedulable = false;
  first_failure_at = zero_time;
  last_failure_at = zero_time;
}

pub record Guard : Type 0 where
  pub cooldown : Duration
  pub states : List (String × CooldownState)

unfoldable pub new_guard : Duration → Guard
new_guard cooldown = record { cooldown = cooldown; states = [] }

unfoldable pub mark_cooldown :
    Guard → String → String → String → Duration → Bool → Bool → Time → Guard × CooldownState
mark_cooldown g node operation volume timeout attached ready now =
    let state : CooldownState = record empty_state {
      node = node;
      operation = operation;
      volume = volume;
      expires_at = add now g.cooldown;
      timeout = timeout;
      last_observed_attached = attached;
      last_observed_ready = ready;
      open_nebula_ready = ready;
      reason = "timeout_exhausted";
      first_failure_at = now;
      last_failure_at = now;
    } in
    (record g { states = insert node state g.states }, state)

-- The arguments of `MarkUnhealthyFailure` that are only recorded.
pub record Failure : Type 0 where
  pub operation : String
  pub volume : String
  pub timeout : Duration
  pub attached : Bool
  pub open_nebula_ready : Bool
  pub kubernetes_ready : Bool
  pub unschedulable : Bool
  pub reason : String

-- `g.states[node]`, with the empty state for a missing node.
abbrev pub state_or_empty : Option CooldownState → CooldownState
state_or_empty none = empty_state
state_or_empty (some s) = s

-- A cooldown that has run out, of a node that is not paused.
unfoldable pub is_over : CooldownState → Time → Bool
is_over s now = not s.pause_until_ready && (not (is_zero s.expires_at) && after now s.expires_at)

-- The state that the failure is added to.
unfoldable pub series_state : Guard → String → Time → CooldownState
unfolding is_over
series_state g node now =
    let state = state_or_empty (lookup node g.states) in
    if str_eq state.node "" || is_over state now
    then record empty_state { node = node; first_failure_at = now }
    else state

abbrev pub at_least_one : ℤ → ℤ
at_least_one threshold = if leb_ℤ threshold (pos 0) then pos 1 else threshold

unfoldable pub failed_state : CooldownState → Duration → Failure → ℤ → Time → CooldownState
failed_state state cooldown f threshold now =
    let count = wrap64 (state.failure_count +ℤ pos 1) in
    let paused = leb_ℤ (at_least_one threshold) count in
    record state {
      first_failure_at = if is_zero state.first_failure_at then now else state.first_failure_at;
      operation = f.operation;
      volume = f.volume;
      timeout = f.timeout;
      last_observed_attached = f.attached;
      last_observed_ready = f.open_nebula_ready;
      kubernetes_ready = f.kubernetes_ready;
      open_nebula_ready = f.open_nebula_ready;
      unschedulable = f.unschedulable;
      last_failure_at = now;
      failure_count = count;
      reason = f.reason;
      pause_until_ready = paused;
      expires_at = if paused then zero_time else add now cooldown;
    }

unfoldable pub mark_unhealthy_failure :
    Guard → String → Failure → ℤ → Time → Guard × CooldownState × Bool
mark_unhealthy_failure g node f threshold now =
    let state = failed_state (series_state g node now) g.cooldown f threshold now in
    (record g { states = insert node state g.states }, state, state.pause_until_ready)

unfoldable pub mark_paused : Guard → CooldownState → Time → Guard × CooldownState
mark_paused g state now =
    let paused = record state {
      first_failure_at = if is_zero state.first_failure_at then now else state.first_failure_at;
      last_failure_at = if is_zero state.last_failure_at then now else state.last_failure_at;
      failure_count = if leb_ℤ state.failure_count (pos 0) then pos 1 else state.failure_count;
      pause_until_ready = true;
      expires_at = zero_time;
    } in
    if str_eq state.node ""
    then (g, state)
    else (record g { states = insert state.node paused g.states }, paused)

-- One round of `Load`.
unfoldable pub load_one : Guard → String → CooldownState → Time → Guard
unfolding is_over
load_one g key state now =
    let node = if str_eq key "" then state.node else key in
    if str_eq node "" || is_over state now
    then g
    else record g { states = insert node (record state { node = node }) g.states }

-- The list is the map in the order of its iteration.
unfoldable pub load : Guard → List (String × CooldownState) → Time → Guard
load g [] now = g
load g ((key, state) ∷ rest) now = load (load_one g key state now) rest now

unfoldable pub clear : Guard → String → Guard
clear g node = record g { states = delete node g.states }

-- `Get` on the node's entry.
unfoldable pub get_entry : Guard → String → Time → CooldownState → Guard × Option CooldownState
unfolding clear
get_entry g node now state =
    if state.pause_until_ready
    then (g, some state)
    else (if ltb_ℤ (pos 0) state.failure_count
        then (if not (is_zero state.expires_at) && after now state.expires_at
            then (clear g node, none)
            else (g, none))
        else (if is_zero state.expires_at || after now state.expires_at
            then (clear g node, none)
            else (g, some state)))

unfoldable pub get : Guard → String → Time → Guard × Option CooldownState
unfolding get_entry
get g node now = elim (lookup node g.states) [
  | none ↦ (g, none)
  | some state ↦ get_entry g node now state
]

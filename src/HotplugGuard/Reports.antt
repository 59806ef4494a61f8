-- ===== src/HotplugGuard/Reports.antt =====
-- What `Get` of pkg/csi/driver/hotplug_guard.go reports of a node.
use storage_provider_openneb.Prelude.{
  ℕ, ◌+◌, ◌≤◌, ◌<◌, ◌≡◌, ap, ◌∙◌, String, Bool, true, none, some, arith, ◌⊎◌, inl, inr,
  Option-cases,
}
use storage_provider_openneb.Prelude.Int.{pos, ◌≤ℤ◌}
use storage_provider_openneb.Prelude.Keys.{
  lookup, lookup-insert_self, lookup-delete_self, string_key,
}
use storage_provider_openneb.Golang.Clock.{Time, Duration}
use storage_provider_openneb.HotplugGuard.{
  Guard, CooldownState, get, get_entry, clear, mark_cooldown,
}

not_none {ℓ} : {A : Type ℓ} {a : A} → none ≡ some a → ⊥
not_none h = cc

get_entry_sound :
    (g : Guard) (node : String) (now : Time) (entry state : CooldownState)
    → (get_entry g node now entry).1 ≡ some state
    → (entry ≡ state)
      × ((state.pause_until_ready ≡ true)
          ⊎ ((state.failure_count ≤ℤ pos 0) × (0 < state.expires_at) × (now ≤ state.expires_at)))
unfolding get_entry
get_entry_sound g node now entry state h = ground arith

-- `Get` reports a node only by its stored state, and only while the node is paused or, without
-- counted failures, its cooldown has not run out.
pub get_sound :
    (g : Guard) (node : String) (now : Time) (state : CooldownState)
    → (get g node now).1 ≡ some state
    → (lookup node g.states ≡ some state)
      × ((state.pause_until_ready ≡ true)
          ⊎ ((state.failure_count ≤ℤ pos 0) × (0 < state.expires_at) × (now ≤ state.expires_at)))
unfolding get
get_sound g node now state h = elim (Option-cases (lookup node g.states)) [
  | inl absent ↦ absurd (not_none (rw (absent, get) at h))
  | inr (entry, found) ↦
      let (same, live) = get_entry_sound g node now entry state (rw (found, get) at h) in
      (found ∙ ap some same, live)
]

-- A paused node is reported at any time, and `Get` forgets nothing of it, until `Clear` is called;
-- then the node is not reported.
pub paused_until_clear :
    (g : Guard) (node : String) (state : CooldownState) (now later : Time)
    → lookup node g.states ≡ some state
    → state.pause_until_ready ≡ true
    → (get g node now ≡ (g, some state)) × ((get (clear g node) node later).1 ≡ none)
unfolding get get_entry clear
paused_until_clear g node state now later here paused =
    (rw (here, get) (ground arith), rw (lookup-delete_self node g.states, get))

-- A cooldown without counted failures, not negative and not marked at the zero time, is reported
-- until its end and no longer.
pub mark_cooldown-get :
    (g : Guard) (node operation volume : String) (timeout : Duration) (attached ready : Bool)
    (d : ℕ) (now later : Time)
    → g.cooldown ≡ pos d
    → 0 < now
    → let (g', state) = mark_cooldown g node operation volume timeout attached ready now in
      (later ≤ now + d → (get g' node later).1 ≡ some state)
      × (now + d < later → (get g' node later).1 ≡ none)
unfolding get get_entry mark_cooldown
mark_cooldown-get g node operation volume timeout attached ready d now later e h = (
  λ l. rw (lookup-insert_self node _ g.states, get) (ground arith),
  λ l. rw (lookup-insert_self node _ g.states, get) (ground arith),
)

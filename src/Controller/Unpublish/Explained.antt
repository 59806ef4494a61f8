-- ===== src/Controller/Unpublish/Explained.antt =====
-- Why `ControllerUnpublishVolume` succeeds.
use storage_provider_openneb.Prelude.{
  ◌≡◌, refl, String, str_eq, Bool, true, false, ◌&&◌, ◌||◌, [], ◌∷◌, Option, none, some, arith,
  eq_refl, Bool-cases, inl, inr, ap, subst, ◌∙◌, sym,
}
use storage_provider_openneb.Prelude.Int.{ℤ, eq_ℤ, eq_ℤ-iff}
use storage_provider_openneb.Prelude.Keys.{lookup-insert_self, string_key}
use storage_provider_openneb.Golang.Answer.{Answer, failed, answered}
use storage_provider_openneb.StickyAttachment
use storage_provider_openneb.StickyAttachment.{StickyState, StickyError, Entries}
use storage_provider_openneb.HotplugGuard.{CooldownState}
use storage_provider_openneb.Controller.{
  Server, History, Event, detach_called, located, node_looked_up, volume_looked_up, desire_checked,
  queued, merged, logged, CallError, RuntimeContext, context_resolved, on_by_default,
}
use storage_provider_openneb.Controller.Health.{clear_hotplug_guard_state, hotplug_cooldown_state}
use storage_provider_openneb.Controller.Sticky.{
  annotate_started, should_delay_detach, delay_unless_cooling, node_ready, delay_context, may_delay,
  start_sticky, start_detach_grace, Delay,
}
use storage_provider_openneb.Controller.Queued.{Returned, done, fails}
use storage_provider_openneb.Controller.Unpublish.{
  after_detach_call, detach_now, unless_held, delay_or_detach, detach_if_there, unpublish_queued,
}
use storage_provider_openneb.Controller.Calls.{notable}
use storage_provider_openneb.Controller.Calls.Nodes.{view-clear_hotplug_guard_state}

get-start_grace :
    (entries : Entries) (state : StickyState) (write : Option String)
    → (StickyAttachment.start_grace entries state write).1 ≡ none
    → StickyAttachment.get (StickyAttachment.start_grace entries state write).0 state.volume_id
      ≡ some state
unfolding StickyAttachment.start_grace StickyAttachment.get
get-start_grace entries state none ok =
    ground (arith, lookup-insert_self state.volume_id state entries)
get-start_grace entries state (some e) ok = ground arith

-- A grace period that is started is kept under the volume's name.
get-start_sticky :
    (state : StickyState) (s : Server)
    → (start_sticky state s).0 ≡ none
    → StickyAttachment.get (start_sticky state s).1.sticky state.volume_id ≡ some state
unfolding start_sticky
get-start_sticky state s ok =
    let write =
      s.outside.write s.history "opennebula-csi-sticky-attachment-state" state.volume_id in
    ground (arith, get-start_grace s.sticky state write)

-- The annotation that follows it changes neither the error nor the grace periods.
annotate_started-kept :
    (context : RuntimeContext) (node : String) (e : Option StickyError) (s : Server)
    → let r = annotate_started context node e s in (r.0 ≡ e) × (r.1.sticky ≡ s.sticky)
annotate_started-kept context node none s = (refl, refl)
annotate_started-kept context node (some e) s = (refl, refl)

start_detach_grace-kept :
    (context : RuntimeContext) (state : StickyState) (s : Server)
    → let r = start_detach_grace context state s in
      let b = start_sticky state s in (r.0 ≡ b.0) × (r.1.sticky ≡ b.1.sticky)
unfolding start_detach_grace
start_detach_grace-kept context state s =
    let b = start_sticky state s in annotate_started-kept context state.node_id b.0 b.1

pub or_right : (a b : Bool) → b ≡ true → (a || b) ≡ true
or_right a b h = ground arith

pub eq_self : (a : ℤ) → eq_ℤ a a ≡ true
eq_self a = (eq_ℤ-iff a a).1 refl

module _ (volume node : String) (id node_id : ℤ) where
  -- The two calls before looked up the volume and the node by their names, as these identifiers.
  abbrev pub looked_up : ℤ → ℤ → History → Bool
  looked_up w n (node_looked_up m (answered k) ∷ volume_looked_up v (answered j) ∷ h) =
      (str_eq m node && eq_ℤ n k) && (str_eq v volume && eq_ℤ w j)
  looked_up w n h = false

  -- The volume was not found on the node; it was detached from it; Kubernetes still wants it there; or
  -- the call was merged into another one that succeeded.
  abbrev pub is_reason : Event → History → Bool
  is_reason (located w n (failed e)) h = (eq_ℤ w id && eq_ℤ n node_id) || looked_up w n h
  is_reason (detach_called v n none) h = str_eq v volume && str_eq n node
  is_reason (desire_checked v n (answered true)) h = str_eq v volume && str_eq n node
  is_reason (queued n o v merged) h = str_eq v volume && str_eq n node
  is_reason _ h = false

  abbrev pub has_reason : History → Bool
  has_reason [] = false
  has_reason (e ∷ h) = is_reason e h || has_reason h

  abbrev pub held_here : Option StickyState → Bool
  held_here none = false
  held_here (some state) = str_eq state.node_id node

  -- There is such a reason, or the attachment is kept on this node for a grace period.
  abbrev pub explained : Server → Bool
  explained s = has_reason (notable s.history) || held_here (StickyAttachment.get s.sticky volume)

  pub explained_by : (s : Server) → has_reason (notable s.history) ≡ true → explained s ≡ true
  explained_by s h = ground arith

  abbrev pub Returned-Explained : Returned (Unit {0}) → Server → Type 0
  Returned-Explained (done u) s = explained s ≡ true
  Returned-Explained (fails c) s = Unit {0}

  after_detach_call-Explained :
      (e : Option CallError) (s : Server)
      → let r = after_detach_call volume node e (logged (detach_called volume node e) s) in
        Returned-Explained r.0 r.1
  after_detach_call-Explained (some e) s = tt
  after_detach_call-Explained none s =
      let s1 = logged (detach_called volume node none) s in
      let r = (clear_hotplug_guard_state node s1).1 in
      explained_by (after_detach_call volume node none s1).1 (
        ap (λ v. has_reason v.0) (view-clear_hotplug_guard_state node s1)
        ∙ rw (eq_refl volume, eq_refl node) refl)

  detach_now-Explained :
      (s : Server) → let r = detach_now volume node s in Returned-Explained r.0 r.1
  unfolding detach_now
  detach_now-Explained s = after_detach_call-Explained (s.outside.detach s.history volume node) s

  pub started-held :
      (state : StickyState) (s : Server)
      → state.volume_id ≡ volume
      → state.node_id ≡ node
      → (start_sticky state s).0 ≡ none
      → held_here (StickyAttachment.get (start_sticky state s).1.sticky volume) ≡ true
  started-held state s v n ok =
      subst (λ k. held_here (StickyAttachment.get (start_sticky state s).1.sticky k) ≡ true) v
        (ap held_here (get-start_sticky state s ok) ∙ (rw n (eq_refl node)))

  unless_held-Explained :
      (e : Option StickyError) (s : Server)
      → (e ≡ none → explained s ≡ true)
      → let r = unless_held volume node e s in Returned-Explained r.0 r.1
  unless_held-Explained none s h = h refl
  unless_held-Explained (some e) s h = detach_now-Explained s

  -- What a detach that is put off is put off by.
  abbrev DelayFor : Delay → Type 0
  DelayFor none = Unit {0}
  DelayFor (some (context, state)) = (state.volume_id ≡ volume) × (state.node_id ≡ node)

  delay_or_detach-Explained :
      (d : Delay) (s : Server)
      → DelayFor d
      → let r = delay_or_detach volume node d s in Returned-Explained r.0 r.1
  delay_or_detach-Explained none s f = detach_now-Explained s
  delay_or_detach-Explained (some (context, state)) s (v, n) =
      let r = start_sticky state s in
      let a = start_detach_grace context state s in
      unless_held-Explained a.0 a.1 (λ ok.
        or_right (has_reason (notable a.1.history))
          (held_here (StickyAttachment.get a.1.sticky volume))
          (ap (λ es. held_here (StickyAttachment.get es volume))
              (start_detach_grace-kept context state s).1
            ∙ started-held state s v n (sym (start_detach_grace-kept context state s).0 ∙ ok)))

  delay_unless_cooling-DelayFor :
      (context : RuntimeContext) (c : Option CooldownState) (s : Server)
      → DelayFor (delay_unless_cooling context volume node c s).0
  delay_unless_cooling-DelayFor context (some c) s = tt
  delay_unless_cooling-DelayFor context none s =
      elim (Bool-cases (on_by_default s.settings.restart_require_node_ready)) [
        | inl must ↦ elim (Bool-cases (node_ready node s).0) [
          | inl ready ↦ rw (must, ready) (refl, refl)
          | inr down ↦ rw (must, down) tt
        ]
        | inr free ↦ rw free (refl, refl)
      ]

  delay_context-DelayFor :
      (a : Answer RuntimeContext) (s : Server) → DelayFor (delay_context a volume node s).0
  delay_context-DelayFor (failed e) s = tt
  delay_context-DelayFor (answered context) s = elim (Bool-cases (may_delay context volume)) [
    | inl may ↦
        let r = hotplug_cooldown_state node s in
        rw may (delay_unless_cooling-DelayFor context r.0 r.1)
    | inr not_allowed ↦ rw not_allowed tt
  ]

  should_delay_detach-DelayFor : (s : Server) → DelayFor (should_delay_detach volume node s).0
  unfolding should_delay_detach
  should_delay_detach-DelayFor s =
      elim (Bool-cases (on_by_default s.settings.restart_enabled && s.settings.kube_enabled)) [
        | inl on ↦ rw on (
            delay_context-DelayFor (s.outside.runtime_context s.history volume)
              (logged (context_resolved volume) s))
        | inr off ↦ rw off tt
      ]

  pub absent-reason :
      (e : String) (h : History) → has_reason (located id node_id (failed e) ∷ h) ≡ true
  absent-reason e h = rw (eq_self id, eq_self node_id) refl

  detach_if_there-Explained :
      (there : Answer String) (s : Server)
      → let r = detach_if_there volume node there (logged (located id node_id there) s) in
        Returned-Explained r.0 r.1
  detach_if_there-Explained (failed e) s =
      explained_by (logged (located id node_id (failed e)) s) (absent-reason e (notable s.history))
  detach_if_there-Explained (answered device) s =
      let s1 = logged (located id node_id (answered device)) s in
      let d = should_delay_detach volume node s1 in
      delay_or_detach-Explained d.0 d.1 (should_delay_detach-DelayFor s1)

  -- The function that is queued.
  pub unpublish_queued-Explained :
      (s : Server) → let r = unpublish_queued volume node id node_id s in Returned-Explained r.0 r.1
  unfolding unpublish_queued
  unpublish_queued-Explained s =
      detach_if_there-Explained (s.outside.volume_in_node s.history id node_id) s

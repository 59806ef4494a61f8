-- ===== src/Controller/Publish/Moved.antt =====
-- What a volume has left behind when `ControllerPublishVolume` attaches it.
use storage_provider_openneb.Prelude.{
  ◌≡◌, refl, String, str_eq, Bool, true, false, ◌&&◌, ◌||◌, [], ◌∷◌, Option, none, some, arith,
  eq_refl, Bool-cases, Option-cases, inl, inr, ap, ◌∙◌, sym,
}
use storage_provider_openneb.Prelude.Int.{ℤ, eq_ℤ, eq_ℤ-iff}
use storage_provider_openneb.Golang.Answer.{Answer, failed, answered, Answer-cases}
use storage_provider_openneb.StickyAttachment
use storage_provider_openneb.StickyAttachment.{StickyState, StickyError}
use storage_provider_openneb.Controller.{
  Server, History, Event, attach_called, detach_called, located, node_looked_up, desire_checked,
  CallError, logged,
}
use storage_provider_openneb.Controller.Health.{hotplug_cooldown_state, clear_hotplug_guard_state}
use storage_provider_openneb.Controller.Drift.{clear_quarantine}
use storage_provider_openneb.Controller.Sticky.{same_text, found_id, is_true, clear_sticky}
use storage_provider_openneb.Controller.Moves.{
  Reuse, not_reused, reuse_failed, reused, gone_if_cleared, reuse_sticky_attachment, reuse_entry,
  reuse_here, after_detach, take_away, leave_node, move_unless_cooling, move_from,
}
use storage_provider_openneb.Controller.Calls.{notable}
use storage_provider_openneb.Controller.Calls.Nodes.{
  view-hotplug_cooldown_state, view-clear_hotplug_guard_state,
}
use storage_provider_openneb.Controller.Calls.Volumes.{
  view-detach_metadata_drift_error, view-clear_quarantine, notable-clear_sticky,
}

-- No attach among the calls.
abbrev pub unattached : History → Bool
unattached [] = true
unattached (attach_called v n i r ∷ h) = false
unattached (_ ∷ h) = unattached h

-- The event is a detach of the volume from the node that succeeded, or the volume's image was not found
-- on the node that was looked up just before under this name.
abbrev pub leaves : String → String → ℤ → Event → History → Bool
leaves volume old id (detach_called v n none) h = str_eq v volume && str_eq n old
leaves volume old id (located w n (failed e)) (node_looked_up m (answered k) ∷ h) =
    eq_ℤ w id && (str_eq m old && eq_ℤ n k)
leaves volume old id _ h = false

abbrev pub has_left : String → String → ℤ → History → Bool
has_left volume old id [] = false
has_left volume old id (e ∷ h) = leaves volume old id e h || has_left volume old id h

-- If the volume's attachment is kept on another node, it has left that node.
abbrev pub moved : Option StickyState → String → String → ℤ → History → Bool
moved none volume node id h = true
moved (some state) volume node id h =
    same_text state.node_id node || has_left volume state.node_id id h

-- The calls of a part that ends without an attach; and the volume has moved if the handler goes on.
abbrev pub Ready : String → String → ℤ → Reuse → History → Type 0
Ready volume old id not_reused h = (unattached h ≡ true) × (has_left volume old id h ≡ true)
Ready volume old id (reuse_failed c) h = unattached h ≡ true
Ready volume old id (reused d) h = unattached h ≡ true

eq_self : (a : ℤ) → eq_ℤ a a ≡ true
eq_self a = (eq_ℤ-iff a a).1 refl

-- What the cleared entry's error decides, on the same history.
Ready-gone :
    (volume old : String) (id : ℤ) (e : Option StickyError) (h : History)
    → unattached h ≡ true
    → has_left volume old id h ≡ true
    → Ready volume old id (gone_if_cleared e) h
Ready-gone volume old id none h u l = (u, l)
Ready-gone volume old id (some e) h u l = u

module _ (volume old : String) (id : ℤ) where
  failed_detach-Ready :
      (e : CallError) (s : Server)
      → unattached (notable s.history) ≡ true
      → let r = after_detach volume old (some e) s in Ready volume old id r.0 (notable r.1.history)
  failed_detach-Ready e s h = grind (arith, view-detach_metadata_drift_error volume old e.text s)

  detached-Ready :
      (s : Server)
      → unattached (notable s.history) ≡ true
      → has_left volume old id (notable s.history) ≡ true
      → let r = after_detach volume old none s in Ready volume old id r.0 (notable r.1.history)
  detached-Ready s h l =
      let s1 = (clear_hotplug_guard_state old s).1 in
      let s2 = (clear_quarantine volume s1).1 in
      let e : notable (clear_sticky volume s2).1.history ≡ notable s.history =
        notable-clear_sticky volume s2
        ∙ (ap (λ v. v.0) (view-clear_quarantine volume s1)
            ∙ ap (λ v. v.0) (view-clear_hotplug_guard_state old s)) in
      Ready-gone volume old id (clear_sticky volume s2).0 _ (ap unattached e ∙ h)
        (ap (has_left volume old id) e ∙ l)

  take_away-Ready :
      (s : Server)
      → unattached (notable s.history) ≡ true
      → let r = take_away volume old s in Ready volume old id r.0 (notable r.1.history)
  take_away-Ready s h = elim (Option-cases (s.outside.detach s.history volume old)) [
    | inl gone ↦ rw gone (detached-Ready _ h (simp eq_refl))
    | inr (e, p) ↦ rw p (failed_detach-Ready e _ h)
  ]

  -- The volume was not found on the node that the name stands for.
  left_of_absent :
      (k : ℤ) (e : String) (h : History)
      → has_left volume old id (located id k (failed e) ∷ node_looked_up old (answered k) ∷ h)
        ≡ true
  left_of_absent k e h = rw (eq_self id, eq_self k, eq_refl old) refl

  cleared-Ready :
      (s : Server)
      → unattached (notable s.history) ≡ true
      → has_left volume old id (notable s.history) ≡ true
      → let r = clear_sticky volume s in
        Ready volume old id (gone_if_cleared r.0) (notable r.1.history)
  cleared-Ready s u l =
      let e = notable-clear_sticky volume s in
      Ready-gone volume old id (clear_sticky volume s).0 _ (ap unattached e ∙ u)
        (ap (has_left volume old id) e ∙ l)

  -- The node is known, and the last call looked it up.
  leave_known-Ready :
      (k : ℤ) (s : Server) (h : History)
      → unattached (notable s.history) ≡ true
      → notable s.history ≡ node_looked_up old (answered k) ∷ h
      → let r = leave_node volume old id (some k) s in Ready volume old id r.0 (notable r.1.history)
  leave_known-Ready k s h u e = elim (Answer-cases (s.outside.volume_in_node s.history id k)) [
    | inl (text, p) ↦ rw p (
        cleared-Ready (logged (located id k (failed text)) s) u (
          ap (λ l. has_left volume old id (located id k (failed text) ∷ l)) e
          ∙ left_of_absent k text h))
    | inr (device, p) ↦ rw p (take_away-Ready (logged (located id k (answered device)) s) u)
  ]

  found_id-eq : (j k : ℤ) → found_id (answered j) ≡ some k → j ≡ k
  found_id-eq j k f = ground arith

  leave_node-Ready :
      (found : Answer ℤ) (o : Option ℤ) (s : Server) (h : History)
      → found_id found ≡ o
      → unattached (notable s.history) ≡ true
      → notable s.history ≡ node_looked_up old found ∷ h
      → let r = leave_node volume old id o s in Ready volume old id r.0 (notable r.1.history)
  leave_node-Ready found none s h f u e = take_away-Ready s u
  leave_node-Ready (failed text) (some k) s h f u e = cc
  leave_node-Ready (answered j) (some k) s h f u e =
      leave_known-Ready k s h u (rw (sym (found_id-eq j k f)) e)

  unless_desired-Ready :
      (s : Server)
      → unattached (notable s.history) ≡ true
      → let r = move_unless_cooling volume old id none s in
        Ready volume old id r.0 (notable r.1.history)
  unless_desired-Ready s u =
      elim (Bool-cases (is_true (s.outside.desired_on_node s.history volume old))) [
        | inl kept ↦ rw kept u
        | inr free ↦
            let s1 =
              logged (desire_checked volume old (s.outside.desired_on_node s.history volume old))
                s in
            let found = s1.outside.node_exists s1.history old in
            rw free (
              leave_node-Ready found (found_id found) (logged (node_looked_up old found) s1)
                (notable s1.history) refl u refl)
      ]

  move_from-Ready :
      (s : Server)
      → unattached (notable s.history) ≡ true
      → let r = move_from volume old id s in Ready volume old id r.0 (notable r.1.history)
  unfolding move_from
  move_from-Ready s u =
      let r = hotplug_cooldown_state old s in
      let u' : unattached (notable r.1.history) ≡ true =
        ap (λ v. unattached v.0) (view-hotplug_cooldown_state old s) ∙ u in
      elim (Option-cases r.0) [
        | inl free ↦ rw free (unless_desired-Ready r.1 u')
        | inr (state, cooling) ↦ rw cooling u'
      ]

-- What the function that is queued knows when it goes on.
abbrev pub Settled : Option StickyState → String → String → ℤ → Reuse → History → Type 0
Settled entry volume node id not_reused h =
    (unattached h ≡ true) × (moved entry volume node id h ≡ true)
Settled entry volume node id (reuse_failed c) h = unattached h ≡ true
Settled entry volume node id (reused d) h = unattached h ≡ true

Settled-of-Ready :
    (state : StickyState) (volume node : String) (id : ℤ) (r : Reuse) (h : History)
    → Ready volume state.node_id id r h
    → Settled (some state) volume node id r h
Settled-of-Ready state volume node id not_reused h (u, l) = (u, ground arith)
Settled-of-Ready state volume node id (reuse_failed c) h u = u
Settled-of-Ready state volume node id (reused d) h u = u

reuse_here-Settled :
    (state : StickyState) (volume node : String) (id : ℤ) (there : Answer String) (s : Server)
    → same_text state.node_id node ≡ true
    → unattached (notable s.history) ≡ true
    → let r = reuse_here volume there s in
      Settled (some state) volume node id r.0 (notable r.1.history)
reuse_here-Settled state volume node id (failed e) s same u =
    (ap unattached (notable-clear_sticky volume s) ∙ u, ground arith)
reuse_here-Settled state volume node id (answered device) s same u =
    elim (Option-cases (clear_sticky volume s).0) [
      | inl fine ↦ rw fine (ap unattached (notable-clear_sticky volume s) ∙ u)
      | inr (e, bad) ↦ rw bad (ap unattached (notable-clear_sticky volume s) ∙ u)
    ]

reuse_entry-Settled :
    (entry : Option StickyState) (volume node : String) (id node_id : ℤ) (s : Server)
    → unattached (notable s.history) ≡ true
    → let r = reuse_entry entry volume node id node_id s in
      Settled entry volume node id r.0 (notable r.1.history)
unfolding reuse_entry
reuse_entry-Settled none volume node id node_id s u = (u, refl)
reuse_entry-Settled (some state) volume node id node_id s u =
    elim (Bool-cases (same_text state.node_id node)) [
      | inl here ↦
          let there = s.outside.volume_in_node s.history id node_id in
          rw here (
            reuse_here-Settled state volume node id there (logged (located id node_id there) s) here
              u)
      | inr away ↦ rw away (
          Settled-of-Ready state volume node id (move_from volume state.node_id id s).0 _
            (move_from-Ready volume state.node_id id s u))
    ]

pub reuse-Settled :
    (volume node : String) (id node_id : ℤ) (s : Server)
    → unattached (notable s.history) ≡ true
    → let r = reuse_sticky_attachment volume node id node_id s in
      Settled (StickyAttachment.get s.sticky volume) volume node id r.0 (notable r.1.history)
unfolding reuse_sticky_attachment
reuse-Settled volume node id node_id s u =
    reuse_entry-Settled (StickyAttachment.get s.sticky volume) volume node id node_id s u

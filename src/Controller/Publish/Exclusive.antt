-- ===== src/Controller/Publish/Exclusive.antt =====
-- `ControllerPublishVolume` attaches at most once, and a volume that is kept elsewhere only after it left.
use storage_provider_openneb.Prelude.{
  ◌≡◌, refl, String, Bool, true, ◌||◌, [], ◌∷◌, Option, none, some, arith, inl, inr, ap, subst, ◌∙◌,
  sym,
}
use storage_provider_openneb.Prelude.Int.{ℤ}
use storage_provider_openneb.Golang.Answer.{Answer, failed, answered, Answer-cases}
use storage_provider_openneb.StickyAttachment
use storage_provider_openneb.StickyAttachment.{StickyState}
use storage_provider_openneb.Controller.{
  Server, History, Event, attach_called, located, volume_looked_up, size_resolved, Code, CallError,
  ArtifactConflict, logged,
}
use storage_provider_openneb.Controller.Publish.{
  PublishRequest, publish_context, publish_attached, attach_failed_with, observe_attached,
  after_attach, attach_now, is_immutable, attach_or_find, unless_attached, unless_drift,
  unless_artifact, publish_queued, unless_reused,
}
use storage_provider_openneb.Controller.Drift.{clear_quarantine, reject_if_metadata_drift}
use storage_provider_openneb.Controller.Health.{clear_hotplug_guard_state}
use storage_provider_openneb.Controller.Artifacts.{
  clear_artifacts_for_volume, reject_if_artifact_active,
}
use storage_provider_openneb.Controller.Sticky.{same_text, annotate_for_volume}
use storage_provider_openneb.Controller.Moves.{
  Reuse, not_reused, reuse_failed, reused, reuse_sticky_attachment,
}
use storage_provider_openneb.Controller.Calls.{view, notable}
use storage_provider_openneb.Controller.Calls.Nodes.{
  view-clear_hotplug_guard_state, view-handle_hotplug_timeout,
}
use storage_provider_openneb.Controller.Calls.Volumes.{
  view-clear_quarantine, view-clear_artifacts_for_volume, notable-clear_sticky_reuse_state,
  view-annotate_for_volume, view-handle_artifact_conflict, view-reject_if_metadata_drift,
  view-reject_if_artifact_active,
}
use storage_provider_openneb.Controller.Publish.Moved.{
  unattached, has_left, leaves, moved, Settled, reuse-Settled,
}

or_later : (a b c : Bool) → (a || c) ≡ true → (a || (b || c)) ≡ true
or_later a b c h = ground arith

module _ (entry : Option StickyState) (volume node : String) (id : ℤ) where
  -- The latest attach is of this volume to this node, no attach is before it, and the volume had left
  -- the node where its attachment was kept.
  abbrev pub Guarded : History → Type 0
  Guarded [] = Unit {0}
  Guarded (attach_called v n i r ∷ h) =
      (v ≡ volume) × (n ≡ node) × (unattached h ≡ true) × (moved entry volume node id h ≡ true)
  Guarded (_ ∷ h) = Guarded h

  pub Guarded-of-unattached : (h : History) → unattached h ≡ true → Guarded h
  Guarded-of-unattached [] u = tt
  Guarded-of-unattached (attach_called v n i r ∷ h) u = cc
  Guarded-of-unattached (e ∷ h) u = Guarded-of-unattached h u

moved_later :
    (entry : Option StickyState) (volume node : String) (id : ℤ) (e : Event) (h : History)
    → moved entry volume node id h ≡ true
    → moved entry volume node id (e ∷ h) ≡ true
moved_later none volume node id e h m = refl
moved_later (some state) volume node id e h m =
    or_later (same_text state.node_id node) (leaves volume state.node_id id e h)
      (has_left volume state.node_id id h) m

pub notable-publish_context :
    (req : PublishRequest) (device : String) (s : Server)
    → notable (publish_context req device s).1.history
      ≡ volume_looked_up req.volume (s.outside.volume_exists s.history req.volume)
        ∷ notable s.history
unfolding publish_context
notable-publish_context req device s = ground arith

pub unattached-publish_attached :
    (req : PublishRequest) (device : String) (s : Server)
    → unattached (notable (publish_attached req device s).1.history)
      ≡ unattached (notable s.history)
unfolding publish_attached
unattached-publish_attached req device s = grind (
  arith, notable-publish_context, view-annotate_for_volume, notable-clear_sticky_reuse_state,
  view-clear_artifacts_for_volume, view-clear_quarantine,
)

module _ (entry : Option StickyState) (req : PublishRequest) (id node_id : ℤ) where
  abbrev Safe : History → Type 0
  Safe h = Guarded entry req.volume req.node id h

  quiet-Safe : (h : History) → unattached h ≡ true → Safe h
  quiet-Safe h u = Guarded-of-unattached entry req.volume req.node id h u

  -- After the attach call: nothing that follows attaches.
  failed_attach-Safe :
      (e : CallError) (c : Option ArtifactConflict) (s : Server)
      → Safe (notable s.history)
      → Safe (notable (attach_failed_with req e c s).1.history)
  failed_attach-Safe e none s g =
      subst (λ v. Safe v.0) (sym (view-handle_hotplug_timeout req.node req.volume "attach" e s)) g
  failed_attach-Safe e (some conflict) s g =
      subst (λ v. Safe v.0) (sym (view-handle_artifact_conflict req.volume conflict s)) g

  observe-Safe :
      (there : Answer String) (s : Server)
      → Safe (notable s.history)
      → Safe (notable (observe_attached req there s).1.history)
  observe-Safe (failed e) s g = g
  observe-Safe (answered device) s g =
      let s1 = (annotate_for_volume req.volume req.node s).1 in
      subst Safe (sym (notable-publish_context req device s1))
        (subst (λ v. Safe v.0) (sym (view-annotate_for_volume req.volume req.node s)) g)

  after_attach-Safe :
      (e : Option CallError) (s : Server)
      → Safe (notable s.history)
      → Safe (notable (after_attach req id node_id e s).1.history)
  after_attach-Safe (some e) s g = failed_attach-Safe e e.conflict s g
  after_attach-Safe none s g =
      let s1 = (clear_hotplug_guard_state req.node s).1 in
      let s2 = (clear_quarantine req.volume s1).1 in
      let s3 = (clear_artifacts_for_volume req.volume s2).1 in
      let there = s3.outside.volume_in_node s3.history id node_id in
      let e : view s3 ≡ view s =
        view-clear_artifacts_for_volume req.volume s2
        ∙ (view-clear_quarantine req.volume s1 ∙ view-clear_hotplug_guard_state req.node s) in
      observe-Safe there (logged (located id node_id there) s3) (subst (λ v. Safe v.0) (sym e) g)

  -- Before the attach call.
  attach_now-Safe :
      (s : Server)
      → unattached (notable s.history) ≡ true
      → moved entry req.volume req.node id (notable s.history) ≡ true
      → Safe (notable (attach_now req id node_id s).1.history)
  unfolding attach_now
  attach_now-Safe s u m = elim (Answer-cases (s.outside.resolve_size s.history req.volume)) [
    | inl (e, p) ↦ rw p (quiet-Safe (notable s.history) u)
    | inr (size, p) ↦
        let s1 = logged (size_resolved req.volume) s in
        let r = s1.outside.attach s1.history req.volume req.node (is_immutable req) in
        rw p (
          after_attach-Safe r (logged (attach_called req.volume req.node (is_immutable req) r) s1)
            (refl, refl, u, m))
  ]

  unless_artifact-Safe :
      (c : Option Code) (s : Server)
      → unattached (notable s.history) ≡ true
      → moved entry req.volume req.node id (notable s.history) ≡ true
      → Safe (notable (unless_artifact req id node_id c s).1.history)
  unless_artifact-Safe none s u m = attach_now-Safe s u m
  unless_artifact-Safe (some c) s u m = quiet-Safe (notable s.history) u

  unless_drift-Safe :
      (c : Option Code) (s : Server)
      → unattached (notable s.history) ≡ true
      → moved entry req.volume req.node id (notable s.history) ≡ true
      → Safe (notable (unless_drift req id node_id c s).1.history)
  unless_drift-Safe (some c) s u m = quiet-Safe (notable s.history) u
  unless_drift-Safe none s u m =
      let r = reject_if_artifact_active req.volume req.node s in
      let e = ap (λ v. v.0) (view-reject_if_artifact_active req.volume req.node s) in
      unless_artifact-Safe r.0 r.1 (ap unattached e ∙ u)
        (ap (moved entry req.volume req.node id) e ∙ m)

  unless_attached-Safe :
      (there : Answer String) (s : Server)
      → unattached (notable s.history) ≡ true
      → moved entry req.volume req.node id (notable s.history) ≡ true
      → Safe (notable (unless_attached req id node_id there s).1.history)
  unless_attached-Safe (answered device) s u m =
      quiet-Safe (notable (publish_attached req device s).1.history)
        (unattached-publish_attached req device s ∙ u)
  unless_attached-Safe (failed text) s u m =
      let r = reject_if_metadata_drift req.volume req.node s in
      let e = ap (λ v. v.0) (view-reject_if_metadata_drift req.volume req.node s) in
      unless_drift-Safe r.0 r.1 (ap unattached e ∙ u)
        (ap (moved entry req.volume req.node id) e ∙ m)

  attach_or_find-Safe :
      (s : Server)
      → unattached (notable s.history) ≡ true
      → moved entry req.volume req.node id (notable s.history) ≡ true
      → Safe (notable (attach_or_find req id node_id s).1.history)
  unfolding attach_or_find
  attach_or_find-Safe s u m =
      let there = s.outside.volume_in_node s.history id node_id in
      let e = located id node_id there in
      unless_attached-Safe there (logged e s) u
        (moved_later entry req.volume req.node id e (notable s.history) m)

  unless_reused-Safe :
      (r : Reuse) (s : Server)
      → Settled entry req.volume req.node id r (notable s.history)
      → Safe (notable (unless_reused req id node_id r s).1.history)
  unless_reused-Safe not_reused s (u, m) = attach_or_find-Safe s u m
  unless_reused-Safe (reuse_failed c) s u = quiet-Safe (notable s.history) u
  unless_reused-Safe (reused device) s u =
      let s1 = (publish_context req device s).1 in
      quiet-Safe (notable (annotate_for_volume req.volume req.node s1).1.history) (
        ap (λ v. unattached v.0) (view-annotate_for_volume req.volume req.node s1)
        ∙ (ap unattached (notable-publish_context req device s) ∙ u))

-- The function that is queued.
pub publish_queued-Guarded :
    (req : PublishRequest) (id node_id : ℤ) (s : Server)
    → unattached (notable s.history) ≡ true
    → Guarded
        (StickyAttachment.get s.sticky req.volume)
        req.volume
        req.node
        id
        (notable (publish_queued req id node_id s).1.history)
unfolding publish_queued
publish_queued-Guarded req id node_id s u =
    let r = reuse_sticky_attachment req.volume req.node id node_id s in
    unless_reused-Safe (StickyAttachment.get s.sticky req.volume) req id node_id r.0 r.1
      (reuse-Settled req.volume req.node id node_id s u)

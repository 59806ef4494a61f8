-- ===== src/Controller/Publish/Attached.antt =====
-- What stands behind a response of `ControllerPublishVolume`: the attachment.
use storage_provider_openneb.Prelude.{◌≡◌, refl, String, true, Option, none, some, ap, ◌∙◌}
use storage_provider_openneb.Prelude.Int.{ℤ}
use storage_provider_openneb.Golang.Answer.{Answer, failed, answered}
use storage_provider_openneb.StickyAttachment
use storage_provider_openneb.Controller.{
  Server, attach_called, located, size_resolved, logged, Code, CallError, ArtifactConflict,
}
use storage_provider_openneb.Controller.Health.{clear_hotplug_guard_state}
use storage_provider_openneb.Controller.Drift.{clear_quarantine, reject_if_metadata_drift}
use storage_provider_openneb.Controller.Artifacts.{
  clear_artifacts_for_volume, reject_if_artifact_active,
}
use storage_provider_openneb.Controller.Sticky.{annotate_for_volume}
use storage_provider_openneb.Controller.Moves.{
  Reuse, not_reused, reuse_failed, reused, reuse_sticky_attachment,
}
use storage_provider_openneb.Controller.Publish.{
  PublishRequest, publish_context, attach_failed_with, observe_attached, after_attach, attach_sized,
  attach_now, is_immutable, unless_artifact, unless_drift, unless_attached, attach_or_find,
  unless_reused, publish_queued,
}
use storage_provider_openneb.Controller.Publish.Located.{
  seen, seen_now, is_found, is_found_reused, seen-publish_context, seen-publish_attached,
  reuse_entry-is_found,
}
use storage_provider_openneb.Controller.Calls.{notable}
use storage_provider_openneb.Controller.Calls.Volumes.{view-annotate_for_volume}

module _ (req : PublishRequest) (id node_id : ℤ) where
  attach_failed-is_found :
      (e : CallError) (o : Option ArtifactConflict) (s : Server)
      → let r = attach_failed_with req e o s in is_found id node_id r.0 (notable r.1.history) ≡ true
  attach_failed-is_found e none s = refl
  attach_failed-is_found e (some c) s = refl

  observe_attached-is_found :
      (there : Answer String) (s : Server)
      → let r = observe_attached req there (logged (located id node_id there) s) in
        is_found id node_id r.0 (notable r.1.history) ≡ true
  observe_attached-is_found (failed e) s = refl
  observe_attached-is_found (answered device) s =
      let s1 = logged (located id node_id (answered device)) s in
      seen-publish_context id node_id req device (annotate_for_volume req.volume req.node s1).1 (
        ap (λ v. seen id node_id device v.0) (view-annotate_for_volume req.volume req.node s1)
        ∙ seen_now id node_id device (notable s.history))

  after_attach-is_found :
      (o : Option CallError) (s : Server)
      → let r = after_attach req id node_id o s in
        is_found id node_id r.0 (notable r.1.history) ≡ true
  after_attach-is_found (some e) s = attach_failed-is_found e e.conflict s
  after_attach-is_found none s =
      let s1 = (clear_hotplug_guard_state req.node s).1 in
      let s2 = (clear_quarantine req.volume s1).1 in
      let s3 = (clear_artifacts_for_volume req.volume s2).1 in
      observe_attached-is_found (s3.outside.volume_in_node s3.history id node_id) s3

  attach_sized-is_found :
      (size : Answer ℤ) (s : Server)
      → let r = attach_sized req id node_id size s in
        is_found id node_id r.0 (notable r.1.history) ≡ true
  attach_sized-is_found (failed e) s = refl
  attach_sized-is_found (answered n) s =
      let e = s.outside.attach s.history req.volume req.node (is_immutable req) in
      after_attach-is_found e (logged (attach_called req.volume req.node (is_immutable req) e) s)

  unless_artifact-is_found :
      (c : Option Code) (s : Server)
      → let r = unless_artifact req id node_id c s in
        is_found id node_id r.0 (notable r.1.history) ≡ true
  unfolding attach_now
  unless_artifact-is_found (some c) s = refl
  unless_artifact-is_found none s =
      attach_sized-is_found (s.outside.resolve_size s.history req.volume)
        (logged (size_resolved req.volume) s)

  unless_drift-is_found :
      (c : Option Code) (s : Server)
      → let r = unless_drift req id node_id c s in
        is_found id node_id r.0 (notable r.1.history) ≡ true
  unless_drift-is_found (some c) s = refl
  unless_drift-is_found none s =
      let r = reject_if_artifact_active req.volume req.node s in unless_artifact-is_found r.0 r.1

  unless_attached-is_found :
      (there : Answer String) (s : Server)
      → let r = unless_attached req id node_id there (logged (located id node_id there) s) in
        is_found id node_id r.0 (notable r.1.history) ≡ true
  unless_attached-is_found (failed e) s =
      let r =
        reject_if_metadata_drift req.volume req.node (logged (located id node_id (failed e)) s) in
      unless_drift-is_found r.0 r.1
  unless_attached-is_found (answered device) s =
      seen-publish_attached id node_id req device (logged (located id node_id (answered device)) s)
        (seen_now id node_id device (notable s.history))

  unless_reused-is_found :
      (u : Reuse) (s : Server)
      → is_found_reused id node_id u (notable s.history) ≡ true
      → let r = unless_reused req id node_id u s in
        is_found id node_id r.0 (notable r.1.history) ≡ true
  unfolding attach_or_find
  unless_reused-is_found (reuse_failed c) s h = refl
  unless_reused-is_found not_reused s h =
      unless_attached-is_found (s.outside.volume_in_node s.history id node_id) s
  unless_reused-is_found (reused device) s h =
      let r = publish_context req device s in
      ap (λ v. seen id node_id r.0.device v.0) (view-annotate_for_volume req.volume req.node r.1)
      ∙ seen-publish_context id node_id req device s h

  pub publish_queued-is_found :
      (s : Server)
      → let r = publish_queued req id node_id s in
        is_found id node_id r.0 (notable r.1.history) ≡ true
  unfolding publish_queued reuse_sticky_attachment
  publish_queued-is_found s =
      let r = reuse_sticky_attachment req.volume req.node id node_id s in
      unless_reused-is_found r.0 r.1 (
        reuse_entry-is_found id node_id (StickyAttachment.get s.sticky req.volume) req.volume
          req.node s)

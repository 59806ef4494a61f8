-- ===== src/Controller/Calls/Volumes.antt =====
-- The functions on a volume: metadata drift, leftovers on hosts, grace periods and the queue's check.
use storage_provider_openneb.Prelude.{◌≡◌, refl, String, Bool, [], ◌∷◌, Option, arith}
use storage_provider_openneb.Golang.Answer.{Answer, failed, answered}
use storage_provider_openneb.VolumeQuarantine.{QuarantineState}
use storage_provider_openneb.HostArtifact
use storage_provider_openneb.Controller.{Server, Metadata, ArtifactConflict}
use storage_provider_openneb.Controller.Drift.{
  drift_guard_eligible, mark_drift, clear_quarantine, judge_metadata, reject_eligible,
  reject_if_metadata_drift, judge_detach, detach_metadata_drift_error,
}
use storage_provider_openneb.Controller.Artifacts.{
  reject_if_artifact_active, handle_artifact_conflict, clear_artifacts, clear_artifacts_for_volume,
}
use storage_provider_openneb.Controller.Sticky.{
  clear_sticky, maintenance_blocks_publish, annotate_for_volume, clear_sticky_reuse_state,
}
use storage_provider_openneb.Controller.Queued.{
  attach_request_stale, queue_failure, Refusal, waits_too_long, runs_too_long, stale, paused,
  other_refusal,
}
use storage_provider_openneb.Controller.Calls.{view, notable}

view-drift_guard_eligible :
    (volume : String) (s : Server) → view (drift_guard_eligible volume s).1 ≡ view s
unfolding drift_guard_eligible
view-drift_guard_eligible volume s = ground arith

view-mark_drift : (q : QuarantineState) (s : Server) → view (mark_drift q s).1 ≡ view s
unfolding mark_drift
view-mark_drift q s = ground arith

pub view-clear_quarantine :
    (volume : String) (s : Server) → view (clear_quarantine volume s).1 ≡ view s
unfolding clear_quarantine
view-clear_quarantine volume s = ground arith

view-judge_metadata :
    (volume node : String) (quarantined : Bool) (m : Answer (Option Metadata)) (s : Server)
    → view (judge_metadata volume node quarantined m s).1 ≡ view s
unfolding judge_metadata
view-judge_metadata volume node quarantined (failed e) s = refl
view-judge_metadata volume node quarantined (answered m) s =
    grind (arith, view-mark_drift, view-clear_quarantine)

view-reject_eligible :
    (volume node : String) (s : Server) → view (reject_eligible volume node s).1 ≡ view s
view-reject_eligible volume node s = grind (arith, view-judge_metadata)

pub view-reject_if_metadata_drift :
    (volume node : String) (s : Server) → view (reject_if_metadata_drift volume node s).1 ≡ view s
unfolding reject_if_metadata_drift
view-reject_if_metadata_drift volume node s =
    grind (arith, view-drift_guard_eligible, view-reject_eligible)

view-judge_detach :
    (volume node cause : String) (m : Answer (Option Metadata)) (s : Server)
    → view (judge_detach volume node cause m s).1 ≡ view s
unfolding judge_detach
view-judge_detach volume node cause (failed e) s = refl
view-judge_detach volume node cause (answered m) s = grind (arith, view-mark_drift)

pub view-detach_metadata_drift_error :
    (volume node cause : String) (s : Server)
    → view (detach_metadata_drift_error volume node cause s).1 ≡ view s
unfolding detach_metadata_drift_error
view-detach_metadata_drift_error volume node cause s =
    grind (arith, view-drift_guard_eligible, view-judge_detach)

pub view-reject_if_artifact_active :
    (volume node : String) (s : Server) → view (reject_if_artifact_active volume node s).1 ≡ view s
unfolding reject_if_artifact_active
view-reject_if_artifact_active volume node s = ground arith

pub view-handle_artifact_conflict :
    (volume : String) (c : ArtifactConflict) (s : Server)
    → view (handle_artifact_conflict volume c s).1 ≡ view s
unfolding handle_artifact_conflict
view-handle_artifact_conflict volume c s = ground arith

view-clear_artifacts :
    (volume : String) (es : HostArtifact.Entries) (s : Server)
    → view (clear_artifacts volume es s).1 ≡ view s
unfolding clear_artifacts
view-clear_artifacts volume [] s = refl
view-clear_artifacts volume ((key, state) ∷ rest) s =
    grind (arith, view-clear_artifacts volume rest)

pub view-clear_artifacts_for_volume :
    (volume : String) (s : Server) → view (clear_artifacts_for_volume volume s).1 ≡ view s
unfolding clear_artifacts_for_volume
view-clear_artifacts_for_volume volume s = grind (arith, view-clear_artifacts)

pub notable-clear_sticky :
    (volume : String) (s : Server) → notable (clear_sticky volume s).1.history ≡ notable s.history
unfolding clear_sticky
notable-clear_sticky volume s = ground arith

pub notable-clear_sticky_reuse_state :
    (volume node : String) (s : Server)
    → notable (clear_sticky_reuse_state volume node s).1.history ≡ notable s.history
unfolding clear_sticky_reuse_state
notable-clear_sticky_reuse_state volume node s = grind (arith, notable-clear_sticky)

pub view-maintenance_blocks_publish :
    (volume node : String) (s : Server) → view (maintenance_blocks_publish volume node s).1 ≡ view s
unfolding maintenance_blocks_publish
view-maintenance_blocks_publish volume node s = ground arith

pub view-annotate_for_volume :
    (volume node : String) (s : Server) → view (annotate_for_volume volume node s).1 ≡ view s
unfolding annotate_for_volume
view-annotate_for_volume volume node s = ground arith

pub view-attach_request_stale :
    (node volume : String) (s : Server) → view (attach_request_stale node volume s).1 ≡ view s
unfolding attach_request_stale
view-attach_request_stale node volume s = ground arith

pub view-queue_failure :
    (node : String) (r : Refusal) (s : Server) → view (queue_failure node r s).1 ≡ view s
unfolding queue_failure
view-queue_failure node waits_too_long s = refl
view-queue_failure node runs_too_long s = refl
view-queue_failure node stale s = refl
view-queue_failure node paused s = refl
view-queue_failure node other_refusal s = refl

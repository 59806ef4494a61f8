-- ===== src/Controller/Artifacts.antt =====
-- pkg/csi/driver/host_artifact_controller.go: attachments refused because of leftovers on a host, with
-- `Key` of pkg/csi/opennebula/host_artifact.go.
use storage_provider_openneb.Prelude.{
  String, str_eq, Bool, true, false, not, ◌&&◌, [], ◌∷◌, Option, none, some, if◌then◌else◌,
}
use storage_provider_openneb.Prelude.Int.{ℤ, pos, ltb_ℤ, ◌*ℤ◌, wrap64}
use storage_provider_openneb.Golang.Answer.{Answer, failed, answered}
use storage_provider_openneb.Golang.Clock.{Duration, second, zero_time}
use storage_provider_openneb.Golang.Text.{trim_space}
use storage_provider_openneb.Golang.Decimal.{itoa}
use storage_provider_openneb.HostArtifact
use storage_provider_openneb.HostArtifact.{
  ArtifactState, mark_artifact_failure, get_active_artifact, clear_artifact,
}
use storage_provider_openneb.Controller.Health.{positive_setting, default_text}
use storage_provider_openneb.Controller.Drift.{join, has_none}
use storage_provider_openneb.Controller.{
  Settings, Run, ◌>>=◌, ◌>>◌, pure, gets, ask, on_by_default, is_blank, ArtifactTarget,
  ArtifactConflict, Code, failed_precondition, clock_read, inspected, config_map_written,
}

-- `Key`
unfoldable pub target_key : ArtifactTarget → String
unfolding join
target_key t =
    let has_disk = ltb_ℤ (pos 0) t.disk_id in
    if ltb_ℤ (pos 0) t.vm_id && has_disk
    then join "" ("vm-" ∷ itoa t.vm_id ∷ ".disk-" ∷ itoa t.disk_id ∷ [])
    else (if not (is_blank t.node_name) && has_disk
        then join "" ("node-" ∷ trim_space t.node_name ∷ ".disk-" ∷ itoa t.disk_id ∷ [])
        else (if ltb_ℤ (pos 0) t.vm_id
            then join "" ("vm-" ∷ itoa t.vm_id ∷ [])
            else trim_space t.node_name))

abbrev pub artifact_enabled : Settings → Bool
artifact_enabled c = on_by_default c.artifact_enabled

abbrev pub artifact_threshold : Settings → ℤ
artifact_threshold c = positive_setting c.artifact_threshold (pos 1)

abbrev pub artifact_ttl : Settings → Duration
artifact_ttl c = wrap64 (positive_setting c.artifact_ttl_seconds (pos 3600) *ℤ pos second)

unfoldable pub repair_hint : String → String → String
unfolding join
repair_hint lv key =
    let ending = join "" (
      "delete ConfigMap opennebula-csi-host-artifact-state key " ∷ key
      ∷ " or wait for the TTL before retrying" ∷ []) in
    if str_eq lv ""
    then join "" (
        "read-only quarantine: inspect the OpenNebula VM log and host-local LVM artifacts; after an operator confirms the artifact is stale, repair it externally, then "
        ∷ ending ∷ [])
    else join "" (
        "read-only quarantine: inspect the OpenNebula VM log and host-local LV " ∷ lv
        ∷ "; after an operator confirms it is stale and not attached to the VM, repair the host artifact externally, then "
        ∷ ending ∷ [])

-- `hostArtifactStateFromConflict`
unfoldable pub state_from_conflict : String → ArtifactConflict → ArtifactState
unfolding target_key repair_hint
state_from_conflict volume c =
    let t = c.target in
    let key = default_text (target_key t) (trim_space volume) in
    record {
      key = key;
      classification = default_text (trim_space c.classification) "host_local_lv_conflict";
      reason = "external_host_artifact_repair_required";
      message = c.text;
      volume_id = trim_space volume;
      image_id = t.image_id;
      node_name = t.node_name;
      vm_id = t.vm_id;
      host_id = t.host_id;
      host_name = t.host_name;
      system_datastore_id = t.system_datastore_id;
      system_datastore_name = t.system_datastore_name;
      system_datastore_tm = t.system_datastore_tm;
      disk_id = t.disk_id;
      target = t.target;
      lv_name = t.lv_name;
      failure_count = pos 0;
      first_observed_at = zero_time;
      last_observed_at = zero_time;
      expires_at = zero_time;
      repair_hint = repair_hint t.lv_name key;
    }

abbrev pub write_artifact : String → Run (Option String)
write_artifact key =
    ask (λ o h. o.write h "opennebula-csi-host-artifact-state" key)
      (λ _. config_map_written "opennebula-csi-host-artifact-state" key)

abbrev pub has_active : Option ArtifactState → Bool
has_active none = false
has_active (some a) = true

abbrev pub artifact_is_active : Answer (Option ArtifactTarget) → Run Bool
artifact_is_active (failed e) s = (false, s)
artifact_is_active (answered none) s = (false, s)
artifact_is_active (answered (some target)) s =
    (do
      now ← ask (λ o h. o.now h) (λ _. clock_read)
      entries ← gets (λ s. s.artifacts)
      pure (has_active (get_active_artifact entries (target_key target) now now)))
      s

-- none: the attachment may go on.
unfoldable pub reject_if_artifact_active : String → String → Run (Option Code)
unfolding target_key
reject_if_artifact_active volume node s =
    if artifact_enabled s.settings && not (has_none s.artifacts)
    then (do
      target ← ask (λ o h. o.inspect_target h volume node) (λ _. inspected volume node)
      active ← artifact_is_active target
      pure (if active then some failed_precondition else none))
        s
    else (none, s)

-- `handleHostArtifactConflict`: the call fails, and the conflict is counted if that is on.
unfoldable pub handle_artifact_conflict : String → ArtifactConflict → Run Code
unfolding state_from_conflict
handle_artifact_conflict volume conflict s =
    if artifact_enabled s.settings
    then (do
      c ← gets (λ s. s.settings)
      now ← ask (λ o h. o.now h) (λ _. clock_read)
      let state = state_from_conflict volume conflict
      write ← write_artifact state.key
      entries ← gets (λ s. s.artifacts)
      (λ s. (
        tt {0},
        record s {
          artifacts =
              (mark_artifact_failure entries state (artifact_threshold c) (artifact_ttl c) now
                write).entries;
        },
      ))
      pure failed_precondition)
        s
    else (failed_precondition, s)

-- The loop over the snapshot's entries, in the order of their iteration. A write that fails leaves the
-- entry dropped.
unfoldable pub clear_artifacts : String → HostArtifact.Entries → Run (Unit {0})
clear_artifacts volume [] s = (tt, s)
clear_artifacts volume ((key, state) ∷ rest) s = clear_artifacts volume rest (
    if str_eq (trim_space state.volume_id) (trim_space volume)
    then ((do
      write_artifact key
      (λ s. (tt {0}, record s { artifacts = clear_artifact s.artifacts key })))
        s).1
    else s)

-- `clearHostArtifactQuarantineForVolume`
unfoldable pub clear_artifacts_for_volume : String → Run (Unit {0})
unfolding clear_artifacts
clear_artifacts_for_volume volume s =
    if is_blank volume then (tt, s) else clear_artifacts volume s.artifacts s

-- ===== src/Controller/Drift.antt =====
-- pkg/csi/driver/metadata_drift.go: volumes whose attachment OpenNebula reports inconsistently, with
-- `ConflictingOwnerVMIDs` of pkg/csi/opennebula/opennebula.go.
use storage_provider_openneb.Prelude.{
  String, str_eq, Bool, true, false, not, ◌&&◌, ◌||◌, List, [], ◌∷◌, Option, none, some,
  if◌then◌else◌, some_elem,
}
use storage_provider_openneb.Prelude.Int.{ℤ, pos, ltb_ℤ, eq_ℤ, ◌*ℤ◌, wrap64}
use storage_provider_openneb.Golang.Answer.{Answer, failed, answered}
use storage_provider_openneb.Golang.Clock.{Duration, second, zero_time}
use storage_provider_openneb.Golang.Text.{trim_space, concat}
use storage_provider_openneb.Golang.Cases.{equal_fold, to_upper}
use storage_provider_openneb.Golang.Decimal.{itoa}
use storage_provider_openneb.Golang.Search.{has_prefix}
use storage_provider_openneb.VolumeQuarantine
use storage_provider_openneb.VolumeQuarantine.{QuarantineState, sort_ints, mark_failure, get_active}
use storage_provider_openneb.Controller.Health.{positive_setting}
use storage_provider_openneb.Controller.{
  Settings, Run, ◌>>=◌, ◌>>◌, pure, gets, ask, on_by_default, is_blank, RuntimeContext, ClaimMode,
  read_write_once, read_write_once_pod, read_write_many, read_only_many, Metadata, DiskRecord, Code,
  failed_precondition, context_resolved, clock_read, inspected, config_map_written,
}

-- `hasSingleWriterAccessMode`
unfoldable pub shares : ClaimMode → Bool
shares read_write_many = true
shares read_only_many = true
shares read_write_once = false
shares read_write_once_pod = false

unfoldable pub has_single_writer_access_mode : List ClaimMode → Bool
unfolding shares
has_single_writer_access_mode [] = false
has_single_writer_access_mode (m ∷ ms) = not (some_elem shares (m ∷ ms))

-- `IsSharedFilesystemVolumeID`
unfoldable pub is_shared_filesystem_volume_id : String → Bool
is_shared_filesystem_volume_id volume = has_prefix "cephfs:" (trim_space volume)

-- `runtimeContextEligibleForMaintenance`
unfoldable pub eligible_for_maintenance : RuntimeContext → String → Bool
unfolding has_single_writer_access_mode is_shared_filesystem_volume_id
eligible_for_maintenance context volume =
    equal_fold (trim_space context.backend) "local"
    && (not (is_shared_filesystem_volume_id volume)
        && has_single_writer_access_mode context.access_modes)

abbrev pub is_owner : Metadata → ℤ → Bool
is_owner m vm =
    ltb_ℤ (pos 0) vm && not (ltb_ℤ (pos 0) m.requested_node_id && eq_ℤ vm m.requested_node_id)

abbrev pub add_owner : Metadata → ℤ → List ℤ → List ℤ
add_owner m vm seen = if is_owner m vm && not (some_elem (eq_ℤ vm) seen) then vm ∷ seen else seen

unfoldable pub add_owners : Metadata → List ℤ → List ℤ → List ℤ
add_owners m [] seen = seen
add_owners m (vm ∷ vms) seen = add_owners m vms (add_owner m vm seen)

abbrev pub record_nodes : List DiskRecord → List ℤ
record_nodes [] = []
record_nodes (r ∷ rs) = r.node_id ∷ record_nodes rs

unfoldable pub conflicting_owner_vm_ids : Metadata → List ℤ
unfolding add_owners
conflicting_owner_vm_ids m =
    sort_ints (add_owners m (record_nodes m.disk_records) (add_owners m m.image_vm_ids []))

abbrev pub has_none {ℓ} : {A : Type ℓ} → List A → Bool
has_none [] = true
has_none (x ∷ xs) = false

unfoldable pub image_state_in_use : String → Bool
image_state_in_use state =
    let s = to_upper (trim_space state) in
    str_eq s "USED"
    || (str_eq s "USED_PERS" || (str_eq s "LOCKED_USED" || str_eq s "LOCKED_USED_PERS"))

-- A nil `metadata` is none.
unfoldable pub attachment_metadata_drift_detected : Option Metadata → Bool
unfolding conflicting_owner_vm_ids image_state_in_use
attachment_metadata_drift_detected none = false
attachment_metadata_drift_detected (some m) =
    not (has_none (conflicting_owner_vm_ids m))
    || (not m.attached_to_requested_node
        && (ltb_ℤ (pos 0) m.image_running_vms && image_state_in_use m.image_state))

unfoldable pub attachment_metadata_still_owned : Option Metadata → Bool
attachment_metadata_still_owned none = false
attachment_metadata_still_owned (some m) =
    m.attached_to_requested_node
    || (ltb_ℤ (pos 0) m.image_running_vms
        || (not (has_none m.image_vm_ids) || not (has_none m.disk_records)))

-- `strings.Join` with a separator of one text.
unfoldable pub join : String → List String → String
join sep [] = ""
join sep (x ∷ []) = x
join sep (x ∷ y ∷ ys) = concat x (concat sep (join sep (y ∷ ys)))

abbrev pub itoas : List ℤ → List String
itoas [] = []
itoas (a ∷ as_) = itoa a ∷ itoas as_

abbrev pub field : Bool → String → String → List String → List String
field false label value rest = rest
field true label value rest = concat label value ∷ rest

abbrev pub record_text : DiskRecord → String
record_text r = join "/" (
    field (ltb_ℤ (pos 0) r.node_id) "vm=" (itoa r.node_id) (
      field (not (is_blank r.node_name)) "node=" r.node_name (
        field (ltb_ℤ (pos 0) r.disk_id) "disk=" (itoa r.disk_id) (
          field (not (is_blank r.target)) "target=" r.target
            (field (not (is_blank r.serial)) "serial=" r.serial [])))))

abbrev pub record_texts : List DiskRecord → List String
record_texts [] = []
record_texts (r ∷ rs) = record_text r ∷ record_texts rs

unfoldable pub disk_record_summary : List DiskRecord → String
unfolding join
disk_record_summary rs = join "," (record_texts rs)

abbrev pub first_named : String → String → String
first_named a b = if is_blank a then trim_space b else trim_space a

abbrev pub owners_text : Metadata → String
owners_text m =
    let owners = join "," (itoas (conflicting_owner_vm_ids m)) in
    if str_eq owners "" && ltb_ℤ (pos 0) m.image_running_vms
    then concat "unknown image owner count " (itoa m.image_running_vms)
    else owners

unfoldable pub metadata_drift_message : Option Metadata → String → String → String
unfolding join disk_record_summary conflicting_owner_vm_ids
metadata_drift_message none volume node = join "" (
    "OpenNebula metadata drift detected for local RWO volume " ∷ volume
    ∷ " while publishing to node " ∷ node ∷ [])
metadata_drift_message (some m) volume node =
    let records = disk_record_summary m.disk_records in
    join "" (
      "OpenNebula metadata drift detected for local RWO volume "
      ∷ first_named m.volume_handle volume
      ∷ "/image "
      ∷ itoa m.image_id
      ∷ " while publishing to node "
      ∷ first_named m.requested_node node
      ∷ ": image state="
      ∷ first_named m.image_state "unknown"
      ∷ " runningVMs="
      ∷ itoa m.image_running_vms
      ∷ " ownerVMs="
      ∷ first_named (owners_text m) "none"
      ∷ " diskRecords="
      ∷ (if str_eq records "" then "no matching VM disk records found" else records)
      ∷ "; external OpenNebula repair is required before the driver will attempt another cross-node attach"
      ∷ [])

abbrev pub drift_enabled : Settings → Bool
drift_enabled c = on_by_default c.drift_enabled

abbrev pub drift_threshold : Settings → ℤ
drift_threshold c = positive_setting c.drift_threshold (pos 2)

abbrev pub drift_ttl : Settings → Duration
drift_ttl c = wrap64 (positive_setting c.drift_ttl_seconds (pos 1800) *ℤ pos second)

abbrev pub resolve_context : String → Run (Answer RuntimeContext)
resolve_context volume = ask (λ o h. o.runtime_context h volume) (λ _. context_resolved volume)

abbrev pub is_eligible : Answer RuntimeContext → String → Bool
is_eligible (failed e) volume = false
is_eligible (answered context) volume = eligible_for_maintenance context volume

-- `metadataDriftGuardEligible`
unfoldable pub drift_guard_eligible : String → Run Bool
drift_guard_eligible volume s =
    if s.settings.kube_enabled
    then (do context ← resolve_context volume; pure (is_eligible context volume)) s
    else (false, s)

abbrev pub owners_of : Option Metadata → List ℤ
owners_of none = []
owners_of (some m) = conflicting_owner_vm_ids m

abbrev pub drift_state : String → String → String → String → List ℤ → QuarantineState
drift_state volume node reason message owners = record {
  volume_id = volume;
  reason = reason;
  classification = "opennebula_metadata_drift";
  message = message;
  requested_node = node;
  owner_vm_ids = owners;
  failure_count = pos 0;
  first_observed_at = zero_time;
  last_observed_at = zero_time;
  expires_at = zero_time;
}

abbrev pub write_quarantine : String → Run (Option String)
write_quarantine volume =
    ask (λ o h. o.write h "opennebula-csi-volume-quarantine-state" volume)
      (λ _. config_map_written "opennebula-csi-volume-quarantine-state" volume)

abbrev pub write_unless_blank : String → Run (Option String)
write_unless_blank volume s =
    if is_blank volume then (none, s) else write_quarantine (trim_space volume) s

-- `MarkFailure`, whose error is only logged.
unfoldable pub mark_drift : QuarantineState → Run Code
mark_drift state = do
  c ← gets (λ s. s.settings)
  now ← ask (λ o h. o.now h) (λ _. clock_read)
  write ← write_unless_blank state.volume_id
  entries ← gets (λ s. s.quarantine)
  (λ s. (
    tt {0},
    record s {
      quarantine = (mark_failure entries state (drift_threshold c) (drift_ttl c) now write).entries;
    },
  ))
  pure failed_precondition

-- `volumeQuarantine.Clear`, whose error is ignored.
unfoldable pub clear_quarantine : String → Run (Unit {0})
clear_quarantine volume s =
    if is_blank volume
    then (tt, s)
    else (do
      write_quarantine (trim_space volume)
      (λ s. (tt {0}, record s { quarantine = VolumeQuarantine.clear s.quarantine volume })))
        s

abbrev pub is_quarantined : Option QuarantineState → Bool
is_quarantined none = false
is_quarantined (some q) = true

-- The volume is inspected: an error counts only for a volume in quarantine already.
unfoldable pub judge_metadata :
    String → String → Bool → Answer (Option Metadata) → Run (Option Code)
unfolding mark_drift clear_quarantine attachment_metadata_drift_detected
judge_metadata volume node quarantined (failed e) s =
    (if quarantined then some failed_precondition else none, s)
judge_metadata volume node quarantined (answered m) s =
    if attachment_metadata_drift_detected m
    then (do
      code ← mark_drift (
          drift_state volume node "external_repair_required" (metadata_drift_message m volume node)
            (owners_of m))
      pure (some code))
        s
    else (if quarantined then (none, (clear_quarantine volume s).1) else (none, s))

abbrev pub inspect : String → String → Run (Answer (Option Metadata))
inspect volume node = ask (λ o h. o.inspect h volume node) (λ _. inspected volume node)

abbrev pub reject_eligible : String → String → Run (Option Code)
reject_eligible volume node = do
  now ← ask (λ o h. o.now h) (λ _. clock_read)
  entries ← gets (λ s. s.quarantine)
  m ← inspect volume node
  judge_metadata volume node (is_quarantined (get_active entries volume now now)) m

-- none: the attachment may go on.
unfoldable pub reject_if_metadata_drift : String → String → Run (Option Code)
unfolding drift_guard_eligible judge_metadata
reject_if_metadata_drift volume node s =
    if drift_enabled s.settings
    then (do
      eligible ← drift_guard_eligible volume
      if eligible then reject_eligible volume node else pure none)
        s
    else (none, s)

unfoldable pub judge_detach :
    String → String → String → Answer (Option Metadata) → Run (Option Code)
unfolding mark_drift attachment_metadata_still_owned join
judge_detach volume node cause (failed e) s = (none, s)
judge_detach volume node cause (answered m) s =
    if attachment_metadata_still_owned m
    then (do
      code ← mark_drift (
          drift_state volume node "detach_failed_metadata_drift"
            (join "" (
              metadata_drift_message m volume node
              ∷ "; OpenNebula detach failed while metadata still reports an owner for local RWO volume "
              ∷ volume
              ∷ " on node "
              ∷ node
              ∷ ": "
              ∷ cause
              ∷ []))
            (owners_of m))
      pure (some code))
        s
    else (none, s)

-- The error that a failed detach gets for a volume that OpenNebula still reports as owned.
unfoldable pub detach_metadata_drift_error : String → String → String → Run (Option Code)
unfolding drift_guard_eligible judge_detach
detach_metadata_drift_error volume node cause s =
    if drift_enabled s.settings
    then (do
      eligible ← drift_guard_eligible volume
      if eligible
          then (do m ← inspect volume node; judge_detach volume node cause m)
          else pure none)
        s
    else (none, s)

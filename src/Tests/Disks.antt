-- ===== src/Tests/Disks.antt =====
-- Runs of pkg/csi/opennebula/persistentdisk.go and snapshot.go.
use storage_provider_openneb.Prelude.{
  ℕ, ◌⊎◌, inr, none, not, ◌&&◌, ◌↔◌, suc, ◌*◌, if◌then◌else◌, ◌≡◌, refl, false, true, String, List,
  [], ◌∷◌, some, length, arith, ◌≤◌, ◌-◌,
}
use storage_provider_openneb.Prelude.Int.{
  ℤ, pos, eq_ℤ, ◌/ℤ◌, ◌*ℤ◌, ◌+ℤ◌, ◌-ℤ◌, ◌≤ℤ◌, ◌<ℤ◌, wrap64, negsuc,
}
use storage_provider_openneb.Prelude.Keys.{insert, lookup, int_key, string_key}
use storage_provider_openneb.Golang.Answer.{failed, answered}
use storage_provider_openneb.Golang.Clock.{second}
use storage_provider_openneb.Golang.Text.{trim_space, is_space, fields, concat}
use storage_provider_openneb.Golang.Cases.{equal_fold, to_upper, to_lower, atoi}
use storage_provider_openneb.Datastore.Backend.{get_datastore_backend_profile, validate_datastore}
use storage_provider_openneb.Datastore.Kinds.{
  Schema, normalize_datastore_category, category_word, normalize_allowed_datastore_type,
  infer_datastore_type, get_datastore_attribute, first_known, first_non_empty, known_value,
  is_numeric_datastore_field, normalize_disk_type,
}
use storage_provider_openneb.Datastore.Resolve.{
  resolve_datastores, resolve_datastore_identifier, default_datastore, checked,
  datastore_from_schema, validate_provisioning_datastore_category,
  normalize_allowed_datastore_types, compatible_system_datastores, pool_by_id, resolve_each,
  resolve_one,
}
use storage_provider_openneb.Datastore.Runtime.{new_runtime, flying, record_result}
use storage_provider_openneb.Datastore.Selectors.{ordered, order_datastores}
use storage_provider_openneb.PersistentDisk.Wait.{
  ready, used, wait_for_resource_status, volume_ready,
}
use storage_provider_openneb.PersistentDisk.Provision.{
  size_conversion, World, Selection, VolumeCreateResult, create_volume, provision, after_attempt,
  await_ready, resolve_provisioning_datastores,
}
use storage_provider_openneb.PersistentDisk.Provision.Outcome.{
  Decided, provision-Decided, provision-flying,
}
use storage_provider_openneb.PersistentDisk.Provision.Placement.{Placed, create_volume-Placed}
use storage_provider_openneb.PersistentDisk.Snapshots.{
  VolumeSnapshot, encode_volume_snapshot_id, decode_volume_snapshot_id,
}
use storage_provider_openneb.PersistentDisk.Snapshots.Pages.{decode-encode, follow, follow-all}
use storage_provider_openneb.PersistentDisk.Sizes.{
  Template, csi_requested_size_pairs, verify_csi_requested_size, volume_size, bytes_to_mib_round_up,
  attach_restore_resize_plan,
}
use storage_provider_openneb.PersistentDisk.Sizes.Restore.{
  Reads, persisted-volume_size, resize_plan_restores,
}
use storage_provider_openneb.PersistentDisk.Expand.{
  Calls, expand_volume, find_attached_volume_disk, find_in_machines, find_in_disks, disk_size_bytes,
}
use storage_provider_openneb.PersistentDisk.Expand.Growth.{expand_volume-Enough}
use storage_provider_openneb.PersistentDisk.Hotplug.{
  Round, reached, wait_for_attach_state, wait_for_detach_state, wait_rounds,
}
use storage_provider_openneb.PersistentDisk.Hotplug.Rounds.{Ends, most_retries, wait_state-Ends}
use storage_provider_openneb.Golang.Search.{cut_prefix}
use storage_provider_openneb.Golang.Decimal.{chr}
use storage_provider_openneb.PersistentDisk.Targets.{
  next_available_disk_target, first_free, linux_disk_target_index, read_letters, linux_disk_letters,
  letters_from,
}
use storage_provider_openneb.PersistentDisk.Targets.Letters.{Taken, next_target-free}
use storage_provider_openneb.PersistentDisk.Delete.{
  delete_volume, GoneAtOnce, Missing, InUse, delete_volume_iff,
}
use storage_provider_openneb.Tests.Datastores.{ssd, hdd, whole, pool, default_ds}

-- Datastore 100 is full, although it says that it has room; 101 takes the image.
abbrev world : World
world = record {
  create = λ id.
      if eq_ℤ id (pos 100)
      then failed "[ImageAllocate] Not enough space in datastore"
      else answered (pos 7);
  infos = λ image. answered (answered used) ∷ answered (answered ready) ∷ [];
  time = λ tried. length tried * second;
}

provision-Decided_example : Decided world (pos 500) [] [] new_runtime (ssd ∷ hdd ∷ [])
provision-Decided_example = provision-Decided world (pos 500) new_runtime (ssd ∷ hdd ∷ [])

provision-flying_example :
    flying (provision world (pos 500) [] [] new_runtime (ssd ∷ hdd ∷ [])).0 (pos 100)
    ≡ flying new_runtime (pos 100)
provision-flying_example =
    provision-flying world (pos 500) [] [] new_runtime (ssd ∷ hdd ∷ []) (pos 100)

decode-encode_example :
    decode_volume_snapshot_id (encode_volume_snapshot_id (pos 42) (negsuc 0))
    ≡ some (pos 42, negsuc 0)
decode-encode_example = decode-encode (pos 42) (negsuc 0) (omega arith) (omega arith)

abbrev snapshots : List VolumeSnapshot
snapshots =
    record {
      snapshot_id = "image-snapshot:1:0";
      source_volume_id = "a";
      creation_time = pos 10;
      size_bytes = pos 1048576;
    }
    ∷ record {
      snapshot_id = "image-snapshot:1:1";
      source_volume_id = "a";
      creation_time = pos 20;
      size_bytes = pos 1048576;
    }
    ∷ record {
      snapshot_id = "image-snapshot:2:0";
      source_volume_id = "b";
      creation_time = pos 30;
      size_bytes = pos 1048576;
    }
    ∷ []

follow-all_example : follow (suc (length snapshots)) snapshots (pos 2) "" ≡ some snapshots
follow-all_example = follow-all snapshots (pos 2) (omega arith)

abbrev willing : World
willing = record world { create = λ id. answered (pos 7) }

abbrev selection : Selection
selection = record { identifiers = "default" ∷ []; allowed_types = "local" ∷ []; policy = ordered }

abbrev placed : VolumeCreateResult
placed = record {
  datastore = default_ds;
  capacity_bytes = pos 3145728;
  fallback_used = false;
  attempted_datastore_ids = pos 100 ∷ [];
}

create_volume-Placed_example :
    (schemas : List Schema) × (answered pool ≡ answered schemas)
    × Placed willing schemas ("local" ∷ []) (pos 3145728) placed
unfolding resolve_datastores resolve_datastore_identifier trim_space is_space equal_fold
    default_datastore checked datastore_from_schema validate_provisioning_datastore_category
    normalize_datastore_category category_word to_upper to_lower atoi
    normalize_allowed_datastore_types normalize_allowed_datastore_type infer_datastore_type
    get_datastore_attribute get_datastore_backend_profile validate_datastore first_known
    first_non_empty known_value is_numeric_datastore_field normalize_disk_type
    compatible_system_datastores pool_by_id resolve_each resolve_one fields wrap64 ◌*ℤ◌ insert
    lookup create_volume resolve_provisioning_datastores order_datastores provision await_ready
    wait_for_resource_status volume_ready ◌/ℤ◌
create_volume-Placed_example =
    create_volume-Placed whole (λ mb. willing) (answered pool) second selection "data" (pos 3145728)
      new_runtime (record_result (after_attempt new_runtime (pos 100)) (pos 100) true (1 * second))
      placed refl

abbrev template_pairs : List (String × String)
template_pairs = csi_requested_size_pairs (pos 5000000) (pos 5) "2026-01-02T03:04:05Z"

-- A template with nothing but these pairs.
abbrev template : Template
template = record {
  get_strs = λ tag. elim (lookup tag template_pairs) [ none ↦ [] | some v ↦ v ∷ [] ];
  get_str = λ tag. lookup tag template_pairs;
}

template-Reads : Reads template template_pairs
template-Reads = record { one = λ tag value h. h; all = λ tag value h. rw (template, h) refl }

persisted-volume_size_example :
    let own = wrap64 (pos 3 *ℤ pos 1048576) in
    (verify_csi_requested_size template (pos 5000000) (pos 5) ≡ none)
    × ((size : ℤ) × (volume_size (pos 3) template ≡ inr size)
        × (own ≤ℤ size)
        × (pos 5000000 ≤ℤ size)
        × ((size ≡ own) ⊎ (size ≡ pos 5000000)))
unfolding trim_space is_space
persisted-volume_size_example =
    persisted-volume_size 5000000 5 "2026-01-02T03:04:05Z" template (pos 3) (omega arith)
      (omega arith) (omega arith) refl template-Reads

resize_plan_restores_example :
    ((attach_restore_resize_plan (pos 3145728) (pos 5000000) ≡ (false, pos 0))
      × ((pos 5000000 ≤ℤ pos 0) ⊎ (pos 5000000 ≤ℤ pos 3145728)))
    ⊎ ((m : ℕ) × (attach_restore_resize_plan (pos 3145728) (pos 5000000) ≡ (true, pos m))
        × (pos 3145728 <ℤ pos 5000000)
        × (pos 5000000 ≤ℤ pos (m * 1048576))
        × (pos ((m - 1) * 1048576) <ℤ pos 5000000)
        × (wrap64 (pos m *ℤ size_conversion) ≡ pos (m * 1048576))
        × (attach_restore_resize_plan (pos (m * 1048576)) (pos 5000000) ≡ (false, pos 0)))
resize_plan_restores_example = resize_plan_restores (pos 3145728) (pos 5000000) (omega arith)

-- The node is busy in the first round, a retry is accepted in the second, and the third sees the disk.
abbrev busy : Round
busy = record { observed = answered (false, false); retry = none }

abbrev idle_node : Round
idle_node = record { observed = answered (false, true); retry = none }

abbrev in_place : Round
in_place = record { observed = answered (true, true); retry = none }

attach_run : wait_for_attach_state true busy (idle_node ∷ in_place ∷ []) ≡ (reached, 1)
unfolding wait_for_attach_state wait_rounds
attach_run = refl

wait_state-Ends_example :
    (Ends
        (λ attached ready. attached && ready)
        (λ attached ready. ready && not attached)
        true
        busy
        (idle_node ∷ in_place ∷ [])
        (wait_for_attach_state true busy (idle_node ∷ in_place ∷ [])).0
      × ((wait_for_attach_state true busy (idle_node ∷ in_place ∷ [])).1 ≤ most_retries true))
    × (Ends
          (λ attached ready. not attached)
          (λ attached ready. ready && attached)
          true
          busy
          (idle_node ∷ in_place ∷ [])
          (wait_for_detach_state true busy (idle_node ∷ in_place ∷ [])).0
        × ((wait_for_detach_state true busy (idle_node ∷ in_place ∷ [])).1 ≤ most_retries true))
wait_state-Ends_example = wait_state-Ends true busy (idle_node ∷ in_place ∷ [])

next_target_run :
    next_available_disk_target (some "sda" ∷ some " vdb" ∷ some "sdb" ∷ []) none ≡ "sdc"
unfolding next_available_disk_target first_free linux_disk_target_index read_letters
    linux_disk_letters letters_from chr cut_prefix concat trim_space is_space wrap64 ◌*ℤ◌ ◌+ℤ◌ ◌-ℤ◌
next_target_run = refl

next_target-free_example :
    (next_available_disk_target (some "sda" ∷ none ∷ []) none ≡ "")
    ⊎ (Taken (next_available_disk_target (some "sda" ∷ none ∷ []) none) (some "sda" ∷ none ∷ [])
        → ⊥)
next_target-free_example = next_target-free (some "sda" ∷ none ∷ []) none

delete_volume_iff_example :
    let before = answered (answered ready) in
    (delete_volume (answered (pos 7)) before (failed "no image" ∷ []) ≡ none) ↔ (
      Missing (answered (pos 7))
      ⊎ (¬ Missing (answered (pos 7)) × ¬ InUse before × GoneAtOnce (failed "no image" ∷ [])))
delete_volume_iff_example =
    delete_volume_iff (answered (pos 7)) (answered (answered ready)) (failed "no image" ∷ [])

-- The resize fails, but the disk has the size when it is looked at.
abbrev calls : Calls
calls = record {
  exists = answered (pos 7, pos 1048576);
  machines = answered (
      record {
        id = pos 3;
        disks = record { image_id = some (pos 7); disk_id = some "2"; size_mb = some (pos 1) } ∷ [];
      }
      ∷ []);
  resize = λ vm disk mb. some "timeout";
  size_after_error = answered (pos 3145728);
  sizes = [];
  persist = none;
}

expand_volume-Enough_example : pos 2000000 ≤ℤ pos 3145728
unfolding expand_volume find_attached_volume_disk find_in_machines find_in_disks disk_size_bytes
    wrap64 ◌*ℤ◌ bytes_to_mib_round_up atoi
expand_volume-Enough_example = expand_volume-Enough calls (pos 2000000) false (pos 3145728) refl

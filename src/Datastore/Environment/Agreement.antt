-- ===== src/Datastore/Environment/Agreement.antt =====
-- What holds of the datastores of an attachment that passes inspectAttachmentEnvironment of
-- pkg/csi/opennebula/persistentdisk.go.
use storage_provider_openneb.Prelude.{◌≡◌, String, str_eq, true, false, List, none, some, ◌⊎◌, All}
use storage_provider_openneb.Prelude.Int.{ℤ, pos, ◌<ℤ◌, ◌≤ℤ◌}
use storage_provider_openneb.Golang.Text.{trim_space}
use storage_provider_openneb.Golang.Cases.{to_lower}
use storage_provider_openneb.Datastore.Kinds.{Schema, get_datastore_attribute}
use storage_provider_openneb.Datastore.Resolve.{datastore_from_schema}
use storage_provider_openneb.Datastore.Backend.{validate_ceph_image_datastore}
use storage_provider_openneb.Datastore.Environment.Pairing.{Compatible, Found, Drives}
use storage_provider_openneb.Datastore.Environment.{
  validate_ceph_system_datastore, compared_keys, optional_keys, ceph_mode, ssh_mode,
  resolve_deployment_mode, HistoryRecord, latest_history_record, Report,
  validate_compatible_system_datastore,
}

-- The two datastores have the same value of the attribute.
abbrev pub Same : Schema → Schema → String → Type 0
Same image system k = get_datastore_attribute image k ≡ get_datastore_attribute system k

-- The same value, where both have one.
abbrev pub SameIfGiven : Schema → Schema → String → Type 0
SameIfGiven image system k =
    ((get_datastore_attribute image k ≡ "") ⊎ (get_datastore_attribute system k ≡ ""))
    ⊎ Same image system k

-- The latest record among those that name a datastore.
abbrev pub Newest : HistoryRecord → List HistoryRecord → Type 0
Newest l rs = All (λ (r : HistoryRecord). (r.ds_id <ℤ pos 0) ⊎ (r.seq ≤ℤ l.seq)) rs

-- How the datastores of a ceph image and of the machine fit together.
abbrev pub Fits : Schema → Schema → Report → Type 0
Fits image system r =
    (validate_ceph_image_datastore image ≡ none)
    × (((r.deployment_mode ≡ ceph_mode)
          × (validate_ceph_system_datastore system ≡ none)
          × All (Same image system) compared_keys
          × All (SameIfGiven image system) optional_keys)
        ⊎ ((r.deployment_mode ≡ ssh_mode) × (r.warned ≡ true)))

-- The datastores of a report: the image's, and that of the latest record of the machine's history.
pub record Suitable (pool : List Schema) (id : ℤ) (records : List HistoryRecord) (r : Report)
    : Type 0 where
  pub image : Schema
  pub system : Schema
  pub latest : HistoryRecord
  pub image_found : Found pool id image
  pub latest_found : latest_history_record none records ≡ some latest
  pub newest : Newest latest records
  pub system_found : Found pool latest.ds_id system
  pub reported : r.image_datastore ≡ datastore_from_schema image
  pub mode : r.deployment_mode ≡ resolve_deployment_mode system
  pub driven : Drives (to_lower (trim_space system.tm_mad)) r.deployment_mode
  pub compatible : Compatible image latest.ds_id
  pub ceph_fits : (str_eq r.image_datastore.type "ceph" ≡ false) ⊎ Fits image system r

-- What a report keeps of the one that the checks start from.
abbrev Keeps : Report → Report → Type 0
Keeps r s = (r.image_datastore ≡ s.image_datastore) × (r.deployment_mode ≡ s.deployment_mode)

-- What inspect_datastores returns.
abbrev Checked : Schema → Schema → ℤ → Report → Type 0
Checked image system id r =
    (r.image_datastore ≡ datastore_from_schema image)
    × (r.deployment_mode ≡ resolve_deployment_mode system)
    × (validate_compatible_system_datastore image id ≡ none)
    × ((str_eq r.image_datastore.type "ceph" ≡ false) ⊎ Fits image system r)

-- ===== src/Datastore/Backend.antt =====
-- The datastore backends of pkg/csi/opennebula/backend.go: what each asks of a datastore, and which
-- access modes it can serve.
use storage_provider_openneb.Prelude.{
  String, str_eq, Bool, true, false, not, List, [], ◌∷◌, Option, none, some, if◌then◌else◌,
}
use storage_provider_openneb.Prelude.Int.{ℤ}
use storage_provider_openneb.Golang.Text.{trim_space, fields}
use storage_provider_openneb.Golang.Cases.{equal_fold}
use storage_provider_openneb.Datastore.Kinds.{
  Schema, get_datastore_attribute, normalize_disk_type, normalize_datastore_category,
  normalize_allowed_datastore_type,
}

-- `datastoreConfigError`, by the message it carries.
pub data ConfigError : Type 0 where
  no_datastores no_eligible empty_identifier no_default : ConfigError
  bad_identifier : String → ConfigError
  unknown_datastore : ℤ → ConfigError
  not_enabled : String → ConfigError
  wrong_category : ℤ → ConfigError
  type_not_allowed : ℤ → String → ConfigError
  unsupported_backend unsupported_policy : String → ConfigError
  needs_share_backend needs_file_category needs_monitor : ℤ → ConfigError
  needs_ds_mad_ceph needs_tm_mad_ceph needs_disk_type_rbd : ℤ → ConfigError
  missing_attribute : ℤ → String → ConfigError

abbrev pub Check : Type 0
Check = Option ConfigError

-- The first error of two checks.
infixl 5 ◌or_next◌
abbrev pub ◌or_next◌ : Check → Check → Check
some e or_next k = some e
none or_next k = k

abbrev pub fail_if : Bool → ConfigError → Check
fail_if b e = if b then some e else none

unfoldable pub require_datastore_attributes : Schema → List String → Check
require_datastore_attributes ds [] = none
require_datastore_attributes ds (k ∷ ks) =
    fail_if (str_eq (get_datastore_attribute ds k) "") (missing_attribute ds.id k)
    or_next require_datastore_attributes ds ks

abbrev pub ceph_required_attrs : List String
ceph_required_attrs = "POOL_NAME" ∷ "CEPH_HOST" ∷ "CEPH_USER" ∷ "CEPH_SECRET" ∷ "BRIDGE_LIST" ∷ []

unfoldable pub validate_ceph_image_datastore : Schema → Check
validate_ceph_image_datastore ds =
    fail_if (not (equal_fold (trim_space ds.ds_mad) "ceph")) (needs_ds_mad_ceph ds.id)
    or_next fail_if (not (equal_fold (trim_space ds.tm_mad) "ceph")) (needs_tm_mad_ceph ds.id)
    or_next fail_if (not (str_eq (normalize_disk_type ds) "RBD")) (needs_disk_type_rbd ds.id)
    or_next require_datastore_attributes ds ceph_required_attrs

-- `normalizeMonitorList`
abbrev pub monitors : Schema → List String
monitors ds = fields (trim_space (get_datastore_attribute ds "CEPH_HOST"))

abbrev pub is_nil {ℓ} : {A : Type ℓ} → List A → Bool
is_nil [] = true
is_nil (x ∷ xs) = false

unfoldable pub validate_ceph_fs_datastore : Schema → Check
validate_ceph_fs_datastore ds =
    fail_if
      (not (
        equal_fold (trim_space (get_datastore_attribute ds "OPENNEBULA_CSI_SHARE_BACKEND"))
          "cephfs"))
      (needs_share_backend ds.id)
    or_next fail_if (not (equal_fold (normalize_datastore_category ds) "FILE"))
        (needs_file_category ds.id)
    or_next require_datastore_attributes ds (
        "OPENNEBULA_CSI_CEPHFS_FS_NAME" ∷ "OPENNEBULA_CSI_CEPHFS_ROOT_PATH"
        ∷ "OPENNEBULA_CSI_CEPHFS_SUBVOLUME_GROUP" ∷ "CEPH_HOST" ∷ [])
    or_next fail_if (is_nil (monitors ds)) (needs_monitor ds.id)

-- The backends that `GetDatastoreBackendProfile` knows.
pub data Backend : Type 0 where
  local ceph ceph_fs : Backend

abbrev pub backend_name : Backend → String
backend_name local = "local"
backend_name ceph = "ceph"
backend_name ceph_fs = "cephfs"

unfoldable pub get_datastore_backend_profile : String → Option Backend
get_datastore_backend_profile typ =
    let t = normalize_allowed_datastore_type typ in
    if str_eq t "local"
    then some local
    else (if str_eq t "ceph" then some ceph else (if str_eq t "cephfs" then some ceph_fs else none))

-- `ValidateDatastore` of the backend's profile.
unfoldable pub validate_datastore : Backend → Schema → Check
unfolding validate_ceph_image_datastore validate_ceph_fs_datastore
validate_datastore local ds = none
validate_datastore ceph ds = validate_ceph_image_datastore ds
validate_datastore ceph_fs ds = validate_ceph_fs_datastore ds

-- `BackendCapabilityProfile`
pub record Capabilities : Type 0 where
  pub backend : Backend
  pub filesystem_rwo : Bool
  pub filesystem_rox : Bool
  pub filesystem_rwx : Bool
  pub block_rwo : Bool
  pub block_rox : Bool
  pub block_rwx : Bool

abbrev pub disk_capabilities : Backend → Capabilities
disk_capabilities b = record {
  backend = b;
  filesystem_rwo = true;
  filesystem_rox = true;
  filesystem_rwx = false;
  block_rwo = true;
  block_rox = true;
  block_rwx = false;
}

abbrev pub ceph_fs_capabilities : Capabilities
ceph_fs_capabilities = record {
  backend = ceph_fs;
  filesystem_rwo = true;
  filesystem_rox = true;
  filesystem_rwx = true;
  block_rwo = false;
  block_rox = false;
  block_rwx = false;
}

unfoldable pub get_backend_capability_profile : String → Capabilities
get_backend_capability_profile backend =
    let t = normalize_allowed_datastore_type backend in
    if str_eq t "ceph"
    then disk_capabilities ceph
    else (if str_eq t "cephfs" then ceph_fs_capabilities else disk_capabilities local)

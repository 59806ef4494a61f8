-- ===== src/VolumeAccess.antt =====
-- pkg/csi/driver/volume_access.go, with the profiles of pkg/csi/driver/controllerserver.go: whether a
-- volume is a disk or a shared file system.
pub mod Checks
use storage_provider_openneb.Prelude.{
  ℕ, String, str_eq, Bool, true, false, not, ◌&&◌, ◌||◌, List, [], ◌∷◌, Option, none, some,
  if◌then◌else◌, or_else, some_elem, every_elem,
}
use storage_provider_openneb.Prelude.Keys.{lookup, string_key}
use storage_provider_openneb.Golang.Text.{trim_space}
use storage_provider_openneb.Golang.Cases.{equal_fold}
use storage_provider_openneb.Datastore.Backend.{
  Backend, Capabilities, backend_name, get_backend_capability_profile,
}
use storage_provider_openneb.Datastore.Resolve.{Datastore}

-- The access modes of the CSI specification.
pub data Mode : Type 0 where
  unknown single_node_writer single_node_reader_only multi_node_reader_only : Mode
  multi_node_single_writer multi_node_multi_writer single_node_single_writer : Mode
  single_node_multi_writer : Mode

-- `csi.VolumeCapability`: its access mode, if there is one, and whether its access type is a block.
pub record Capability : Type 0 where
  pub mode : Option Mode
  pub block : Bool

-- `VolumeAccessModel`
pub data Model : Type 0 where
  disk shared_fs : Model

pub data AccessError : Type 0 where
  missing_mode mixes_datastores not_ceph_fs : AccessError
  no_shared_block unsupported_mode : Mode → AccessError
  unsupported_rwx : Mode → List String → AccessError

-- A Go result `(VolumeAccessModel, error)`.
pub data Access : Type 0 where
  accepted : Model → Access
  rejected : AccessError → Access

unfoldable pub is_shared_filesystem_access_mode : Mode → Bool
is_shared_filesystem_access_mode multi_node_multi_writer = true
is_shared_filesystem_access_mode multi_node_single_writer = true
is_shared_filesystem_access_mode _ = false

-- `supportedAccessModes`
unfoldable pub is_supported : Mode → Bool
is_supported multi_node_reader_only = true
is_supported single_node_writer = true
is_supported single_node_reader_only = true
is_supported _ = false

abbrev pub param : List (String × String) → String → String
param params key = trim_space (or_else (lookup key params) "")

unfoldable pub storage_class_requests_shared_filesystem : List (String × String) → Bool
storage_class_requests_shared_filesystem params =
    not (str_eq (param params "sharedFilesystemPath") "")
    || not (str_eq (param params "sharedFilesystemSubvolumeGroup") "")
    || equal_fold (param params "driver") "cephfs"

-- The test of a candidate in the three functions that follow.
unfoldable pub has_backend : String → Datastore → Bool
has_backend backend d = equal_fold d.backend backend || equal_fold d.type backend

unfoldable pub any_candidate_backend : List Datastore → String → Bool
any_candidate_backend candidates backend = some_elem (has_backend backend) candidates

abbrev pub is_empty {ℓ} : {A : Type ℓ} → List A → Bool
is_empty [] = true
is_empty (x ∷ xs) = false

unfoldable pub all_candidates_backend : List Datastore → String → Bool
all_candidates_backend candidates backend =
    not (is_empty candidates) && every_elem (has_backend backend) candidates

-- The loop of `validateNoMixedSharedFilesystemCandidates`, and its test; none is no error.
unfoldable pub validate_no_mixed : Bool → Bool → List Datastore → Option AccessError
validate_no_mixed has_ceph_fs has_other [] =
    if has_ceph_fs && has_other then some mixes_datastores else none
validate_no_mixed has_ceph_fs has_other (d ∷ ds) =
    let is_ceph = has_backend "cephfs" d in
    validate_no_mixed (is_ceph || has_ceph_fs) (not is_ceph || has_other) ds

unfoldable pub candidate_backends : List Datastore → List String
candidate_backends [] = []
candidate_backends (d ∷ ds) =
    let rest = candidate_backends ds in
    let backend =
      if str_eq (trim_space d.backend) "" then trim_space d.type else trim_space d.backend in
    if str_eq backend "" then rest else backend ∷ rest

-- The loop of `backendCapabilityProfiles`, with the names seen.
unfoldable pub profiles_of : List String → List String → List Capabilities
profiles_of seen [] = []
profiles_of seen (b ∷ bs) =
    let p = get_backend_capability_profile b in
    let name = backend_name p.backend in
    let later = profiles_of seen bs in
    let first = p ∷ profiles_of (name ∷ seen) bs in
    if some_elem (str_eq name) seen then later else first

unfoldable pub backend_capability_profiles : List String → List Capabilities
backend_capability_profiles backends =
    if is_empty backends
    then profiles_of [] ("local" ∷ "ceph" ∷ "cephfs" ∷ [])
    else profiles_of [] backends

abbrev pub without_rwx : List Capabilities → List String
without_rwx [] = []
without_rwx (p ∷ ps) =
    if p.filesystem_rwx then without_rwx ps else backend_name p.backend ∷ without_rwx ps

unfoldable pub unsupported_filesystem_rwx_backends : List Capabilities → List String
unsupported_filesystem_rwx_backends profiles =
    if is_empty (without_rwx profiles) then "configured backends" ∷ [] else without_rwx profiles

abbrev pub unsupported_rwx_error : Mode → List Capabilities → AccessError
unsupported_rwx_error mode profiles =
    unsupported_rwx mode (unsupported_filesystem_rwx_backends profiles)

-- A capability with a shared mode and a filesystem.
unfoldable pub resolve_shared : Mode → List String → List Datastore → Access
resolve_shared mode allowed candidates =
    let profiles = backend_capability_profiles allowed in
    if any_candidate_backend candidates "cephfs" || is_empty candidates
    then (if some_elem (λ p. p.filesystem_rwx) profiles
        then accepted shared_fs
        else rejected (unsupported_rwx_error mode profiles))
    else rejected
        (unsupported_rwx_error mode (backend_capability_profiles (candidate_backends candidates)))

-- A capability with another mode and a filesystem.
unfoldable pub resolve_other : List (String × String) → List Datastore → Access
resolve_other params candidates =
    if storage_class_requests_shared_filesystem params || all_candidates_backend candidates "cephfs"
    then (if not (any_candidate_backend candidates "cephfs") && not (is_empty candidates)
        then rejected not_ceph_fs
        else accepted shared_fs)
    else accepted disk

unfoldable pub resolve_mode :
    Capability → Mode → List String → List (String × String) → List Datastore → Access
unfolding resolve_shared resolve_other
resolve_mode capability mode allowed params candidates =
    if capability.block
    then (if is_shared_filesystem_access_mode mode
        then rejected (no_shared_block mode)
        else accepted disk)
    else (if is_shared_filesystem_access_mode mode
        then resolve_shared mode allowed candidates
        else resolve_other params candidates)

-- `none` is a nil capability.
unfoldable pub resolve_volume_access_model :
    Option Capability → List String → List (String × String) → List Datastore → Access
unfolding resolve_mode validate_no_mixed
resolve_volume_access_model none allowed params candidates = rejected missing_mode
resolve_volume_access_model (some c) allowed params candidates = elim c.mode [
  | none ↦ rejected missing_mode
  | some mode ↦ elim (validate_no_mixed false false candidates) [
    | some e ↦ rejected e
    | none ↦ resolve_mode c mode allowed params candidates
  ]
]

abbrev pub error_of : Access → Option AccessError
error_of (accepted m) = none
error_of (rejected e) = some e

-- What the loop of `validateAccessMode` finds at one capability.
unfoldable pub validate_one : List String → Capability → Option AccessError
validate_one allowed c = elim c.mode [
  | none ↦ some missing_mode
  | some mode ↦
      if is_supported mode
      then none
      else (if is_shared_filesystem_access_mode mode
          then error_of (resolve_volume_access_model (some c) allowed [] [])
          else some (unsupported_mode mode))
]

unfoldable pub validate_access_mode : List Capability → List String → Option AccessError
validate_access_mode [] allowed = none
validate_access_mode (c ∷ cs) allowed = elim (validate_one allowed c) [
  | some e ↦ some e
  | none ↦ validate_access_mode cs allowed
]

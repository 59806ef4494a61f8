-- ===== src/Tests/Access.antt =====
-- Runs of pkg/csi/driver/volume_access.go.
use storage_provider_openneb.Prelude.{
  ◌≡◌, refl, true, false, not, [], ◌∷◌, some, All, every_elem, is_some,
}
use storage_provider_openneb.Prelude.Int.{pos}
use storage_provider_openneb.Prelude.Keys.{lookup, string_key}
use storage_provider_openneb.Golang.Text.{trim_space, is_space}
use storage_provider_openneb.Golang.Cases.{to_lower, equal_fold}
use storage_provider_openneb.Datastore.Backend.{get_backend_capability_profile}
use storage_provider_openneb.Datastore.Kinds.{normalize_allowed_datastore_type}
use storage_provider_openneb.Datastore.Resolve.{Datastore}
use storage_provider_openneb.VolumeAccess.{
  Capability, multi_node_multi_writer, single_node_writer, has_backend, any_candidate_backend,
  validate_no_mixed, backend_capability_profiles, profiles_of, is_shared_filesystem_access_mode,
  resolve_shared, resolve_mode, resolve_volume_access_model, validate_access_mode,
}
use storage_provider_openneb.VolumeAccess.Checks.{
  acceptable, resolve-shared_fs, validate_access_mode-acceptable,
}

abbrev many_writers : Capability
many_writers = record { mode = some multi_node_multi_writer; block = false }

abbrev one_writer : Capability
one_writer = record { mode = some single_node_writer; block = true }

abbrev ceph_files : Datastore
ceph_files = record {
  id = pos 110;
  name = "shared";
  category = "FILE";
  type = "cephfs";
  backend = "CephFS";
  ds_mad = "fs";
  tm_mad = "shared";
  disk_type = "";
  free_bytes = pos 1000;
  total_bytes = pos 5000;
  enabled = true;
  compatible_system_datastores = [];
}

resolve-shared_fs_example :
    (many_writers.block ≡ false) × All (λ d. has_backend "cephfs" d ≡ true) (ceph_files ∷ [])
unfolding resolve_volume_access_model resolve_mode resolve_shared validate_no_mixed has_backend
    any_candidate_backend is_shared_filesystem_access_mode backend_capability_profiles profiles_of
    get_backend_capability_profile normalize_allowed_datastore_type trim_space is_space to_lower
    equal_fold lookup
resolve-shared_fs_example = resolve-shared_fs many_writers ("cephfs" ∷ []) [] (ceph_files ∷ []) refl

validate_access_mode-acceptable_example :
    is_some (validate_access_mode (many_writers ∷ one_writer ∷ []) ("local" ∷ "cephfs" ∷ []))
    ≡ not (every_elem (acceptable ("local" ∷ "cephfs" ∷ [])) (many_writers ∷ one_writer ∷ []))
validate_access_mode-acceptable_example =
    validate_access_mode-acceptable (many_writers ∷ one_writer ∷ []) ("local" ∷ "cephfs" ∷ [])

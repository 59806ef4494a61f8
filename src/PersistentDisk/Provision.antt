-- ===== src/PersistentDisk/Provision.antt =====
-- `CreateVolume` and `CloneVolume` of pkg/csi/opennebula/persistentdisk.go. The calls of the client are
-- arguments: what the creation of an image on a datastore and the checks of the new image return.
pub mod Outcome
pub mod Placement
use storage_provider_openneb.Prelude.{
  ℕ, ◌≡◌, String, str_eq, Bool, true, false, not, List, [], ◌∷◌, ◌++◌, map, Option, none, some, leb,
  if◌then◌else◌, length, ltb,
}
use storage_provider_openneb.Prelude.Int.{ℤ, pos, negsuc, ltb_ℤ, leb_ℤ, eq_ℤ, ◌/ℤ◌, ◌*ℤ◌, wrap64}
use storage_provider_openneb.Golang.Answer.{Answer, failed, answered}
use storage_provider_openneb.Golang.Clock.{Time}
use storage_provider_openneb.Golang.Text.{trim_space}
use storage_provider_openneb.Golang.Cases.{to_lower}
use storage_provider_openneb.Golang.Search.{contains_any}
use storage_provider_openneb.Datastore.Kinds.{Schema}
use storage_provider_openneb.Datastore.Backend.{ConfigError}
use storage_provider_openneb.Datastore.Resolve.{
  Datastore, Result, ok, err, ◌>>=◌, resolve_datastores,
}
use storage_provider_openneb.Datastore.Runtime.{Runtime, begin_attempt, end_attempt, record_result}
use storage_provider_openneb.Datastore.Autopilot.{Float64}
use storage_provider_openneb.Datastore.Selectors.{Policy, order_datastores}
use storage_provider_openneb.PersistentDisk.Wait.{
  WaitError, wait_for_resource_status, Info, volume_ready,
}

-- `sizeConversion`
abbrev pub size_conversion : ℤ
size_conversion = pos 1048576

unfoldable pub is_insufficient_capacity_error : String → Bool
is_insufficient_capacity_error e = contains_any (to_lower e) (
    "not enough space" ∷ "not enough free space" ∷ "insufficient space" ∷ "insufficient capacity"
    ∷ "no space left" ∷ "not enough capacity" ∷ [])

pub record VolumeCreateResult : Type 0 where
  pub datastore : Datastore
  pub capacity_bytes : ℤ
  pub fallback_used : Bool
  pub attempted_datastore_ids : List ℤ

pub data ProvisionError : Type 0 where
  empty_name empty_source invalid_size : ProvisionError
  pool_failed : String → ProvisionError
  rejected : ConfigError → ProvisionError
  source_failed : String → ProvisionError
  create_failed : ℤ → String → ProvisionError
  not_ready : ℤ → WaitError → ProvisionError
  -- `datastoreCapacityError`, with the datastores of its message.
  no_capacity : List ℤ → ProvisionError

pub data Provisioned : Type 0 where
  created : VolumeCreateResult → Provisioned
  refused : ProvisionError → Provisioned

-- What the world answers: the new image's ID on a datastore, the checks of that image before the
-- timeout, and the time after the attempts so far.
pub record World : Type 0 where
  pub create : ℤ → Answer ℤ
  pub infos : ℤ → List Info
  pub time : List ℤ → Time

-- The rest of a round, when the call returned an image.
unfoldable pub await_ready : World → ℤ → List ℤ → Datastore → ℤ → Provisioned
await_ready w size attempted d image =
    elim (wait_for_resource_status (map volume_ready (w.infos image))) [
      | some e ↦ refused (not_ready image e)
      | none ↦ created (record {
        datastore = d;
        capacity_bytes = size;
        fallback_used = ltb 1 (length attempted);
        attempted_datastore_ids = attempted;
      })
    ]

-- `finishAttempt := beginDatastoreAttempt(id)`, the call, `finishAttempt()`.
abbrev pub after_attempt : Runtime → ℤ → Runtime
after_attempt r id = end_attempt (begin_attempt r id) id

-- The loop over the candidates.
unfoldable pub provision :
    World → ℤ → List ℤ → List ℤ → Runtime → List Datastore → Runtime × Provisioned
provision w size attempted lacking r [] = (r, refused (no_capacity lacking))
provision w size attempted lacking r (d ∷ ds) =
    let tried = attempted ++ (d.id ∷ []) in
    let now = w.time tried in
    let r1 = after_attempt r d.id in
    let small =
      provision w size tried (lacking ++ (d.id ∷ [])) (record_result r d.id false now) ds in
    let full =
      provision w size tried (lacking ++ (d.id ∷ [])) (record_result r1 d.id false now) ds in
    if ltb_ℤ d.free_bytes size then small else elim (w.create d.id) [
      | failed e ↦
          if is_insufficient_capacity_error e
          then full
          else (record_result r1 d.id false now, refused (create_failed d.id e))
      | answered image ↦ (record_result r1 d.id true now, await_ready w size tried d image)
    ]

-- What the provider reads when it resolves datastores, and the `DatastoreSelectionConfig`.
pub record Selection : Type 0 where
  pub identifiers : List String
  pub allowed_types : List String
  pub policy : Policy

abbrev pub offer :
    Result (Runtime × List Datastore) → Runtime → Runtime × Answer (Result (List Datastore))
offer (err e) r = (r, answered (err e))
offer (ok (r1, ordered)) r = (r1, answered (ok ordered))

abbrev pub order_resolved :
    Float64
    → Time
    → Policy
    → Runtime
    → Result (List Datastore)
    → Runtime × Answer (Result (List Datastore))
order_resolved f now policy r (err e) = (r, answered (err e))
order_resolved f now policy r (ok resolved) = offer (order_datastores f r now resolved policy) r

-- `resolveProvisioningDatastores`
unfoldable pub resolve_provisioning_datastores :
    Float64
    → Answer (List Schema)
    → Time
    → Selection
    → Runtime
    → Runtime × Answer (Result (List Datastore))
resolve_provisioning_datastores f (failed e) now s r = (r, failed e)
resolve_provisioning_datastores f (answered pool) now s r =
    order_resolved f now s.policy r (resolve_datastores pool s.identifiers s.allowed_types)

abbrev pub provision_from :
    World → ℤ → Runtime × Answer (Result (List Datastore)) → Runtime × Provisioned
provision_from w size (r, failed e) = (r, refused (pool_failed e))
provision_from w size (r, answered (err e)) = (r, refused (rejected e))
provision_from w size (r, answered (ok candidates)) = provision w size [] [] r candidates

-- The size in MiB that the image's template gets.
abbrev pub size_mb : ℤ → ℤ
size_mb size = size /ℤ size_conversion

-- `w sizeMB` is the world for a template of that size.
unfoldable pub create_volume :
    Float64
    → (ℤ → World)
    → Answer (List Schema)
    → Time
    → Selection
    → String
    → ℤ
    → Runtime
    → Runtime × Provisioned
create_volume f w pool now s name size r =
    if str_eq name ""
    then (r, refused empty_name)
    else if leb_ℤ size (pos 0)
    then (r, refused invalid_size)
    else if leb_ℤ (size_mb size) (pos 0)
    then (r, refused invalid_size)
    else provision_from (w (size_mb size)) size (resolve_provisioning_datastores f pool now s r)

-- What `VolumeExists` and then `Info` of the source's image returned: its size in MiB.
unfoldable pub clone_volume :
    Float64
    → World
    → Answer (List Schema)
    → Time
    → Selection
    → String
    → String
    → Answer ℤ
    → Runtime
    → Runtime × Provisioned
clone_volume f w pool now s name source (failed e) r =
    if str_eq (trim_space name) ""
    then (r, refused empty_name)
    else if str_eq (trim_space source) ""
    then (r, refused empty_source)
    else (r, refused (source_failed e))
clone_volume f w pool now s name source (answered source_mb) r =
    if str_eq (trim_space name) ""
    then (r, refused empty_name)
    else if str_eq (trim_space source) ""
    then (r, refused empty_source)
    else provision_from w (wrap64 (source_mb *ℤ size_conversion))
        (resolve_provisioning_datastores f pool now s r)

-- ===== src/Datastore/Resolve.antt =====
-- `ResolveDatastores` of pkg/csi/opennebula/datastore.go: from identifiers to datastores.
use storage_provider_openneb.Prelude.{
  ℕ, ◌*◌, String, str_eq, Bool, true, false, not, List, [], ◌∷◌, map, Option, none, some,
  if◌then◌else◌, or_else, some_elem,
}
use storage_provider_openneb.Prelude.Int.{ℤ, pos, ◌+ℤ◌, ◌*ℤ◌, wrap64, eq_ℤ}
use storage_provider_openneb.Prelude.Keys.{lookup, insert, int_key}
use storage_provider_openneb.Golang.Text.{trim_space, fields}
use storage_provider_openneb.Golang.Cases.{to_lower, equal_fold, atoi}
use storage_provider_openneb.Datastore.Kinds.{
  Schema, get_datastore_attribute, normalize_datastore_category, normalize_allowed_datastore_type,
  infer_datastore_type, normalize_disk_type, one_of,
}
use storage_provider_openneb.Datastore.Backend.{
  ConfigError, no_datastores, no_eligible, empty_identifier, no_default, bad_identifier,
  unknown_datastore, not_enabled, wrong_category, type_not_allowed, unsupported_backend, Check,
  fail_if, backend_name, get_datastore_backend_profile, validate_datastore,
}

-- `Datastore`, without the Ceph attributes that are copied for the mounts.
pub record Datastore : Type 0 where
  pub id : ℤ
  pub name : String
  pub category : String
  pub type : String
  pub backend : String
  pub ds_mad : String
  pub tm_mad : String
  pub disk_type : String
  pub free_bytes : ℤ
  pub total_bytes : ℤ
  pub enabled : Bool
  pub compatible_system_datastores : List ℤ

-- A Go result `(A, error)`.
pub data Result {ℓ} (A : Type ℓ) : Type ℓ where
  err : ConfigError → Result A
  ok : A → Result A

infixl 5 ◌>>=◌ ◌>>◌
abbrev pub ◌>>=◌ {ℓ κ} : {A : Type ℓ} {B : Type κ} → Result A → (A → Result B) → Result B
err e >>= next = err e
ok a >>= next = next a

abbrev pub ◌>>◌ {ℓ κ} : {A : Type κ} {B : Type ℓ} → Result A → Result B → Result B
err e >> next = err e
ok a >> next = next

abbrev pub check : Check → Result (Unit {0})
check none = ok tt
check (some e) = err e

abbrev pub mib : ℕ
mib = 1024 * 1024

-- The numbers among the words of `COMPATIBLE_SYS_DS`.
abbrev pub numbers : List String → List ℤ
numbers [] = []
numbers (w ∷ ws) = elim (atoi w) [ none ↦ numbers ws | some n ↦ n ∷ numbers ws ]

unfoldable pub compatible_system_datastores : Schema → List ℤ
compatible_system_datastores ds = numbers (fields (get_datastore_attribute ds "COMPATIBLE_SYS_DS"))

unfoldable pub datastore_from_schema : Schema → Datastore
datastore_from_schema s =
    let kind = normalize_allowed_datastore_type (infer_datastore_type s) in
    record {
      id = s.id;
      name = s.name;
      category = normalize_datastore_category s;
      type = kind;
      backend = kind;
      ds_mad = to_lower (trim_space s.ds_mad);
      tm_mad = to_lower (trim_space s.tm_mad);
      disk_type = normalize_disk_type s;
      free_bytes = wrap64 (s.free_mb *ℤ pos mib);
      total_bytes = wrap64 (s.total_mb *ℤ pos mib);
      enabled = or_else s.ready true;
      compatible_system_datastores = compatible_system_datastores s;
    }

-- `poolByID`: of datastores with one ID the last counts.
unfoldable pub pool_by_id : List (ℤ × Schema) → List Schema → List (ℤ × Schema)
pool_by_id m [] = m
pool_by_id m (s ∷ rest) = pool_by_id (insert s.id s m) rest

-- `defaultDatastore`: the last one that is named so.
unfoldable pub default_datastore : Option Schema → List Schema → Option Schema
default_datastore d [] = d
default_datastore d (s ∷ rest) =
    default_datastore (if str_eq s.name "default" then some s else d) rest

abbrev pub found {ℓ} : {A : Type ℓ} → Option A → ConfigError → Result A
found none e = err e
found (some a) e = ok a

unfoldable pub resolve_datastore_identifier :
    String → List (ℤ × Schema) → Option Schema → Result Schema
resolve_datastore_identifier identifier pool default =
    let trimmed = trim_space identifier in
    let by_number = do
      id ← found (atoi trimmed) (bad_identifier trimmed)
      found (lookup id pool) (unknown_datastore id)
    in if str_eq trimmed ""
      then err empty_identifier
      else (if equal_fold trimmed "default" then found default no_default else by_number)

unfoldable pub validate_provisioning_datastore_category : Schema → Check
validate_provisioning_datastore_category s =
    fail_if (not (one_of (normalize_datastore_category s) ("" ∷ "IMAGE" ∷ "FILE" ∷ [])))
      (wrong_category s.id)

unfoldable pub normalize_allowed_datastore_types : List String → List String
normalize_allowed_datastore_types [] = normalize_allowed_datastore_type "local" ∷ []
normalize_allowed_datastore_types (v ∷ vs) = map normalize_allowed_datastore_type (v ∷ vs)

-- The checks of one candidate, in their order, up to the test for a repeated datastore.
unfoldable pub checked : List String → String → Schema → Result Datastore
checked allowed identifier candidate = do
  let normalized = datastore_from_schema candidate
  check (fail_if (not normalized.enabled) (not_enabled identifier))
  check (validate_provisioning_datastore_category candidate)
  check (
      fail_if (not (one_of normalized.type allowed))
        (type_not_allowed normalized.id normalized.type))
  backend ←
      found (get_datastore_backend_profile normalized.type) (unsupported_backend normalized.type)
  check (validate_datastore backend candidate)
  ok (record normalized { backend = backend_name backend })

unfoldable pub resolve_one :
    List (ℤ × Schema) → Option Schema → List String → String → Result Datastore
resolve_one pool default allowed identifier =
    resolve_datastore_identifier identifier pool default >>= checked allowed identifier

abbrev pub seen_id : ℤ → List ℤ → Bool
seen_id id seen = some_elem (eq_ℤ id) seen

-- The loop over the identifiers; `seen` are the datastores resolved so far.
unfoldable pub resolve_each :
    (String → Result Datastore) → List ℤ → List String → Result (List Datastore)
resolve_each one seen [] = ok []
resolve_each one seen (i ∷ is) = do
  d ← one i
  elim (seen_id d.id seen) [
    | true ↦ resolve_each one seen is
    | false ↦ resolve_each one (d.id ∷ seen) is >>= λ rest. ok (d ∷ rest)
  ]

abbrev pub not_empty : List Datastore → Result (List Datastore)
not_empty [] = err no_eligible
not_empty (d ∷ ds) = ok (d ∷ ds)

abbrev pub some_identifiers : List String → Check
some_identifiers [] = some no_datastores
some_identifiers (i ∷ is) = none

-- `identifiers` and `allowed` are those of the `DatastoreSelectionConfig`.
unfoldable pub resolve_datastores :
    List Schema → List String → List String → Result (List Datastore)
unfolding resolve_each resolve_one
resolve_datastores pool identifiers allowed = do
  check (some_identifiers identifiers)
  let one =
      resolve_one (pool_by_id [] pool) (default_datastore none pool)
        (normalize_allowed_datastore_types allowed)
  resolved ← resolve_each one [] identifiers
  not_empty resolved

-- `SumDatastoreCapacity`
unfoldable pub sum_datastore_capacity : ℤ → List Datastore → ℤ
sum_datastore_capacity total [] = total
sum_datastore_capacity total (d ∷ ds) = sum_datastore_capacity (wrap64 (total +ℤ d.free_bytes)) ds

-- ===== src/Datastore/Environment.antt =====
-- Whether an image can be attached to a node, by their datastores: the checks of
-- pkg/csi/opennebula/backend.go and inspectAttachmentEnvironment of
-- pkg/csi/opennebula/persistentdisk.go.
pub mod Pairing
pub mod Agreement
use Prim.Native.Char.{Char, code}
use storage_provider_openneb.Prelude.{
  String, str_eq, Bool, true, false, not, ◌||◌, ◌==◌, List, [], ◌∷◌, Option, none, some,
  if◌then◌else◌, some_elem, ◌⊎◌, inl, inr,
}
use storage_provider_openneb.Prelude.Int.{ℤ, pos, ltb_ℤ, eq_ℤ}
use storage_provider_openneb.Golang.Answer.{Answer, failed, answered}
use storage_provider_openneb.Golang.Text.{trim_space, fields, split_on}
use storage_provider_openneb.Golang.Cases.{equal_fold, to_lower, atoi}
use storage_provider_openneb.Golang.Search.{cut_prefix}
use storage_provider_openneb.Datastore.Kinds.{Schema, get_datastore_attribute, normalize_disk_type}
use storage_provider_openneb.Datastore.Backend.{
  ConfigError, require_datastore_attributes, ceph_required_attrs, validate_ceph_image_datastore,
}
use storage_provider_openneb.Datastore.Resolve.{Datastore, datastore_from_schema}

pub data EnvironmentError : Type 0 where
  call_failed : String → EnvironmentError
  no_source_datastore no_history : EnvironmentError
  not_found : ℤ → EnvironmentError
  config : ConfigError → EnvironmentError
  system_needs_tm_mad_ceph system_needs_disk_type_rbd : ℤ → EnvironmentError
  ceph_mismatch invalid_compatible unsupported_tm_mad : String → EnvironmentError
  incompatible : ℤ → EnvironmentError

-- `none` is no error.
abbrev pub Check : Type 0
Check = Option EnvironmentError

infixl 5 ◌then_check◌
abbrev pub ◌then_check◌ : Check → Check → Check
some e then_check k = some e
none then_check k = k

abbrev pub refuse_if : Bool → EnvironmentError → Check
refuse_if b e = if b then some e else none

abbrev pub of_config : Option ConfigError → Check
of_config none = none
of_config (some e) = some (config e)

unfoldable pub validate_ceph_system_datastore : Schema → Check
validate_ceph_system_datastore ds =
    refuse_if (not (equal_fold (trim_space ds.tm_mad) "ceph")) (system_needs_tm_mad_ceph ds.id)
    then_check refuse_if (not (str_eq (normalize_disk_type ds) "RBD"))
        (system_needs_disk_type_rbd ds.id)
    then_check of_config (require_datastore_attributes ds ceph_required_attrs)

-- `checks` and `optionalChecks`, by the attributes that `extractCephDatastoreAttributes` reads.
abbrev pub compared_keys : List String
compared_keys = "POOL_NAME" ∷ "CEPH_HOST" ∷ "CEPH_USER" ∷ "CEPH_SECRET" ∷ []

abbrev pub optional_keys : List String
optional_keys = "CEPH_CONF" ∷ "CEPH_KEY" ∷ []

unfoldable pub compare_all : Schema → Schema → List String → Check
compare_all image system [] = none
compare_all image system (k ∷ ks) =
    refuse_if (not (str_eq (get_datastore_attribute image k) (get_datastore_attribute system k)))
      (ceph_mismatch k)
    then_check compare_all image system ks

unfoldable pub compare_given : Schema → Schema → List String → Check
compare_given image system [] = none
compare_given image system (k ∷ ks) =
    (if str_eq (get_datastore_attribute image k) "" || str_eq (get_datastore_attribute system k) ""
      then none
      else refuse_if
          (not (str_eq (get_datastore_attribute image k) (get_datastore_attribute system k)))
          (ceph_mismatch k))
    then_check compare_given image system ks

unfoldable pub compare_ceph_connection_identity : Schema → Schema → Check
compare_ceph_connection_identity image system =
    compare_all image system compared_keys then_check compare_given image system optional_keys

pub data DeploymentMode : Type 0 where
  unknown_mode ceph_mode ssh_mode : DeploymentMode

-- `strings.HasSuffix(s, "_ssh")`
unfoldable pub ends_with_ssh : String → Bool
ends_with_ssh String.[] = false
ends_with_ssh (String.◌∷◌ c s) =
    let rest = ends_with_ssh s in if str_eq (String.◌∷◌ c s) "_ssh" then true else rest

unfoldable pub resolve_deployment_mode : Schema → DeploymentMode
resolve_deployment_mode ds =
    let tm = to_lower (trim_space ds.tm_mad) in
    if str_eq tm "ceph"
    then ceph_mode
    else (if str_eq tm "ssh"
        then ssh_mode
        else (if ends_with_ssh tm then ssh_mode else unknown_mode))

-- `strings.NewReplacer(",", " ", ";", " ").Replace`
abbrev pub blank_separator : Char → Char
blank_separator c = if code c == b',' then " " else (if code c == b';' then " " else c)

unfoldable pub replace_separators : String → String
replace_separators String.[] = String.[]
replace_separators (String.◌∷◌ c s) = String.◌∷◌ (blank_separator c) (replace_separators s)

-- The numbers of the list, or the first part that is none.
unfoldable pub read_ids : List String → EnvironmentError ⊎ List ℤ
read_ids [] = inr []
read_ids (w ∷ ws) = elim (atoi (trim_space w)) [
  | none ↦ inl (invalid_compatible (trim_space w))
  | some id ↦ elim (read_ids ws) [ inl e ↦ inl e | inr ids ↦ inr (id ∷ ids) ]
]

abbrev pub allows : ℤ → EnvironmentError ⊎ List ℤ → Check
allows id (inl e) = some e
allows id (inr []) = none
allows id (inr (j ∷ js)) = if some_elem (eq_ℤ id) (j ∷ js) then none else some (incompatible id)

unfoldable pub validate_compatible_system_datastore : Schema → ℤ → Check
validate_compatible_system_datastore image system_id =
    let raw = get_datastore_attribute image "COMPATIBLE_SYS_DS" in
    if str_eq (trim_space raw) ""
    then none
    else allows system_id (read_ids (fields (replace_separators raw)))

-- A record of the machine's history: its sequence number and datastore.
pub record HistoryRecord : Type 0 where
  pub seq : ℤ
  pub ds_id : ℤ

abbrev pub later_record : Option HistoryRecord → HistoryRecord → Option HistoryRecord
later_record none r = some r
later_record (some best) r = if ltb_ℤ best.seq r.seq then some r else some best

unfoldable pub latest_history_record :
    Option HistoryRecord → List HistoryRecord → Option HistoryRecord
latest_history_record best [] = best
latest_history_record best (r ∷ rs) =
    latest_history_record (if ltb_ℤ r.ds_id (pos 0) then best else later_record best r) rs

unfoldable pub find_datastore_by_id : List Schema → ℤ → Option Schema
find_datastore_by_id [] id = none
find_datastore_by_id (d ∷ ds) id = if eq_ℤ d.id id then some d else find_datastore_by_id ds id

-- `DatastoreEnvironmentReport`; `warned` is whether it has the warning about SSH.
pub record Report : Type 0 where
  pub image_datastore : Datastore
  pub system_datastore : Datastore
  pub deployment_mode : DeploymentMode
  pub warned : Bool

abbrev pub Inspected : Type 0
Inspected = EnvironmentError ⊎ Report

abbrev pub check_first : Check → Inspected → Inspected
check_first none rest = rest
check_first (some e) rest = inl e

-- The checks of a ceph image, for each deployment mode.
abbrev pub inspect_ceph : Schema → Schema → DeploymentMode → Report → Inspected
inspect_ceph image system ceph_mode r =
    check_first (validate_ceph_system_datastore system)
      (check_first (compare_ceph_connection_identity image system) (inr r))
inspect_ceph image system ssh_mode r = inr (record r { warned = true })
inspect_ceph image system unknown_mode r = inl (unsupported_tm_mad system.tm_mad)

unfoldable pub inspect_datastores : Schema → Schema → ℤ → Inspected
inspect_datastores image system system_id =
    let mode = resolve_deployment_mode system in
    let report : Report = record {
      image_datastore = datastore_from_schema image;
      system_datastore = datastore_from_schema system;
      deployment_mode = mode;
      warned = false;
    } in
    check_first (validate_compatible_system_datastore image system_id) (
      if not (str_eq report.image_datastore.type "ceph")
      then inr report
      else check_first (of_config (validate_ceph_image_datastore image))
          (inspect_ceph image system mode report))

abbrev pub with_system : Schema → Option Schema → ℤ → Inspected
with_system image none id = inl (not_found id)
with_system image (some system) id = inspect_datastores image system id

abbrev pub with_history : List Schema → Schema → Option HistoryRecord → Inspected
with_history pool image none = inl no_history
with_history pool image (some latest) =
    with_system image (find_datastore_by_id pool latest.ds_id) latest.ds_id

abbrev pub with_image : List Schema → Option Schema → ℤ → Answer (List HistoryRecord) → Inspected
with_image pool none id vm = inl (not_found id)
with_image pool (some image) id (failed e) = inl (call_failed e)
with_image pool (some image) id (answered records) =
    with_history pool image (latest_history_record none records)

-- What the client returned: the image's datastore (`none` if it has none), the pool, and the history
-- of the machine.
unfoldable pub inspect_attachment_environment :
    Answer (Option ℤ) → Answer (List Schema) → Answer (List HistoryRecord) → Inspected
inspect_attachment_environment (failed e) pool vm = inl (call_failed e)
inspect_attachment_environment (answered none) pool vm = inl no_source_datastore
inspect_attachment_environment (answered (some id)) (failed e) vm = inl (call_failed e)
inspect_attachment_environment (answered (some id)) (answered pool) vm =
    with_image pool (find_datastore_by_id pool id) id vm

-- The parts between commas that are not blank, each trimmed.
abbrev pub trimmed_parts : List String → List String
trimmed_parts [] = []
trimmed_parts (p ∷ ps) =
    let rest = trimmed_parts ps in if str_eq (trim_space p) "" then rest else trim_space p ∷ rest

unfoldable pub normalize_mount_options : String → List String
normalize_mount_options value =
    if str_eq (trim_space value) "" then [] else trimmed_parts (split_on b',' value)

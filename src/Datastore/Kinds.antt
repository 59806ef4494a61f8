-- ===== src/Datastore/Kinds.antt =====
-- How pkg/csi/opennebula/datastore.go reads a datastore of OpenNebula: its attributes, category and type.
use storage_provider_openneb.Prelude.{
  String, str_eq, Bool, true, not, ◌&&◌, ◌||◌, List, [], ◌∷◌, Option, none, some, if◌then◌else◌,
  leb, or_else, some_elem,
}
use storage_provider_openneb.Prelude.Int.{ℤ}
use storage_provider_openneb.Prelude.Keys.{lookup, string_key}
use storage_provider_openneb.Golang.Text.{trim_space}
use storage_provider_openneb.Golang.Cases.{to_lower, to_upper, equal_fold}
use Prim.Native.Char.{code}

-- The fields of goca's `datastore.Datastore` that are read: `ready` is `State() == Ready`, with `none`
-- for an error of `State`, and `template` holds the attributes that `Template.GetStr` finds.
pub record Schema : Type 0 where
  pub id : ℤ
  pub name : String
  pub type : String
  pub ds_mad : String
  pub tm_mad : String
  pub disk_type : String
  pub free_mb : ℤ
  pub total_mb : ℤ
  pub ready : Option Bool
  pub template : List (String × String)

-- `raw != ""` and all of it digits.
abbrev pub all_digits : String → Bool
all_digits String.[] = true
all_digits (String.◌∷◌ c s) = leb b'0' (code c) && leb (code c) b'9' && all_digits s

unfoldable pub is_numeric_datastore_field : String → Bool
is_numeric_datastore_field value = not (str_eq value "") && all_digits value

abbrev pub template_attribute : Schema → String → String
template_attribute ds key = trim_space (or_else (lookup key ds.template) "")

unfoldable pub get_datastore_attribute : Schema → String → String
unfolding is_numeric_datastore_field
get_datastore_attribute ds key =
    let name = to_upper (trim_space key) in
    let raw = trim_space ds.disk_type in
    if str_eq name "DS_MAD"
    then trim_space ds.ds_mad
    else (if str_eq name "TM_MAD"
        then trim_space ds.tm_mad
        else (if str_eq name "DISK_TYPE"
              && (not (str_eq raw "") && not (is_numeric_datastore_field raw))
            then raw
            else template_attribute ds name))

unfoldable pub normalize_disk_type : Schema → String
normalize_disk_type ds = to_upper (get_datastore_attribute ds "DISK_TYPE")

abbrev pub one_of : String → List String → Bool
one_of s words = some_elem (str_eq s) words

-- One of `candidates` in `normalizeDatastoreCategory`: `none` goes on to the next.
unfoldable pub category_word : String → Option String
category_word word =
    if one_of word ("" ∷ "-" ∷ [])
    then none
    else (if one_of word ("IMAGE" ∷ "IMAGE_DS" ∷ "IMG" ∷ "0" ∷ [])
        then some "IMAGE"
        else (if one_of word ("SYSTEM" ∷ "SYSTEM_DS" ∷ "SYS" ∷ "1" ∷ [])
            then some "SYSTEM"
            else (if one_of word ("FILE" ∷ "FILE_DS" ∷ "FILES" ∷ "FIL" ∷ "2" ∷ [])
                then some "FILE"
                else none)))

unfoldable pub normalize_datastore_category : Schema → String
unfolding category_word
normalize_datastore_category ds =
    or_else (category_word (to_upper (trim_space (trim_space ds.type)))) (
      or_else (category_word (to_upper (trim_space (get_datastore_attribute ds "TYPE"))))
        (to_upper (trim_space ds.type)))

unfoldable pub normalize_allowed_datastore_type : String → String
normalize_allowed_datastore_type value =
    let normalized = to_lower (trim_space value) in
    if one_of normalized ("" ∷ "nas" ∷ [])
    then "nfs"
    else (if one_of normalized ("fs" ∷ "fs_lvm" ∷ "fs_lvm_ssh" ∷ []) then "local" else normalized)

-- One round of the first loop over `values` in `inferDatastoreType`.
unfoldable pub known_value : Schema → String → Option String
known_value ds value =
    if one_of value ("local" ∷ "ceph" ∷ "nfs" ∷ "nas" ∷ "fs_lvm" ∷ "fs_lvm_ssh" ∷ "cephfs" ∷ [])
    then some value
    else (if str_eq value "fs" && equal_fold ds.tm_mad "local" then some "local" else none)

unfoldable pub first_known : Schema → List String → Option String
unfolding known_value
first_known ds [] = none
first_known ds (v ∷ vs) = elim (known_value ds v) [ some t ↦ some t | none ↦ first_known ds vs ]

unfoldable pub first_non_empty : List String → String
first_non_empty [] = "unknown"
first_non_empty (v ∷ vs) = if str_eq v "" then first_non_empty vs else v

unfoldable pub infer_datastore_type : Schema → String
unfolding first_known first_non_empty
infer_datastore_type ds =
    let ds_mad = to_lower (trim_space ds.ds_mad) in
    let tm_mad = to_lower (trim_space ds.tm_mad) in
    let category = normalize_datastore_category ds in
    let values = tm_mad ∷ ds_mad ∷ to_lower (trim_space ds.type) ∷ [] in
    if equal_fold (get_datastore_attribute ds "OPENNEBULA_CSI_SHARE_BACKEND") "cephfs"
    then "cephfs"
    else (if one_of ds_mad ("fs" ∷ "fs_lvm" ∷ "fs_lvm_ssh" ∷ [])
          && (str_eq category "IMAGE"
              || str_eq category "FILE"
              || one_of tm_mad ("ssh" ∷ "shared" ∷ "local" ∷ []))
        then "local"
        else (if str_eq ds_mad "ceph"
            then "ceph"
            else or_else (first_known ds values) (first_non_empty values)))

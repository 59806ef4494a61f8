-- ===== src/PersistentDisk/Sizes.antt =====
-- The size of a volume, of pkg/csi/opennebula/persistentdisk.go: the image's own, and the one that an
-- expansion has written into the image's template.
pub mod Restore
use storage_provider_openneb.Prelude.{
  ℕ, ◌≡◌, String, str_eq, Bool, true, false, not, ◌||◌, ◌&&◌, List, [], ◌∷◌, ◌++◌, Option, none,
  some, if◌then◌else◌, length, ltb, ◌⊎◌, inl, inr,
}
use storage_provider_openneb.Prelude.Int.{
  ℤ, pos, negsuc, ltb_ℤ, leb_ℤ, eq_ℤ, ◌/ℤ◌, ◌*ℤ◌, ◌+ℤ◌, wrap64, rem_ℤ,
}
use storage_provider_openneb.Golang.Answer.{Answer, failed, answered}
use storage_provider_openneb.Golang.Text.{trim_space}
use storage_provider_openneb.Golang.Cases.{atoi}
use storage_provider_openneb.Golang.Decimal.{itoa}
use storage_provider_openneb.PersistentDisk.Provision.{size_conversion}

-- What `GetStrs` and `GetStr` of the client's template return.
pub record Template : Type 0 where
  pub get_strs : String → List String
  pub get_str : String → Option String

abbrev pub size_bytes_tag : String
size_bytes_tag = "CSI_REQUESTED_SIZE_BYTES"

abbrev pub size_mb_tag : String
size_mb_tag = "CSI_REQUESTED_SIZE_MB"

abbrev pub expanded_by_tag : String
expanded_by_tag = "CSI_EXPANDED_BY"

abbrev pub expanded_at_tag : String
expanded_at_tag = "CSI_EXPANDED_AT"

abbrev pub expanded_by_value : String
expanded_by_value = "csi.opennebula.io"

unfoldable pub bytes_to_mib_round_up : ℤ → ℤ
bytes_to_mib_round_up size =
    let size_mb = size /ℤ size_conversion in
    if eq_ℤ (rem_ℤ size size_conversion) (pos 0) then size_mb else size_mb +ℤ pos 1

unfoldable pub effective_volume_size_bytes : ℤ → ℤ → ℤ
effective_volume_size_bytes canonical requested =
    if ltb_ℤ canonical requested then requested else canonical

abbrev pub positive : Option ℤ → Option ℤ
positive none = none
positive (some n) = if leb_ℤ n (pos 0) then none else some n

abbrev pub greater : ℤ → ℤ → ℤ
greater a b = if ltb_ℤ a b then b else a

-- One of the two loops: the greatest value in bytes, and whether a value could not be read. `unit` is
-- the number of bytes of a value's unit.
unfoldable pub scan_sizes : ℤ → ℤ → Bool → List String → ℤ × Bool
scan_sizes unit best bad [] = (best, bad)
scan_sizes unit best bad (raw ∷ rest) =
    let value = trim_space raw in
    let skip = scan_sizes unit best bad rest in
    let wrong = scan_sizes unit best true rest in
    if str_eq value "" then skip else elim (positive (atoi value)) [
      | none ↦ wrong
      | some parsed ↦ scan_sizes unit (greater best (wrap64 (parsed *ℤ unit))) bad rest
    ]

-- `none` is the error.
unfoldable pub csi_requested_size_bytes : Template → Option ℤ
csi_requested_size_bytes t =
    let (bytes, bad_bytes) = scan_sizes (pos 1) (pos 0) false (t.get_strs size_bytes_tag) in
    let (from_mb, bad) = scan_sizes size_conversion bytes bad_bytes (t.get_strs size_mb_tag) in
    if ltb_ℤ (pos 0) bytes
    then some bytes
    else if ltb_ℤ (pos 0) from_mb
    then some from_mb
    else if bad
    then none
    else some (pos 0)

abbrev pub not_blank : Option String → Bool
not_blank none = false
not_blank (some s) = not (str_eq (trim_space s) "")

unfoldable pub has_csi_expansion_marker : Template → Bool
has_csi_expansion_marker t =
    not_blank (t.get_str expanded_by_tag) || not_blank (t.get_str expanded_at_tag)

pub data SizeError : Type 0 where
  missing invalid : String → SizeError
  lower : String → ℤ → SizeError

-- A size in the template is read and is not below `least`. `none` is no error.
abbrev pub verify_number : String → ℤ → Option ℤ → Option SizeError
verify_number tag least none = some (invalid tag)
verify_number tag least (some n) = if ltb_ℤ n least then some (lower tag n) else none

abbrev pub verify_size : String → ℤ → Option String → Option SizeError
verify_size tag least none = some (missing tag)
verify_size tag least (some raw) =
    if str_eq (trim_space raw) ""
    then some (missing tag)
    else verify_number tag least (atoi (trim_space raw))

abbrev pub verify_by : Option String → Option SizeError
verify_by none = some (invalid expanded_by_tag)
verify_by (some by) =
    if str_eq (trim_space by) expanded_by_value then none else some (invalid expanded_by_tag)

abbrev pub first_error : Option SizeError → Option SizeError → Option SizeError
first_error none b = b
first_error (some a) b = some a

unfoldable pub verify_csi_requested_size : Template → ℤ → ℤ → Option SizeError
verify_csi_requested_size t bytes mb =
    first_error (verify_size size_bytes_tag bytes (t.get_str size_bytes_tag)) (
      first_error (verify_size size_mb_tag mb (t.get_str size_mb_tag)) (
        first_error (verify_by (t.get_str expanded_by_tag))
          (if not_blank (t.get_str expanded_at_tag) then none else some (missing expanded_at_tag))))

-- The pairs that `csiRequestedSizeTemplate` adds; `at` is the time as text.
unfoldable pub csi_requested_size_pairs : ℤ → ℤ → String → List (String × String)
csi_requested_size_pairs bytes mb at =
    (size_bytes_tag, itoa bytes)
    ∷ (size_mb_tag, itoa mb)
    ∷ (expanded_by_tag, expanded_by_value)
    ∷ (expanded_at_tag, at)
    ∷ []

-- Whether to resize, and to how many MiB.
unfoldable pub attach_restore_resize_plan : ℤ → ℤ → Bool × ℤ
attach_restore_resize_plan attached requested =
    if leb_ℤ requested (pos 0) || leb_ℤ requested attached
    then (false, pos 0)
    else (true, bytes_to_mib_round_up requested)

pub data ExistsError : Type 0 where
  not_found : String → ExistsError
  invalid_metadata incomplete_metadata : ExistsError

-- `VolumeExists`, from the image's size in MiB and its template to the effective size.
unfoldable pub volume_size : ℤ → Template → ExistsError ⊎ ℤ
volume_size mb t = elim (csi_requested_size_bytes t) [
  | none ↦ inl invalid_metadata
  | some requested ↦
      if leb_ℤ requested (pos 0) && has_csi_expansion_marker t
      then inl incomplete_metadata
      else inr (effective_volume_size_bytes (wrap64 (mb *ℤ size_conversion)) requested)
]

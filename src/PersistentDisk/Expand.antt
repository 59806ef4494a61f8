-- ===== src/PersistentDisk/Expand.antt =====
-- `ExpandVolume` of pkg/csi/opennebula/persistentdisk.go, and the search for the volume's disk.
pub mod Growth
use storage_provider_openneb.Prelude.{
  Bool, true, false, not, String, List, [], ◌∷◌, ◌++◌, map, Option, none, some, if◌then◌else◌, ◌⊎◌,
  inl, inr,
}
use storage_provider_openneb.Prelude.Int.{ℤ, pos, ltb_ℤ, leb_ℤ, eq_ℤ, ◌*ℤ◌, wrap64}
use storage_provider_openneb.Golang.Answer.{Answer, failed, answered}
use storage_provider_openneb.Golang.Cases.{atoi}
use storage_provider_openneb.PersistentDisk.Provision.{size_conversion}
use storage_provider_openneb.PersistentDisk.Wait.{WaitError, wait_for_resource_status}
use storage_provider_openneb.PersistentDisk.Sizes.{bytes_to_mib_round_up}

-- A disk of a machine's template: what `GetI` and `Get` find of its image, number and size in MiB.
pub record Disk : Type 0 where
  pub image_id : Option ℤ
  pub disk_id : Option String
  pub size_mb : Option ℤ

pub record Machine : Type 0 where
  pub id : ℤ
  pub disks : List Disk

pub data FindError : Type 0 where
  pool_failed : String → FindError
  no_disk_id invalid_disk_id no_disk_size several_attachments : FindError

pub record Found : Type 0 where
  pub vm_id : ℤ
  pub disk_id : ℤ
  pub size_bytes : ℤ

-- `diskSizeBytesFromTemplate`
unfoldable pub disk_size_bytes : Disk → Option ℤ
disk_size_bytes d = elim d.size_mb [ none ↦ none | some mb ↦ some (wrap64 (mb *ℤ size_conversion)) ]

abbrev pub is_disk_of : ℤ → Disk → Bool
is_disk_of volume d = elim d.image_id [ none ↦ false | some i ↦ eq_ℤ i volume ]

-- One disk of the volume, after the one that was found so far.
abbrev pub found_disk : ℤ → Disk → Option Found → FindError ⊎ Option Found
found_disk vm d so_far = elim d.disk_id [
  | none ↦ inl no_disk_id
  | some raw ↦ elim (atoi raw) [
    | none ↦ inl invalid_disk_id
    | some id ↦ elim so_far [
      | some f ↦ inl several_attachments
      | none ↦ elim (disk_size_bytes d) [
        | none ↦ inl no_disk_size
        | some bytes ↦ inr (some (record { vm_id = vm; disk_id = id; size_bytes = bytes }))
      ]
    ]
  ]
]

unfoldable pub find_in_disks : ℤ → ℤ → List Disk → Option Found → FindError ⊎ Option Found
find_in_disks volume vm [] so_far = inr so_far
find_in_disks volume vm (d ∷ ds) so_far =
    let skip = find_in_disks volume vm ds so_far in
    if not (is_disk_of volume d)
    then skip
    else elim (found_disk vm d so_far) [ inl e ↦ inl e | inr f ↦ find_in_disks volume vm ds f ]

unfoldable pub find_in_machines : ℤ → List Machine → Option Found → FindError ⊎ Option Found
find_in_machines volume [] so_far = inr so_far
find_in_machines volume (m ∷ ms) so_far = elim (find_in_disks volume m.id m.disks so_far) [
  | inl e ↦ inl e
  | inr f ↦ find_in_machines volume ms f
]

unfoldable pub find_attached_volume_disk : Answer (List Machine) → ℤ → FindError ⊎ Option Found
find_attached_volume_disk (failed e) volume = inl (pool_failed e)
find_attached_volume_disk (answered ms) volume = find_in_machines volume ms none

pub data ExpandError : Type 0 where
  invalid_size : ExpandError
  lookup_failed : String → ExpandError
  shrinking : ExpandError
  not_located : FindError → ExpandError
  detached detached_disabled : ExpandError
  resize_failed : String → ExpandError
  not_resized : WaitError → ExpandError
  not_persisted : String → ExpandError

-- What the client and `persistCSIRequestedSize` return: the volume's ID and size, the machines, the
-- resize, the disk's size after a resize that failed and at each check of one that did not.
pub record Calls : Type 0 where
  pub exists : Answer (ℤ × ℤ)
  pub machines : Answer (List Machine)
  pub resize : ℤ → ℤ → ℤ → Option String
  pub size_after_error : Answer ℤ
  pub sizes : List (Answer ℤ)
  pub persist : Option String

-- `persistCSIRequestedSize`, and then the size.
abbrev pub persisted : Option String → ℤ → ExpandError ⊎ ℤ
persisted none bytes = inr bytes
persisted (some e) bytes = inl (not_persisted e)

-- The check of each tick, and `completedSizeBytes` after them.
abbrev pub has_grown : ℤ → Answer ℤ → Answer Bool
has_grown size (failed e) = failed e
has_grown size (answered now) = answered (leb_ℤ size now)

unfoldable pub completed_size : ℤ → List (Answer ℤ) → ℤ
completed_size size [] = pos 0
completed_size size (failed e ∷ checks) = pos 0
completed_size size (answered now ∷ checks) =
    let rest = completed_size size checks in if leb_ℤ size now then now else rest

abbrev pub reported : ℤ → ℤ → ℤ
reported size completed =
    if eq_ℤ completed (pos 0)
    then wrap64 (bytes_to_mib_round_up size *ℤ size_conversion)
    else completed

abbrev pub await_growth : Calls → ℤ → ExpandError ⊎ ℤ
await_growth c size = elim (wait_for_resource_status (map (has_grown size) c.sizes)) [
  | some e ↦ inl (not_resized e)
  | none ↦ persisted c.persist (reported size (completed_size size c.sizes))
]

-- After a resize that failed: the disk may have the size all the same.
abbrev pub despite_error : Calls → ℤ → String → Answer ℤ → ExpandError ⊎ ℤ
despite_error c size e (failed f) = inl (resize_failed e)
despite_error c size e (answered now) =
    if leb_ℤ size now then persisted c.persist now else inl (resize_failed e)

abbrev pub expand_attached : Calls → ℤ → Found → ExpandError ⊎ ℤ
expand_attached c size f =
    if leb_ℤ size f.size_bytes
    then persisted c.persist f.size_bytes
    else elim (c.resize f.vm_id f.disk_id (bytes_to_mib_round_up size)) [
      | none ↦ await_growth c size
      | some e ↦ despite_error c size e c.size_after_error
    ]

abbrev pub expand_found : Calls → ℤ → Bool → FindError ⊎ Option Found → ExpandError ⊎ ℤ
expand_found c size allow (inl e) = inl (not_located e)
expand_found c size allow (inr none) = inl (if allow then detached else detached_disabled)
expand_found c size allow (inr (some f)) = expand_attached c size f

abbrev pub expand_existing : Calls → ℤ → Bool → Answer (ℤ × ℤ) → ExpandError ⊎ ℤ
expand_existing c size allow (failed e) = inl (lookup_failed e)
expand_existing c size allow (answered (id, current)) =
    if ltb_ℤ size current
    then inl shrinking
    else (if eq_ℤ size current
        then inr current
        else expand_found c size allow (find_attached_volume_disk c.machines id))

unfoldable pub expand_volume : Calls → ℤ → Bool → ExpandError ⊎ ℤ
expand_volume c size allow_detached =
    if leb_ℤ size (pos 0) then inl invalid_size else expand_existing c size allow_detached c.exists

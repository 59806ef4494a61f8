-- ===== src/PersistentDisk/Delete.antt =====
-- `DeleteVolume` of pkg/csi/opennebula/persistentdisk.go.
use storage_provider_openneb.Prelude.{
  ◌≡◌, refl, List, [], ◌∷◌, map, Option, none, some, ◌↔◌, ◌⊎◌, inl, inr, Bool-cases, arith,
  if◌then◌else◌,
}
use storage_provider_openneb.Prelude.Int.{ℤ, negsuc, eq_ℤ, eq_ℤ-iff}
use storage_provider_openneb.Golang.Answer.{Answer, failed, answered}
use storage_provider_openneb.PersistentDisk.Wait.{
  WaitError, wait_for_resource_status, ready, used, other_state, Info, volume_deleted,
}

pub data DeleteError : Type 0 where
  in_use : DeleteError
  not_deleted : WaitError → DeleteError

abbrev pub wait_deleted : List Info → Option DeleteError
wait_deleted infos = elim (wait_for_resource_status (map volume_deleted infos)) [
  | none ↦ none
  | some e ↦ some (not_deleted e)
]

abbrev pub unless_used : Info → Option DeleteError → Option DeleteError
unless_used (failed e) rest = rest
unless_used (answered (failed e)) rest = rest
unless_used (answered (answered used)) rest = some in_use
unless_used (answered (answered ready)) rest = rest
unless_used (answered (answered other_state)) rest = rest

-- What `VolumeExists` returned, the image before the call of one.image.delete, whose result is not
-- used, and the checks of the image after it. `none` is no error.
unfoldable pub delete_volume : Answer ℤ → Info → List Info → Option DeleteError
delete_volume (failed e) before after = none
delete_volume (answered id) before after =
    if eq_ℤ id (negsuc 0) then none else unless_used before (wait_deleted after)

-- The first check does not find the image.
abbrev pub GoneAtOnce : List Info → Type 0
GoneAtOnce [] = ⊥
GoneAtOnce (failed e ∷ rest) = Unit
GoneAtOnce (answered s ∷ rest) = ⊥

wait_deleted_iff : (after : List Info) → (wait_deleted after ≡ none) ↔ GoneAtOnce after
unfolding wait_for_resource_status volume_deleted
wait_deleted_iff [] = (λ h. cc, λ h. elim h [ ])
wait_deleted_iff (failed f ∷ rest) = (λ h. tt, λ h. refl)
wait_deleted_iff (answered s ∷ rest) = (λ h. cc, λ h. elim h [ ])

-- `VolumeExists` fails, or finds no volume.
abbrev pub Missing : Answer ℤ → Type 0
Missing (failed e) = Unit
Missing (answered id) = id ≡ negsuc 0

-- The image and its state are read, and it is in use.
abbrev pub InUse : Info → Type 0
InUse before = before ≡ answered (answered used)

deleted_iff :
    (before : Info) (after : List Info)
    → (unless_used before (wait_deleted after) ≡ none) ↔ (¬ InUse before × GoneAtOnce after)
deleted_iff (failed e) after =
    let (f, g) = wait_deleted_iff after in (λ h. (λ u. cc, f h), λ h. g h.1)
deleted_iff (answered (failed e)) after =
    let (f, g) = wait_deleted_iff after in (λ h. (λ u. cc, f h), λ h. g h.1)
deleted_iff (answered (answered used)) after = (λ h. cc, λ h. absurd (h.0 refl))
deleted_iff (answered (answered ready)) after =
    let (f, g) = wait_deleted_iff after in (λ h. (λ u. cc, f h), λ h. g h.1)
deleted_iff (answered (answered other_state)) after =
    let (f, g) = wait_deleted_iff after in (λ h. (λ u. cc, f h), λ h. g h.1)

-- DeleteVolume succeeds exactly if the volume is not found, or if it is not read to be in use and the
-- first check after the call does not find the image: whatever else was read before, an image that is
-- still there at the first check is an error, however long the timeout is.
pub delete_volume_iff :
    (found : Answer ℤ) (before : Info) (after : List Info)
    → (delete_volume found before after ≡ none)
      ↔ (Missing found ⊎ (¬ Missing found × ¬ InUse before × GoneAtOnce after))
unfolding delete_volume
delete_volume_iff (failed e) before after = (λ h. inl tt, λ h. refl)
delete_volume_iff (answered id) before after =
    let (f, g) = deleted_iff before after in
    elim (Bool-cases (eq_ℤ id (negsuc 0))) [
      | inl none_there ↦
          let no_id = (eq_ℤ-iff id (negsuc 0)).0 none_there in
          rw none_there (λ h. inl no_id, λ h. refl)
      | inr there ↦
          let known : ¬ (id ≡ negsuc 0) = λ e. ground (arith, (eq_ℤ-iff id (negsuc 0)).1 e) in
          rw there (
            λ h. let (free, gone) = f h in inr (known, free, gone),
            λ h. elim h [ inl e ↦ absurd (known e) | inr (k, free, gone) ↦ g (free, gone) ],
          )
    ]

-- ===== src/VolumeAccess/Checks.antt =====
-- What pkg/csi/driver/volume_access.go accepts.
use storage_provider_openneb.Prelude.{
  ◌≡◌, refl, ap, sym, String, str_eq, eq_iff, Bool, true, false, not, ◌&&◌, ◌||◌, List, [], ◌∷◌,
  Option, none, some, if◌then◌else◌, arith, some_elem, every_elem, is_some, All, ◌⊎◌, inl, inr,
  Bool-cases, Option-cases, ◌∙◌,
}
use storage_provider_openneb.Prelude.Keys.{lookup}
use storage_provider_openneb.Golang.Text.{trim_space, is_space}
use storage_provider_openneb.Golang.Cases.{to_lower}
use storage_provider_openneb.Datastore.Backend.{
  ceph, local, disk_capabilities, ceph_fs_capabilities, backend_name,
  get_backend_capability_profile,
}
use storage_provider_openneb.Datastore.Kinds.{normalize_allowed_datastore_type}
use storage_provider_openneb.Datastore.Resolve.{Datastore}
use storage_provider_openneb.VolumeAccess.{
  Mode, Capability, Model, shared_fs, AccessError, error_of, accepted, rejected,
  is_shared_filesystem_access_mode, is_supported, has_backend, any_candidate_backend, is_empty,
  validate_no_mixed, profiles_of, backend_capability_profiles, resolve_shared, resolve_other,
  resolve_mode, resolve_volume_access_model, validate_one, validate_access_mode,
}

true_not_false : true ≡ false → ⊥
true_not_false h = cc

not_accepted : {e : AccessError} {m : Model} → rejected e ≡ accepted m → ⊥
not_accepted h = cc

-- With no mixed candidates, all are on CephFS if one is.
unmixed :
    (a b : Bool) (ds : List Datastore)
    → validate_no_mixed a b ds ≡ none
    → (a ≡ true) ⊎ (some_elem (has_backend "cephfs") ds ≡ true)
    → (b ≡ false) × All (λ d. has_backend "cephfs" d ≡ true) ds
unfolding validate_no_mixed
unmixed a b [] h s = ground arith
unmixed a b (d ∷ ds) h s = elim (Bool-cases (has_backend "cephfs" d)) [
  | inl on_ceph ↦
      let (fine, all) = unmixed true b ds (rw on_ceph at h) (inl refl) in (fine, (on_ceph, all))
  | inr other ↦ absurd (true_not_false (unmixed a true ds (rw other at h) (rw other at s)).0)
]

shared-Candidates :
    (mode : Mode) (allowed : List String) (candidates : List Datastore)
    → resolve_shared mode allowed candidates ≡ accepted shared_fs
    → (candidates ≡ []) ⊎ (some_elem (has_backend "cephfs") candidates ≡ true)
unfolding resolve_shared any_candidate_backend
shared-Candidates mode allowed [] h = inl refl
shared-Candidates mode allowed (d ∷ ds) h = ground arith

other-Candidates :
    (params : List (String × String)) (candidates : List Datastore)
    → resolve_other params candidates ≡ accepted shared_fs
    → (candidates ≡ []) ⊎ (some_elem (has_backend "cephfs") candidates ≡ true)
unfolding resolve_other any_candidate_backend
other-Candidates params [] h = inl refl
other-Candidates params (d ∷ ds) h = ground arith

mode-Candidates :
    (c : Capability) (mode : Mode) (allowed : List String) (params : List (String × String))
    (candidates : List Datastore)
    → resolve_mode c mode allowed params candidates ≡ accepted shared_fs
    → (c.block ≡ false) × ((candidates ≡ []) ⊎ (some_elem (has_backend "cephfs") candidates ≡ true))
unfolding resolve_mode
mode-Candidates c mode allowed params candidates h =
    ground (arith, shared-Candidates mode allowed candidates, other-Candidates params candidates)

every_candidate :
    (ds : List Datastore)
    → validate_no_mixed false false ds ≡ none
    → (ds ≡ []) ⊎ (some_elem (has_backend "cephfs") ds ≡ true)
    → All (λ d. has_backend "cephfs" d ≡ true) ds
every_candidate [] pure which = tt
every_candidate (d ∷ ds) pure (inl empty) = cc
every_candidate (d ∷ ds) pure (inr one) = (unmixed false false (d ∷ ds) pure (inr one)).1

-- A capability is served from a shared file system only if it is for a filesystem and every candidate
-- datastore is on CephFS.
pub resolve-shared_fs :
    (c : Capability) (allowed : List String) (params : List (String × String))
    (candidates : List Datastore)
    → resolve_volume_access_model (some c) allowed params candidates ≡ accepted shared_fs
    → (c.block ≡ false) × All (λ d. has_backend "cephfs" d ≡ true) candidates
unfolding resolve_volume_access_model
resolve-shared_fs c allowed params candidates h = elim (Option-cases c.mode) [
  | inl missing ↦ absurd (not_accepted (rw missing at h))
  | inr (mode, e) ↦ elim (Option-cases (validate_no_mixed false false candidates)) [
    | inr (error, mixed) ↦ absurd (not_accepted (rw (e, mixed) at h))
    | inl pure ↦
        let (filesystem, which) =
          mode-Candidates c mode allowed params candidates (rw (e, pure) at h) in
        (filesystem, every_candidate candidates pure which)
  ]
]

-- The test of `GetBackendCapabilityProfile` on a normalized type.
rwx-choice :
    (is_ceph is_ceph_fs : Bool)
    → let p =
        if is_ceph
        then disk_capabilities ceph
        else (if is_ceph_fs then ceph_fs_capabilities else disk_capabilities local) in
      p.filesystem_rwx ≡ str_eq "cephfs" (backend_name p.backend)
rwx-choice true b = refl
rwx-choice false true = refl
rwx-choice false false = refl

abbrev pub is_rwx : String → Bool
is_rwx backend = (get_backend_capability_profile backend).filesystem_rwx

abbrev name_of : String → String
name_of backend = backend_name (get_backend_capability_profile backend).backend

-- Profiles with one name agree.
rwx-name : (backend : String) → is_rwx backend ≡ str_eq "cephfs" (name_of backend)
unfolding get_backend_capability_profile
rwx-name backend =
    rwx-choice (str_eq (normalize_allowed_datastore_type backend) "ceph")
      (str_eq (normalize_allowed_datastore_type backend) "cephfs")

same_seen :
    (b : String) (seen : List String)
    → is_rwx b ≡ true
    → some_elem (str_eq (name_of b)) seen ≡ some_elem (str_eq "cephfs") seen
same_seen b seen h =
    ap (λ n. some_elem (str_eq n) seen)
      (sym ((eq_iff "cephfs" (name_of b)).0 (sym (rwx-name b) ∙ h)))

profiles_of-rwx :
    (seen backends : List String)
    → (some_elem (str_eq "cephfs") seen
        || some_elem (λ p. p.filesystem_rwx) (profiles_of seen backends))
      ≡ (some_elem (str_eq "cephfs") seen || some_elem is_rwx backends)
unfolding profiles_of
profiles_of-rwx seen [] = refl
profiles_of-rwx seen (b ∷ bs) = elim (Bool-cases (some_elem (str_eq (name_of b)) seen)) [
  | inl known ↦ rw known (ground (arith, profiles_of-rwx seen bs, same_seen b seen))
  | inr new ↦ rw new (ground (arith, profiles_of-rwx (name_of b ∷ seen) bs, rwx-name b))
]

-- Whether some backend of the allowed ones, or of all if none is named, can be shared.
abbrev pub serves_rwx : List String → Bool
serves_rwx allowed = is_empty allowed || some_elem is_rwx allowed

default_serves : some_elem is_rwx ("local" ∷ "ceph" ∷ "cephfs" ∷ []) ≡ true
unfolding get_backend_capability_profile normalize_allowed_datastore_type trim_space is_space
    to_lower lookup
default_serves = refl

profiles-rwx :
    (allowed : List String)
    → some_elem (λ p. p.filesystem_rwx) (backend_capability_profiles allowed) ≡ serves_rwx allowed
unfolding backend_capability_profiles
profiles-rwx [] = profiles_of-rwx [] ("local" ∷ "ceph" ∷ "cephfs" ∷ []) ∙ default_serves
profiles-rwx (b ∷ bs) = profiles_of-rwx [] (b ∷ bs)

-- A capability is fine if it has a mode of one node or of readers, or a shared mode of a filesystem
-- that some allowed backend serves.
unfoldable pub acceptable : List String → Capability → Bool
acceptable allowed c = elim c.mode [
  | none ↦ false
  | some m ↦
      is_supported m || (is_shared_filesystem_access_mode m && not c.block && serves_rwx allowed)
]

shared-resolved :
    (m : Mode) (block : Bool) (allowed : List String)
    → is_shared_filesystem_access_mode m ≡ true
    → is_some (
        error_of (
          resolve_volume_access_model
            (some (record { mode = some m; block = block }))
            allowed
            []
            []))
      ≡ not (not block && serves_rwx allowed)
unfolding resolve_volume_access_model resolve_mode resolve_shared validate_no_mixed
    any_candidate_backend
shared-resolved m true allowed h = rw h refl
shared-resolved m false allowed h = rw h (elim (Bool-cases (serves_rwx allowed)) [
  | inl yes_rwx ↦ rw (profiles-rwx allowed ∙ yes_rwx) (rw yes_rwx refl)
  | inr other ↦ rw (profiles-rwx allowed ∙ other) (rw other refl)
])

validate_one-acceptable :
    (allowed : List String) (m : Option Mode) (block : Bool)
    → let c : Capability = record { mode = m; block = block } in
      is_some (validate_one allowed c) ≡ not (acceptable allowed c)
unfolding validate_one acceptable
validate_one-acceptable allowed none block = refl
validate_one-acceptable allowed (some m) block = ground (arith, shared-resolved m block allowed)

not-false : {b : Bool} → not b ≡ false → b ≡ true
not-false h = ground arith

not-true : {b : Bool} → not b ≡ true → b ≡ false
not-true h = ground arith

-- `validateAccessMode` lets capabilities pass exactly if each has a mode that is supported, or has
-- a shared mode, is for a filesystem, and some allowed backend, any if none is named, can be
-- shared.
pub validate_access_mode-acceptable :
    (cs : List Capability) (allowed : List String)
    → is_some (validate_access_mode cs allowed) ≡ not (every_elem (acceptable allowed) cs)
unfolding validate_access_mode
validate_access_mode-acceptable [] allowed = refl
validate_access_mode-acceptable (c ∷ cs) allowed =
    let one = validate_one-acceptable allowed c.mode c.block in
    let rest = validate_access_mode-acceptable cs allowed in
    elim (Option-cases (validate_one allowed c)) [
      | inl fine ↦
          let good : acceptable allowed c ≡ true = not-false (sym one ∙ ap is_some fine) in
          rw (fine, good, is_some) rest
      | inr (e, wrong) ↦
          let bad : acceptable allowed c ≡ false = not-true (sym one ∙ ap is_some wrong) in
          rw (wrong, bad, is_some) refl
    ]

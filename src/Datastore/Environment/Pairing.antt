-- ===== src/Datastore/Environment/Pairing.antt =====
-- The datastores that inspectAttachmentEnvironment of pkg/csi/opennebula/persistentdisk.go finds, what
-- the image's datastore allows, and what the machine's is driven by.
use storage_provider_openneb.Prelude.{
  ◌≡◌, refl, sym, ◌∙◌, String, str_eq, eq_iff, true, List, [], ◌∷◌, none, some, inl, inr, ◌⊎◌,
  Bool-cases, arith, some-eq, some_elem, ap,
}
use storage_provider_openneb.Prelude.Int.{ℤ, eq_ℤ, eq_ℤ-iff}
use storage_provider_openneb.Golang.Text.{trim_space, fields}
use storage_provider_openneb.Golang.Cases.{to_lower}
use storage_provider_openneb.Datastore.Candidates.{Listed}
use storage_provider_openneb.Datastore.Kinds.{Schema, get_datastore_attribute}
use storage_provider_openneb.Datastore.Environment.{
  EnvironmentError, DeploymentMode, unknown_mode, ceph_mode, ssh_mode, resolve_deployment_mode,
  ends_with_ssh, find_datastore_by_id, validate_compatible_system_datastore, allows, read_ids,
  replace_separators,
}

-- The image's datastore names no compatible ones, or names this one among them.
abbrev pub Compatible : Schema → ℤ → Type 0
Compatible image id =
    (trim_space (get_datastore_attribute image "COMPATIBLE_SYS_DS") ≡ "")
    ⊎ ((ids : List ℤ) × (read_ids
            (fields (replace_separators (get_datastore_attribute image "COMPATIBLE_SYS_DS")))
          ≡ inr ids)
        × ((ids ≡ []) ⊎ (some_elem (eq_ℤ id) ids ≡ true)))

allowed-among :
    (id : ℤ) (o : EnvironmentError ⊎ List ℤ)
    → allows id o ≡ none
    → (ids : List ℤ) × (o ≡ inr ids) × ((ids ≡ []) ⊎ (some_elem (eq_ℤ id) ids ≡ true))
allowed-among id (inl e) h = absurd cc
allowed-among id (inr []) h = ([], refl, inl refl)
allowed-among id (inr (j ∷ js)) h = elim (Bool-cases (some_elem (eq_ℤ id) (j ∷ js))) [
  | inl among ↦ (j ∷ js, refl, inr among)
  | inr apart ↦ absurd (ground (arith, apart, h))
]

pub Compatible-of :
    (image : Schema) (id : ℤ)
    → validate_compatible_system_datastore image id ≡ none
    → Compatible image id
unfolding validate_compatible_system_datastore
Compatible-of image id h =
    let raw = get_datastore_attribute image "COMPATIBLE_SYS_DS" in
    elim (Bool-cases (str_eq (trim_space raw) "")) [
      | inl blank ↦ inl ((eq_iff (trim_space raw) "").0 blank)
      | inr given ↦
          inr (allowed-among id (read_ids (fields (replace_separators raw))) (rw given at h))
    ]

-- The datastore is of the list and has this ID.
abbrev pub Found : List Schema → ℤ → Schema → Type 0
Found pool id s = Listed s pool × (s.id ≡ id)

pub find-Found :
    (pool : List Schema) (id : ℤ) (s : Schema)
    → find_datastore_by_id pool id ≡ some s
    → Found pool id s
unfolding find_datastore_by_id
find-Found [] id s h = absurd cc
find-Found (d ∷ ds) id s h = elim (Bool-cases (eq_ℤ d.id id)) [
  | inl here ↦
      let same : d ≡ s = some-eq (rw here at h) in
      (inl (sym same), ap (λ (x : Schema). x.id) (sym same) ∙ (eq_ℤ-iff d.id id).0 here)
  | inr later ↦ let (l, e) = find-Found ds id s (rw later at h) in (inr l, e)
]

-- What the transfer driver of the machine's datastore is, for its deployment mode.
abbrev pub Drives : String → DeploymentMode → Type 0
Drives tm unknown_mode = Unit
Drives tm ceph_mode = tm ≡ "ceph"
Drives tm ssh_mode = (tm ≡ "ssh") ⊎ (ends_with_ssh tm ≡ true)

pub Drives-resolve :
    (system : Schema)
    → Drives (to_lower (trim_space system.tm_mad)) (resolve_deployment_mode system)
unfolding resolve_deployment_mode
Drives-resolve system =
    let tm = to_lower (trim_space system.tm_mad) in
    elim (Bool-cases (str_eq tm "ceph")) [
      | inl ceph ↦ rw ceph ((eq_iff tm "ceph").0 ceph)
      | inr other ↦ elim (Bool-cases (str_eq tm "ssh")) [
        | inl ssh ↦ rw (other, ssh) (inl ((eq_iff tm "ssh").0 ssh))
        | inr neither ↦ elim (Bool-cases (ends_with_ssh tm)) [
          | inl ends ↦ rw (other, neither, ends) (inr ends)
          | inr unknown ↦ rw (other, neither, unknown) tt
        ]
      ]
    ]

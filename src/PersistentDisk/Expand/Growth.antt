-- ===== src/PersistentDisk/Expand/Growth.antt =====
-- What a successful ExpandVolume of pkg/csi/opennebula/persistentdisk.go reports.
use storage_provider_openneb.Prelude.{
  ◌≡◌, Bool, true, String, List, [], ◌∷◌, map, Option, none, some, ◌⊎◌, inl, inr, arith, Bool-cases,
  Option-cases, subst,
}
use storage_provider_openneb.Prelude.Int.{ℤ, pos, ltb_ℤ, leb_ℤ, eq_ℤ, eq_ℤ-iff, ◌≤ℤ◌, ◌<ℤ◌}
use storage_provider_openneb.Golang.Answer.{Answer, failed, answered}
use storage_provider_openneb.PersistentDisk.Wait.{wait_for_resource_status}
use storage_provider_openneb.PersistentDisk.Sizes.{bytes_to_mib_round_up}
use storage_provider_openneb.PersistentDisk.Expand.{
  Calls, ExpandError, Found, FindError, persisted, has_grown, completed_size, reported,
  await_growth, despite_error, expand_attached, expand_found, expand_existing, expand_volume,
  find_attached_volume_disk,
}

-- An error, or a size that is enough.
Enough : ℤ → ExpandError ⊎ ℤ → Type 0
Enough size (inl e) = Unit
Enough size (inr n) = size ≤ℤ n

Enough-error : (size : ℤ) (e : ExpandError) → Enough size (inl e)
unfolding Enough
Enough-error size e = tt

Enough-persisted : (size n : ℤ) (o : Option String) → size ≤ℤ n → Enough size (persisted o n)
unfolding Enough
Enough-persisted size n none h = h
Enough-persisted size n (some e) h = tt

completed-grown :
    (size : ℤ) (checks : List (Answer ℤ))
    → wait_for_resource_status (map (has_grown size) checks) ≡ none
    → size ≤ℤ completed_size size checks
unfolding wait_for_resource_status completed_size
completed-grown size [] h = absurd cc
completed-grown size (failed e ∷ checks) h = absurd cc
completed-grown size (answered now ∷ checks) h = ground (arith, completed-grown size checks)

Enough-await : (c : Calls) (size : ℤ) → pos 0 <ℤ size → Enough size (await_growth c size)
Enough-await c size positive =
    elim (Option-cases (wait_for_resource_status (map (has_grown size) c.sizes))) [
      | inr (e, late) ↦ rw (await_growth, late) (Enough-error size _)
      | inl done ↦
          let grown = completed-grown size c.sizes done in
          rw (await_growth, done)
            (Enough-persisted size (reported size (completed_size size c.sizes)) c.persist
              (ground (arith, grown, eq_ℤ-iff (completed_size size c.sizes) (pos 0))))
    ]

Enough-despite :
    (c : Calls) (size : ℤ) (e : String) (o : Answer ℤ) → Enough size (despite_error c size e o)
Enough-despite c size e (failed f) = Enough-error size _
Enough-despite c size e (answered now) = elim (Bool-cases (leb_ℤ size now)) [
  | inl grown ↦ rw (despite_error, grown) (Enough-persisted size now c.persist (ground arith))
  | inr small ↦ rw (despite_error, small) (Enough-error size _)
]

Enough-attached :
    (c : Calls) (size : ℤ) (f : Found) → pos 0 <ℤ size → Enough size (expand_attached c size f)
Enough-attached c size f positive = elim (Bool-cases (leb_ℤ size f.size_bytes)) [
  | inl big ↦
      rw (expand_attached, big) (Enough-persisted size f.size_bytes c.persist (ground arith))
  | inr small ↦ elim (Option-cases (c.resize f.vm_id f.disk_id (bytes_to_mib_round_up size))) [
    | inl done ↦ rw (expand_attached, small, done) (Enough-await c size positive)
    | inr (e, refused) ↦
        rw (expand_attached, small, refused) (Enough-despite c size e c.size_after_error)
  ]
]

Enough-found :
    (c : Calls) (size : ℤ) (allow : Bool) (o : FindError ⊎ Option Found)
    → pos 0 <ℤ size
    → Enough size (expand_found c size allow o)
Enough-found c size allow (inl e) positive = Enough-error size _
Enough-found c size allow (inr none) positive = Enough-error size _
Enough-found c size allow (inr (some f)) positive = Enough-attached c size f positive

Enough-current : (size current : ℤ) → eq_ℤ size current ≡ true → Enough size (inr current)
unfolding Enough
Enough-current size current same =
    let e : size ≡ current = (eq_ℤ-iff size current).0 same in rw e (omega arith)

Enough-existing :
    (c : Calls) (size : ℤ) (allow : Bool) (o : Answer (ℤ × ℤ))
    → pos 0 <ℤ size
    → Enough size (expand_existing c size allow o)
Enough-existing c size allow (failed e) positive = Enough-error size _
Enough-existing c size allow (answered (id, current)) positive =
    elim (Bool-cases (ltb_ℤ size current)) [
      | inl less ↦ rw (expand_existing, less) (Enough-error size _)
      | inr grows ↦ elim (Bool-cases (eq_ℤ size current)) [
        | inl same ↦ rw (expand_existing, grows, same) (Enough-current size current same)
        | inr more ↦
            rw (expand_existing, grows, more)
              (Enough-found c size allow (find_attached_volume_disk c.machines id) positive)
      ]
    ]

-- When ExpandVolume succeeds, the size that it reports is not below the one asked for, whichever of
-- its branches it takes: the volume has the size already, or its disk does, or the disk is resized and
-- seen with the size, after an error of the resize too.
pub expand_volume-Enough :
    (c : Calls) (size : ℤ) (allow : Bool) (n : ℤ) → expand_volume c size allow ≡ inr n → size ≤ℤ n
unfolding Enough expand_volume
expand_volume-Enough c size allow n h = elim (Bool-cases (leb_ℤ size (pos 0))) [
  | inl small ↦ absurd (ground (arith, h, small))
  | inr positive ↦
      let same : expand_existing c size allow c.exists ≡ inr n = ground (arith, h, positive) in
      subst (Enough size) same (Enough-existing c size allow c.exists (ground arith))
]

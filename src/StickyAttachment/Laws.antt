-- ===== src/StickyAttachment/Laws.antt =====
-- What pkg/csi/driver/sticky_attachment.go keeps when a write fails, and what it lists.
use mathlib.Core.List.{Perm}
use mathlib.Core.List.Perm
use storage_provider_openneb.Prelude.{
  ℕ, ◌≡◌, ◌↔◌, ◌≤◌, refl, subst, sym, ◌∙◌, ◌⊎◌, String, str_eq, true, false, List, [], ◌∷◌, none,
  some, arith, inl, inr, if◌then◌else◌, Option-cases, eq_iff, Bool-cases,
}
use storage_provider_openneb.Prelude.Keys.{
  lookup, insert, delete, lookup-insert, lookup-delete, string_key, lookup-insert_self, key-cases,
}
use storage_provider_openneb.Golang.Clock.{Time, after}
use storage_provider_openneb.Golang.Text.{trim_space, str_lt, str_lt_asymm}
use storage_provider_openneb.StickyAttachment.{
  StickyState, Entries, is_blank, get, start_grace, update, store_failed, list_expired,
  list_by_reason, with_reason, place, sort_by_volume,
}

lookup-undone :
    (entries : Entries) (v id : String) (state : StickyState)
    → lookup id (delete v (insert v state entries))
      ≡ (if str_eq v id then none else lookup id entries)
lookup-undone entries v id state =
    ground (arith, lookup-delete v id (insert v state entries), lookup-insert v id state entries)

if_absent :
    (entries : Entries) (v id : String)
    → lookup v entries ≡ none
    → (if str_eq v id then none else lookup id entries) ≡ lookup id entries
if_absent entries v id absent = elim (key-cases v id) [
  | inl same ↦ rw (← same) (ground arith)
  | inr other ↦ ground (arith, eq_iff v id)
]

lookup-restored :
    (entries : Entries) (v id : String) (state previous : StickyState)
    → lookup v entries ≡ some previous
    → lookup id (insert v previous (insert v state entries)) ≡ lookup id entries
lookup-restored entries v id state previous here = elim (key-cases v id) [
  | inl same ↦ rw (← same) (lookup-insert_self v previous _ ∙ sym here)
  | inr other ↦ ground (
    arith,
    lookup-insert v id previous (insert v state entries),
    lookup-insert v id state entries,
    eq_iff v id,
  )
]

-- An entry of the list; a value of the map.
abbrev pub Listed : StickyState → List StickyState → Type 0
Listed x [] = ⊥
Listed x (y ∷ ys) = (x ≡ y) ⊎ Listed x ys

abbrev pub Stored : StickyState → Entries → Type 0
Stored x [] = ⊥
Stored x ((id, y) ∷ ys) = (x ≡ y) ⊎ Stored x ys

-- An `Update` of a named volume whose write fails changes no entry and returns the error.
pub update_failed :
    (entries : Entries) (state : StickyState) (e id : String)
    → is_blank state.volume_id ≡ false
    → (get (update entries state (some e)).0 id ≡ get entries id)
      × ((update entries state (some e)).1 ≡ some (store_failed e))
unfolding update get
update_failed entries state e id named = elim (Option-cases (lookup state.volume_id entries)) [
  | inl absent ↦
      rw (named, absent)
        (
          lookup-undone entries state.volume_id id state
              ∙ if_absent entries state.volume_id id absent,
          refl,
        )
  | inr (previous, here) ↦
      rw (named, here) (lookup-restored entries state.volume_id id state previous here, refl)
]

-- A `StartGrace` of a named volume whose write fails drops the volume's entry, an older one too,
-- changes no other, and returns the error.
start_grace_failed :
    (entries : Entries) (state : StickyState) (e id : String)
    → is_blank state.volume_id ≡ false
    → (get (start_grace entries state (some e)).0 id
        ≡ (if str_eq state.volume_id id then none else get entries id))
      × ((start_grace entries state (some e)).1 ≡ some (store_failed e))
unfolding start_grace get
start_grace_failed entries state e id named =
    rw named (lookup-undone entries state.volume_id id state, refl)

not_after : {a b : ℕ} → after a b ≡ true → a ≤ b → ⊥
not_after h l = ground arith

-- `ListExpired` lists an entry exactly if it is stored and its end is not after `now`.
pub list_expired_iff :
    (entries : Entries) (now : Time) (x : StickyState)
    → Listed x (list_expired entries now) ↔ (Stored x entries × (x.expires_at ≤ now))
unfolding list_expired
list_expired_iff [] now x = (λ h. elim h [ ], λ h. elim h.0 [ ])
list_expired_iff ((id, entry) ∷ rest) now x = elim (Bool-cases (after entry.expires_at now)) [
  | inl live ↦ rw live (
    λ h. let k = (list_expired_iff rest now x).0 h in (inr k.0, k.1),
    λ h. elim h.0 [
      | inl same ↦ absurd (not_after live (subst (λ y. y.expires_at ≤ now) same h.1))
      | inr more ↦ (list_expired_iff rest now x).1 (more, h.1)
    ],
  )
  | inr over ↦ rw over (
    λ h. elim h [
      | inl same ↦ (inl same, subst (λ y. y.expires_at ≤ now) (sym same) (ground arith))
      | inr more ↦ let k = (list_expired_iff rest now x).0 more in (inr k.0, k.1)
    ],
    λ h. elim h.0 [
      | inl same ↦ inl same
      | inr more ↦ inr ((list_expired_iff rest now x).1 (more, h.1))
    ],
  )
]

perm_place : (x : StickyState) (ys : List StickyState) → Perm (place x ys) (x ∷ ys)
unfolding place
perm_place x [] = Perm.refl (x ∷ [])
perm_place x (y ∷ ys) = elim (Bool-cases (str_lt y.volume_id x.volume_id)) [
  | inl before ↦ rw before (Perm.trans (Perm.cons y (perm_place x ys)) (Perm.swap x y ys))
  | inr other ↦ rw other (Perm.refl (x ∷ y ∷ ys))
]

perm_sort : (xs : List StickyState) → Perm (sort_by_volume xs) xs
unfolding sort_by_volume
perm_sort [] = Perm.refl []
perm_sort (x ∷ xs) = Perm.trans (perm_place x (sort_by_volume xs)) (Perm.cons x (perm_sort xs))

-- No state stands before one of a lesser volume.
abbrev pub IsSorted : List StickyState → Type 0
IsSorted [] = Unit
IsSorted (x ∷ []) = Unit
IsSorted (x ∷ y ∷ ys) = (str_lt y.volume_id x.volume_id ≡ false) × IsSorted (y ∷ ys)

IsSorted-place : (x : StickyState) (ys : List StickyState) → IsSorted ys → IsSorted (place x ys)
unfolding place
IsSorted-place x [] h = tt
IsSorted-place x (y ∷ []) h = ground (arith, str_lt_asymm y.volume_id x.volume_id)
IsSorted-place x (y ∷ z ∷ zs) h =
    ground (arith, str_lt_asymm y.volume_id x.volume_id, IsSorted-place x (z ∷ zs) h.1)

IsSorted-sort : (xs : List StickyState) → IsSorted (sort_by_volume xs)
unfolding sort_by_volume
IsSorted-sort [] = tt
IsSorted-sort (x ∷ xs) = IsSorted-place x (sort_by_volume xs) (IsSorted-sort xs)

-- `ListByReason` lists just the entries whose trimmed reason is the trimmed argument, each as often
-- as it is stored, and in the order of their volumes.
pub list_by_reason-perm :
    (entries : Entries) (reason : String)
    → Perm (list_by_reason entries reason) (with_reason entries (trim_space reason))
      × IsSorted (list_by_reason entries reason)
unfolding list_by_reason
list_by_reason-perm entries reason =
    let listed = with_reason entries (trim_space reason) in (perm_sort listed, IsSorted-sort listed)

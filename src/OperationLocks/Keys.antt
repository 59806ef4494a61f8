-- ===== src/OperationLocks/Keys.antt =====
-- What normalizeLockKeys of pkg/csi/driver/operation_locks.go returns.
use storage_provider_openneb.Prelude.{
  ◌≡◌, ◌∙◌, refl, ap, Bool, not, ◌&&◌, if◌then◌else◌, String, str_eq, eq_iff, true, false, List, [],
  ◌∷◌, arith, Bool-cases, inl, inr, some_elem,
}
use storage_provider_openneb.Golang.StringOrder.{
  Ascending, AllDiffer, Differs, Ascending-sort, place, sort_strings,
}
use storage_provider_openneb.OperationLocks.{key_set, normalize_lock_keys}

absent-Differs : (k : String) (ks : List String) → some_elem (str_eq k) ks ≡ false → Differs k ks
absent-Differs k [] h = tt
absent-Differs k (j ∷ js) h = elim (Bool-cases (str_eq k j)) [
  | inl same ↦ ground arith
  | inr apart ↦ (λ e. ground (arith, (eq_iff k j).1 e), absent-Differs k js (ground arith))
]

AllDiffer-key_set : (keys : List String) → AllDiffer (key_set keys)
unfolding key_set
AllDiffer-key_set [] = tt
AllDiffer-key_set (k ∷ ks) = ground (arith, AllDiffer-key_set ks, absent-Differs k (key_set ks))

some_elem-place :
    (p : String → Bool) (k : String) (ks : List String)
    → some_elem p (place k ks) ≡ some_elem p (k ∷ ks)
some_elem-place p k [] = refl
some_elem-place p k (j ∷ js) = ground (arith, some_elem-place p k js)

some_elem-sort :
    (p : String → Bool) (ks : List String) → some_elem p (sort_strings ks) ≡ some_elem p ks
unfolding sort_strings
some_elem-sort p [] = refl
some_elem-sort p (k ∷ ks) =
    some_elem-place p k (sort_strings ks) ∙ ap (λ b. if p k then true else b) (some_elem-sort p ks)

-- The key is in the list.
abbrev pub has_key : String → List String → Bool
has_key k ks = some_elem (str_eq k) ks

has_key-key_set :
    (k : String) (keys : List String)
    → has_key k (key_set keys) ≡ (not (str_eq k "") && has_key k keys)
unfolding key_set
has_key-key_set k [] = ground arith
has_key-key_set k (j ∷ js) =
    ground (arith, has_key-key_set k js, eq_iff k j, eq_iff j "", eq_iff k "")

-- The keys that Acquire locks, one after the other: they are in strictly ascending order, so that no
-- key is locked twice, and a key is among them exactly if it was given and is not empty.
pub Ascending-normalize :
    (keys : List String) (k : String)
    → Ascending (normalize_lock_keys keys)
      × (has_key k (normalize_lock_keys keys) ≡ (not (str_eq k "") && has_key k keys))
unfolding normalize_lock_keys
Ascending-normalize keys k = (
  Ascending-sort (key_set keys) (AllDiffer-key_set keys),
  some_elem-sort (str_eq k) (key_set keys) ∙ has_key-key_set k keys,
)

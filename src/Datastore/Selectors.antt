-- ===== src/Datastore/Selectors.antt =====
-- The selection policies of pkg/csi/opennebula/datastore.go: how eligible datastores are ordered.
use mathlib.Core.List.{Perm}
use mathlib.Core.List.Perm
use storage_provider_openneb.Prelude.{
  ◌≡◌, refl, subst, ap, ◌⊎◌, String, str_eq, true, false, List, [], ◌∷◌, arith, if◌then◌else◌, All,
  inl, inr, Bool-cases, keep,
}
use storage_provider_openneb.Prelude.Int.{ℤ, ltb_ℤ, eq_ℤ, ◌≤ℤ◌}
use storage_provider_openneb.Golang.Text.{trim_space}
use storage_provider_openneb.Golang.Cases.{to_lower}
use storage_provider_openneb.Datastore.Backend.{unsupported_policy}
use storage_provider_openneb.Golang.Clock.{Time}
use storage_provider_openneb.Datastore.Resolve.{Datastore, Result, ok, err}
use storage_provider_openneb.Datastore.Runtime.{Runtime}
use storage_provider_openneb.Datastore.Autopilot.{Float64, autopilot_sort, autopilot_sort-perm}

-- `NormalizeDatastoreSelectionPolicy`; `unknown` carries the text that is kept.
pub data Policy : Type 0 where
  least_used ordered autopilot : Policy
  unknown : String → Policy

unfoldable pub normalize_datastore_selection_policy : String → Policy
normalize_datastore_selection_policy policy =
    let p = to_lower (trim_space policy) in
    if str_eq p ""
    then least_used
    else (if str_eq p "least-used"
        then least_used
        else (if str_eq p "ordered"
            then ordered
            else (if str_eq p "autopilot" then autopilot else unknown p)))

-- `sort.SliceStable`, with more free bytes first: an element goes before the first with less.
unfoldable pub place : Datastore → List Datastore → List Datastore
place x [] = x ∷ []
place x (y ∷ ys) = if ltb_ℤ x.free_bytes y.free_bytes then y ∷ place x ys else x ∷ y ∷ ys

unfoldable pub sort_least_used : List Datastore → List Datastore
unfolding place
sort_least_used [] = []
sort_least_used (x ∷ xs) = place x (sort_least_used xs)

-- `NewDatastoreSelector` and `OrderDatastores`, with what is left of the autopilot's runtime.
unfoldable pub order_datastores :
    Float64 → Runtime → Time → List Datastore → Policy → Result (Runtime × List Datastore)
unfolding sort_least_used
order_datastores f r now candidates least_used = ok (r, sort_least_used candidates)
order_datastores f r now candidates ordered = ok (r, candidates)
order_datastores f r now candidates autopilot = ok (autopilot_sort f r now candidates)
order_datastores f r now candidates (unknown p) = err (unsupported_policy p)

place-perm : (x : Datastore) (ys : List Datastore) → Perm (place x ys) (x ∷ ys)
unfolding place
place-perm x [] = Perm.refl (x ∷ [])
place-perm x (y ∷ ys) = elim (Bool-cases (ltb_ℤ x.free_bytes y.free_bytes)) [
  | inl less ↦ rw less (Perm.trans (Perm.cons y (place-perm x ys)) (Perm.swap x y ys))
  | inr other ↦ rw other (Perm.refl (x ∷ y ∷ ys))
]

sort-perm : (xs : List Datastore) → Perm (sort_least_used xs) xs
unfolding sort_least_used
sort-perm [] = Perm.refl []
sort-perm (x ∷ xs) = Perm.trans (place-perm x (sort_least_used xs)) (Perm.cons x (sort-perm xs))

-- Free bytes fall along the list.
abbrev pub IsSorted : List Datastore → Type 0
IsSorted [] = Unit
IsSorted (x ∷ xs) = All (λ y. y.free_bytes ≤ℤ x.free_bytes) xs × IsSorted xs

All-le_trans :
    (x y : Datastore) (zs : List Datastore)
    → y.free_bytes ≤ℤ x.free_bytes
    → All (λ z. z.free_bytes ≤ℤ y.free_bytes) zs
    → All (λ z. z.free_bytes ≤ℤ x.free_bytes) zs
All-le_trans x y [] h hs = tt
All-le_trans x y (z ∷ zs) h hs = (omega arith, All-le_trans x y zs h hs.1)

All-place :
    (w x : Datastore) (ys : List Datastore)
    → x.free_bytes ≤ℤ w.free_bytes
    → All (λ z. z.free_bytes ≤ℤ w.free_bytes) ys
    → All (λ z. z.free_bytes ≤ℤ w.free_bytes) (place x ys)
unfolding place
All-place w x [] h hs = (h, tt)
All-place w x (y ∷ ys) h hs = ground (arith, All-place w x ys h hs.1)

place-IsSorted : (x : Datastore) (ys : List Datastore) → IsSorted ys → IsSorted (place x ys)
unfolding place
place-IsSorted x [] h = (tt, tt)
place-IsSorted x (y ∷ ys) h = elim (Bool-cases (ltb_ℤ x.free_bytes y.free_bytes)) [
  | inl less ↦ rw less (All-place y x ys (ground arith) h.0, place-IsSorted x ys h.1)
  | inr other ↦ rw other ((ground arith, All-le_trans x y ys (ground arith) h.0), h)
]

sort-IsSorted : (xs : List Datastore) → IsSorted (sort_least_used xs)
unfolding sort_least_used
sort-IsSorted [] = tt
sort-IsSorted (x ∷ xs) = place-IsSorted x (sort_least_used xs) (sort-IsSorted xs)

-- The datastores with as many free bytes.
abbrev pub with_free : ℤ → List Datastore → List Datastore
with_free n = keep (λ d. eq_ℤ d.free_bytes n)

not_less : (x y n : ℤ) → ltb_ℤ x y ≡ true → eq_ℤ x n ≡ true → eq_ℤ y n ≡ false
not_less x y n l e = ground arith

place-with_free :
    (n : ℤ) (x : Datastore) (ys : List Datastore) → with_free n (place x ys) ≡ with_free n (x ∷ ys)
unfolding place
place-with_free n x [] = refl
place-with_free n x (y ∷ ys) =
    ground (arith, place-with_free n x ys, not_less x.free_bytes y.free_bytes n)

sort-with_free : (n : ℤ) (xs : List Datastore) → with_free n (sort_least_used xs) ≡ with_free n xs
unfolding sort_least_used
sort-with_free n [] = refl
sort-with_free n (x ∷ xs) =
    ground (arith, place-with_free n x (sort_least_used xs), sort-with_free n xs)

ok-eq {ℓ} : {A : Type ℓ} {a b : A} → ok a ≡ ok b → a ≡ b
ok-eq h = cc

-- The least-used policy reorders the candidates by falling free bytes, and keeps the given order among
-- those with as many.
pub order-least_used :
    (f : Float64) (r r' : Runtime) (now : Time) (candidates sorted : List Datastore)
    → order_datastores f r now candidates least_used ≡ ok (r', sorted)
    → Perm sorted candidates
      × IsSorted sorted
      × ((n : ℤ) → with_free n sorted ≡ with_free n candidates)
unfolding order_datastores
order-least_used f r r' now candidates sorted h =
    subst (λ s. Perm s candidates × IsSorted s × ((n : ℤ) → with_free n s ≡ with_free n candidates))
      (ap (λ x. x.1) (ok-eq h))
      (sort-perm candidates, sort-IsSorted candidates, λ n. sort-with_free n candidates)

-- Whatever the policy, the float64 arithmetic and the state of the runtime: either the policy is
-- unknown and is the error, or each datastore is offered as often as it is a candidate.
pub order-perm :
    (f : Float64) (r : Runtime) (now : Time) (candidates : List Datastore) (policy : Policy)
    → ((p : String) × (policy ≡ unknown p)
        × (order_datastores f r now candidates policy ≡ err (unsupported_policy p)))
      ⊎ ((r' : Runtime) × (sorted : List Datastore) × (order_datastores f r now candidates policy
            ≡ ok (r', sorted))
          × Perm sorted candidates)
unfolding order_datastores
order-perm f r now candidates least_used =
    inr (r, sort_least_used candidates, refl, sort-perm candidates)
order-perm f r now candidates ordered = inr (r, candidates, refl, Perm.refl candidates)
order-perm f r now candidates autopilot =
    let (r', sorted) = autopilot_sort f r now candidates in
    inr (r', sorted, refl, autopilot_sort-perm f r now candidates)
order-perm f r now candidates (unknown p) = inl (p, refl, refl)

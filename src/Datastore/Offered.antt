-- ===== src/Datastore/Offered.antt =====
-- What holds of every candidate holds of every datastore that `OrderDatastores` of
-- pkg/csi/opennebula/datastore.go offers.
use storage_provider_openneb.Prelude.{◌≡◌, Bool, List, [], ◌∷◌, inl, inr, Bool-cases, All, subst}
use storage_provider_openneb.Prelude.Int.{ltb_ℤ}
use storage_provider_openneb.Golang.Clock.{Time}
use storage_provider_openneb.Datastore.Resolve.{Datastore, Result, ok, err}
use storage_provider_openneb.Datastore.Runtime.{Runtime}
use storage_provider_openneb.Datastore.Autopilot.{Float64, place_by, sort_by, autopilot_sort}
use storage_provider_openneb.Datastore.Selectors.{
  Policy, least_used, ordered, autopilot, unknown, place, sort_least_used, order_datastores,
}

module _ (P : Datastore → Type 0) where
  All-place : (x : Datastore) (ys : List Datastore) → P x → All P ys → All P (place x ys)
  unfolding place
  All-place x [] p h = (p, tt)
  All-place x (y ∷ ys) p h = elim (Bool-cases (ltb_ℤ x.free_bytes y.free_bytes)) [
    | inl less ↦ rw less (h.0, All-place x ys p h.1)
    | inr other ↦ rw other (p, h)
  ]

  All-sort_least_used : (xs : List Datastore) → All P xs → All P (sort_least_used xs)
  unfolding sort_least_used
  All-sort_least_used [] h = tt
  All-sort_least_used (x ∷ xs) h = All-place x (sort_least_used xs) h.0 (All-sort_least_used xs h.1)

  All-place_by :
      (less : Datastore → Datastore → Bool) (x : Datastore) (ys : List Datastore)
      → P x
      → All P ys
      → All P (place_by less x ys)
  unfolding place_by
  All-place_by less x [] p h = (p, tt)
  All-place_by less x (y ∷ ys) p h = elim (Bool-cases (less y x)) [
    | inl before ↦ rw before (h.0, All-place_by less x ys p h.1)
    | inr other ↦ rw other (p, h)
  ]

  All-sort_by :
      (less : Datastore → Datastore → Bool) (xs : List Datastore)
      → All P xs
      → All P (sort_by less xs)
  unfolding sort_by
  All-sort_by less [] h = tt
  All-sort_by less (x ∷ xs) h = All-place_by less x (sort_by less xs) h.0 (All-sort_by less xs h.1)

  All-autopilot_sort :
      (f : Float64) (r : Runtime) (now : Time) (xs : List Datastore)
      → All P xs
      → All P (autopilot_sort f r now xs).1
  unfolding autopilot_sort
  All-autopilot_sort f r now [] h = h
  All-autopilot_sort f r now (d ∷ []) h = h
  All-autopilot_sort f r now (d ∷ e ∷ rest) h = All-sort_by _ (d ∷ e ∷ rest) h

  Offered : Result (Runtime × List Datastore) → Type 0
  Offered (err e) = Unit
  Offered (ok (r, sorted)) = All P sorted

  -- What every candidate satisfies, every datastore that is offered satisfies.
  pub All-order :
      (f : Float64) (r : Runtime) (now : Time) (candidates : List Datastore) (policy : Policy)
      (r' : Runtime) (sorted : List Datastore)
      → order_datastores f r now candidates policy ≡ ok (r', sorted)
      → All P candidates
      → All P sorted
  unfolding order_datastores Offered
  All-order f r now candidates policy r' sorted e h = subst Offered e (cases policy)
    where
      cases : (p : Policy) → Offered (order_datastores f r now candidates p)
      cases least_used = All-sort_least_used candidates h
      cases ordered = h
      cases autopilot = All-autopilot_sort f r now candidates h
      cases (unknown p) = tt

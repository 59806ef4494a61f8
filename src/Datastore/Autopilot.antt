-- ===== src/Datastore/Autopilot.antt =====
-- `autopilotDatastoreSelector` of pkg/csi/opennebula/selection_runtime.go: candidates by a score of their
-- free space, recent failures and attempts in flight.
use mathlib.Core.List.{Perm}
use mathlib.Core.List.Perm
use storage_provider_openneb.Prelude.{
  ℕ, Bool, false, List, [], ◌∷◌, none, some, if◌then◌else◌, Bool-cases, inl, inr,
}
use storage_provider_openneb.Prelude.Int.{ℤ, pos, ltb_ℤ}
use storage_provider_openneb.Prelude.Keys.{lookup, insert, int_key}
use storage_provider_openneb.Golang.Clock.{Time}
use storage_provider_openneb.Datastore.Resolve.{Datastore}
use storage_provider_openneb.Datastore.Runtime.{Runtime, snapshot}

-- Go's float64, as it is used here: `tenths n` is the constant n/10.
pub record Float64 : Type 1 where
  pub carrier : Type 0
  pub of_int : ℤ → carrier
  pub tenths : ℕ → carrier
  pub plus : carrier → carrier → carrier
  pub minus : carrier → carrier → carrier
  pub times : carrier → carrier → carrier
  pub over : carrier → carrier → carrier
  pub more : carrier → carrier → Bool
  pub same : carrier → carrier → Bool

-- `sort.SliceStable`: an element goes before the first that is not less than it.
unfoldable pub place_by :
    (Datastore → Datastore → Bool) → Datastore → List Datastore → List Datastore
place_by less x [] = x ∷ []
place_by less x (y ∷ ys) = if less y x then y ∷ place_by less x ys else x ∷ y ∷ ys

unfoldable pub sort_by : (Datastore → Datastore → Bool) → List Datastore → List Datastore
unfolding place_by
sort_by less [] = []
sort_by less (x ∷ xs) = place_by less x (sort_by less xs)

place_by-perm :
    (less : Datastore → Datastore → Bool) (x : Datastore) (ys : List Datastore)
    → Perm (place_by less x ys) (x ∷ ys)
unfolding place_by
place_by-perm less x [] = Perm.refl (x ∷ [])
place_by-perm less x (y ∷ ys) = elim (Bool-cases (less y x)) [
  | inl before ↦ rw before (Perm.trans (Perm.cons y (place_by-perm less x ys)) (Perm.swap x y ys))
  | inr other ↦ rw other (Perm.refl (x ∷ y ∷ ys))
]

sort_by-perm :
    (less : Datastore → Datastore → Bool) (xs : List Datastore) → Perm (sort_by less xs) xs
unfolding sort_by
sort_by-perm less [] = Perm.refl []
sort_by-perm less (x ∷ xs) =
    Perm.trans (place_by-perm less x (sort_by less xs)) (Perm.cons x (sort_by-perm less xs))

module _ (f : Float64) where
  -- The greatest value over the candidates, from 0.
  unfoldable pub greatest : (Datastore → ℤ) → f.carrier → List Datastore → f.carrier
  greatest value best [] = best
  greatest value best (d ∷ ds) =
      greatest value (if f.more (f.of_int (value d)) best then f.of_int (value d) else best) ds

  -- `n / best` if `best` is more than 0, and otherwise 0.
  abbrev pub share : ℤ → f.carrier → f.carrier
  share n best = if f.more best (f.tenths 0) then f.over (f.of_int n) best else f.tenths 0

  abbrev pub free_ratio : Datastore → f.carrier
  free_ratio d =
      if ltb_ℤ (pos 0) d.total_bytes
      then f.over (f.of_int d.free_bytes) (f.of_int d.total_bytes)
      else f.tenths 0

  -- `score.TotalScore`
  unfoldable pub total_score : (ℤ → ℕ) → (ℤ → ℕ) → List Datastore → Datastore → f.carrier
  unfolding greatest
  total_score failures in_flight all d =
      let most_free = greatest (λ x. x.free_bytes) (f.tenths 0) all in
      let most_failures = greatest (λ x. pos (failures x.id)) (f.tenths 0) all in
      let most_flying = greatest (λ x. pos (in_flight x.id)) (f.tenths 0) all in
      f.minus
        (f.minus
          (f.plus (f.times (free_ratio d) (f.tenths 4))
            (f.times (share d.free_bytes most_free) (f.tenths 3)))
          (f.times (share (pos (failures d.id)) most_failures) (f.tenths 2)))
        (f.times (share (pos (in_flight d.id)) most_flying) (f.tenths 1))

  -- `scoreByID`
  unfoldable pub score_by_id :
      (Datastore → f.carrier) → List (ℤ × f.carrier) → List Datastore → List (ℤ × f.carrier)
  score_by_id score m [] = m
  score_by_id score m (d ∷ ds) = score_by_id score (insert d.id (score d) m) ds

  abbrev pub score_of : List (ℤ × f.carrier) → Datastore → f.carrier
  score_of m d = elim (lookup d.id m) [ none ↦ f.tenths 0 | some s ↦ s ]

  -- The comparison of `sort.SliceStable`.
  abbrev pub scores_more : List (ℤ × f.carrier) → Datastore → Datastore → Bool
  scores_more m a b =
      if f.same (score_of m a) (score_of m b) then false else f.more (score_of m a) (score_of m b)

  -- `Sort`, with what its snapshot leaves of the runtime.
  unfoldable pub autopilot_sort : Runtime → Time → List Datastore → Runtime × List Datastore
  unfolding sort_by snapshot
  autopilot_sort r now [] = (r, [])
  autopilot_sort r now (d ∷ []) = (r, d ∷ [])
  autopilot_sort r now (d ∷ e ∷ rest) =
      let all = d ∷ e ∷ rest in
      let (r', failures, in_flight) = snapshot r now in
      let scores = score_by_id (total_score failures in_flight all) [] all in
      (r', sort_by (scores_more scores) all)

  pub autopilot_sort-perm :
      (r : Runtime) (now : Time) (xs : List Datastore) → Perm (autopilot_sort r now xs).1 xs
  unfolding autopilot_sort
  autopilot_sort-perm r now [] = Perm.refl []
  autopilot_sort-perm r now (d ∷ []) = Perm.refl (d ∷ [])
  autopilot_sort-perm r now (d ∷ e ∷ rest) = sort_by-perm _ (d ∷ e ∷ rest)

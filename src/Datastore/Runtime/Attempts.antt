-- ===== src/Datastore/Runtime/Attempts.antt =====
-- The count of the attempts in flight, of pkg/csi/opennebula/selection_runtime.go.
use storage_provider_openneb.Prelude.{ℕ, ◌+◌, ◌-◌, ◌≡◌, refl, List, [], ◌∷◌, if◌then◌else◌, arith}
use storage_provider_openneb.Prelude.Int.{ℤ, eq_ℤ, eq_ℤ-iff}
use storage_provider_openneb.Prelude.Keys.{int_key, lookup-insert, lookup-delete}
use storage_provider_openneb.Datastore.Runtime.{Runtime, flying, begin_attempt, end_attempt}

pub data Attempt : Type 0 where
  begins ends : ℤ → Attempt

abbrev pub attempts : Runtime → List Attempt → Runtime
attempts r [] = r
attempts r (begins id ∷ es) = attempts (begin_attempt r id) es
attempts r (ends id ∷ es) = attempts (end_attempt r id) es

-- The attempts on one datastore that are under way after the events, if `n` were before them.
abbrev pub under_way : ℤ → ℕ → List Attempt → ℕ
under_way id n [] = n
under_way id n (begins j ∷ es) = under_way id (if eq_ℤ j id then n + 1 else n) es
under_way id n (ends j ∷ es) = under_way id (if eq_ℤ j id then n - 1 else n) es

begin-flying :
    (r : Runtime) (j id : ℤ)
    → flying (begin_attempt r j) id ≡ (if eq_ℤ j id then flying r id + 1 else flying r id)
unfolding begin_attempt
begin-flying r j id = ground (arith, eq_ℤ-iff j id, lookup-insert j id (flying r j + 1) r.in_flight)

end-flying :
    (r : Runtime) (j id : ℤ)
    → flying (end_attempt r j) id ≡ (if eq_ℤ j id then flying r id - 1 else flying r id)
unfolding end_attempt
end-flying r j id = ground (
  arith,
  eq_ℤ-iff j id,
  lookup-insert j id (flying r j - 1) r.in_flight,
  lookup-delete j id r.in_flight,
)

-- Whatever attempts begin and end in whatever order, the count of a datastore is what it was
-- before, one more for each attempt on it that began and one less, but not below 0, for each that
-- ended.
pub attempts-flying :
    (r : Runtime) (id : ℤ) (es : List Attempt)
    → flying (attempts r es) id ≡ under_way id (flying r id) es
attempts-flying r id [] = refl
attempts-flying r id (begins j ∷ es) =
    rw (attempts-flying (begin_attempt r j) id es) (rw (begin-flying r j id))
attempts-flying r id (ends j ∷ es) =
    rw (attempts-flying (end_attempt r j) id es) (rw (end-flying r j id))

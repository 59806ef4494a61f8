-- ===== src/Datastore/Runtime/Failures.antt =====
-- The window of failures, of pkg/csi/opennebula/selection_runtime.go.
use storage_provider_openneb.Prelude.{
  ℕ, ◌+◌, ◌-◌, ◌≡◌, ◌≤◌, refl, ◌∙◌, Bool, true, false, List, [], ◌∷◌, ◌++◌, none, if◌then◌else◌,
  arith, not, ◌&&◌, length,
}
use storage_provider_openneb.Prelude.Int.{ℤ, eq_ℤ, eq_ℤ-iff}
use storage_provider_openneb.Prelude.Keys.{lookup, insert, int_key, lookup-insert, lookup-delete}
use storage_provider_openneb.Golang.Clock.{Time, after}
use storage_provider_openneb.Datastore.Runtime.{
  Runtime, new_runtime, stamps, recent, put_recent, prune_keys, keys, prune_locked, record_result,
  snapshot, failure_window,
}

abbrev has_key : ℤ → List ℤ → Bool
has_key id [] = false
has_key id (k ∷ ks) = if eq_ℤ k id then true else has_key id ks

stamps-put_recent :
    (id j : ℤ) (ts : List Time) (m : List (ℤ × List Time))
    → stamps (put_recent id ts m) j ≡ (if eq_ℤ id j then ts else stamps m j)
stamps-put_recent id j [] m = ground (arith, lookup-delete id j m)
stamps-put_recent id j (t ∷ ts) m = ground (arith, lookup-insert id j (t ∷ ts) m)

stamps-prune_keys :
    (cutoff : Time) (m out : List (ℤ × List Time)) (ids : List ℤ) (j : ℤ)
    → stamps (prune_keys cutoff m out ids) j
      ≡ (if has_key j ids then recent cutoff (stamps m j) else stamps out j)
unfolding prune_keys
stamps-prune_keys cutoff m out [] j = refl
stamps-prune_keys cutoff m out (id ∷ ids) j =
    stamps-prune_keys cutoff m (put_recent id (recent cutoff (stamps m id)) out) ids j
    ∙ ground (arith, stamps-put_recent id j (recent cutoff (stamps m id)) out, eq_ℤ-iff id j)

no_key : (m : List (ℤ × List Time)) (j : ℤ) → has_key j (keys m) ≡ false → lookup j m ≡ none
unfolding lookup
no_key [] j h = refl
no_key ((k, ts) ∷ m) j h = ground (arith, no_key m j)

pub stamps-prune_locked :
    (r : Runtime) (now : Time) (j : ℤ)
    → stamps (prune_locked r now).failures j ≡ recent (now - failure_window) (stamps r.failures j)
unfolding prune_locked
stamps-prune_locked r now j =
    stamps-prune_keys (now - failure_window) r.failures r.failures (keys r.failures) j
    ∙ ground (arith, no_key r.failures j)

recent-recent : (c d : Time) (ts : List Time) → c ≤ d → recent d (recent c ts) ≡ recent d ts
recent-recent c d [] h = refl
recent-recent c d (t ∷ ts) h = ground (arith, recent-recent c d ts h)

length-recent-snoc :
    (c t : Time) (ts : List Time)
    → length (recent c (ts ++ (t ∷ []))) ≡ length (recent c ts) + (if after t c then 1 else 0)
length-recent-snoc c t [] = ground arith
length-recent-snoc c t (x ∷ xs) = ground (arith, length-recent-snoc c t xs)

-- 1 for a failure of the datastore after the cutoff, and otherwise 0.
abbrev pub weight : ℤ → Time → ℤ → Bool → Time → ℕ
weight id cutoff j success t = if eq_ℤ j id && not success && after t cutoff then 1 else 0

stamps-insert :
    (j id : ℤ) (ts : List Time) (m : List (ℤ × List Time))
    → stamps (insert j ts m) id ≡ (if eq_ℤ j id then ts else stamps m id)
stamps-insert j id ts m = ground (arith, lookup-insert j id ts m)

recent-pruned :
    (r : Runtime) (t now : Time) (id : ℤ)
    → t ≤ now
    → recent (now - failure_window) (stamps (prune_locked r t).failures id)
      ≡ recent (now - failure_window) (stamps r.failures id)
recent-pruned r t now id h =
    rw (stamps-prune_locked r t id) (
      recent-recent (t - failure_window) (now - failure_window) (stamps r.failures id)
        (omega arith))

recorded_lem :
    (r : Runtime) (j : ℤ) (success : Bool) (t now : Time) (id : ℤ)
    → t ≤ now
    → length (recent (now - failure_window) (stamps (record_result r j success t).failures id))
      ≡ length (recent (now - failure_window) (stamps r.failures id))
        + weight id (now - failure_window) j success t
unfolding record_result
recorded_lem r j true t now id h = rw (recent-pruned r t now id h) (ground arith)
recorded_lem r j false t now id h =
    let m = (prune_locked r t).failures in
    rw (stamps-insert j id (stamps m j ++ (t ∷ [])) m) (
      ground (
        arith,
        eq_ℤ-iff j id,
        length-recent-snoc (now - failure_window) t (stamps m id),
        recent-pruned r t now id h,
      ))

-- The results in their order, with the times that they are recorded at.
abbrev pub results : Runtime → List (ℤ × Bool × Time) → Runtime
results r [] = r
results r ((id, success, t) ∷ rest) = results (record_result r id success t) rest

-- The failures of the datastore after the cutoff.
abbrev pub count_failures : ℤ → Time → List (ℤ × Bool × Time) → ℕ
count_failures id cutoff [] = 0
count_failures id cutoff ((j, success, t) ∷ rest) =
    weight id cutoff j success t + count_failures id cutoff rest

abbrev pub NoneLater : Time → List (ℤ × Bool × Time) → Type 0
NoneLater now [] = Unit {0}
NoneLater now ((id, success, t) ∷ rest) = (t ≤ now) × NoneLater now rest

results_lem :
    (r : Runtime) (rs : List (ℤ × Bool × Time)) (now : Time) (id : ℤ)
    → NoneLater now rs
    → length (recent (now - failure_window) (stamps (results r rs).failures id))
      ≡ length (recent (now - failure_window) (stamps r.failures id))
        + count_failures id (now - failure_window) rs
results_lem r [] now id h = omega arith
results_lem r ((j, success, t) ∷ rest) now id h =
    results_lem (record_result r j success t) rest now id h.1
    ∙ omega (arith, recorded_lem r j success t now id h.0)

-- From a new runtime and after any results, none of them recorded later than now, the snapshot
-- counts for a datastore just its failures of the last 15 minutes, though old ones are dropped on
-- the way.
pub snapshot-results :
    (rs : List (ℤ × Bool × Time)) (now : Time) (id : ℤ)
    → NoneLater now rs
    → (snapshot (results new_runtime rs) now).1 id ≡ count_failures id (now - failure_window) rs
unfolding snapshot lookup
snapshot-results rs now id h =
    rw (stamps-prune_locked (results new_runtime rs) now id)
      (omega (arith, results_lem new_runtime rs now id h))

-- ===== src/Datastore/Runtime.antt =====
-- pkg/csi/opennebula/selection_runtime.go: the attempts in flight and the recent failures of each
-- datastore, and the autopilot's scores. The float64 arithmetic is a parameter.
pub mod Attempts
pub mod Failures
use storage_provider_openneb.Prelude.{
  ℕ, ◌+◌, ◌-◌, ◌*◌, Bool, true, false, List, [], ◌∷◌, ◌++◌, if◌then◌else◌, leb, length, keep,
  or_else,
}
use storage_provider_openneb.Prelude.Int.{ℤ, pos, negsuc, ltb_ℤ, ◌≤ℤ◌}
use storage_provider_openneb.Prelude.Keys.{lookup, insert, delete, int_key}
use storage_provider_openneb.Golang.Clock.{Time, after, minute}
use storage_provider_openneb.Datastore.Resolve.{Datastore}

-- `datastoreFailureWindow`
abbrev pub failure_window : ℕ
failure_window = 15 * minute

-- `datastoreSelectionRuntime` without `lastScore`, which nothing reads. No count is below 0.
pub record Runtime : Type 0 where
  pub failures : List (ℤ × List Time)
  pub in_flight : List (ℤ × ℕ)

abbrev pub new_runtime : Runtime
new_runtime = record { failures = []; in_flight = [] }

abbrev pub flying : Runtime → ℤ → ℕ
flying r id = or_else (lookup id r.in_flight) 0

unfoldable pub begin_attempt : Runtime → ℤ → Runtime
begin_attempt r id = record r { in_flight = insert id (flying r id + 1) r.in_flight }

-- The function that `beginAttempt` returns.
unfoldable pub end_attempt : Runtime → ℤ → Runtime
end_attempt r id =
    if leb (flying r id) 1
    then record r { in_flight = delete id r.in_flight }
    else record r { in_flight = insert id (flying r id - 1) r.in_flight }

abbrev pub stamps : List (ℤ × List Time) → ℤ → List Time
stamps m id = or_else (lookup id m) []

abbrev pub recent : Time → List Time → List Time
recent cutoff = keep (λ t. after t cutoff)

abbrev pub put_recent : ℤ → List Time → List (ℤ × List Time) → List (ℤ × List Time)
put_recent id [] m = delete id m
put_recent id (t ∷ ts) m = insert id (t ∷ ts) m

-- The loop over the map `m`, whose keys are left to visit.
unfoldable pub prune_keys :
    Time → List (ℤ × List Time) → List (ℤ × List Time) → List ℤ → List (ℤ × List Time)
prune_keys cutoff m out [] = out
prune_keys cutoff m out (id ∷ ids) =
    prune_keys cutoff m (put_recent id (recent cutoff (stamps m id)) out) ids

abbrev pub keys {ℓ} : {V : Type ℓ} → List (ℤ × V) → List ℤ
keys [] = []
keys ((k, v) ∷ m) = k ∷ keys m

unfoldable pub prune_locked : Runtime → Time → Runtime
unfolding prune_keys
prune_locked r now = record r {
  failures = prune_keys (now - failure_window) r.failures r.failures (keys r.failures);
}

unfoldable pub record_result : Runtime → ℤ → Bool → Time → Runtime
record_result r id success now =
    let pruned = prune_locked r now in
    if success then pruned else record pruned {
      failures = insert id (stamps pruned.failures id ++ (now ∷ [])) pruned.failures;
    }

-- `snapshot`: the numbers of recent failures and of attempts in flight.
unfoldable pub snapshot : Runtime → Time → Runtime × (ℤ → ℕ) × (ℤ → ℕ)
snapshot r now =
    let pruned = prune_locked r now in
    (pruned, (λ id. length (stamps pruned.failures id)), flying pruned)

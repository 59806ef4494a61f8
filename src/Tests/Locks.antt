-- ===== src/Tests/Locks.antt =====
-- Runs of the locks of pkg/csi/driver/operation_locks.go.
use storage_provider_openneb.Prelude.{
  ◌≤◌, ◌<◌, ◌≡◌, refl, List, [], ◌∷◌, String, ◌⊎◌, true, not, ◌&&◌, str_eq,
}
use storage_provider_openneb.Prelude.Keys.{insert, lookup, string_key}
use storage_provider_openneb.Golang.Text.{str_lt}
use storage_provider_openneb.Golang.StringOrder.{Ascending, sort_strings}
use storage_provider_openneb.OperationLocks.{
  OperationLocks, Caller, idle, proceed, acquiring, Advance, this, first, later, lock_all, AllIdle,
  Reach, fresh, call, step, new_operation_locks, acquire, enlist, enlist_all, set_locked,
  normalize_lock_keys, key_set,
}
use storage_provider_openneb.OperationLocks.Keys.{Ascending-normalize, has_key}
use storage_provider_openneb.OperationLocks.Exclusion.{holders, holders_bound}
use storage_provider_openneb.OperationLocks.Completion.{
  CanAdvance, proceed_or_idle, all_work, Advance-all_work, Drained, Reach-Drained,
}

abbrev keys : List String
keys = "node:2" ∷ "volume:7" ∷ "" ∷ "node:2" ∷ []

normalize_example : normalize_lock_keys keys ≡ "node:2" ∷ "volume:7" ∷ []
unfolding normalize_lock_keys key_set sort_strings str_lt
normalize_example = refl

-- Both goroutines ask for the keys, and the first one locks "node:2".
abbrev o1 : OperationLocks
o1 = (acquire new_operation_locks keys).0

abbrev o2 : OperationLocks
o2 = (acquire o1 keys).0

abbrev waiting : Caller
waiting = acquiring [] (("node:2", 0) ∷ ("volume:7", 1) ∷ [])

abbrev half : Caller
half = acquiring (("node:2", 0) ∷ []) (("volume:7", 1) ∷ [])

abbrev o3 : OperationLocks
o3 = set_locked o2 0 true

both_called : Reach o2 (waiting ∷ waiting ∷ [])
unfolding acquire enlist_all enlist lookup insert new_operation_locks normalize_lock_keys key_set
    sort_strings str_lt
both_called =
    call (call (fresh {cs = idle ∷ idle ∷ []} (refl, (refl, tt))) (first (lock_all keys)))
      (later (first (lock_all keys)))

first_step : Advance o2 (waiting ∷ waiting ∷ []) o3 (half ∷ waiting ∷ [])
unfolding acquire enlist_all enlist lookup insert new_operation_locks normalize_lock_keys key_set
    sort_strings str_lt proceed
first_step = this refl

half_locked : Reach o3 (half ∷ waiting ∷ [])
half_locked = step both_called first_step

Ascending-normalize_example :
    Ascending (normalize_lock_keys keys)
    × (has_key "node:2" (normalize_lock_keys keys)
        ≡ (not (str_eq "node:2" "") && has_key "node:2" keys))
Ascending-normalize_example = Ascending-normalize keys "node:2"

holders_bound_example : holders "node:2" (half ∷ waiting ∷ []) ≤ 1
holders_bound_example = holders_bound half_locked "node:2"

proceed_or_idle_example : AllIdle (half ∷ waiting ∷ []) ⊎ CanAdvance o3 (half ∷ waiting ∷ [])
proceed_or_idle_example = proceed_or_idle half_locked

Advance-all_work_example : all_work (half ∷ waiting ∷ []) < all_work (waiting ∷ waiting ∷ [])
Advance-all_work_example = Advance-all_work first_step

Reach-Drained_example : Drained o3 (half ∷ waiting ∷ [])
Reach-Drained_example = Reach-Drained half_locked

-- ===== src/Tests/Waiting.antt =====
-- Runs of waiting for and cancelling a request of pkg/csi/driver/hotplug_queue.go.
use storage_provider_openneb.Prelude.{
  ℕ, ◌*◌, ◌+◌, ◌≡◌, ◌≤◌, ◌<◌, ◌⊎◌, refl, true, [], ◌∷◌, ◌++◌, none, some, arith,
}
use storage_provider_openneb.Prelude.Int.{pos}
use storage_provider_openneb.Prelude.Keys.{lookup, string_key, nat_key}
use storage_provider_openneb.Golang.Clock.{second, zero_time}
use storage_provider_openneb.HotplugQueue.Request.{Request, NodeQueue, normal, background}
use storage_provider_openneb.HotplugQueue.Manager.{
  Manager, timed_out, new_manager, configure, depth_ahead, effective_wait_limit, cancel,
}
use storage_provider_openneb.HotplugQueue.Waits.{cancel_pending, effective_wait_limit_bounds}

abbrev attach : Request
attach = record {
  id = 7;
  node = "node-1";
  operation = "attach";
  volume = "vol-a";
  priority = normal;
  enqueued_at = 10 * second;
  started_at = zero_time;
  wait_limit = pos (5 * second);
  coalesced = 0;
}

abbrev detach : Request
detach = record attach { id = 8; operation = "detach"; volume = "vol-b"; priority = background }

abbrev two_waiting : NodeQueue
two_waiting = record { active = none; pending = attach ∷ detach ∷ []; running = true }

abbrev manager : Manager
manager =
    record (configure (new_manager (pos (5 * second)) (pos second)) true (pos second)
      (pos (6 * second)) (pos second)) { nodes = ("node-1", two_waiting) ∷ [] }

cancel_pending_example :
    let (m', gone) = cancel manager detach.id "node-1" in
    (gone ≡ true)
    × (lookup "node-1" m'.nodes ≡ some (record two_waiting { pending = (attach ∷ []) ++ [] }))
    × (lookup detach.id m'.done
        ≡ some (some (timed_out "node-1" detach.operation detach.volume detach.wait_limit)))
unfolding new_manager configure lookup
cancel_pending_example =
    cancel_pending manager "node-1" two_waiting (attach ∷ []) detach [] refl refl (omega arith, tt)
      refl

-- Two requests ahead would make seven seconds, and the cap allows six.
effective_wait_limit_bounds_example :
    (r : ℕ) × (effective_wait_limit manager two_waiting ≡ pos r)
    × (r ≤ 5 * second + depth_ahead two_waiting * second)
    × (0 < 6 * second → r ≤ 6 * second)
    × ((6 * second ≡ 0) ⊎ (5 * second ≤ 6 * second) → 5 * second ≤ r)
    × (r ≡ 0 → 5 * second ≡ 0)
unfolding new_manager configure
effective_wait_limit_bounds_example =
    effective_wait_limit_bounds manager two_waiting (5 * second) second (6 * second) refl refl refl
      (omega arith)

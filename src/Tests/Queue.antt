-- ===== src/Tests/Queue.antt =====
-- Runs of the hotplug queue (pkg/csi/driver/hotplug_queue.go) and of its workers.
use storage_provider_openneb.Prelude.{◌*◌, ◌≡◌, refl, true, List, [], ◌∷◌, none, arith}
use storage_provider_openneb.Prelude.Int.{pos, ◌≤ℤ◌, ◌+ℤ◌, ◌*ℤ◌, ◌-ℤ◌, ◌/ℤ◌, wrap64}
use storage_provider_openneb.Prelude.Keys.{lookup, insert, delete, string_key, nat_key}
use storage_provider_openneb.Golang.Clock.{second, zero_time, sub}
use storage_provider_openneb.HotplugQueue.Request.{
  Request, NodeQueue, critical, normal, background, same_queue_request, find_pending,
  find_duplicate_request,
}
use storage_provider_openneb.HotplugQueue.Priority.{effective_priority}
use storage_provider_openneb.HotplugQueue.Select.{select_index, select_loop, take_at}
use storage_provider_openneb.HotplugQueue.Manager.{
  Manager, new_manager, configure, enqueue, enqueue_with, append_request, join_request,
  duplicate_in, coalesce_pending, effective_wait_limit, cancel, cancel_in, take_id, complete, next,
  next_of, activate, finish, new_request,
}
use storage_provider_openneb.HotplugQueue.Workers.{
  start, Step, arrives, expires, advances, run, step, arrive, expire, advance, advance_phase,
}
use storage_provider_openneb.HotplugQueue.Workers.Invariant.{Inv}
use storage_provider_openneb.HotplugQueue.Workers.Preserve.{run-Inv}
use storage_provider_openneb.HotplugQueue.Order.{Started, next-Started, aged-least}
use storage_provider_openneb.HotplugQueue.Dedupe.{requests_of, Distinct}
use storage_provider_openneb.HotplugQueue.Workers.Merging.{run-Distinct}

abbrev empty_manager : Manager
empty_manager =
    configure (new_manager (pos (5 * second)) (pos second)) true (pos second) (pos 0) (pos 0)

abbrev detach_a : Request
detach_a = record {
  id = 1;
  node = "node-1";
  operation = "detach";
  volume = "vol-a";
  priority = background;
  enqueued_at = 10 * second;
  started_at = zero_time;
  wait_limit = pos 0;
  coalesced = 0;
}

abbrev attach_b : Request
attach_b = record detach_a {
  id = 2;
  operation = "attach";
  volume = "vol-b";
  priority = normal;
  enqueued_at = 11 * second;
}

abbrev attach_c : Request
attach_c = record attach_b {
  id = 3;
  volume = "vol-c";
  priority = critical;
  enqueued_at = 12 * second;
}

abbrev waiting : NodeQueue
waiting = record { active = none; pending = detach_a ∷ attach_b ∷ []; running = true }

abbrev one_node : Manager
one_node = record empty_manager { nodes = ("node-1", waiting) ∷ [] }

-- Two callers for one node, of which the second gives up, while the worker takes a request and ends.
abbrev script : List Step
script =
    arrives "node-1" "attach" "vol-a" normal (10 * second)
    ∷ arrives "node-1" "detach" "vol-b" background (11 * second)
    ∷ advances 0 (12 * second) (12 * second) none
    ∷ expires 2 "node-1"
    ∷ advances 0 (13 * second) (13 * second) none
    ∷ advances 0 (13 * second) (13 * second) none
    ∷ advances 0 (14 * second) (14 * second) none
    ∷ []

run-Inv_example : Inv (run (start empty_manager) script)
unfolding new_manager configure
run-Inv_example = run-Inv empty_manager script refl

-- The worker ends, and its node's queue is gone.
script_ends : (run (start empty_manager) script).workers ≡ []
unfolding new_manager configure run step arrive expire advance advance_phase new_request enqueue
    enqueue_with append_request join_request duplicate_in effective_wait_limit
    find_duplicate_request find_pending same_queue_request next next_of activate finish complete
    cancel cancel_in take_id take_at select_index select_loop effective_priority lookup insert
    delete wrap64 ◌-ℤ◌ ◌/ℤ◌ sub
script_ends = refl

next-Started_example : Started one_node "node-1" (12 * second) (12 * second) waiting
unfolding new_manager configure lookup
next-Started_example =
    next-Started one_node "node-1" (12 * second) (12 * second) waiting detach_a (attach_b ∷ []) refl
      refl

-- A background request that has waited for two boosts goes before a critical one that is new.
aged-least_example :
    effective_priority (pos second) (12 * second) detach_a
    ≤ℤ effective_priority (pos second) (12 * second) attach_c
aged-least_example =
    aged-least second (12 * second) detach_a attach_c (omega arith) (omega arith) (omega arith)
      (omega arith) (omega arith) (omega arith)

-- The second caller joins the first one's request.
abbrev twice : List Step
twice =
    arrives "node-1" "attach" "vol-a" normal (10 * second)
    ∷ arrives "node-1" "attach" "vol-a" normal (11 * second)
    ∷ arrives "node-1" "detach" "vol-b" background (11 * second)
    ∷ []

abbrev joined : NodeQueue
joined = record {
  active = none;
  pending =
      record detach_a {
        operation = "attach";
        priority = normal;
        wait_limit = pos (5 * second);
        coalesced = 1;
      }
      ∷ record detach_a {
        id = 3;
        volume = "vol-b";
        enqueued_at = 11 * second;
        wait_limit = pos (6 * second);
      }
      ∷ [];
  running = true;
}

run-Distinct_example : Distinct (requests_of joined)
unfolding new_manager configure run step arrive new_request enqueue enqueue_with append_request
    join_request duplicate_in coalesce_pending effective_wait_limit find_duplicate_request
    find_pending same_queue_request lookup insert wrap64 ◌+ℤ◌ ◌*ℤ◌
run-Distinct_example = run-Distinct empty_manager twice "node-1" joined refl refl refl

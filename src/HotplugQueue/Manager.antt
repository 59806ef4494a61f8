-- ===== src/HotplugQueue/Manager.antt =====
-- `HotplugQueueManager` of pkg/csi/driver/hotplug_queue.go: its state, and the sections of `Run`,
-- `cancel`, `next`, `finish` and `complete` that hold its mutex. Metrics and the snapshots that are
-- written to a ConfigMap change none of this state.
use storage_provider_openneb.Prelude.{
  ℕ, ◌+◌, ◌%◌, String, str_eq, Bool, true, false, not, ◌&&◌, List, [], ◌∷◌, ◌++◌, Option, none,
  some, if◌then◌else◌, ◌==◌, length, is_some,
}
use storage_provider_openneb.Prelude.Int.{pos, ltb_ℤ, leb_ℤ, ◌+ℤ◌, ◌*ℤ◌, wrap64}
use storage_provider_openneb.Prelude.Keys.{lookup, insert, delete, nat_key, string_key}
use storage_provider_openneb.Golang.Clock.{Time, Duration, zero_time}
use storage_provider_openneb.HotplugQueue.Request.{
  Priority, Request, NodeQueue, new_node_queue, same_queue_request, Duplicate, in_active,
  in_pending, find_duplicate_request,
}
use storage_provider_openneb.HotplugQueue.Priority.{effective_priority}
use storage_provider_openneb.HotplugQueue.Select.{select_index, take_at}

-- The error types of the queue, and what a request's function returned. `Reason` and `Message` are
-- the validator's.
pub data QueueError : Type 0 where
  timed_out active_timed_out : (node operation volume : String) → Duration → QueueError
  stale paused : (node operation volume reason message : String) → QueueError
  failed : String → QueueError

pub record Manager : Type 0 where
  pub max_wait : Duration
  pub age_boost : Duration
  pub dedupe : Bool
  pub per_item_wait : Duration
  pub max_wait_cap : Duration
  pub max_active : Duration
  pub seq : ℕ
  pub nodes : List (String × NodeQueue)
  -- The completed requests (`done` is closed), with their `err`.
  pub done : List (ℕ × Option QueueError)

unfoldable pub new_manager : Duration → Duration → Manager
new_manager max_wait age_boost = record {
  max_wait = max_wait;
  age_boost = age_boost;
  dedupe = true;
  per_item_wait = pos 0;
  max_wait_cap = pos 0;
  max_active = pos 0;
  seq = 0;
  nodes = [];
  done = [];
}

unfoldable pub configure : Manager → Bool → Duration → Duration → Duration → Manager
configure m dedupe per_item_wait max_wait_cap max_active = record m {
  dedupe = dedupe;
  per_item_wait = per_item_wait;
  max_wait_cap = max_wait_cap;
  max_active = max_active;
}

abbrev pub depth_ahead : NodeQueue → ℕ
depth_ahead q = if is_some q.active then length q.pending + 1 else length q.pending

-- `wait` after the surcharge for the requests ahead.
abbrev pub queued_wait : Manager → NodeQueue → Duration
queued_wait m q =
    if ltb_ℤ (pos 0) m.per_item_wait
    then wrap64 (m.max_wait +ℤ wrap64 (pos (depth_ahead q) *ℤ m.per_item_wait))
    else m.max_wait

unfoldable pub effective_wait_limit : Manager → NodeQueue → Duration
effective_wait_limit m q =
    if leb_ℤ m.max_wait (pos 0)
    then pos 0
    else (if ltb_ℤ (pos 0) m.max_wait_cap && ltb_ℤ m.max_wait_cap (queued_wait m q)
        then m.max_wait_cap
        else queued_wait m q)

-- `existing.coalesced++`, for the request that `find_duplicate_request` finds.
abbrev pub coalesce : Request → Request
coalesce r = record r { coalesced = r.coalesced + 1 }

unfoldable pub coalesce_pending : List Request → Request → List Request
coalesce_pending [] req = []
coalesce_pending (p ∷ ps) req =
    if same_queue_request p req then coalesce p ∷ ps else p ∷ coalesce_pending ps req

-- The queue of a node, made on first use.
abbrev pub queue_of : Option NodeQueue → NodeQueue
queue_of none = new_node_queue
queue_of (some q) = q

pub record Enqueued : Type 0 where
  pub manager : Manager
  pub request : Request
  pub coalesced : Bool
  pub starts : Bool  -- `go m.runNodeQueue(req.node)`

unfoldable pub append_request : Manager → NodeQueue → Request → Enqueued
append_request m q req =
    let own = record req { wait_limit = effective_wait_limit m q } in
    record {
      manager = record m {
        nodes =
            insert req.node (record q { pending = q.pending ++ (own ∷ []); running = true })
              m.nodes;
      };
      request = own;
      coalesced = false;
      starts = not q.running;
    }

unfoldable pub join_request : Manager → NodeQueue → Request → Duplicate → Enqueued
join_request m q req (in_active a) = record {
  manager = record m { nodes = insert req.node (record q { active = some (coalesce a) }) m.nodes };
  request = coalesce a;
  coalesced = true;
  starts = false;
}
join_request m q req (in_pending p) = record {
  manager = record m {
    nodes = insert req.node (record q { pending = coalesce_pending q.pending req }) m.nodes;
  };
  request = coalesce p;
  coalesced = true;
  starts = false;
}

unfoldable pub duplicate_in : Manager → NodeQueue → Request → Option Duplicate
duplicate_in m q req = if m.dedupe then find_duplicate_request q req else none

unfoldable pub enqueue_with : Manager → NodeQueue → Request → Option Duplicate → Enqueued
unfolding append_request join_request
enqueue_with m q req none = append_request m q req
enqueue_with m q req (some d) = join_request m q req d

unfoldable pub enqueue : Manager → Request → Enqueued
unfolding enqueue_with
enqueue m req =
    let q = queue_of (lookup req.node m.nodes) in enqueue_with m q req (duplicate_in m q req)

-- `complete`: only the first call for a request counts (`once`).
unfoldable pub complete : Manager → ℕ → Option QueueError → Manager
complete m id err = elim (lookup id m.done) [
  | none ↦ record m { done = insert id err m.done }
  | some _ ↦ m
]

-- The search by id in `cancel`, with the rest of the queue.
unfoldable pub take_id : ℕ → List Request → Option (Request × List Request)
take_id id [] = none
take_id id (r ∷ rs) =
    if r.id == id
    then some (r, rs)
    else elim (take_id id rs) [ none ↦ none | some (x, xs) ↦ some (x, r ∷ xs) ]

unfoldable pub cancel_in :
    Manager → String → NodeQueue → Option (Request × List Request) → Manager × Bool
unfolding complete
cancel_in m node q none = (m, false)
cancel_in m node q (some (req, rest)) = (
  complete (record m { nodes = insert node (record q { pending = rest }) m.nodes }) req.id
      (some (timed_out node req.operation req.volume req.wait_limit)),
  true,
)

unfoldable pub cancel : Manager → ℕ → String → Manager × Bool
unfolding cancel_in
cancel m id node = elim (lookup node m.nodes) [
  | none ↦ (m, false)
  | some q ↦ cancel_in m node q (take_id id q.pending)
]

-- `next` once the request to run is known.
unfoldable pub activate :
    Manager → String → NodeQueue → Time → Option (Request × List Request) → Manager × Option Request
activate m node q started none = (m, none)
activate m node q started (some (req, rest)) =
    let run = record req { started_at = started } in
    (
      record m { nodes = insert node (record q { active = some run; pending = rest }) m.nodes },
      some run,
    )

unfoldable pub next_of :
    Manager → String → NodeQueue → List Request → Time → Time → Manager × Option Request
unfolding activate
next_of m node q [] now started = (record m { nodes = delete node m.nodes }, none)
next_of m node q (r ∷ rs) now started =
    activate m node q started
      (take_at (select_index (effective_priority m.age_boost now) r rs) (r ∷ rs))

-- `now` is the time that the priorities are taken at, and `started` the time of the start.
unfoldable pub next : Manager → String → Time → Time → Manager × Option Request
unfolding next_of
next m node now started = elim (lookup node m.nodes) [
  | none ↦ (m, none)
  | some q ↦ next_of m node q q.pending now started
]

abbrev pub clear_active : NodeQueue → ℕ → Option Request → NodeQueue
clear_active q id none = q
clear_active q id (some a) = if a.id == id then record q { active = none } else q

unfoldable pub finish : Manager → String → ℕ → Manager
finish m node id = elim (lookup node m.nodes) [
  | none ↦ m
  | some q ↦ record m { nodes = insert node (clear_active q id q.active) m.nodes }
]

-- `m.seq.Add(1)` and the new request of `Run`.
unfoldable pub new_request :
    Manager → String → String → String → Priority → Time → Manager × Request
new_request m node operation volume priority now =
    let id = (m.seq + 1) % 18446744073709551616 in
    (
      record m { seq = id },
      record {
        id = id;
        node = node;
        operation = operation;
        volume = volume;
        priority = priority;
        enqueued_at = now;
        started_at = zero_time;
        wait_limit = pos 0;
        coalesced = 0;
      },
    )

-- `HasVolume`
abbrev pub has_volume_in : String → List Request → Bool
has_volume_in volume [] = false
has_volume_in volume (r ∷ rs) = if str_eq r.volume volume then true else has_volume_in volume rs

abbrev pub queue_has_volume : String → NodeQueue → Bool
queue_has_volume volume q = elim q.active [
  | none ↦ has_volume_in volume q.pending
  | some a ↦ if str_eq a.volume volume then true else has_volume_in volume q.pending
]

unfoldable pub has_volume_nodes : String → List (String × NodeQueue) → Bool
has_volume_nodes volume [] = false
has_volume_nodes volume ((n, q) ∷ qs) =
    if queue_has_volume volume q then true else has_volume_nodes volume qs

unfoldable pub has_volume : Manager → String → Bool
unfolding has_volume_nodes
has_volume m volume = if str_eq volume "" then false else has_volume_nodes volume m.nodes

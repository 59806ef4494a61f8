-- ===== src/HotplugQueue/Request.antt =====
-- The requests of pkg/csi/driver/hotplug_queue.go and the search for a duplicate. A request is a
-- value; its `once`, `err` and `done` are in the manager's table of completed requests.
use storage_provider_openneb.Prelude.{
  ℕ, String, str_eq, Bool, false, ◌&&◌, List, [], ◌∷◌, Option, none, some, if◌then◌else◌,
}
use storage_provider_openneb.Golang.Clock.{Time, Duration}

pub data Priority : Type 0 where
  critical normal background : Priority

pub record Request : Type 0 where
  pub id : ℕ  -- uint64
  pub node : String
  pub operation : String
  pub volume : String
  pub priority : Priority
  pub enqueued_at : Time
  pub started_at : Time
  pub wait_limit : Duration
  pub coalesced : ℕ

pub record NodeQueue : Type 0 where
  pub active : Option Request
  pub pending : List Request
  pub running : Bool

abbrev pub new_node_queue : NodeQueue
new_node_queue = record { active = none; pending = []; running = false }

unfoldable pub same_queue_request : Request → Request → Bool
same_queue_request a b =
    str_eq a.node b.node && str_eq a.operation b.operation && str_eq a.volume b.volume

-- The loop over `queue.pending`.
unfoldable pub find_pending : List Request → Request → Option Request
find_pending [] req = none
find_pending (p ∷ ps) req = if same_queue_request p req then some p else find_pending ps req

-- Where the duplicate is found.
pub data Duplicate : Type 0 where
  in_active in_pending : Request → Duplicate

abbrev pub pending_duplicate : Option Request → Option Duplicate
pending_duplicate none = none
pending_duplicate (some p) = some (in_pending p)

unfoldable pub find_duplicate_request : NodeQueue → Request → Option Duplicate
find_duplicate_request queue req = elim queue.active [
  | none ↦ pending_duplicate (find_pending queue.pending req)
  | some a ↦
      if same_queue_request a req
      then some (in_active a)
      else pending_duplicate (find_pending queue.pending req)
]

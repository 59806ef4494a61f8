-- ===== src/HotplugQueue/Workers.antt =====
-- The goroutines of pkg/csi/driver/hotplug_queue.go: the callers in `Run` and the loops of
-- `runNodeQueue`, as steps on the manager and on the workers that were started. A step is one section
-- under the mutex, or `complete`.
pub mod Invariant
pub mod Staff
pub mod Unnoticed
pub mod Preserve
pub mod Merging
use storage_provider_openneb.Prelude.{
  ℕ, suc, ◌≡◌, String, Bool, true, false, List, [], ◌∷◌, Option, none, some, if◌then◌else◌,
}
use storage_provider_openneb.Prelude.Keys.{lookup, insert, delete, nat_key}
use storage_provider_openneb.Golang.Clock.{Time}
use storage_provider_openneb.HotplugQueue.Request.{Priority, Request}
use storage_provider_openneb.HotplugQueue.Manager.{
  Manager, QueueError, Enqueued, enqueue, cancel, next, finish, complete, new_request, new_manager,
}

-- Where a worker stands in the loop of `runNodeQueue`.
pub data Phase : Type 0 where
  ready : Phase
  executing completing : Request → Phase

pub record Worker : Type 0 where
  pub node : String
  pub phase : Phase

-- `spawned` counts the workers started, which are known by their number.
pub record System : Type 0 where
  pub manager : Manager
  pub workers : List (ℕ × Worker)
  pub spawned : ℕ

abbrev pub start : Manager → System
start m = record { manager = m; workers = []; spawned = 0 }

-- `go m.runNodeQueue(node)`
abbrev pub spawn_if : Bool → String → System → System
spawn_if false node s = s
spawn_if true node s = record s {
  workers = insert s.spawned (record { node = node; phase = ready }) s.workers;
  spawned = suc s.spawned;
}

-- `Run` up to its wait.
unfoldable pub arrive : System → String → String → String → Priority → Time → System
arrive s node operation volume priority now =
    let (m, req) = new_request s.manager node operation volume priority now in
    let e = enqueue m req in spawn_if e.starts node (record s { manager = e.manager })

-- `Run` after its wait expired.
unfoldable pub expire : System → ℕ → String → System
expire s id node = record s { manager = (cancel s.manager id node).0 }

-- A worker that found no request returns.
abbrev pub after_next : System → ℕ → String → Manager → Option Request → System
after_next s w node m none = record s { manager = m; workers = delete w s.workers }
after_next s w node m (some r) = record s {
  manager = m;
  workers = insert w (record { node = node; phase = executing r }) s.workers;
}

-- One step of worker `w`: `next`, then `runRequest` with `complete`, then `finish`. `result` is what
-- the request's run returned.
unfoldable pub advance_phase :
    System → ℕ → String → Phase → Time → Time → Option QueueError → System
advance_phase s w node ready now started result =
    let (m, r) = next s.manager node now started in after_next s w node m r
advance_phase s w node (executing r) now started result = record s {
  manager = complete s.manager r.id result;
  workers = insert w (record { node = node; phase = completing r }) s.workers;
}
advance_phase s w node (completing r) now started result = record s {
  manager = finish s.manager node r.id;
  workers = insert w (record { node = node; phase = ready }) s.workers;
}

unfoldable pub advance : System → ℕ → Time → Time → Option QueueError → System
unfolding advance_phase
advance s w now started result = elim (lookup w s.workers) [
  | none ↦ s
  | some x ↦ advance_phase s w x.node x.phase now started result
]

pub data Step : Type 0 where
  arrives : (node operation volume : String) → Priority → Time → Step
  expires : ℕ → String → Step
  advances : ℕ → Time → Time → Option QueueError → Step

unfoldable pub step : System → Step → System
step s (arrives node operation volume priority now) = arrive s node operation volume priority now
step s (expires id node) = expire s id node
step s (advances w now started result) = advance s w now started result

unfoldable pub run : System → List Step → System
run s [] = s
run s (e ∷ es) = run (step s e) es

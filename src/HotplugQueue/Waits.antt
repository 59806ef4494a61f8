-- ===== src/HotplugQueue/Waits.antt =====
-- How long a caller of `Run` in pkg/csi/driver/hotplug_queue.go waits, and what it gets.
use storage_provider_openneb.Prelude.{
  ℕ, suc, ◌+◌, ◌*◌, ◌≤◌, ◌<◌, ◌≡◌, ◌≢◌, refl, String, true, List, [], ◌∷◌, Option, none, some,
  arith, if◌then◌else◌, inl, inr, ◌⊎◌, Option-cases, ◌==◌, ltb, ◌&&◌, zero, ◌++◌, All,
}
use storage_provider_openneb.Prelude.Int.{pos, wrap64, wrap64-Int64, max_int64, ◌+ℤ◌, ◌*ℤ◌}
use storage_provider_openneb.Prelude.Keys.{
  lookup, lookup-insert, lookup-insert_self, key-cases, nat_key, string_key,
}
use storage_provider_openneb.HotplugQueue.Request.{Request, NodeQueue}
use storage_provider_openneb.HotplugQueue.Manager.{
  Manager, QueueError, timed_out, effective_wait_limit, depth_ahead, queued_wait, complete, cancel,
  cancel_in, take_id,
}

pos-mul : (a b : ℕ) → pos a *ℤ pos b ≡ pos (a * b)
unfolding ◌*ℤ◌
pos-mul a b = grind arith

pos-add : (a b : ℕ) → pos a +ℤ pos b ≡ pos (a + b)
unfolding ◌+ℤ◌
pos-add a b = ground arith

surcharge :
    (wait ahead item : ℕ)
    → wait + ahead * item ≤ max_int64
    → wrap64 (pos wait +ℤ wrap64 (pos ahead *ℤ pos item)) ≡ pos (wait + ahead * item)
surcharge wait ahead item h = rw (
  pos-mul ahead item,
  wrap64-Int64 (pos (ahead * item)) (omega arith),
  pos-add wait (ahead * item),
  wrap64-Int64 (pos (wait + ahead * item)) h,
)

queued_wait-eq :
    (m : Manager) (q : NodeQueue) (wait item ahead : ℕ)
    → m.max_wait ≡ pos wait
    → m.per_item_wait ≡ pos item
    → depth_ahead q ≡ ahead
    → wait + ahead * item ≤ max_int64
    → queued_wait m q ≡ pos (wait + ahead * item)
queued_wait-eq m q wait zero ahead ew ei ea h = ground (arith, surcharge wait ahead 0 h)
queued_wait-eq m q wait (suc item) ahead ew ei ea h =
    rw (ei, ew, ea) (ground (arith, surcharge wait ahead (suc item) h))

-- The limit in plain numbers.
abbrev limit_of : ℕ → ℕ → ℕ → ℕ
limit_of wait total cap =
    if wait == 0 then 0 else (if ltb 0 cap && ltb cap total then cap else total)

limit_of-eq :
    (m : Manager) (q : NodeQueue) (wait total cap : ℕ)
    → m.max_wait ≡ pos wait
    → m.max_wait_cap ≡ pos cap
    → queued_wait m q ≡ pos total
    → effective_wait_limit m q ≡ pos (limit_of wait total cap)
unfolding effective_wait_limit
limit_of-eq m q wait total cap ew ec et = rw (et, ew, ec) (ground arith)

-- For settings that are not negative, and while the sum fits an int64: the wait limit is at most
-- `maxWait` and `perItemWait` for each request ahead, within a cap that is set, no shorter than
-- `maxWait` unless the cap is, and 0 (no limit) only if `maxWait` is.
pub effective_wait_limit_bounds :
    (m : Manager) (q : NodeQueue) (wait item cap : ℕ)
    → m.max_wait ≡ pos wait
    → m.per_item_wait ≡ pos item
    → m.max_wait_cap ≡ pos cap
    → wait + depth_ahead q * item ≤ max_int64
    → (r : ℕ) × (effective_wait_limit m q ≡ pos r)
      × (r ≤ wait + depth_ahead q * item)
      × (0 < cap → r ≤ cap)
      × ((cap ≡ 0) ⊎ (wait ≤ cap) → wait ≤ r)
      × (r ≡ 0 → wait ≡ 0)
effective_wait_limit_bounds m q wait item cap ew ei ec h = (
  limit_of wait total cap,
  limit_of-eq m q wait total cap ew ec (queued_wait-eq m q wait item (depth_ahead q) ew ei refl h),
  ground arith,
  λ c. ground arith,
  λ c. ground arith,
  λ c. ground arith,
)
  where
    total : ℕ
    total = wait + depth_ahead q * item

-- Several completions, in this order.
abbrev pub complete_all : Manager → List (ℕ × Option QueueError) → Manager
complete_all m [] = m
complete_all m ((id, err) ∷ es) = complete_all (complete m id err) es

complete-lookup :
    (m : Manager) (id j : ℕ) (err : Option QueueError)
    → lookup j (complete m id err).done
      ≡ elim (lookup j m.done) [ some old ↦ some old | none ↦ if id == j then some err else none ]
unfolding complete
complete-lookup m id j err = elim (Option-cases (lookup id m.done)) [
  | inl open' ↦ ground (arith, lookup-insert id j err m.done)
  | inr (old, shut) ↦ elim (key-cases id j) [
    | inl same ↦ rw (← same) (ground arith)
    | inr other ↦ ground arith
  ]
]

complete_all_keeps :
    (m : Manager) (id : ℕ) (first : Option QueueError) (es : List (ℕ × Option QueueError))
    → lookup id m.done ≡ some first
    → lookup id (complete_all m es).done ≡ some first
complete_all_keeps m id first [] h = h
complete_all_keeps m id first ((j, err) ∷ es) h =
    complete_all_keeps (complete m j err) id first es (ground (arith, complete-lookup m j id err))

take_id-append :
    (before : List Request) (req : Request) (after : List Request)
    → All (λ r. r.id ≢ req.id) before
    → take_id req.id (before ++ (req ∷ after)) ≡ some (req, before ++ after)
unfolding take_id
take_id-append [] req after h = ground arith
take_id-append (r ∷ before) req after h = ground (arith, take_id-append before req after h.1)

-- `once`: whatever is completed later, a request keeps the result of its first completion.
pub complete_once :
    (m : Manager) (id : ℕ) (first : Option QueueError) (later : List (ℕ × Option QueueError))
    → lookup id m.done ≡ none
    → lookup id (complete_all (complete m id first) later).done ≡ some first
complete_once m id first later h =
    complete_all_keeps (complete m id first) id first later
      (ground (arith, complete-lookup m id id first))

-- Giving up: if a caller's wait expires while its request is still pending, the first one with its
-- id, and not completed, then the request leaves the queue, the others stay in their order, nothing
-- else of the node's queue changes, and the request is completed by a timeout.
pub cancel_pending :
    (m : Manager) (node : String) (q : NodeQueue) (before : List Request) (req : Request)
    (after : List Request)
    → lookup node m.nodes ≡ some q
    → q.pending ≡ before ++ (req ∷ after)
    → All (λ r. r.id ≢ req.id) before
    → lookup req.id m.done ≡ none
    → let (m', gone) = cancel m req.id node in
      (gone ≡ true)
      × (lookup node m'.nodes ≡ some (record q { pending = before ++ after }))
      × (lookup req.id m'.done
          ≡ some (some (timed_out node req.operation req.volume req.wait_limit)))
unfolding cancel cancel_in complete
cancel_pending m node q before req after here e fresh open' =
    rw (here, cancel)
      (rw (e, cancel_in)
        (rw (take_id-append before req after fresh) (
          rw (open', complete)
            (refl, lookup-insert_self node _ m.nodes, lookup-insert_self req.id _ m.done))))

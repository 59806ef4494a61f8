-- ===== src/HotplugQueue/Workers/Preserve.antt =====
-- Every step of the queue's callers and workers keeps the invariant.
use storage_provider_openneb.Prelude.{
  ℕ, ◌≡◌, ◌≢◌, refl, ap, subst, ◌∙◌, String, true, List, [], ◌∷◌, Option, none, some, arith, inl,
  inr, Option-cases, is_some,
}
use storage_provider_openneb.Prelude.Keys.{
  lookup, insert, nat_key, string_key, lookup-insert_self, lookup-insert_ne,
}
use storage_provider_openneb.Prelude.Int.{ℤ}
use storage_provider_openneb.Golang.Clock.{Time}
use storage_provider_openneb.HotplugQueue.Request.{Priority, Request, NodeQueue, new_node_queue}
use storage_provider_openneb.HotplugQueue.Priority.{effective_priority}
use storage_provider_openneb.HotplugQueue.Select.{
  select_index, select_index-Picks, take_at, take_at-append,
}
use storage_provider_openneb.HotplugQueue.Manager.{
  Manager, QueueError, enqueue, enqueue_with, effective_wait_limit, complete, cancel, cancel_in,
  take_id, next, next_of, activate, finish, clear_active, new_request,
}
use storage_provider_openneb.HotplugQueue.Workers.{
  Phase, ready, executing, completing, Worker, System, start, arrive, expire, advance,
  advance_phase, after_next, Step, arrives, expires, advances, step, run,
}
use storage_provider_openneb.HotplugQueue.Workers.Invariant.{
  Fits, Inv, update-Inv, phase-Inv, start-Inv,
}
use storage_provider_openneb.HotplugQueue.Workers.Staff.{spawn-Inv, retire-Inv}
use storage_provider_openneb.HotplugQueue.Workers.Unnoticed.{
  running_of_Inv, enqueue-Unnoticed, no_duplicate,
}

-- The first request for a node.
enqueue_first :
    (m : Manager) (req : Request)
    → lookup req.node m.nodes ≡ none
    → (q : NodeQueue) × ((enqueue m req).manager.nodes ≡ insert req.node q m.nodes)
      × (q.running ≡ true)
      × (q.active ≡ none)
      × ((enqueue m req).starts ≡ true)
unfolding enqueue enqueue_with
enqueue_first m req h = (
  record new_node_queue {
    pending = record req { wait_limit = effective_wait_limit m new_node_queue } ∷ [];
    running = true;
  },
  rw (h, no_duplicate m req),
  refl,
  refl,
  rw (h, no_duplicate m req),
)

arrive-Inv :
    (s : System) (node operation volume : String) (priority : Priority) (now : Time)
    → Inv s
    → Inv (arrive s node operation volume priority now)
unfolding arrive new_request
arrive-Inv s node operation volume priority now v =
    let made = new_request s.manager node operation volume priority now in
    elim (Option-cases (lookup node s.manager.nodes)) [
      | inl absent ↦
          let (q, stored, on, idle, starts) = enqueue_first made.0 made.1 absent in
          rw starts (spawn-Inv s (enqueue made.0 made.1).manager node q absent stored on idle v)
      | inr (q, here) ↦
          let (u, quiet) =
            enqueue-Unnoticed made.0 made.1 q here (running_of_Inv s node q v here) in
          rw quiet (
            update-Inv s (enqueue made.0 made.1).manager node q u.changed here u.stored u.runs
              u.fits v)
    ]

complete-nodes :
    (m : Manager) (id : ℕ) (err : Option QueueError) → (complete m id err).nodes ≡ m.nodes
unfolding complete
complete-nodes m id err = ground arith

cancel_in-Inv :
    (s : System) (node : String) (q : NodeQueue) (o : Option (Request × List Request))
    → lookup node s.manager.nodes ≡ some q
    → Inv s
    → Inv (record s { manager = (cancel_in s.manager node q o).0 })
unfolding cancel_in
cancel_in-Inv s node q none here v = v
cancel_in-Inv s node q (some (req, rest)) here v =
    update-Inv s _ node q (record q { pending = rest }) here (complete-nodes _ req.id _) (λ on. on)
      (λ p fit. fit) v

expire-Inv : (s : System) (id : ℕ) (node : String) → Inv s → Inv (expire s id node)
unfolding expire cancel
expire-Inv s id node v = elim (Option-cases (lookup node s.manager.nodes)) [
  | inl absent ↦ rw (absent, cancel) v
  | inr (q, here) ↦ rw (here, cancel) (cancel_in-Inv s node q (take_id id q.pending) here v)
]

-- What `activate` does with the request at a picked place.
activate-Inv :
    (s : System) (w : ℕ) (x : Worker) (q : NodeQueue) (o : Option (Request × List Request))
    (started : Time)
    → lookup w s.workers ≡ some x
    → lookup x.node s.manager.nodes ≡ some q
    → q.running ≡ true
    → is_some o ≡ true
    → Inv s
    → let (m, r) = activate s.manager x.node q started o in Inv (after_next s w x.node m r)
unfolding activate
activate-Inv s w x q none started has here on some' v = cc
activate-Inv s w x q (some (req, rest)) started has here on some' v =
    phase-Inv s _ w x (executing run') (record q { active = some run'; pending = rest }) has
      (lookup-insert_self x.node _ s.manager.nodes)
      (λ n other. lookup-insert_ne x.node n _ s.manager.nodes other) on (run', refl, refl) v
  where
    run' : Request
    run' = record req { started_at = started }

take_picked :
    (score : Request → ℤ) (r : Request) (rs : List Request)
    → is_some (take_at (select_index score r rs) (r ∷ rs)) ≡ true
take_picked score r rs =
    let k = select_index-Picks score r rs in
    rw (k.at_index, k.splits, take_at-append k.before k.chosen k.after)

next_of-Inv :
    (s : System) (w : ℕ) (x : Worker) (q : NodeQueue) (pending : List Request) (now started : Time)
    → lookup w s.workers ≡ some x
    → lookup x.node s.manager.nodes ≡ some q
    → q.running ≡ true
    → Inv s
    → let (m, r) = next_of s.manager x.node q pending now started in Inv (after_next s w x.node m r)
unfolding next_of
next_of-Inv s w x q [] now started has here on v = retire-Inv s _ w x has refl v
next_of-Inv s w x q (r ∷ rs) now started has here on v =
    activate-Inv s w x q _ started has here on
      (take_picked (effective_priority s.manager.age_boost now) r rs) v

finish-lookup :
    (m : Manager) (node : String) (id : ℕ) (q : NodeQueue)
    → lookup node m.nodes ≡ some q
    → (lookup node (finish m node id).nodes ≡ some (clear_active q id q.active))
      × ((n : String) → node ≢ n → lookup n (finish m node id).nodes ≡ lookup n m.nodes)
unfolding finish
finish-lookup m node id q here = (
  rw (here, finish) (lookup-insert_self node _ m.nodes),
  λ n other. rw (here, finish) (lookup-insert_ne node n _ m.nodes other),
)

clear_active_own :
    (q : NodeQueue) (id : ℕ) (o : Option Request) (b : Request)
    → q.running ≡ true
    → o ≡ some b
    → b.id ≡ id
    → q.active ≡ o
    → ((clear_active q id o).running ≡ true) × ((clear_active q id o).active ≡ none)
clear_active_own q id o b on is same own = ground arith

advance_phase-Inv :
    (s : System) (w : ℕ) (x : Worker) (p : Phase) (now started : Time) (result : Option QueueError)
    → lookup w s.workers ≡ some x
    → x.phase ≡ p
    → Inv s
    → Inv (advance_phase s w x.node p now started result)
unfolding advance_phase next
advance_phase-Inv s w x ready now started result has is v =
    let (q, here, on, fit) = v.serves w x has in
    rw (here, next) (next_of-Inv s w x q q.pending now started has here on v)
advance_phase-Inv s w x (executing r) now started result has is v =
    let (q, here, on, fit) = v.serves w x has in
    let kept = complete-nodes s.manager r.id result in
    phase-Inv s (complete s.manager r.id result) w x (completing r) q has
      (ap (lookup x.node) kept ∙ here) (λ n other. ap (lookup n) kept) on
      (subst (λ k. Fits k q.active) is fit) v
advance_phase-Inv s w x (completing r) now started result has is v =
    let (q, here, on, fit) = v.serves w x has in
    let (b, own, same) = subst (λ k. Fits k q.active) is fit in
    let (at, off) = finish-lookup s.manager x.node r.id q here in
    let (on', idle) = clear_active_own q r.id q.active b on own same refl in
    phase-Inv s (finish s.manager x.node r.id) w x ready _ has at off on' idle v

advance-Inv :
    (s : System) (w : ℕ) (now started : Time) (result : Option QueueError)
    → Inv s
    → Inv (advance s w now started result)
unfolding advance
advance-Inv s w now started result v = elim (Option-cases (lookup w s.workers)) [
  | inl absent ↦ rw (absent, advance) v
  | inr (x, has) ↦ rw (has, advance) (advance_phase-Inv s w x x.phase now started result has refl v)
]

-- Every step of a caller or a worker keeps the invariant.
pub step-Inv : (s : System) (e : Step) → Inv s → Inv (step s e)
unfolding step
step-Inv s (arrives node operation volume priority now) v =
    arrive-Inv s node operation volume priority now v
step-Inv s (expires id node) v = expire-Inv s id node v
step-Inv s (advances w now started result) v = advance-Inv s w now started result v

run_from-Inv : (s : System) (es : List Step) → Inv s → Inv (run s es)
unfolding run
run_from-Inv s [] v = v
run_from-Inv s (e ∷ es) v = run_from-Inv (step s e) es (step-Inv s e v)

-- From a manager with no queues, after any steps of callers and workers in any order: no two workers
-- serve one node, each worker's node has a running queue that shows as active just the request that
-- the worker executes, and every queue has a worker.
pub run-Inv : (m : Manager) (es : List Step) → m.nodes ≡ [] → Inv (run (start m) es)
run-Inv m es h = run_from-Inv (start m) es (start-Inv m h)

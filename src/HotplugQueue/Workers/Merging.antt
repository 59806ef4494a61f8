-- ===== src/HotplugQueue/Workers/Merging.antt =====
-- No queue of pkg/csi/driver/hotplug_queue.go holds two requests for one operation on one volume.
use storage_provider_openneb.Prelude.{
  ℕ, ◌≡◌, refl, sym, ap, subst, ◌∙◌, String, Bool, true, false, List, [], ◌∷◌, ◌++◌, Option, none,
  some, inl, inr, Option-cases, some-eq,
}
use storage_provider_openneb.Prelude.Keys.{
  lookup, insert, delete, string_key, nat_key, lookup-nil, lookup-insert_self, lookup-insert_eq,
  lookup-insert_ne, lookup-delete_eq, lookup-delete_ne, key-cases,
}
use storage_provider_openneb.Golang.Clock.{Time}
use storage_provider_openneb.HotplugQueue.Request.{
  Priority, Request, NodeQueue, Duplicate, in_active, in_pending,
}
use storage_provider_openneb.HotplugQueue.Priority.{effective_priority}
use storage_provider_openneb.HotplugQueue.Select.{select_index-Picks}
use storage_provider_openneb.HotplugQueue.Manager.{
  Manager, QueueError, enqueue, enqueue_with, append_request, join_request, duplicate_in, queue_of,
  complete, cancel, cancel_in, take_id, next, next_of, activate, finish, clear_active, new_request,
}
use storage_provider_openneb.HotplugQueue.Order.{next-Picks}
use storage_provider_openneb.HotplugQueue.Dedupe.{requests_of, Distinct, enqueue-Distinct}
use storage_provider_openneb.HotplugQueue.Workers.{
  Phase, ready, executing, completing, System, start, spawn_if, arrive, expire, advance,
  advance_phase, after_next, Step, arrives, expires, advances, step, run,
}
use storage_provider_openneb.HotplugQueue.Dedupe.Removal.{
  none-some, front-Distinct, NoTwin-started, pending-Distinct, cancelled-Distinct, cleared-Distinct,
}

-- Merging is on, and every queue holds a request for an operation on a volume once.
pub record Merged (m : Manager) : Type 0 where
  pub on : m.dedupe ≡ true
  pub distinct : (n : String) (q : NodeQueue) → lookup n m.nodes ≡ some q → Distinct (requests_of q)

insert-Merged :
    (m m' : Manager) (n : String) (q : NodeQueue)
    → Merged m
    → m'.dedupe ≡ m.dedupe
    → m'.nodes ≡ insert n q m.nodes
    → Distinct (requests_of q)
    → Merged m'
insert-Merged m m' n q v same e d = record {
  on = same ∙ v.on;
  distinct = λ k r h. elim (key-cases n k) [
    | inl is ↦
        subst (λ x. Distinct (requests_of x))
          (some-eq (sym (lookup-insert_eq n k q m.nodes is) ∙ ap (lookup k) (sym e) ∙ h)) d
    | inr other ↦
        v.distinct k r (sym (lookup-insert_ne n k q m.nodes other) ∙ ap (lookup k) (sym e) ∙ h)
  ];
}

enqueue-inserts :
    (m : Manager) (req : Request)
    → (q : NodeQueue) × ((enqueue m req).manager.nodes ≡ insert req.node q m.nodes)
      × ((enqueue m req).manager.dedupe ≡ m.dedupe)
unfolding enqueue enqueue_with append_request join_request
enqueue-inserts m req =
    let q = queue_of (lookup req.node m.nodes) in by_duplicate q (duplicate_in m q req)
  where
    by_duplicate :
        (q : NodeQueue) (o : Option Duplicate)
        → (q' : NodeQueue) × ((enqueue_with m q req o).manager.nodes ≡ insert req.node q' m.nodes)
          × ((enqueue_with m q req o).manager.dedupe ≡ m.dedupe)
    by_duplicate q none = (_, refl, refl)
    by_duplicate q (some (in_active a)) = (_, refl, refl)
    by_duplicate q (some (in_pending p)) = (_, refl, refl)

queue_of-Distinct :
    (m : Manager) (n : String) → Merged m → Distinct (requests_of (queue_of (lookup n m.nodes)))
queue_of-Distinct m n v = by_lookup (lookup n m.nodes) (v.distinct n)
  where
    by_lookup :
        (o : Option NodeQueue)
        → ((q : NodeQueue) → o ≡ some q → Distinct (requests_of q))
        → Distinct (requests_of (queue_of o))
    by_lookup none f = tt
    by_lookup (some q) f = f q refl

enqueue-Merged : (m : Manager) (req : Request) → Merged m → Merged (enqueue m req).manager
enqueue-Merged m req v =
    let (q, inserted, kept) = enqueue-inserts m req in
    let (q', there, d) = enqueue-Distinct m req v.on (queue_of-Distinct m req.node v) in
    insert-Merged m (enqueue m req).manager req.node q v kept inserted (
      subst (λ x. Distinct (requests_of x))
        (some-eq
          (sym there ∙ ap (lookup req.node) inserted ∙ lookup-insert_self req.node q m.nodes))
        d)

complete-Merged :
    (m : Manager) (id : ℕ) (err : Option QueueError) → Merged m → Merged (complete m id err)
unfolding complete
complete-Merged m id err v = by_done (lookup id m.done)
  where
    by_done :
        (o : Option (Option QueueError))
        → Merged (elim o [ none ↦ record m { done = insert id err m.done } | some _ ↦ m ])
    by_done none = record { on = v.on; distinct = v.distinct }
    by_done (some e) = v

cancel_in-Merged :
    (m : Manager) (n : String) (q : NodeQueue) (id : ℕ) (o : Option (Request × List Request))
    → lookup n m.nodes ≡ some q
    → take_id id q.pending ≡ o
    → Merged m
    → Merged (cancel_in m n q o).0
unfolding cancel_in
cancel_in-Merged m n q id none here e v = v
cancel_in-Merged m n q id (some (r, rest)) here e v = complete-Merged _ r.id _ (
    insert-Merged m (record m { nodes = insert n (record q { pending = rest }) m.nodes }) n
      (record q { pending = rest }) v refl refl
      (cancelled-Distinct q id r rest e (v.distinct n q here)))

cancel-Merged : (m : Manager) (id : ℕ) (n : String) → Merged m → Merged (cancel m id n).0
unfolding cancel
cancel-Merged m id n v = elim (Option-cases (lookup n m.nodes)) [
  | inl missing ↦ rw (missing, cancel) v
  | inr (q, here) ↦ rw (here, cancel) (cancel_in-Merged m n q id (take_id id q.pending) here refl v)
]

delete-Merged :
    (m m' : Manager) (n : String)
    → Merged m
    → m'.dedupe ≡ m.dedupe
    → m'.nodes ≡ delete n m.nodes
    → Merged m'
delete-Merged m m' n v same e = record {
  on = same ∙ v.on;
  distinct = λ k r h. elim (key-cases n k) [
    | inl is ↦
        absurd (none-some (sym (lookup-delete_eq n k m.nodes is) ∙ ap (lookup k) (sym e) ∙ h))
    | inr other ↦
        v.distinct k r (sym (lookup-delete_ne n k m.nodes other) ∙ ap (lookup k) (sym e) ∙ h)
  ];
}

activate-Merged :
    (m : Manager) (n : String) (q : NodeQueue) (started : Time) (x : Request)
    (before after : List Request)
    → q.pending ≡ before ++ (x ∷ after)
    → lookup n m.nodes ≡ some q
    → Merged m
    → Merged (activate m n q started (some (x, before ++ after))).0
unfolding activate
activate-Merged m n q started x before after splits here v =
    let (twin, rest) =
      front-Distinct x before after
        (subst Distinct splits (pending-Distinct q (v.distinct n q here))) in
    insert-Merged m _ n _ v refl refl (NoTwin-started x started (before ++ after) twin, rest)

next-Merged :
    (m : Manager) (n : String) (now started : Time) → Merged m → Merged (next m n now started).0
unfolding next
next-Merged m n now started v = elim (Option-cases (lookup n m.nodes)) [
  | inl missing ↦ rw (missing, next) v
  | inr (q, here) ↦ by_pending q here q.pending refl
]
  where
    by_pending :
        (q : NodeQueue)
        → lookup n m.nodes ≡ some q
        → (ps : List Request) → q.pending ≡ ps
        → Merged (next m n now started).0
    by_pending q here [] e = rw (here, next) (rw (e, next_of) (delete-Merged m _ n v refl refl))
    by_pending q here (r ∷ rs) e =
        let k = select_index-Picks (effective_priority m.age_boost now) r rs in
        rw (next-Picks m n now started q r rs here e k)
          (activate-Merged m n q started k.chosen k.before k.after (e ∙ k.splits) here v)

finish-Merged : (m : Manager) (n : String) (id : ℕ) → Merged m → Merged (finish m n id)
unfolding finish
finish-Merged m n id v = elim (Option-cases (lookup n m.nodes)) [
  | inl missing ↦ rw (missing, finish) v
  | inr (q, here) ↦
      rw (here, finish)
        (insert-Merged m _ n (clear_active q id q.active) v refl refl
          (cleared-Distinct q id (v.distinct n q here)))
]

after_next-Merged :
    (s : System) (w : ℕ) (n : String) (m : Manager) (o : Option Request)
    → Merged m
    → Merged (after_next s w n m o).manager
after_next-Merged s w n m none v = v
after_next-Merged s w n m (some r) v = v

phase-Merged :
    (s : System) (w : ℕ) (n : String) (p : Phase) (now started : Time) (result : Option QueueError)
    → Merged s.manager
    → Merged (advance_phase s w n p now started result).manager
unfolding advance_phase
phase-Merged s w n ready now started result v =
    let (m, r) = next s.manager n now started in
    after_next-Merged s w n m r (next-Merged s.manager n now started v)
phase-Merged s w n (executing r) now started result v = complete-Merged s.manager r.id result v
phase-Merged s w n (completing r) now started result v = finish-Merged s.manager n r.id v

advance-Merged :
    (s : System) (w : ℕ) (now started : Time) (result : Option QueueError)
    → Merged s.manager
    → Merged (advance s w now started result).manager
unfolding advance
advance-Merged s w now started result v = elim (Option-cases (lookup w s.workers)) [
  | inl missing ↦ rw (missing, advance) v
  | inr (x, e) ↦ rw (e, advance) (phase-Merged s w x.node x.phase now started result v)
]

spawn-Merged :
    (b : Bool) (n : String) (s : System) → Merged s.manager → Merged (spawn_if b n s).manager
spawn-Merged false n s v = v
spawn-Merged true n s v = v

arrive-Merged :
    (s : System) (n operation volume : String) (priority : Priority) (now : Time)
    → Merged s.manager
    → Merged (arrive s n operation volume priority now).manager
unfolding arrive new_request
arrive-Merged s n operation volume priority now v =
    let (m, req) = new_request s.manager n operation volume priority now in
    spawn-Merged (enqueue m req).starts n (record s { manager = (enqueue m req).manager })
      (enqueue-Merged m req (record { on = v.on; distinct = v.distinct }))

step-Merged : (s : System) (e : Step) → Merged s.manager → Merged (step s e).manager
unfolding step expire
step-Merged s (arrives n operation volume priority now) v =
    arrive-Merged s n operation volume priority now v
step-Merged s (expires id n) v = cancel-Merged s.manager id n v
step-Merged s (advances w now started result) v = advance-Merged s w now started result v

run-Merged : (s : System) (es : List Step) → Merged s.manager → Merged (run s es).manager
unfolding run
run-Merged s [] v = v
run-Merged s (e ∷ es) v = run-Merged (step s e) es (step-Merged s e v)

-- With merging on, from a manager with no queues and after any steps of callers and workers in any
-- order: no node's queue has two requests for one operation on one volume, its active one counted.
pub run-Distinct :
    (m : Manager) (es : List Step) (n : String) (q : NodeQueue)
    → m.dedupe ≡ true
    → m.nodes ≡ []
    → lookup n (run (start m) es).manager.nodes ≡ some q
    → Distinct (requests_of q)
run-Distinct m es n q on empty here =
    let start-Merged : Merged m = record {
      on = on;
      distinct = λ k r h. absurd (lookup-nil k (ap (lookup k) (sym empty) ∙ h));
    } in
    (run-Merged (start m) es start-Merged).distinct n q here

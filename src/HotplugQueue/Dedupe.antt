-- ===== src/HotplugQueue/Dedupe.antt =====
-- The merging of equal requests in `enqueue` of pkg/csi/driver/hotplug_queue.go.
pub mod Removal
use storage_provider_openneb.Prelude.{
  ◌≡◌, refl, true, false, List, [], ◌∷◌, ◌++◌, Option, none, some, All, arith,
}
use storage_provider_openneb.Prelude.Keys.{lookup, string_key, lookup-insert_self}
use storage_provider_openneb.HotplugQueue.Request.{
  Request, NodeQueue, same_queue_request, find_pending, find_duplicate_request, Duplicate,
  in_active, in_pending,
}
use storage_provider_openneb.HotplugQueue.Manager.{
  Manager, queue_of, enqueue, enqueue_with, duplicate_in, join_request, coalesce, coalesce_pending,
  effective_wait_limit,
}

-- All requests of a queue, the active one first.
abbrev pub requests_of : NodeQueue → List Request
requests_of q = elim q.active [ none ↦ q.pending | some a ↦ a ∷ q.pending ]

abbrev pub NoTwin : Request → List Request → Type 0
NoTwin x [] = Unit
NoTwin x (y ∷ ys) = (same_queue_request x y ≡ false) × NoTwin x ys

-- No two requests are for the same node, operation and volume.
abbrev pub Distinct : List Request → Type 0
Distinct [] = Unit
Distinct (x ∷ xs) = NoTwin x xs × Distinct xs

-- None of these is like the request.
abbrev pub NoneLike : Request → List Request → Type 0
NoneLike req xs = All (λ x. same_queue_request x req ≡ false) xs

NoTwin-snoc :
    (x req : Request) (xs : List Request)
    → NoTwin x xs
    → same_queue_request x req ≡ false
    → NoTwin x (xs ++ (req ∷ []))
NoTwin-snoc x req [] h e = (e, tt)
NoTwin-snoc x req (y ∷ ys) h e = (h.0, NoTwin-snoc x req ys h.1 e)

Distinct-snoc :
    (req : Request) (xs : List Request)
    → Distinct xs
    → NoneLike req xs
    → Distinct (xs ++ (req ∷ []))
Distinct-snoc req [] d n = (tt, tt)
Distinct-snoc req (x ∷ xs) d n = (NoTwin-snoc x req xs d.0 n.0, Distinct-snoc req xs d.1 n.1)

NoTwin-coalesce :
    (x req : Request) (ps : List Request) → NoTwin x ps → NoTwin x (coalesce_pending ps req)
unfolding coalesce_pending same_queue_request
NoTwin-coalesce x req [] h = tt
NoTwin-coalesce x req (p ∷ ps) h = ground (arith, NoTwin-coalesce x req ps h.1)

NoTwin-coalesced : (x : Request) (ps : List Request) → NoTwin x ps → NoTwin (coalesce x) ps
unfolding same_queue_request
NoTwin-coalesced x [] h = tt
NoTwin-coalesced x (p ∷ ps) h = (h.0, NoTwin-coalesced x ps h.1)

Distinct-coalesce :
    (req : Request) (ps : List Request) → Distinct ps → Distinct (coalesce_pending ps req)
unfolding coalesce_pending
Distinct-coalesce req [] h = tt
Distinct-coalesce req (p ∷ ps) h =
    ground
      (arith, Distinct-coalesce req ps h.1, NoTwin-coalesce p req ps h.0, NoTwin-coalesced p ps h.0)

find_pending-none :
    (ps : List Request) (req : Request) → find_pending ps req ≡ none → NoneLike req ps
unfolding find_pending
find_pending-none [] req h = tt
find_pending-none (p ∷ ps) req h = ground (arith, find_pending-none ps req)

no_duplicate-NoneLike :
    (q : NodeQueue) (req : Request)
    → find_duplicate_request q req ≡ none
    → NoneLike req (requests_of q)
unfolding find_duplicate_request
no_duplicate-NoneLike q req h = ground (arith, find_pending-none q.pending req)

-- A request like another one but for its wait limit.
with_limit-NoneLike :
    (req own : Request) (xs : List Request)
    → own.node ≡ req.node
    → own.operation ≡ req.operation
    → own.volume ≡ req.volume
    → NoneLike req xs
    → NoneLike own xs
unfolding same_queue_request
with_limit-NoneLike req own [] a b c h = tt
with_limit-NoneLike req own (x ∷ xs) a b c h =
    (rw (a, b, c) h.0, with_limit-NoneLike req own xs a b c h.1)

append-Distinct :
    (m : Manager) (q : NodeQueue) (req own : Request)
    → own.node ≡ req.node
    → own.operation ≡ req.operation
    → own.volume ≡ req.volume
    → find_duplicate_request q req ≡ none
    → Distinct (requests_of q)
    → Distinct (requests_of (record q { pending = q.pending ++ (own ∷ []); running = true }))
append-Distinct m q req own a b c h d =
    active_cases q.active
      (with_limit-NoneLike req own (requests_of q) a b c (no_duplicate-NoneLike q req h)) d
  where
    active_cases :
        (o : Option Request)
        → NoneLike own (elim o [ none ↦ q.pending | some r ↦ r ∷ q.pending ])
        → Distinct (elim o [ none ↦ q.pending | some r ↦ r ∷ q.pending ])
        → Distinct
            (elim o [ none ↦ q.pending ++ (own ∷ []) | some r ↦ r ∷ (q.pending ++ (own ∷ [])) ])
    active_cases none n d = Distinct-snoc own q.pending d n
    active_cases (some r) n d = Distinct-snoc own (r ∷ q.pending) d n

join-Distinct :
    (m : Manager) (q : NodeQueue) (req : Request) (d : Duplicate)
    → find_duplicate_request q req ≡ some d
    → Distinct (requests_of q)
    → (q' : NodeQueue) × (lookup req.node (join_request m q req d).manager.nodes ≡ some q')
      × Distinct (requests_of q')
unfolding join_request find_duplicate_request
join-Distinct m q req (in_active a) h d = (
  record q { active = some (coalesce a) },
  lookup-insert_self req.node _ m.nodes,
  ground (arith, NoTwin-coalesced a q.pending),
)
join-Distinct m q req (in_pending p) h d = (
  record q { pending = coalesce_pending q.pending req },
  lookup-insert_self req.node _ m.nodes,
  active_cases q.active d,
)
  where
    active_cases :
        (o : Option Request)
        → Distinct (elim o [ none ↦ q.pending | some r ↦ r ∷ q.pending ])
        → Distinct (elim o [
          | none ↦ coalesce_pending q.pending req
          | some r ↦ r ∷ coalesce_pending q.pending req
        ])
    active_cases none d = Distinct-coalesce req q.pending d
    active_cases (some r) d =
        (NoTwin-coalesce r req q.pending d.0, Distinct-coalesce req q.pending d.1)

enqueue_with-Distinct :
    (m : Manager) (q : NodeQueue) (req : Request) (o : Option Duplicate)
    → find_duplicate_request q req ≡ o
    → Distinct (requests_of q)
    → (q' : NodeQueue) × (lookup req.node (enqueue_with m q req o).manager.nodes ≡ some q')
      × Distinct (requests_of q')
unfolding enqueue_with
enqueue_with-Distinct m q req none h d = (
  record q {
    pending = q.pending ++ (record req { wait_limit = effective_wait_limit m q } ∷ []);
    running = true;
  },
  lookup-insert_self req.node _ m.nodes,
  append-Distinct m q req (record req { wait_limit = effective_wait_limit m q }) refl refl refl h d,
)
enqueue_with-Distinct m q req (some e) h d = join-Distinct m q req e h d

merging :
    (m : Manager) (q : NodeQueue) (req : Request)
    → m.dedupe ≡ true
    → find_duplicate_request q req ≡ duplicate_in m q req
unfolding duplicate_in
merging m q req on = ground arith

-- With merging on, a queue in which no two requests are for the same operation on the same volume
-- stays so when a request is enqueued.
pub enqueue-Distinct :
    (m : Manager) (req : Request)
    → m.dedupe ≡ true
    → Distinct (requests_of (queue_of (lookup req.node m.nodes)))
    → (q' : NodeQueue) × (lookup req.node (enqueue m req).manager.nodes ≡ some q')
      × Distinct (requests_of q')
unfolding enqueue
enqueue-Distinct m req on d =
    let q = queue_of (lookup req.node m.nodes) in
    enqueue_with-Distinct m q req (duplicate_in m q req) (merging m q req on) d

-- ===== src/HotplugQueue/Workers/Unnoticed.antt =====
-- Steps of pkg/csi/driver/hotplug_queue.go that a queue's worker does not notice.
use storage_provider_openneb.Prelude.{
  ◌≡◌, refl, sym, ap, ◌∙◌, String, true, false, [], ◌∷◌, ◌++◌, Option, none, some, arith, some-eq,
}
use storage_provider_openneb.Prelude.Keys.{lookup, insert, nat_key, string_key}
use storage_provider_openneb.HotplugQueue.Request.{
  Request, NodeQueue, new_node_queue, find_duplicate_request, find_pending, Duplicate, in_active,
  in_pending,
}
use storage_provider_openneb.HotplugQueue.Manager.{
  Manager, enqueue, duplicate_in, join_request, coalesce, coalesce_pending, enqueue_with,
  effective_wait_limit,
}
use storage_provider_openneb.HotplugQueue.Workers.{Phase, ready, executing, completing, System}
use storage_provider_openneb.HotplugQueue.Workers.Invariant.{Fits, Inv}

-- What a change that the worker of a queue does not notice looks like.
pub record Unnoticed (m m' : Manager) (n : String) (q : NodeQueue) : Type 0 where
  pub changed : NodeQueue
  pub stored : m'.nodes ≡ insert n changed m.nodes
  pub runs : q.running ≡ true → changed.running ≡ true
  pub fits : (p : Phase) → Fits p q.active → Fits p changed.active

pub running_of_Inv :
    (s : System) (n : String) (q : NodeQueue)
    → Inv s
    → lookup n s.manager.nodes ≡ some q
    → q.running ≡ true
running_of_Inv s n q v h =
    let (w, x, has, is) = v.served n q h in
    let (r, there, on, _) = v.serves w x has in
    ap (λ t. t.running) (some-eq (sym h ∙ ap (λ k. lookup k s.manager.nodes) (sym is) ∙ there)) ∙ on

Fits-coalesce :
    (p : Phase) (o : Option Request) (a : Request)
    → o ≡ some a
    → Fits p o
    → Fits p (some (coalesce a))
Fits-coalesce ready o a e h = cc
Fits-coalesce (executing r) o a e (b, is, same) = (coalesce a, refl, ground arith)
Fits-coalesce (completing r) o a e (b, is, same) = (coalesce a, refl, ground arith)

duplicate_active :
    (m : Manager) (q : NodeQueue) (req a : Request)
    → duplicate_in m q req ≡ some (in_active a)
    → q.active ≡ some a
unfolding duplicate_in find_duplicate_request
duplicate_active m q req a h = ground arith

join-Unnoticed :
    (m : Manager) (q : NodeQueue) (req : Request) (d : Duplicate)
    → duplicate_in m q req ≡ some d
    → Unnoticed m (join_request m q req d).manager req.node q
unfolding join_request
join-Unnoticed m q req (in_active a) h = record {
  changed = record q { active = some (coalesce a) };
  stored = refl;
  runs = λ on. on;
  fits = λ p fit. Fits-coalesce p q.active a (duplicate_active m q req a h) fit;
}
join-Unnoticed m q req (in_pending p) h = record {
  changed = record q { pending = coalesce_pending q.pending req };
  stored = refl;
  runs = λ on. on;
  fits = λ p fit. fit;
}

enqueue_with-Unnoticed :
    (m : Manager) (q : NodeQueue) (req : Request) (o : Option Duplicate)
    → duplicate_in m q req ≡ o
    → q.running ≡ true
    → Unnoticed m (enqueue_with m q req o).manager req.node q
      × ((enqueue_with m q req o).starts ≡ false)
unfolding enqueue_with
enqueue_with-Unnoticed m q req none h on = (
  record {
    changed = record q {
      pending = q.pending ++ (record req { wait_limit = effective_wait_limit m q } ∷ []);
      running = true;
    };
    stored = refl;
    runs = λ _. refl;
    fits = λ p fit. fit;
  },
  rw on,
)
enqueue_with-Unnoticed m q req (some d) h on = (join-Unnoticed m q req d h, started d)
  where
    started : (d : Duplicate) → (join_request m q req d).starts ≡ false
    started (in_active a) = refl
    started (in_pending p) = refl

-- A request for a node that has a queue: the queue changes unnoticed, and no worker starts.
pub enqueue-Unnoticed :
    (m : Manager) (req : Request) (q : NodeQueue)
    → lookup req.node m.nodes ≡ some q
    → q.running ≡ true
    → Unnoticed m (enqueue m req).manager req.node q × ((enqueue m req).starts ≡ false)
unfolding enqueue
enqueue-Unnoticed m req q here on =
    rw here (enqueue_with-Unnoticed m q req (duplicate_in m q req) refl on)

pub no_duplicate : (m : Manager) (req : Request) → duplicate_in m new_node_queue req ≡ none
unfolding duplicate_in find_duplicate_request find_pending
no_duplicate m req = ground arith

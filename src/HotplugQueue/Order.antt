-- ===== src/HotplugQueue/Order.antt =====
-- Which request `next` of pkg/csi/driver/hotplug_queue.go starts.
use storage_provider_openneb.Prelude.{
  ℕ, ◌≡◌, ◌∙◌, String, List, ◌∷◌, ◌++◌, some, All, arith, ◌*◌, ◌≤◌, ◌<◌, ◌-◌, ◌/◌,
}
use storage_provider_openneb.Prelude.Int.{pos, ◌<ℤ◌, ◌≤ℤ◌, max_int64, pos_part}
use storage_provider_openneb.Prelude.Keys.{lookup, string_key, lookup-insert_self}
use storage_provider_openneb.Golang.Clock.{Time}
use storage_provider_openneb.HotplugQueue.Request.{
  Request, NodeQueue, Priority, critical, normal, background,
}
use storage_provider_openneb.HotplugQueue.Priority.{
  base_priority, effective_priority, effective_priority-eq-sub,
}
use storage_provider_openneb.HotplugQueue.Select.{
  Picks, select_index, select_index-Picks, take_at-append,
}
use storage_provider_openneb.HotplugQueue.Manager.{Manager, next, next_of, activate}

-- The request that is started, and what is left in the queue.
pub record Started (m : Manager) (node : String) (now started : Time) (q : NodeQueue) : Type 0 where
  pub before : List Request
  pub chosen : Request
  pub after : List Request
  pub splits : q.pending ≡ before ++ (chosen ∷ after)
  pub beats :
      All
        (λ r. effective_priority m.age_boost now chosen <ℤ effective_priority m.age_boost now r)
        before
  pub least :
      All
        (λ r. effective_priority m.age_boost now chosen ≤ℤ effective_priority m.age_boost now r)
        after
  pub returned : (next m node now started).1 ≡ some (record chosen { started_at = started })
  pub stored :
      lookup node (next m node now started).0.nodes
      ≡ some (record q {
        active = some (record chosen { started_at = started });
        pending = before ++ after;
      })

pub next-Picks :
    (m : Manager) (node : String) (now started : Time) (q : NodeQueue) (r : Request)
    (rs : List Request)
    → lookup node m.nodes ≡ some q
    → q.pending ≡ r ∷ rs
    → (k : Picks
        (effective_priority m.age_boost now)
        (r ∷ rs)
        (select_index (effective_priority m.age_boost now) r rs))
    → next m node now started ≡ activate m node q started (some (k.chosen, k.before ++ k.after))
unfolding next next_of
next-Picks m node now started q r rs here e k =
    rw (here, next)
      (rw (e, next_of)
        (rw k.at_index (rw k.splits (rw (take_at-append k.before k.chosen k.after)))))

-- A queue with pending requests starts the one of least score, of equal scores the one that was
-- enqueued first; it becomes the active request, and the others stay pending in their order.
pub next-Started :
    (m : Manager) (node : String) (now started : Time) (q : NodeQueue) (r : Request)
    (rs : List Request)
    → lookup node m.nodes ≡ some q
    → q.pending ≡ r ∷ rs
    → Started m node now started q
unfolding activate
next-Started m node now started q r rs here e =
    let k = select_index-Picks (effective_priority m.age_boost now) r rs in
    let made = next-Picks m node now started q r rs here e k in
    record {
      before = k.before;
      chosen = k.chosen;
      after = k.after;
      splits = e ∙ k.splits;
      beats = k.beats;
      least = k.least;
      returned = rw made;
      stored = rw made (lookup-insert_self node _ m.nodes);
    }

two_boosts : (b w : ℕ) → 0 < b → 2 * b ≤ w → 2 ≤ w / b
two_boosts b w h g = grind arith

base_priority-le : (p : Priority) → pos_part (base_priority p) ≤ 2
base_priority-le critical = omega arith
base_priority-le normal = omega arith
base_priority-le background = omega arith

-- With ageing on, a request that has waited for two boosts or more has the least score of all: no
-- request scores less that was enqueued by now, if both waits fit an int64.
pub aged-least :
    (b : ℕ) (now : Time) (req other : Request)
    → 0 < b
    → req.enqueued_at ≤ now
    → now - req.enqueued_at ≤ max_int64
    → other.enqueued_at ≤ now
    → now - other.enqueued_at ≤ max_int64
    → 2 * b ≤ now - req.enqueued_at
    → effective_priority (pos b) now req ≤ℤ effective_priority (pos b) now other
aged-least b now req other hb h1 h2 h3 h4 aged =
    rw
      (effective_priority-eq-sub b now req hb h1 h2, effective_priority-eq-sub b now other hb h3 h4)
      (omega (arith, base_priority-le req.priority, two_boosts b (now - req.enqueued_at) hb aged))

-- ===== src/HotplugQueue/Workers/Invariant.antt =====
-- What holds between the node queues and the workers at every moment.
use storage_provider_openneb.Prelude.{
  ℕ, ◌≡◌, ◌<◌, sym, String, true, [], Option, none, some, arith, ◌∙◌, ap, subst, ◌≢◌, some-eq, inl,
  inr, ◌⊎◌,
}
use storage_provider_openneb.Prelude.Keys.{
  lookup, insert, lookup-insert_self, lookup-nil, lookup-insert_eq, lookup-insert_ne, key-cases,
  nat_key, string_key,
}
use storage_provider_openneb.HotplugQueue.Request.{Request, NodeQueue}
use storage_provider_openneb.HotplugQueue.Manager.{Manager}
use storage_provider_openneb.HotplugQueue.Workers.{
  Phase, ready, executing, completing, Worker, System, start,
}

pub none-some {ℓ} : {A : Type ℓ} {a : A} → none ≡ some a → ⊥
none-some h = cc

pub lt_not_eq : {a b : ℕ} → b ≡ a → a < b → ⊥
lt_not_eq h l = omega arith

-- The active request of the queue of a worker in this phase.
abbrev pub Fits : Phase → Option Request → Type 0
Fits ready a = a ≡ none
Fits (executing r) a = (b : Request) × (a ≡ some b) × (b.id ≡ r.id)
Fits (completing r) a = (b : Request) × (a ≡ some b) × (b.id ≡ r.id)

abbrev pub Serves : System → Worker → Type 0
Serves s x =
    (q : NodeQueue) × (lookup x.node s.manager.nodes ≡ some q)
    × (q.running ≡ true)
    × Fits x.phase q.active

abbrev pub Served : System → String → Type 0
Served s n = (w : ℕ) × (x : Worker) × (lookup w s.workers ≡ some x) × (x.node ≡ n)

-- A worker has its node's queue, which is marked as running and shows as active just the request
-- that the worker executes; no two workers have one node; and every queue has a worker.
pub record Inv (s : System) : Type 0 where
  pub fresh : (w : ℕ) (x : Worker) → lookup w s.workers ≡ some x → w < s.spawned
  pub serves : (w : ℕ) (x : Worker) → lookup w s.workers ≡ some x → Serves s x
  pub unique :
      (v w : ℕ) (x y : Worker)
      → lookup v s.workers ≡ some x
      → lookup w s.workers ≡ some y
      → x.node ≡ y.node
      → v ≡ w
  pub served : (n : String) (q : NodeQueue) → lookup n s.manager.nodes ≡ some q → Served s n

pub start-Inv : (m : Manager) → m.nodes ≡ [] → Inv (start m)
start-Inv m e = record {
  fresh = λ w x h. absurd (lookup-nil w h);
  serves = λ w x h. absurd (lookup-nil w h);
  unique = λ v w x y h k j. absurd (lookup-nil v h);
  served = λ n q h. absurd (lookup-nil n (ap (lookup n) (sym e) ∙ h));
}

-- The queue of a node changes, and what its worker sees of it does not.
pub update-Inv :
    (s : System) (m : Manager) (n : String) (q q' : NodeQueue)
    → lookup n s.manager.nodes ≡ some q
    → m.nodes ≡ insert n q' s.manager.nodes
    → (q.running ≡ true → q'.running ≡ true)
    → ((p : Phase) → Fits p q.active → Fits p q'.active)
    → Inv s
    → Inv (record s { manager = m })
update-Inv s m n q q' here e running fits v = record {
  fresh = v.fresh;
  serves = λ w x h. serves_after x (v.serves w x h);
  unique = v.unique;
  served = λ k r h. served_after k r h;
}
  where
    serves_after : (x : Worker) → Serves s x → Serves (record s { manager = m }) x
    serves_after x (r, found, on, fit) = elim (key-cases n x.node) [
      | inl same ↦
          let back : r ≡ q =
            some-eq (sym found ∙ ap (λ k. lookup k s.manager.nodes) (sym same) ∙ here) in
          (
            q',
            rw e (lookup-insert_eq n x.node q' s.manager.nodes same),
            running (ap (λ t. t.running) (sym back) ∙ on),
            fits x.phase (subst (λ t. Fits x.phase t.active) back fit),
          )
      | inr other ↦ (r, rw (e, lookup-insert_ne n x.node q' s.manager.nodes other) found, on, fit)
    ]

    served_after : (k : String) (r : NodeQueue) → lookup k m.nodes ≡ some r → Served s k
    served_after k r h = elim (key-cases n k) [
      | inl same ↦ v.served k q (ap (λ j. lookup j s.manager.nodes) (sym same) ∙ here)
      | inr other ↦
          v.served k r
            (sym (lookup-insert_ne n k q' s.manager.nodes other) ∙ ap (lookup k) (sym e) ∙ h)
    ]

-- Worker `w` goes on to phase `p`, its node's queue is then `q'`, and no other queue changes.
pub phase-Inv :
    (s : System) (m : Manager) (w : ℕ) (x : Worker) (p : Phase) (q' : NodeQueue)
    → lookup w s.workers ≡ some x
    → lookup x.node m.nodes ≡ some q'
    → ((n : String) → x.node ≢ n → lookup n m.nodes ≡ lookup n s.manager.nodes)
    → q'.running ≡ true
    → Fits p q'.active
    → Inv s
    → Inv (record s {
      manager = m;
      workers = insert w (record { node = x.node; phase = p }) s.workers;
    })
phase-Inv s m w x p q' here at off on fit v = record {
  fresh = λ u y h. elim (found u y h) [
    | inl (same, _) ↦ subst (λ k. k < s.spawned) same (v.fresh w x here)
    | inr (_, old) ↦ v.fresh u y old
  ];
  serves = λ u y h. elim (found u y h) [
    | inl (same, is) ↦ subst (Serves after_step) is (q', at, on, fit)
    | inr (other, old) ↦ elsewhere u y other old (v.serves u y old)
  ];
  unique = λ a b y z h k j. elim (found a y h) [
    | inl (here_a, is_a) ↦ elim (found b z k) [
      | inl (here_b, _) ↦ sym here_a ∙ here_b
      | inr (other, old) ↦ sym here_a ∙ v.unique w b x z here old (ap (λ t. t.node) is_a ∙ j)
    ]
    | inr (other, old) ↦ elim (found b z k) [
      | inl (here_b, is_b) ↦ v.unique a w y x old here (j ∙ ap (λ t. t.node) (sym is_b)) ∙ here_b
      | inr (_, old_b) ↦ v.unique a b y z old old_b j
    ]
  ];
  served = λ n r h. elim (key-cases x.node n) [
    | inl same ↦ (w, moved, lookup-insert_self w moved s.workers, same)
    | inr other ↦ still n other (v.served n r (sym (off n other) ∙ h))
  ];
}
  where
    moved : Worker
    moved = record { node = x.node; phase = p }

    found :
        (u : ℕ) (y : Worker)
        → lookup u (insert w moved s.workers) ≡ some y
        → ((w ≡ u) × (moved ≡ y)) ⊎ ((w ≢ u) × (lookup u s.workers ≡ some y))
    found u y h = elim (key-cases w u) [
      | inl same ↦ inl (same, some-eq (sym (lookup-insert_eq w u moved s.workers same) ∙ h))
      | inr other ↦ inr (other, sym (lookup-insert_ne w u moved s.workers other) ∙ h)
    ]

    after_step : System
    after_step = record s { manager = m; workers = insert w moved s.workers }

    elsewhere :
        (u : ℕ) (y : Worker)
        → w ≢ u
        → lookup u s.workers ≡ some y
        → Serves s y
        → Serves after_step y
    elsewhere u y other old (r, has, on', fit') =
        (r, off y.node (λ j. other (v.unique w u x y here old j)) ∙ has, on', fit')

    still : (n : String) → x.node ≢ n → Served s n → Served after_step n
    still n other (u, y, has, is) = (
      u,
      y,
      lookup-insert_ne w u moved s.workers (λ j.
            other
              (ap (λ t. t.node) (some-eq (sym here ∙ ap (λ k. lookup k s.workers) j ∙ has)) ∙ is))
          ∙ has,
      is,
    )

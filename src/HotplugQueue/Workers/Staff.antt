-- ===== src/HotplugQueue/Workers/Staff.antt =====
-- The invariant of pkg/csi/driver/hotplug_queue.go when a worker starts and when one returns.
use storage_provider_openneb.Prelude.{
  ℕ, ◌≡◌, sym, String, true, none, some, arith, ◌∙◌, ap, subst, ◌≢◌, some-eq, inl, inr, ◌⊎◌,
}
use storage_provider_openneb.Prelude.Keys.{
  lookup, insert, delete, lookup-insert_self, lookup-insert_eq, lookup-insert_ne, lookup-delete_eq,
  lookup-delete_ne, key-cases, nat_key, string_key,
}
use storage_provider_openneb.HotplugQueue.Request.{NodeQueue}
use storage_provider_openneb.HotplugQueue.Manager.{Manager}
use storage_provider_openneb.HotplugQueue.Workers.{ready, Worker, System, spawn_if}
use storage_provider_openneb.HotplugQueue.Workers.Invariant.{
  Serves, Served, Inv, none-some, lt_not_eq,
}

-- A worker starts for a node that had no queue.
pub spawn-Inv :
    (s : System) (m : Manager) (n : String) (q : NodeQueue)
    → lookup n s.manager.nodes ≡ none
    → m.nodes ≡ insert n q s.manager.nodes
    → q.running ≡ true
    → q.active ≡ none
    → Inv s
    → Inv (spawn_if true n (record s { manager = m }))
spawn-Inv s m n q absent e on idle v = record {
  fresh = λ u y h. elim (found u y h) [
    | inl (same, _) ↦ omega arith
    | inr (_, old) ↦ omega (arith, v.fresh u y old)
  ];
  serves = λ u y h. elim (found u y h) [
    | inl (same, is) ↦
        subst (Serves after_step) is (q, rw e (lookup-insert_self n q s.manager.nodes), on, idle)
    | inr (other, old) ↦ elsewhere u y old (v.serves u y old)
  ];
  unique = λ a b y z h k j. elim (found a y h) [
    | inl (here_a, is_a) ↦ elim (found b z k) [
      | inl (here_b, _) ↦ sym here_a ∙ here_b
      | inr (other, old) ↦ absurd (no_worker b z old (sym (ap (λ t. t.node) is_a ∙ j)))
    ]
    | inr (other, old) ↦ elim (found b z k) [
      | inl (here_b, is_b) ↦ absurd (no_worker a y old (j ∙ ap (λ t. t.node) (sym is_b)))
      | inr (_, old_b) ↦ v.unique a b y z old old_b j
    ]
  ];
  served = λ k r h. elim (key-cases n k) [
    | inl same ↦ (s.spawned, newest, lookup-insert_self s.spawned newest s.workers, same)
    | inr other ↦ still k (
        v.served k r
          (sym (lookup-insert_ne n k q s.manager.nodes other) ∙ ap (lookup k) (sym e) ∙ h))
  ];
}
  where
    newest : Worker
    newest = record { node = n; phase = ready }

    after_step : System
    after_step = spawn_if true n (record s { manager = m })

    found :
        (u : ℕ) (y : Worker)
        → lookup u (insert s.spawned newest s.workers) ≡ some y
        → ((s.spawned ≡ u) × (newest ≡ y)) ⊎ ((s.spawned ≢ u) × (lookup u s.workers ≡ some y))
    found u y h = elim (key-cases s.spawned u) [
      | inl same ↦
          inl (same, some-eq (sym (lookup-insert_eq s.spawned u newest s.workers same) ∙ h))
      | inr other ↦ inr (other, sym (lookup-insert_ne s.spawned u newest s.workers other) ∙ h)
    ]

    no_worker : (u : ℕ) (y : Worker) → lookup u s.workers ≡ some y → y.node ≢ n
    no_worker u y old is =
        let (r, has, _, _) = v.serves u y old in
        none-some (sym absent ∙ ap (λ k. lookup k s.manager.nodes) (sym is) ∙ has)

    elsewhere :
        (u : ℕ) (y : Worker) → lookup u s.workers ≡ some y → Serves s y → Serves after_step y
    elsewhere u y old (r, has, on', fit') = (
      r,
      rw (e, lookup-insert_ne n y.node q s.manager.nodes (λ j. no_worker u y old (sym j))) has,
      on',
      fit',
    )

    still : (k : String) → Served s k → Served after_step k
    still k (u, y, has, is) = (
      u,
      y,
      lookup-insert_ne s.spawned u newest s.workers (λ j. lt_not_eq j (v.fresh u y has)) ∙ has,
      is,
    )

-- The worker of a node whose queue is dropped returns.
pub retire-Inv :
    (s : System) (m : Manager) (w : ℕ) (x : Worker)
    → lookup w s.workers ≡ some x
    → m.nodes ≡ delete x.node s.manager.nodes
    → Inv s
    → Inv (record s { manager = m; workers = delete w s.workers })
retire-Inv s m w x here e v = record {
  fresh = λ u y h. v.fresh u y (old u y h).1;
  serves = λ u y h. elsewhere u y (old u y h).0 (old u y h).1 (v.serves u y (old u y h).1);
  unique = λ a b y z h k j. v.unique a b y z (old a y h).1 (old b z k).1 j;
  served = λ n r h. elim (key-cases x.node n) [
    | inl same ↦ absurd (
        none-some
          (sym (lookup-delete_eq x.node n s.manager.nodes same) ∙ ap (lookup n) (sym e) ∙ h))
    | inr other ↦ still n other (
        v.served n r
          (sym (lookup-delete_ne x.node n s.manager.nodes other) ∙ ap (lookup n) (sym e) ∙ h))
  ];
}
  where
    after_step : System
    after_step = record s { manager = m; workers = delete w s.workers }

    old :
        (u : ℕ) (y : Worker)
        → lookup u (delete w s.workers) ≡ some y
        → (w ≢ u) × (lookup u s.workers ≡ some y)
    old u y h = elim (key-cases w u) [
      | inl same ↦ absurd (none-some (sym (lookup-delete_eq w u s.workers same) ∙ h))
      | inr other ↦ (other, sym (lookup-delete_ne w u s.workers other) ∙ h)
    ]

    elsewhere :
        (u : ℕ) (y : Worker)
        → w ≢ u
        → lookup u s.workers ≡ some y
        → Serves s y
        → Serves after_step y
    elsewhere u y other has_u (r, has, on', fit') = (
      r,
      rw
          (
            e,
            lookup-delete_ne x.node y.node s.manager.nodes
                (λ j. other (v.unique w u x y here has_u j)),
          )
          has,
      on',
      fit',
    )

    still : (n : String) → x.node ≢ n → Served s n → Served after_step n
    still n other (u, y, has, is) = (
      u,
      y,
      lookup-delete_ne w u s.workers (λ j.
            other
              (ap (λ t. t.node) (some-eq (sym here ∙ ap (λ k. lookup k s.workers) j ∙ has)) ∙ is))
          ∙ has,
      is,
    )

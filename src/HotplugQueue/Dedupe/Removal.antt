-- ===== src/HotplugQueue/Dedupe/Removal.antt =====
-- Requests that leave a queue of pkg/csi/driver/hotplug_queue.go leave no two alike.
use storage_provider_openneb.Prelude.{
  ℕ, ◌≡◌, ap, subst, eq_iff, false, List, [], ◌∷◌, ◌++◌, Option, none, some, ◌==◌, arith, inl, inr,
  Bool-cases, Option-cases, some-eq,
}
use storage_provider_openneb.Prelude.Keys.{string_key, nat_key}
use storage_provider_openneb.Golang.Clock.{Time}
use storage_provider_openneb.HotplugQueue.Request.{Request, NodeQueue, same_queue_request}
use storage_provider_openneb.HotplugQueue.Manager.{take_id, clear_active}
use storage_provider_openneb.HotplugQueue.Dedupe.{requests_of, NoTwin, Distinct}

pub none-some {ℓ} : {A : Type ℓ} {a : A} → none ≡ some a → ⊥
none-some h = cc

same-sym : (x y : Request) → same_queue_request x y ≡ false → same_queue_request y x ≡ false
unfolding same_queue_request
same-sym x y h = ground (
  arith,
  eq_iff x.node y.node,
  eq_iff x.operation y.operation,
  eq_iff x.volume y.volume,
  eq_iff y.node x.node,
  eq_iff y.operation x.operation,
  eq_iff y.volume x.volume,
)

NoTwin-drop :
    (y x : Request) (before after : List Request)
    → NoTwin y (before ++ (x ∷ after))
    → (same_queue_request y x ≡ false) × NoTwin y (before ++ after)
NoTwin-drop y x [] after h = h
NoTwin-drop y x (z ∷ before) after h =
    let (apart, rest) = NoTwin-drop y x before after h.1 in (apart, (h.0, rest))

-- A request of a queue that moves to its front.
pub front-Distinct :
    (x : Request) (before after : List Request)
    → Distinct (before ++ (x ∷ after))
    → NoTwin x (before ++ after) × Distinct (before ++ after)
front-Distinct x [] after d = d
front-Distinct x (y ∷ before) after d =
    let (apart, alone) = NoTwin-drop y x before after d.0 in
    let (twin, rest) = front-Distinct x before after d.1 in
    ((same-sym y x apart, twin), (alone, rest))

pub NoTwin-started :
    (x : Request) (t : Time) (ys : List Request)
    → NoTwin x ys
    → NoTwin (record x { started_at = t }) ys
unfolding same_queue_request
NoTwin-started x t [] h = tt
NoTwin-started x t (y ∷ ys) h = (h.0, NoTwin-started x t ys h.1)

pub pending-Distinct : (q : NodeQueue) → Distinct (requests_of q) → Distinct q.pending
pending-Distinct q d = by_active q.active d
  where
    by_active :
        (o : Option Request)
        → Distinct (elim o [ none ↦ q.pending | some a ↦ a ∷ q.pending ])
        → Distinct q.pending
    by_active none d = d
    by_active (some a) d = d.1

NoTwin-take :
    (id : ℕ) (x r : Request) (ps rest : List Request)
    → take_id id ps ≡ some (r, rest)
    → NoTwin x ps
    → NoTwin x rest
unfolding take_id
NoTwin-take id x r [] rest h t = cc
NoTwin-take id x r (p ∷ ps) rest h t = elim (Bool-cases (p.id == id)) [
  | inl here ↦ subst (NoTwin x) (ap (λ k. k.1) (some-eq (rw here at h))) t.1
  | inr other ↦ elim (Option-cases (take_id id ps)) [
    | inl nowhere ↦ absurd (none-some (rw (other, nowhere) at h))
    | inr ((y, ys), e) ↦
        subst (NoTwin x) (ap (λ k. k.1) (some-eq (rw (other, e) at h)))
          (t.0, NoTwin-take id x y ps ys e t.1)
  ]
]

Distinct-take :
    (id : ℕ) (r : Request) (ps rest : List Request)
    → take_id id ps ≡ some (r, rest)
    → Distinct ps
    → Distinct rest
unfolding take_id
Distinct-take id r [] rest h d = cc
Distinct-take id r (p ∷ ps) rest h d = elim (Bool-cases (p.id == id)) [
  | inl here ↦ subst Distinct (ap (λ k. k.1) (some-eq (rw here at h))) d.1
  | inr other ↦ elim (Option-cases (take_id id ps)) [
    | inl nowhere ↦ absurd (none-some (rw (other, nowhere) at h))
    | inr ((y, ys), e) ↦
        subst Distinct (ap (λ k. k.1) (some-eq (rw (other, e) at h)))
          (NoTwin-take id p y ps ys e d.0, Distinct-take id y ps ys e d.1)
  ]
]

pub cancelled-Distinct :
    (q : NodeQueue) (id : ℕ) (r : Request) (rest : List Request)
    → take_id id q.pending ≡ some (r, rest)
    → Distinct (requests_of q)
    → Distinct (requests_of (record q { pending = rest }))
cancelled-Distinct q id r rest h d = by_active q.active d
  where
    by_active :
        (o : Option Request)
        → Distinct (elim o [ none ↦ q.pending | some a ↦ a ∷ q.pending ])
        → Distinct (elim o [ none ↦ rest | some a ↦ a ∷ rest ])
    by_active none d = Distinct-take id r q.pending rest h d
    by_active (some a) d =
        (NoTwin-take id a r q.pending rest h d.0, Distinct-take id r q.pending rest h d.1)

pub cleared-Distinct :
    (q : NodeQueue) (id : ℕ)
    → Distinct (requests_of q)
    → Distinct (requests_of (clear_active q id q.active))
cleared-Distinct q id d = by_active q.active
  where
    by_active : (o : Option Request) → Distinct (requests_of (clear_active q id o))
    by_active none = d
    by_active (some a) = elim (Bool-cases (a.id == id)) [
      | inl done ↦ rw done (pending-Distinct q d)
      | inr other ↦ rw other d
    ]

-- ===== src/OperationLocks/Completion.antt =====
-- Every call of pkg/csi/driver/operation_locks.go gets its mutexes and leaves the table as it was.
use storage_provider_openneb.Prelude.{
  ℕ, zero, suc, ◌+◌, ◌*◌, ◌<◌, ◌≡◌, refl, sym, true, List, String, [], ◌∷◌, Option, none, some,
  arith, inl, inr, ◌⊎◌, Option-cases, In, length, subst, eq_iff,
}
use storage_provider_openneb.Prelude.Keys.{lookup, string_key}
use storage_provider_openneb.OperationLocks.{
  OperationLocks, Held, Caller, idle, proceed, Advance, this, other, acquiring, trying, holding,
  releasing, AllIdle, Reach, step,
}
use storage_provider_openneb.OperationLocks.Invariant.Steps.{locked}
use storage_provider_openneb.OperationLocks.Exclusion.{Reach-Agrees, idle-uses}
use storage_provider_openneb.OperationLocks.Order.{Reach-Ordered}
use storage_provider_openneb.OperationLocks.Progress.{awaited, AllStuck, none-awaited, locked-true}

-- What some goroutine of the list can reach in one step.
abbrev pub CanAdvance : OperationLocks → List Caller → Type 0
CanAdvance o cs = (o' : OperationLocks) × (cs' : List Caller) × Advance o cs o' cs'

stuck-cases : (o : OperationLocks) (cs : List Caller) → CanAdvance o cs ⊎ AllStuck o cs
stuck-cases o [] = inr tt
stuck-cases o (c ∷ cs) = elim (Option-cases (proceed o c)) [
  | inr ((o', c'), e) ↦ inl (o', c' ∷ cs, this e)
  | inl stuck ↦ elim (stuck-cases o cs) [
    | inl (o', cs', st) ↦ inl (o', c ∷ cs', other st)
    | inr all ↦ inr (stuck, all)
  ]
]

-- A stuck goroutine is idle, or waits for a mutex.
stuck-idle :
    (o : OperationLocks) (c : Caller)
    → proceed o c ≡ none
    → ((k : String) → In k (awaited (c ∷ [])) → ⊥)
    → ((left released : List Held) (h : Held)
        → c ≡ releasing (h ∷ left) released
        → (o.heap h.1).locked ≡ true)
    → c ≡ idle
unfolding proceed
stuck-idle o idle e w l = refl
stuck-idle o (acquiring done []) e w l = cc
stuck-idle o (acquiring done (g ∷ rest)) e w l = absurd (w g.0 (inl refl))
stuck-idle o (trying g) e w l = ground arith
stuck-idle o (holding done) e w l = cc
stuck-idle o (releasing [] released) e w l = cc
stuck-idle o (releasing (g ∷ left) released) e w l = ground (arith, l left released g refl)

awaited-cons :
    (c : Caller) (cs : List Caller) (k : String) → In k (awaited (c ∷ [])) → In k (awaited (c ∷ cs))
awaited-cons (acquiring d (g ∷ gs)) cs k (inl e) = inl e
awaited-cons (acquiring d (g ∷ gs)) cs k (inr i) = elim i [ ]
awaited-cons (acquiring d []) cs k i = elim i [ ]
awaited-cons idle cs k i = elim i [ ]
awaited-cons (trying g) cs k i = elim i [ ]
awaited-cons (holding d) cs k i = elim i [ ]
awaited-cons (releasing l d) cs k i = elim i [ ]

awaited-tail :
    (c : Caller) (cs : List Caller) (k : String) → In k (awaited cs) → In k (awaited (c ∷ cs))
awaited-tail (acquiring d (g ∷ gs)) cs k i = inr i
awaited-tail (acquiring d []) cs k i = i
awaited-tail idle cs k i = i
awaited-tail (trying g) cs k i = i
awaited-tail (holding d) cs k i = i
awaited-tail (releasing l d) cs k i = i

all-idle :
    (o : OperationLocks) (cs : List Caller)
    → AllStuck o cs
    → ((k : String) → In k (awaited cs) → ⊥)
    → ((c : Caller) (left released : List Held) (h : Held)
        → In c cs
        → c ≡ releasing (h ∷ left) released
        → (o.heap h.1).locked ≡ true)
    → AllIdle cs
all-idle o [] stuck w l = tt
all-idle o (c ∷ cs) stuck w l = (
  stuck-idle o c stuck.0 (λ k i. w k (awaited-cons c cs k i)) (λ left d h. l c left d h (inl refl)),
  all-idle o cs stuck.1 (λ k i. w k (awaited-tail c cs k i)) (λ d left r h i. l d left r h (inr i)),
)

-- If every goroutine calls Acquire and TryAcquire only when it holds nothing, then they do not block
-- each other for ever, and none unlocks a mutex that is not locked: in every state that is reached, all
-- goroutines are outside a call, or one of them can take a step.
pub proceed_or_idle :
    {o : OperationLocks} {cs : List Caller} → Reach o cs → AllIdle cs ⊎ CanAdvance o cs
proceed_or_idle {o} {cs} r =
    let inv = Reach-Agrees r in
    elim (stuck-cases o cs) [
      | inl can ↦ inr can
      | inr stuck ↦ inl (
          all-idle o cs stuck (none-awaited cs inv (Reach-Ordered r) stuck)
            (λ c left released h i e.
              locked-true cs c h inv i (subst (λ x. In h (locked x)) (sym e) (inl refl))))
    ]

-- The steps that a goroutine needs at most to end its call.
abbrev pub work : Caller → ℕ
work idle = 0
work (acquiring done rest) = 3 + 2 * length done + 3 * length rest
work (trying h) = 5
work (holding done) = 2 + 2 * length done
work (releasing left released) = 1 + length left

abbrev pub all_work : List Caller → ℕ
all_work [] = 0
all_work (c ∷ cs) = work c + all_work cs

LessWork : Option (OperationLocks × Caller) → ℕ → Type 0
LessWork none n = Unit
LessWork (some (o, c)) n = work c < n

work-proceed : (o : OperationLocks) (c : Caller) → LessWork (proceed o c) (work c)
unfolding proceed LessWork
work-proceed o idle = tt
work-proceed o (acquiring done []) = omega arith
work-proceed o (acquiring done ((k, r) ∷ rest)) = ground arith
work-proceed o (trying (k, r)) = ground arith
work-proceed o (holding done) = omega arith
work-proceed o (releasing ((k, r) ∷ left) released) = ground arith
work-proceed o (releasing [] released) = omega arith

-- A step leaves less work, so that the calls in progress end after finitely many steps.
pub Advance-all_work :
    {o o' : OperationLocks} {cs cs' : List Caller}
    → Advance o cs o' cs'
    → all_work cs' < all_work cs
unfolding LessWork
Advance-all_work (this {o = o} {c = c} {cs = cs} e) =
    let less = subst (λ s. LessWork s (work c)) e (work-proceed o c) in omega (arith, less)
Advance-all_work (other st) = omega (arith, Advance-all_work st)

lookup-all_none : (m : List (String × ℕ)) → ((k : String) → lookup k m ≡ none) → m ≡ []
unfolding lookup
lookup-all_none [] h = refl
lookup-all_none ((k, v) ∷ m) h = absurd (ground (arith, h k, eq_iff k k))

-- When no goroutine is inside a call, the table is empty: no key is left behind.
pub idle-locks : {o : OperationLocks} {cs : List Caller} → Reach o cs → AllIdle cs → o.locks ≡ []
idle-locks {o} {cs} r h =
    let inv = Reach-Agrees r in
    lookup-all_none o.locks λ k. elim (Option-cases (lookup k o.locks)) [
      | inl out ↦ out
      | inr (q, e) ↦ absurd (omega (arith, inv.live k q e, idle-uses cs h k q))
    ]

-- Any number of steps.
pub data Advances : OperationLocks → List Caller → OperationLocks → List Caller → Type 0 where
  stop : {o : OperationLocks} {cs : List Caller} → Advances o cs o cs
  more :
      {o o' o'' : OperationLocks} {cs cs' cs'' : List Caller}
      → Advance o cs o' cs'
      → Advances o' cs' o'' cs''
      → Advances o cs o'' cs''

-- A run to a state where no goroutine is inside a call.
pub record Drained (o : OperationLocks) (cs : List Caller) : Type 0 where
  pub locks_after : OperationLocks
  pub callers_after : List Caller
  pub steps : Advances o cs locks_after callers_after
  pub idle_after : AllIdle callers_after
  pub empty_after : locks_after.locks ≡ []

drain :
    (n : ℕ) (o : OperationLocks) (cs : List Caller) → all_work cs < n → Reach o cs → Drained o cs
drain zero o cs h r = absurd (omega arith)
drain (suc n) o cs h r = elim (proceed_or_idle r) [
  | inl done ↦ record {
    locks_after = o;
    callers_after = cs;
    steps = stop;
    idle_after = done;
    empty_after = idle-locks r done;
  }
  | inr (o', cs', st) ↦
      let end = drain n o' cs' (omega (arith, Advance-all_work st)) (step r st) in
      record {
        locks_after = end.locks_after;
        callers_after = end.callers_after;
        steps = more st end.steps;
        idle_after = end.idle_after;
        empty_after = end.empty_after;
      }
]

-- If every goroutine calls Acquire and TryAcquire only when it holds nothing, then from every state
-- that is reached the calls in progress can all be run to their end, what they hold is released, and
-- then the table is empty.
pub Reach-Drained : {o : OperationLocks} {cs : List Caller} → Reach o cs → Drained o cs
Reach-Drained {o} {cs} r = drain (suc (all_work cs)) o cs (omega arith) r

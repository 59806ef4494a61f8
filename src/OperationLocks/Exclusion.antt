-- ===== src/OperationLocks/Exclusion.antt =====
-- Goroutines on the locks of pkg/csi/driver/operation_locks.go, in any interleaving: who holds a key.
use storage_provider_openneb.Prelude.{
  ℕ, ◌+◌, ◌≤◌, ◌<◌, ◌≡◌, refl, sym, ◌∙◌, some-eq, String, str_eq, Bool, true, List, [], ◌∷◌, none,
  some, arith, inl, inr, Option-cases, Bool-cases, some_elem,
}
use storage_provider_openneb.Prelude.Keys.{lookup, string_key}
use storage_provider_openneb.OperationLocks.{
  OperationLocks, Held, Caller, idle, Advance, this, other, acquiring, trying, holding, releasing,
  Start, first, later, AllIdle, Reach, fresh, call, step,
}
use storage_provider_openneb.OperationLocks.Invariant.Table.{Inv, Inv-ext, uses, holds, bit}
use storage_provider_openneb.OperationLocks.Invariant.Steps.{
  Beside, Beside-proceed, Beside-Call, Inv-new, entries, locked, with_uses, with_holds, uses-append,
}

-- Over all goroutines of the list.
abbrev pub all_uses : List Caller → String → ℕ → ℕ
all_uses [] k r = 0
all_uses (c ∷ cs) k r = uses (entries c) k r + all_uses cs k r

abbrev pub all_holds : List Caller → ℕ → ℕ
all_holds [] r = 0
all_holds (c ∷ cs) r = holds (locked c) r + all_holds cs r

-- The goroutines of the list beside others that have the given counts.
abbrev pub Among : OperationLocks → List Caller → (String → ℕ → ℕ) → (ℕ → ℕ) → Type 0
Among o cs used held = Inv o (λ k r. all_uses cs k r + used k r) (λ r. all_holds cs r + held r)

pub Among-tail :
    {o : OperationLocks} (c : Caller) (cs : List Caller) (used : String → ℕ → ℕ) (held : ℕ → ℕ)
    → Among o (c ∷ cs) used held
    → Among o cs (with_uses (entries c) used) (with_holds (locked c) held)
Among-tail c cs used held inv = Inv-ext (λ k r. omega arith) (λ r. omega arith) inv

Among-cons :
    {o : OperationLocks} (c : Caller) (cs : List Caller) (used : String → ℕ → ℕ) (held : ℕ → ℕ)
    → Among o cs (with_uses (entries c) used) (with_holds (locked c) held)
    → Among o (c ∷ cs) used held
Among-cons c cs used held inv = Inv-ext (λ k r. omega arith) (λ r. omega arith) inv

Among-head :
    {o : OperationLocks} (c : Caller) (cs : List Caller) (used : String → ℕ → ℕ) (held : ℕ → ℕ)
    → Among o (c ∷ cs) used held
    → Beside o c (λ k r. all_uses cs k r + used k r) (λ r. all_holds cs r + held r)
Among-head c cs used held inv = Inv-ext (λ k r. omega arith) (λ r. omega arith) inv

Among-first :
    {o : OperationLocks} (c : Caller) (cs : List Caller) (used : String → ℕ → ℕ) (held : ℕ → ℕ)
    → Beside o c (λ k r. all_uses cs k r + used k r) (λ r. all_holds cs r + held r)
    → Among o (c ∷ cs) used held
Among-first c cs used held inv = Inv-ext (λ k r. omega arith) (λ r. omega arith) inv

Among-Advance :
    {o o' : OperationLocks} {cs cs' : List Caller} (used : String → ℕ → ℕ) (held : ℕ → ℕ)
    → Advance o cs o' cs'
    → Among o cs used held
    → Among o' cs' used held
Among-Advance used held (this {c = c} {c' = c'} {cs = cs} e) inv =
    Among-first c' cs used held (Beside-proceed c c' _ _ e (Among-head c cs used held inv))
Among-Advance used held (other {c = c} {cs = cs} {cs' = cs'} st) inv = Among-cons c cs' used held (
    Among-Advance (with_uses (entries c) used) (with_holds (locked c) held) st
      (Among-tail c cs used held inv))

Among-Start :
    {o o' : OperationLocks} {cs cs' : List Caller} (used : String → ℕ → ℕ) (held : ℕ → ℕ)
    → Start o cs o' cs'
    → Among o cs used held
    → Among o' cs' used held
Among-Start used held (first {c = c} {c' = c'} {cs = cs} e) inv =
    Among-first c' cs used held (Beside-Call c c' _ _ e (Among-head c cs used held inv))
Among-Start used held (later {c = c} {cs = cs} {cs' = cs'} st) inv = Among-cons c cs' used held (
    Among-Start (with_uses (entries c) used) (with_holds (locked c) held) st
      (Among-tail c cs used held inv))

pub idle-uses : (cs : List Caller) → AllIdle cs → (k : String) (r : ℕ) → all_uses cs k r ≡ 0
idle-uses [] h k r = refl
idle-uses (c ∷ cs) h k r = rw h.0 (omega (arith, idle-uses cs h.1 k r))

idle-holds : (cs : List Caller) → AllIdle cs → (r : ℕ) → all_holds cs r ≡ 0
idle-holds [] h r = refl
idle-holds (c ∷ cs) h r = rw h.0 (omega (arith, idle-holds cs h.1 r))

-- The table and the counts of all goroutines agree.
abbrev pub Agrees : OperationLocks → List Caller → Type 0
Agrees o cs = Among o cs (λ k r. 0) (λ r. 0)

pub Reach-Agrees : {o : OperationLocks} {cs : List Caller} → Reach o cs → Agrees o cs
Reach-Agrees (fresh {cs} h) =
    Inv-ext (λ k r. omega (arith, idle-uses cs h k r)) (λ r. omega (arith, idle-holds cs h r))
      Inv-new
Reach-Agrees (call before st) = Among-Start (λ k r. 0) (λ r. 0) st (Reach-Agrees before)
Reach-Agrees (step before st) = Among-Advance (λ k r. 0) (λ r. 0) st (Reach-Agrees before)

-- How many of the goroutines have locked the key.
abbrev pub locks_key : String → Caller → Bool
locks_key k c = some_elem (λ (h : Held). str_eq h.0 k) (locked c)

abbrev pub holders : String → List Caller → ℕ
holders k [] = 0
holders k (c ∷ cs) = bit (locks_key k c) + holders k cs

pub locked-uses : (c : Caller) (k : String) (r : ℕ) → uses (locked c) k r ≤ uses (entries c) k r
locked-uses idle k r = omega arith
locked-uses (acquiring done rest) k r = omega (arith, uses-append done rest k r)
locked-uses (trying h) k r = omega arith
locked-uses (holding done) k r = omega arith
locked-uses (releasing left released) k r = omega (arith, uses-append left released k r)

-- An entry for the key, at an address that is counted as held.
key-address :
    (hs : List Held) (k : String)
    → some_elem (λ (h : Held). str_eq h.0 k) hs ≡ true
    → (r : ℕ) × (0 < uses hs k r) × (1 ≤ holds hs r)
key-address [] k e = cc
key-address ((j, q) ∷ hs) k e = elim (Bool-cases (str_eq j k)) [
  | inl here ↦ (q, ground arith, ground arith)
  | inr there ↦ let (r, u, l) = key-address hs k (ground arith) in (r, omega arith, omega arith)
]

holders-holds :
    {o : OperationLocks} (cs : List Caller) (used : String → ℕ → ℕ) (held : ℕ → ℕ) (k : String)
    (r : ℕ)
    → Among o cs used held
    → lookup k o.locks ≡ some r
    → holders k cs ≤ all_holds cs r
holders-holds [] used held k r inv e = omega arith
holders-holds (c ∷ cs) used held k r inv e = elim (Bool-cases (locks_key k c)) [
  | inl here ↦
      let (q, u, l) = key-address (locked c) k here in
      let same_ref : r ≡ q = some-eq (sym e ∙ inv.listed k q (omega (arith, locked-uses c k q))) in
      ground (arith, holders-holds cs _ _ k r (Among-tail c cs used held inv) e)
  | inr there ↦ ground (arith, holders-holds cs _ _ k r (Among-tail c cs used held inv) e)
]

holders-none :
    {o : OperationLocks} (cs : List Caller) (used : String → ℕ → ℕ) (held : ℕ → ℕ) (k : String)
    → Among o cs used held
    → lookup k o.locks ≡ none
    → holders k cs ≡ 0
holders-none [] used held k inv e = refl
holders-none (c ∷ cs) used held k inv e = elim (Bool-cases (locks_key k c)) [
  | inl here ↦
      let (q, u, l) = key-address (locked c) k here in
      let found = inv.listed k q (omega (arith, locked-uses c k q)) in absurd (cc)
  | inr there ↦ ground (arith, holders-none cs _ _ k (Among-tail c cs used held inv) e)
]

-- In whatever order the goroutines call Acquire, TryAcquire and what these return, and however their
-- steps interleave, at most one of them has locked the mutex of a key.
pub holders_bound :
    {o : OperationLocks} {cs : List Caller} → Reach o cs → (k : String) → holders k cs ≤ 1
holders_bound {o} {cs} r k =
    let inv = Reach-Agrees r in
    elim (Option-cases (lookup k o.locks)) [
      | inl out ↦ omega (arith, holders-none cs _ _ k inv out)
      | inr (q, e) ↦ ground (arith, holders-holds cs _ _ k q inv e, inv.exact q)
    ]

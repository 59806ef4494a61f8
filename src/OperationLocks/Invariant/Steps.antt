-- ===== src/OperationLocks/Invariant/Steps.antt =====
-- Each step of a goroutine keeps the counts, beside those of the other goroutines.
use storage_provider_openneb.Prelude.{
  ℕ, ◌+◌, ◌-◌, ◌<◌, ◌==◌, ◌≡◌, refl, String, eq_iff, Bool, true, false, List, [], ◌∷◌, ◌++◌, Option,
  none, some, if◌then◌else◌, arith, inl, inr, Option-cases, Bool-cases, ◌≢◌, subst,
}
use storage_provider_openneb.Prelude.Keys.{lookup, string_key, lookup-nil}
use storage_provider_openneb.OperationLocks.{
  OperationLocks, Held, enlist, enlist_all, delist, delist_all, set_locked, Caller, proceed,
  acquire, wait_all, try_first, try_acquire, normalize_lock_keys, new_operation_locks, idle,
  acquiring, trying, holding, releasing, add_ref, set_refs, Call, lock_all, try_one,
}
use storage_provider_openneb.OperationLocks.Invariant.Table.{
  Inv, Inv-ext, Inv-add_ref, Inv-set_refs, Inv-drop_key, Inv-set_locked, uses, holds, bit, same,
  with_use,
}

enlist-none :
    (o : OperationLocks) (key : String)
    → lookup key o.locks ≡ none
    → enlist o key ≡ (add_ref o key, (key, o.next))
unfolding enlist
enlist-none o key h = rw (enlist, h) refl

enlist-some :
    (o : OperationLocks) (key : String) (r : ℕ)
    → lookup key o.locks ≡ some r
    → enlist o key ≡ (set_refs o r ((o.heap r).refs + 1), (key, r))
unfolding enlist
enlist-some o key r h = rw (enlist, h) refl

Inv-enlist :
    (o : OperationLocks) {used : String → ℕ → ℕ} {held : ℕ → ℕ} (key : String)
    → Inv o used held
    → Inv (enlist o key).0 (with_use (enlist o key).1 used) held
Inv-enlist o {used} {held} key inv = elim (Option-cases (lookup key o.locks)) [
  | inl new ↦ rw (enlist-none o key new) (Inv-add_ref key new inv)
  | inr (r, e) ↦ rw (enlist-some o key r e) (
      Inv-set_refs key r ((o.heap r).refs + 1) e
        (ground (arith, inv.counted key r e, eq_iff key key)) (omega arith) (λ k q h. ground arith)
        inv)
]

abbrev pub with_uses : List Held → (String → ℕ → ℕ) → String → ℕ → ℕ
with_uses hs used k r = uses hs k r + used k r

Inv-enlist_all :
    (ks : List String) (o : OperationLocks) (used : String → ℕ → ℕ) (held : ℕ → ℕ)
    → Inv o used held
    → Inv (enlist_all o ks).0 (with_uses (enlist_all o ks).1 used) held
unfolding enlist_all
Inv-enlist_all [] o used held inv = Inv-ext (λ j r. omega arith) (λ r. refl) inv
Inv-enlist_all (k ∷ ks) o used held inv =
    Inv-ext (λ j r. omega arith) (λ r. refl)
      (Inv-enlist_all ks (enlist o k).0 (with_use (enlist o k).1 used) held (Inv-enlist o k inv))

Inv-delist :
    {o : OperationLocks} {used : String → ℕ → ℕ} {held : ℕ → ℕ} (h : Held)
    → Inv o (with_use h used) held
    → Inv (delist o h) used held
unfolding delist
Inv-delist {o} {used} {held} (key, r) inv = elim (Bool-cases ((o.heap r).refs - 1 == 0)) [
  | inl last ↦ ground (arith, count, Inv-drop_key key r here (ground (arith, count)) apart inv)
  | inr more ↦ ground (
    arith,
    count,
    Inv-set_refs key r ((o.heap r).refs - 1) here (ground (arith, count)) (ground (arith, count))
        apart inv,
  )
]
  where
    here : lookup key o.locks ≡ some r
    here = inv.listed key r (ground (arith, eq_iff key key))

    count : (o.heap r).refs ≡ 1 + used key r
    count = ground (arith, inv.counted key r here, eq_iff key key)

    apart : (k : String) (q : ℕ) → same (key, r) k q ≡ false → used k q ≡ with_use (key, r) used k q
    apart k q h = ground arith

Inv-delist_all :
    (hs : List Held) (o : OperationLocks) (used : String → ℕ → ℕ) (held : ℕ → ℕ)
    → Inv o (with_uses hs used) held
    → Inv (delist_all o hs) used held
unfolding delist_all
Inv-delist_all [] o used held inv = Inv-ext (λ j r. omega arith) (λ r. refl) inv
Inv-delist_all (h ∷ hs) o used held inv =
    Inv-delist_all hs (delist o h) used held
      (Inv-delist h (Inv-ext (λ j r. omega arith) (λ r. refl) inv))

-- The entries of a goroutine in the table, and those whose mutex it has locked.
abbrev pub entries : Caller → List Held
entries idle = []
entries (acquiring done rest) = done ++ rest
entries (trying h) = h ∷ []
entries (holding done) = done
entries (releasing left released) = left ++ released

abbrev pub locked : Caller → List Held
locked idle = []
locked (acquiring done rest) = done
locked (trying h) = []
locked (holding done) = done
locked (releasing left released) = left

pub uses-append :
    (hs gs : List Held) (k : String) (r : ℕ) → uses (hs ++ gs) k r ≡ uses hs k r + uses gs k r
uses-append [] gs k r = omega arith
uses-append (h ∷ hs) gs k r = omega (arith, uses-append hs gs k r)

abbrev pub with_holds : List Held → (ℕ → ℕ) → ℕ → ℕ
with_holds hs held r = holds hs r + held r

-- A lock or an unlock of one mutex of the goroutine.
Inv-mutex :
    {o : OperationLocks} {used used' : String → ℕ → ℕ} {held held' : ℕ → ℕ} (h : Held) (b : Bool)
    → ((k : String) (r : ℕ) → used k r ≡ used' k r)
    → 0 < used h.0 h.1
    → held' h.1 ≡ bit b
    → ((q : ℕ) → h.1 ≢ q → held' q ≡ held q)
    → Inv o used held
    → Inv (set_locked o h.1 b) used' held'
Inv-mutex {o} (k, r) b move pos here there inv =
    Inv-ext move (λ r. refl) (Inv-set_locked r b (inv.old k r (inv.listed k r pos)) here there inv)

abbrev pub Beside : OperationLocks → Caller → (String → ℕ → ℕ) → (ℕ → ℕ) → Type 0
Beside o c used held = Inv o (with_uses (entries c) used) (with_holds (locked c) held)

abbrev Kept : Option (OperationLocks × Caller) → (String → ℕ → ℕ) → (ℕ → ℕ) → Type 0
Kept none used held = Unit
Kept (some (o, c)) used held = Beside o c used held

Kept-if :
    (b : Bool) (x y : Option (OperationLocks × Caller)) (used : String → ℕ → ℕ) (held : ℕ → ℕ)
    → (b ≡ true → Kept x used held)
    → (b ≡ false → Kept y used held)
    → Kept (if b then x else y) used held
Kept-if true x y used held p q = p refl
Kept-if false x y used held p q = q refl

Kept-proceed :
    (o : OperationLocks) (c : Caller) (used : String → ℕ → ℕ) (held : ℕ → ℕ)
    → Beside o c used held
    → Kept (proceed o c) used held
unfolding proceed
Kept-proceed o idle used held inv = tt
Kept-proceed o (acquiring done []) used held inv =
    Inv-ext (λ k r. omega (arith, uses-append done [] k r)) (λ r. refl) inv
Kept-proceed o (acquiring done ((k, r) ∷ rest)) used held inv =
    Kept-if (o.heap r).locked _ _ used held (λ b. tt)
      (λ free.
        Inv-mutex (k, r) true
          (λ j q. omega (arith, uses-append done ((k, r) ∷ rest) j q, uses-append done rest j q))
          (ground (arith, uses-append done ((k, r) ∷ rest) k r, eq_iff k k))
          (ground (arith, inv.exact r)) (λ q n. ground arith) inv)
Kept-proceed o (trying (k, r)) used held inv =
    Kept-if (o.heap r).locked _ _ used held
      (λ b. Inv-delist (k, r) (Inv-ext (λ j q. omega arith) (λ q. refl) inv))
      (λ free.
        Inv-mutex (k, r) true (λ j q. refl) (ground (arith, eq_iff k k))
          (ground (arith, inv.exact r)) (λ q n. ground arith) inv)
Kept-proceed o (holding done) used held inv =
    Inv-ext (λ k r. omega (arith, uses-append done [] k r)) (λ r. refl) inv
Kept-proceed o (releasing ((k, r) ∷ left) released) used held inv =
    Kept-if (o.heap r).locked _ _ used held
      (λ b.
        Inv-mutex (k, r) false
          (λ j q.
            omega (arith, uses-append left released j q, uses-append left ((k, r) ∷ released) j q))
          (ground (arith, eq_iff k k)) (ground (arith, inv.exact r)) (λ q n. ground arith) inv)
      (λ free. tt)
Kept-proceed o (releasing [] released) used held inv =
    Inv-ext (λ j r. omega arith) (λ r. omega arith)
      (Inv-delist_all released o used (λ r. 0 + held r) inv)

pub Beside-proceed :
    {o o' : OperationLocks} (c c' : Caller) (used : String → ℕ → ℕ) (held : ℕ → ℕ)
    → proceed o c ≡ some (o', c')
    → Beside o c used held
    → Beside o' c' used held
Beside-proceed {o} c c' used held e inv =
    subst (λ s. Kept s used held) e (Kept-proceed o c used held inv)

acquire-cases :
    (o : OperationLocks) (hs : List Held) (used : String → ℕ → ℕ) (held : ℕ → ℕ)
    (o1 : OperationLocks)
    → Inv o used held
    → Inv o1 (with_uses hs used) held
    → Kept (some (wait_all o o1 hs)) used held
acquire-cases o [] used held o1 before after =
    Inv-ext (λ j r. omega arith) (λ r. omega arith) before
acquire-cases o (h ∷ rest) used held o1 before after =
    Inv-ext (λ j r. refl) (λ r. omega arith) after

try-cases :
    (o : OperationLocks) (ks : List String) (used : String → ℕ → ℕ) (held : ℕ → ℕ)
    → Inv o used held
    → Kept (some (try_first o ks)) used held
try-cases o [] used held inv = Inv-ext (λ j r. omega arith) (λ r. omega arith) inv
try-cases o (k ∷ ks) used held inv =
    Inv-ext (λ j r. omega arith) (λ r. omega arith) (Inv-enlist o k inv)

pub Beside-Call :
    {o o' : OperationLocks} (c c' : Caller) (used : String → ℕ → ℕ) (held : ℕ → ℕ)
    → Call o c o' c'
    → Beside o c used held
    → Beside o' c' used held
unfolding acquire try_acquire
Beside-Call {o} c c' used held (lock_all keys) inv =
    let before = Inv-ext (λ j r. omega arith) (λ r. omega arith) inv in
    acquire-cases o (enlist_all o (normalize_lock_keys keys)).1 used held _ before
      (Inv-enlist_all (normalize_lock_keys keys) o used held before)
Beside-Call {o} c c' used held (try_one key) inv =
    try-cases o (normalize_lock_keys (key ∷ [])) used held
      (Inv-ext (λ j r. omega arith) (λ r. omega arith) inv)

pub Inv-new : Inv new_operation_locks (λ k r. 0) (λ r. 0)
unfolding new_operation_locks
Inv-new = record {
  listed = λ k r h. absurd (omega arith);
  counted = λ k r h. absurd (lookup-nil k h);
  live = λ k r h. absurd (lookup-nil k h);
  old = λ k r h. absurd (lookup-nil k h);
  apart = λ j k r h g. absurd (lookup-nil k g);
  exact = λ r. refl;
  clean = λ r h. refl;
}

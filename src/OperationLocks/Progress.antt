-- ===== src/OperationLocks/Progress.antt =====
-- Goroutines on the locks of pkg/csi/driver/operation_locks.go do not block each other for ever.
use storage_provider_openneb.Prelude.{
  ℕ, ◌<◌, ◌==◌, ◌≡◌, refl, sym, ap, String, eq_iff, true, false, ltb, List, [], ◌∷◌, none, arith,
  inl, inr, Bool-cases, All, In, subst,
}
use storage_provider_openneb.Prelude.Keys.{string_key}
use storage_provider_openneb.Golang.Text.{str_lt}
use storage_provider_openneb.Golang.StringOrder.{str_lt_trans, str_lt_irrefl}
use storage_provider_openneb.OperationLocks.{
  OperationLocks, Held, Caller, idle, proceed, acquiring, trying, holding, releasing,
}
use storage_provider_openneb.OperationLocks.Invariant.Table.{uses, holds}
use storage_provider_openneb.OperationLocks.Invariant.Steps.{entries, locked, uses-append}
use storage_provider_openneb.OperationLocks.Exclusion.{Agrees, all_uses, all_holds, locked-uses}
use storage_provider_openneb.OperationLocks.Order.{Ordered, Under}

-- The goroutine waits for the mutex of `k`, at the address `r`.
pub record Waits (c : Caller) (k : String) (r : ℕ) : Type 0 where
  pub done : List Held
  pub rest : List Held
  pub is : c ≡ acquiring done ((k, r) ∷ rest)

raise :
    (m k : String)
    → str_lt m k ≡ true
    → (ks : List String) → All (λ j. str_lt m j ≡ false) ks
    → All (λ j. str_lt k j ≡ false) ks
raise m k lt [] h = tt
raise m k lt (j ∷ js) h =
    (ground (arith, str_lt_trans m k j lt, Bool-cases (str_lt k j), h.0), raise m k lt js h.1)

greatest :
    (k : String) (ks : List String)
    → (m : String) × In m (k ∷ ks) × All (λ j. str_lt m j ≡ false) (k ∷ ks)
greatest k [] = (k, inl refl, (str_lt_irrefl k, tt))
greatest k (j ∷ js) =
    let (m, i, above) = greatest j js in
    elim (Bool-cases (str_lt m k)) [
      | inl more ↦ (k, inl refl, (str_lt_irrefl k, raise m k more (j ∷ js) above))
      | inr less ↦ (m, inr i, (less, above))
    ]

-- The keys that the goroutines wait for.
abbrev pub awaited : List Caller → List String
awaited [] = []
awaited (acquiring done (h ∷ rest) ∷ cs) = h.0 ∷ awaited cs
awaited (c ∷ cs) = awaited cs

abbrev pub AllStuck : OperationLocks → List Caller → Type 0
AllStuck o cs = All (λ c. proceed o c ≡ none) cs

find_entry : (hs : List Held) (r : ℕ) → 0 < holds hs r → (k : String) × In (k, r) hs
find_entry [] r h = absurd (omega arith)
find_entry ((j, q) ∷ hs) r h = elim (Bool-cases (q == r)) [
  | inl here ↦ (j, inl (ap (λ s. (j, s)) (ground arith)))
  | inr there ↦ let (k, i) = find_entry hs r (ground arith) in (k, inr i)
]

-- A goroutine that has locked the mutex at the address.
find_holder :
    (cs : List Caller) (r : ℕ)
    → 0 < all_holds cs r
    → (c : Caller) × (k : String) × In c cs × In (k, r) (locked c)
find_holder [] r h = absurd (omega arith)
find_holder (c ∷ cs) r h = elim (Bool-cases (ltb 0 (holds (locked c) r))) [
  | inl here ↦ let (k, i) = find_entry (locked c) r (ground arith) in (c, k, inl refl, i)
  | inr there ↦ let (d, k, i, e) = find_holder cs r (ground arith) in (d, k, inr i, e)
]

uses-In : (hs : List Held) (k : String) (r : ℕ) → In (k, r) hs → 0 < uses hs k r
uses-In [] k r i = elim i [ ]
uses-In (h ∷ hs) k r (inl e) = rw (← e) (ground (arith, eq_iff k k))
uses-In (h ∷ hs) k r (inr i) = omega (arith, uses-In hs k r i)

holds-In : (hs : List Held) (h : Held) → In h hs → 0 < holds hs h.1
holds-In [] h i = elim i [ ]
holds-In (g ∷ hs) h (inl e) = rw (← e) (ground arith)
holds-In (g ∷ hs) h (inr i) = omega (arith, holds-In hs h i)

all_uses-In :
    (cs : List Caller) (c : Caller) (k : String) (r : ℕ)
    → In c cs
    → 0 < uses (entries c) k r
    → 0 < all_uses cs k r
all_uses-In [] c k r i u = elim i [ ]
all_uses-In (d ∷ cs) c k r (inl e) u =
    let u' : 0 < uses (entries d) k r = rw (← e) u in omega (arith, u')
all_uses-In (d ∷ cs) c k r (inr i) u = omega (arith, all_uses-In cs c k r i u)

All-In : {A : Type 0} (P : A → Type 0) (xs : List A) (x : A) → In x xs → All P xs → P x
All-In P [] x i h = elim i [ ]
All-In P (y ∷ ys) x (inl e) h = subst P (sym e) h.0
All-In P (y ∷ ys) x (inr i) h = All-In P ys x i h.1

awaited-In :
    (cs : List Caller) (done : List Held) (h : Held) (rest : List Held)
    → In (acquiring done (h ∷ rest)) cs
    → In h.0 (awaited cs)
awaited-In [] done h rest i = elim i [ ]
awaited-In (c ∷ cs) done h rest (inl e) = rw (← e) (inl refl)
awaited-In (idle ∷ cs) done h rest (inr i) = awaited-In cs done h rest i
awaited-In (acquiring d [] ∷ cs) done h rest (inr i) = awaited-In cs done h rest i
awaited-In (acquiring d (g ∷ gs) ∷ cs) done h rest (inr i) = inr (awaited-In cs done h rest i)
awaited-In (trying g ∷ cs) done h rest (inr i) = awaited-In cs done h rest i
awaited-In (holding d ∷ cs) done h rest (inr i) = awaited-In cs done h rest i
awaited-In (releasing l d ∷ cs) done h rest (inr i) = awaited-In cs done h rest i

In-awaited :
    (cs : List Caller) (k : String)
    → In k (awaited cs)
    → (c : Caller) × (r : ℕ) × In c cs × Waits c k r
In-awaited [] k i = elim i [ ]
In-awaited (acquiring d (g ∷ gs) ∷ cs) k (inl e) =
    (acquiring d (g ∷ gs), g.1, inl refl, record { done = d; rest = gs; is = rw e refl })
In-awaited (acquiring d (g ∷ gs) ∷ cs) k (inr i) =
    let (c, r, m, w) = In-awaited cs k i in (c, r, inr m, w)
In-awaited (acquiring d [] ∷ cs) k i = let (c, r, m, w) = In-awaited cs k i in (c, r, inr m, w)
In-awaited (idle ∷ cs) k i = let (c, r, m, w) = In-awaited cs k i in (c, r, inr m, w)
In-awaited (trying g ∷ cs) k i = let (c, r, m, w) = In-awaited cs k i in (c, r, inr m, w)
In-awaited (holding d ∷ cs) k i = let (c, r, m, w) = In-awaited cs k i in (c, r, inr m, w)
In-awaited (releasing l d ∷ cs) k i = let (c, r, m, w) = In-awaited cs k i in (c, r, inr m, w)

all_holds-In :
    (cs : List Caller) (c : Caller) (h : Held) → In c cs → In h (locked c) → 0 < all_holds cs h.1
all_holds-In [] c h i e = elim i [ ]
all_holds-In (d ∷ cs) c h (inl s) e =
    let here : 0 < holds (locked d) h.1 = rw (← s) (holds-In (locked c) h e) in omega (arith, here)
all_holds-In (d ∷ cs) c h (inr i) e = omega (arith, all_holds-In cs c h i e)

-- The mutex of an entry that some goroutine has locked is locked.
pub locked-true :
    {o : OperationLocks} (cs : List Caller) (c : Caller) (h : Held)
    → Agrees o cs
    → In c cs
    → In h (locked c)
    → (o.heap h.1).locked ≡ true
locked-true cs c h inv i e = ground (arith, all_holds-In cs c h i e, inv.exact h.1)

waits-locked :
    (o : OperationLocks) (done : List Held) (k : String) (r : ℕ) (rest : List Held)
    → proceed o (acquiring done ((k, r) ∷ rest)) ≡ none
    → (o.heap r).locked ≡ true
unfolding proceed
waits-locked o done k r rest e = ground arith

-- A stuck goroutine that has locked something waits for one more mutex.
stuck-waits :
    (o : OperationLocks) (c : Caller) (h : Held)
    → proceed o c ≡ none
    → In h (locked c)
    → ((g : Held) → In g (locked c) → (o.heap g.1).locked ≡ true)
    → (done : List Held) × (g : Held) × (rest : List Held) × (c ≡ acquiring done (g ∷ rest))
unfolding proceed
stuck-waits o idle h e i all = elim i [ ]
stuck-waits o (acquiring done []) h e i all = cc
stuck-waits o (acquiring done (g ∷ rest)) h e i all = (done, g, rest, refl)
stuck-waits o (trying g) h e i all = elim i [ ]
stuck-waits o (holding done) h e i all = cc
stuck-waits o (releasing [] released) h e i all = cc
stuck-waits o (releasing ((k, r) ∷ left) released) h e i all =
    absurd (ground (arith, all (k, r) (inl refl)))

top :
    (k : String) (ks : List String)
    → In k ks
    → (m : String) × In m ks × All (λ j. str_lt m j ≡ false) ks
top k [] i = elim i [ ]
top k (j ∷ js) i = greatest j js

waiting-uses : (c : Caller) (k : String) (r : ℕ) → Waits c k r → 0 < uses (entries c) k r
waiting-uses c k r w =
    rw w.is (ground (arith, uses-append w.done ((k, r) ∷ w.rest) k r, eq_iff k k))

-- The holder of the greatest key that is waited for would wait for a greater one.
pub none-awaited :
    {o : OperationLocks} (cs : List Caller)
    → Agrees o cs
    → All Ordered cs
    → AllStuck o cs
    → (k : String) → In k (awaited cs)
    → ⊥
none-awaited {o} cs inv order stuck k i =
    let (m, im, above) = top k (awaited cs) i in
    let (c, r, ic, w) = In-awaited cs m im in
    let free = waits-locked o w.done m r w.rest (rw (← w.is) (All-In _ cs c ic stuck)) in
    let here = inv.listed m r (omega (arith, all_uses-In cs c m r ic (waiting-uses c m r w))) in
    let (d, j, id, ie) = find_holder cs r (ground (arith, inv.exact r)) in
    let there = inv.listed j r (
      omega (
        arith,
        all_uses-In cs d j r id (omega (arith, locked-uses d j r, uses-In (locked d) j r ie)),
      )) in
    let (done, g, rest, e) =
      stuck-waits o d (j, r) (All-In _ cs d id stuck) ie (λ g ig. locked-true cs d g inv id ig) in
    let lt =
      All-In (λ h. Under h (g ∷ rest)) done (j, r) (subst (λ x. In (j, r) (locked x)) e ie)
        (subst Ordered e (All-In Ordered cs d id order)).0 in
    let ge =
      All-In _ (awaited cs) g.0 (awaited-In cs done g rest (subst (λ x. In x cs) e id)) above in
    let same_key : j ≡ m = inv.apart j m r there here in cc

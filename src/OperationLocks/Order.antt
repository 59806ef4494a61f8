-- ===== src/OperationLocks/Order.antt =====
-- The order in which a goroutine of pkg/csi/driver/operation_locks.go locks its mutexes.
use storage_provider_openneb.Prelude.{
  ◌≡◌, refl, sym, ap, String, Bool, true, false, List, [], ◌∷◌, Option, none, some, if◌then◌else◌,
  arith, All, subst,
}
use storage_provider_openneb.Golang.Text.{str_lt}
use storage_provider_openneb.Golang.StringOrder.{Ascending, Ascending-tail, str_lt_trans}
use storage_provider_openneb.OperationLocks.{
  OperationLocks, Held, Caller, idle, proceed, Advance, this, other, acquiring, trying, holding,
  releasing, Call, lock_all, try_one, Start, first, later, AllIdle, Reach, fresh, call, step,
  enlist, enlist_all, acquire, wait_all, try_first, try_acquire, normalize_lock_keys,
}
use storage_provider_openneb.OperationLocks.Keys.{Ascending-normalize}

-- `h` comes before the first entry of the list.
abbrev pub Under : Held → List Held → Type 0
Under h [] = Unit
Under h (g ∷ gs) = str_lt h.0 g.0 ≡ true

abbrev pub keys_of : List Held → List String
keys_of [] = []
keys_of (h ∷ hs) = h.0 ∷ keys_of hs

-- What a goroutine still waits for is ascending, and above all that it has locked.
abbrev pub Ordered : Caller → Type 0
Ordered idle = Unit
Ordered (acquiring done rest) = All (λ h. Under h rest) done × Ascending (keys_of rest)
Ordered (trying h) = Unit
Ordered (holding done) = Unit
Ordered (releasing left released) = Unit

Under-next :
    (g h : Held) (rest : List Held)
    → Under g (h ∷ rest)
    → Ascending (keys_of (h ∷ rest))
    → Under g rest
Under-next g h [] u a = tt
Under-next g h (i ∷ is) u a = str_lt_trans g.0 h.0 i.0 u a.0

All-Under-next :
    (done : List Held) (h : Held) (rest : List Held)
    → All (λ g. Under g (h ∷ rest)) done
    → Ascending (keys_of (h ∷ rest))
    → All (λ g. Under g rest) done
All-Under-next [] h rest u a = tt
All-Under-next (g ∷ gs) h rest u a = (Under-next g h rest u.0 a, All-Under-next gs h rest u.1 a)

Under-first : (h : Held) (rest : List Held) → Ascending (keys_of (h ∷ rest)) → Under h rest
Under-first h [] a = tt
Under-first h (g ∷ gs) a = a.0

AfterOrdered : Option (OperationLocks × Caller) → Type 0
AfterOrdered none = Unit
AfterOrdered (some (o, c)) = Ordered c

if-Ordered :
    (b : Bool) (x y : Option (OperationLocks × Caller))
    → AfterOrdered x
    → AfterOrdered y
    → AfterOrdered (if b then x else y)
if-Ordered true x y p q = p
if-Ordered false x y p q = q

Ordered-proceed : (o : OperationLocks) (c : Caller) → Ordered c → AfterOrdered (proceed o c)
unfolding proceed AfterOrdered
Ordered-proceed o idle h = tt
Ordered-proceed o (acquiring done []) h = tt
Ordered-proceed o (acquiring done ((k, r) ∷ rest)) h = if-Ordered (o.heap r).locked _ _ tt (
  (Under-first (k, r) rest h.1, All-Under-next done (k, r) rest h.0 h.1),
  Ascending-tail k (keys_of rest) h.1,
)
Ordered-proceed o (trying (k, r)) h = if-Ordered (o.heap r).locked _ _ tt tt
Ordered-proceed o (holding done) h = tt
Ordered-proceed o (releasing ((k, r) ∷ left) released) h = if-Ordered (o.heap r).locked _ _ tt tt
Ordered-proceed o (releasing [] released) h = tt

enlist-key : (o : OperationLocks) (k : String) → (enlist o k).1.0 ≡ k
unfolding enlist
enlist-key o k = ground arith

enlist_all-keys : (ks : List String) (o : OperationLocks) → keys_of (enlist_all o ks).1 ≡ ks
unfolding enlist_all
enlist_all-keys [] o = refl
enlist_all-keys (k ∷ ks) o =
    rw (enlist-key o k) (ap (λ js. k ∷ js) (enlist_all-keys ks (enlist o k).0))

acquired :
    (hs : List Held) (o o1 : OperationLocks) → Ascending (keys_of hs) → Ordered (wait_all o o1 hs).1
acquired [] o o1 a = tt
acquired (h ∷ hs) o o1 a = (tt, a)

tried : (ks : List String) (o : OperationLocks) → Ordered (try_first o ks).1
tried [] o = tt
tried (k ∷ ks) o = tt

Ordered-Call : {o o' : OperationLocks} {c c' : Caller} → Call o c o' c' → Ordered c'
unfolding acquire try_acquire
Ordered-Call {o} (lock_all keys) =
    acquired (enlist_all o (normalize_lock_keys keys)).1 o _
      (rw (enlist_all-keys (normalize_lock_keys keys) o) (Ascending-normalize keys "").0)
Ordered-Call {o} (try_one key) = tried (normalize_lock_keys (key ∷ [])) o

AllOrdered-Start :
    {o o' : OperationLocks} {cs cs' : List Caller}
    → Start o cs o' cs'
    → All Ordered cs
    → All Ordered cs'
AllOrdered-Start (first e) h = (Ordered-Call e, h.1)
AllOrdered-Start (later st) h = (h.0, AllOrdered-Start st h.1)

AllOrdered-Advance :
    {o o' : OperationLocks} {cs cs' : List Caller}
    → Advance o cs o' cs'
    → All Ordered cs
    → All Ordered cs'
unfolding AfterOrdered
AllOrdered-Advance (this {o = o} {c = c} e) h =
    (subst AfterOrdered e (Ordered-proceed o c h.0), h.1)
AllOrdered-Advance (other st) h = (h.0, AllOrdered-Advance st h.1)

AllOrdered-idle : (cs : List Caller) → AllIdle cs → All Ordered cs
AllOrdered-idle [] h = tt
AllOrdered-idle (c ∷ cs) h = (subst Ordered (sym h.0) tt, AllOrdered-idle cs h.1)

-- In every state that is reached, each goroutine locks its mutexes in ascending order.
pub Reach-Ordered : {o : OperationLocks} {cs : List Caller} → Reach o cs → All Ordered cs
Reach-Ordered (fresh {cs} h) = AllOrdered-idle cs h
Reach-Ordered (call before st) = AllOrdered-Start st (Reach-Ordered before)
Reach-Ordered (step before st) = AllOrdered-Advance st (Reach-Ordered before)

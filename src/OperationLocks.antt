-- ===== src/OperationLocks.antt =====
-- pkg/csi/driver/operation_locks.go: a mutex for each key, in a table that counts its users. What
-- runs under `o.mu` is one step. The memory of the mutexes is a function from addresses.
pub mod Keys
pub mod Invariant
pub mod Exclusion
pub mod Order
pub mod Progress
pub mod Completion
use storage_provider_openneb.Prelude.{
  ℕ, ◌+◌, ◌-◌, ◌==◌, ◌≡◌, String, str_eq, Bool, true, false, List, [], ◌∷◌, Option, none, some,
  if◌then◌else◌, some_elem,
}
use storage_provider_openneb.Prelude.Keys.{lookup, insert, delete, string_key}
use storage_provider_openneb.Golang.StringOrder.{sort_strings}

-- `operationLockRef`: `locked` is the state of its mutex.
pub record OperationLockRef : Type 0 where
  pub refs : ℕ
  pub locked : Bool

-- `OperationLocks`: `next` is the address of the next `&operationLockRef{}`.
pub record OperationLocks : Type 0 where
  pub locks : List (String × ℕ)
  pub heap : ℕ → OperationLockRef
  pub next : ℕ

abbrev pub unused : OperationLockRef
unused = record { refs = 0; locked = false }

unfoldable pub new_operation_locks : OperationLocks
new_operation_locks = record { locks = []; heap = λ r. unused; next = 0 }

abbrev pub write : ℕ → OperationLockRef → (ℕ → OperationLockRef) → ℕ → OperationLockRef
write r v heap i = if r == i then v else heap i

-- The keys of `set`, each once.
unfoldable pub key_set : List String → List String
key_set [] = []
key_set (k ∷ ks) =
    let set = key_set ks in
    if str_eq k "" then set else if some_elem (str_eq k) set then set else k ∷ set

unfoldable pub normalize_lock_keys : List String → List String
normalize_lock_keys keys = sort_strings (key_set keys)

-- A key with the address of its mutex.
abbrev pub Held : Type 0
Held = String × ℕ

-- `ref = &operationLockRef{}; o.locks[key] = ref; ref.refs++`
abbrev pub add_ref : OperationLocks → String → OperationLocks
add_ref o key = record o {
  locks = insert key o.next o.locks;
  heap = write o.next (record { refs = 1; locked = false }) o.heap;
  next = o.next + 1;
}

abbrev pub set_refs : OperationLocks → ℕ → ℕ → OperationLocks
set_refs o r n = record o { heap = write r (record (o.heap r) { refs = n }) o.heap }

-- One round of the loop of Acquire under `o.mu`.
unfoldable pub enlist : OperationLocks → String → OperationLocks × Held
enlist o key = elim (lookup key o.locks) [
  | none ↦ (add_ref o key, (key, o.next))
  | some r ↦ (set_refs o r ((o.heap r).refs + 1), (key, r))
]

unfoldable pub enlist_all : OperationLocks → List String → OperationLocks × List Held
enlist_all o [] = (o, [])
enlist_all o (k ∷ ks) = let (o1, h) = enlist o k in let (o2, hs) = enlist_all o1 ks in (o2, h ∷ hs)

-- `delete(o.locks, key)`
abbrev pub drop_key : OperationLocks → String → OperationLocks
drop_key o key = record o { locks = delete key o.locks }

-- `ref.refs--`, and the key is deleted with its last user.
unfoldable pub delist : OperationLocks → Held → OperationLocks
delist o (key, r) =
    let o1 = set_refs o r ((o.heap r).refs - 1) in
    if (o1.heap r).refs == 0 then drop_key o1 key else o1

unfoldable pub delist_all : OperationLocks → List Held → OperationLocks
delist_all o [] = o
delist_all o (h ∷ hs) = delist_all (delist o h) hs

unfoldable pub set_locked : OperationLocks → ℕ → Bool → OperationLocks
set_locked o r b = record o { heap = write r (record (o.heap r) { locked = b }) o.heap }

-- Where a goroutine stands: mutexes that it locked, the latest first, and those that it waits for,
-- the next first. `released` are unlocked again and still in the table.
pub data Caller : Type 0 where
  idle : Caller
  acquiring : List Held → List Held → Caller
  trying : Held → Caller
  holding : List Held → Caller
  releasing : List Held → List Held → Caller

-- Without a key, nothing is locked.
abbrev pub wait_all : OperationLocks → OperationLocks → List Held → OperationLocks × Caller
wait_all o listed [] = (o, holding [])
wait_all o listed (h ∷ hs) = (listed, acquiring [] (h ∷ hs))

-- `Acquire`, to the end of the part under `o.mu`.
unfoldable pub acquire : OperationLocks → List String → OperationLocks × Caller
acquire o keys = let (listed, hs) = enlist_all o (normalize_lock_keys keys) in wait_all o listed hs

abbrev pub try_first : OperationLocks → List String → OperationLocks × Caller
try_first o [] = (o, holding [])
try_first o (k ∷ ks) = let (listed, h) = enlist o k in (listed, trying h)

-- `TryAcquire`, to the end of the first part under `o.mu`.
unfoldable pub try_acquire : OperationLocks → String → OperationLocks × Caller
try_acquire o key = try_first o (normalize_lock_keys (key ∷ []))

-- The next step of a goroutine inside a call, or of one that now calls what Acquire returned: `none`
-- if there is none, since it waits for a mutex or would unlock one that is not locked.
unfoldable pub proceed : OperationLocks → Caller → Option (OperationLocks × Caller)
proceed o idle = none
proceed o (acquiring done []) = some (o, holding done)
proceed o (acquiring done ((k, r) ∷ rest)) =
    if (o.heap r).locked then none else some (set_locked o r true, acquiring ((k, r) ∷ done) rest)
proceed o (trying (k, r)) =
    if (o.heap r).locked
    then some (delist o (k, r), idle)
    else some (set_locked o r true, holding ((k, r) ∷ []))
proceed o (holding done) = some (o, releasing done [])
proceed o (releasing ((k, r) ∷ left) released) =
    if (o.heap r).locked
    then some (set_locked o r false, releasing left ((k, r) ∷ released))
    else none
proceed o (releasing [] released) = some (delist_all o released, idle)

-- One goroutine of the list takes a step.
pub data Advance : OperationLocks → List Caller → OperationLocks → List Caller → Type 0 where
  this :
      {o o' : OperationLocks} {c c' : Caller} {cs : List Caller}
      → proceed o c ≡ some (o', c')
      → Advance o (c ∷ cs) o' (c' ∷ cs)
  other :
      {o o' : OperationLocks} {c : Caller} {cs cs' : List Caller}
      → Advance o cs o' cs'
      → Advance o (c ∷ cs) o' (c ∷ cs')

-- A goroutine that holds nothing calls Acquire or TryAcquire. A call while it holds something is none of
-- these steps.
pub data Call : OperationLocks → Caller → OperationLocks → Caller → Type 0 where
  lock_all :
      {o : OperationLocks} (keys : List String) → Call o idle (acquire o keys).0 (acquire o keys).1
  try_one :
      {o : OperationLocks} (key : String) → Call o idle (try_acquire o key).0 (try_acquire o key).1

pub data Start : OperationLocks → List Caller → OperationLocks → List Caller → Type 0 where
  first :
      {o o' : OperationLocks} {c c' : Caller} {cs : List Caller}
      → Call o c o' c'
      → Start o (c ∷ cs) o' (c' ∷ cs)
  later :
      {o o' : OperationLocks} {c : Caller} {cs cs' : List Caller}
      → Start o cs o' cs'
      → Start o (c ∷ cs) o' (c ∷ cs')

abbrev pub AllIdle : List Caller → Type 0
AllIdle [] = Unit
AllIdle (c ∷ cs) = (c ≡ idle) × AllIdle cs

-- What the goroutines reach, in any interleaving.
pub data Reach : OperationLocks → List Caller → Type 0 where
  fresh : {cs : List Caller} → AllIdle cs → Reach new_operation_locks cs
  call :
      {o o' : OperationLocks} {cs cs' : List Caller} → Reach o cs → Start o cs o' cs' → Reach o' cs'
  step :
      {o o' : OperationLocks} {cs cs' : List Caller}
      → Reach o cs
      → Advance o cs o' cs'
      → Reach o' cs'

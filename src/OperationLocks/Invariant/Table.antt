-- ===== src/OperationLocks/Invariant/Table.antt =====
-- The table against the counts of its users and of its holders.
use storage_provider_openneb.Prelude.{
  ℕ, ◌+◌, ◌≤◌, ◌<◌, ◌==◌, ◌≡◌, ◌∙◌, sym, String, str_eq, eq_iff, Bool, true, false, List, [], ◌∷◌,
  none, some, if◌then◌else◌, arith, ◌≢◌,
}
use storage_provider_openneb.Prelude.Keys.{lookup, string_key, lookup-insert, lookup-delete}
use storage_provider_openneb.OperationLocks.{
  OperationLocks, Held, add_ref, set_refs, drop_key, set_locked,
}

-- How often the list has this key with this address, and how often this address.
abbrev pub same : Held → String → ℕ → Bool
same (j, q) k r = if str_eq j k then q == r else false

abbrev pub bit : Bool → ℕ
bit true = 1
bit false = 0

abbrev pub uses : List Held → String → ℕ → ℕ
uses [] k r = 0
uses (h ∷ hs) k r = bit (same h k r) + uses hs k r

abbrev pub holds : List Held → ℕ → ℕ
holds [] r = 0
holds ((j, q) ∷ hs) r = bit (q == r) + holds hs r

-- `used k r` entries of calls have key `k` with address `r`, and `held r` calls have locked `r`.
pub record Inv (o : OperationLocks) (used : String → ℕ → ℕ) (held : ℕ → ℕ) : Type 0 where
  pub listed : (k : String) (r : ℕ) → 0 < used k r → lookup k o.locks ≡ some r
  pub counted : (k : String) (r : ℕ) → lookup k o.locks ≡ some r → (o.heap r).refs ≡ used k r
  pub live : (k : String) (r : ℕ) → lookup k o.locks ≡ some r → 0 < used k r
  pub old : (k : String) (r : ℕ) → lookup k o.locks ≡ some r → r < o.next
  pub apart : (j k : String) (r : ℕ) → lookup j o.locks ≡ some r → lookup k o.locks ≡ some r → j ≡ k
  pub exact : (r : ℕ) → held r ≡ bit (o.heap r).locked
  pub clean : (r : ℕ) → o.next ≤ r → (o.heap r).locked ≡ false

pub Inv-ext :
    {o : OperationLocks} {used used' : String → ℕ → ℕ} {held held' : ℕ → ℕ}
    → ((k : String) (r : ℕ) → used k r ≡ used' k r)
    → ((r : ℕ) → held r ≡ held' r)
    → Inv o used held
    → Inv o used' held'
Inv-ext u l inv = record {
  listed = λ k r h. inv.listed k r (omega (arith, u k r));
  counted = λ k r h. inv.counted k r h ∙ u k r;
  live = λ k r h. omega (arith, inv.live k r h, u k r);
  old = inv.old;
  apart = inv.apart;
  exact = λ r. sym (l r) ∙ inv.exact r;
  clean = inv.clean;
}

abbrev pub with_use : Held → (String → ℕ → ℕ) → String → ℕ → ℕ
with_use h used k r = bit (same h k r) + used k r

same_iff : (j k : String) (q r : ℕ) → same (j, q) k r ≡ true → (j ≡ k) × (q ≡ r)
same_iff j k q r h = ground (arith, eq_iff j k)

pub Inv-add_ref :
    {o : OperationLocks} {used : String → ℕ → ℕ} {held : ℕ → ℕ} (key : String)
    → lookup key o.locks ≡ none
    → Inv o used held
    → Inv (add_ref o key) (with_use (key, o.next) used) held
Inv-add_ref {o} {used} {held} key e inv = record {
  listed =
      λ k r h. ground (arith, eq_iff key k, inv.listed k r, lookup-insert key k o.next o.locks);
  counted = λ k r h. ground (
    arith,
    eq_iff key k,
    inv.counted k r,
    inv.old k r,
    inv.listed k r,
    lookup-insert key k o.next o.locks,
  );
  live = λ k r h. ground (arith, eq_iff key k, inv.live k r, lookup-insert key k o.next o.locks);
  old = λ k r h. ground (arith, inv.old k r, lookup-insert key k o.next o.locks);
  apart = λ j k r p q. ground (
    arith,
    inv.apart j k r,
    inv.old j r,
    inv.old k r,
    eq_iff key k,
    eq_iff key j,
    lookup-insert key k o.next o.locks,
    lookup-insert key j o.next o.locks,
  );
  exact = λ r. ground (arith, inv.exact r, inv.clean r);
  clean = λ r h. ground (arith, inv.clean r);
}

pub Inv-set_refs :
    {o : OperationLocks} {used used' : String → ℕ → ℕ} {held : ℕ → ℕ} (key : String) (r n : ℕ)
    → lookup key o.locks ≡ some r
    → used' key r ≡ n
    → 0 < n
    → ((k : String) (q : ℕ) → same (key, r) k q ≡ false → used' k q ≡ used k q)
    → Inv o used held
    → Inv (set_refs o r n) used' held
Inv-set_refs {o} {used} {used'} {held} key r n e here pos there inv = record {
  listed = λ k q h. ground (arith, eq_iff key k, there k q, inv.listed k q);
  counted = λ k q h. ground (arith, eq_iff key k, inv.apart k key r, there k q, inv.counted k q);
  live = λ k q h. ground (arith, eq_iff key k, there k q, inv.live k q);
  old = inv.old;
  apart = inv.apart;
  exact = λ q. ground (arith, inv.exact q);
  clean = λ q h. ground (arith, inv.clean q);
}

pub Inv-drop_key :
    {o : OperationLocks} {used used' : String → ℕ → ℕ} {held : ℕ → ℕ} (key : String) (r : ℕ)
    → lookup key o.locks ≡ some r
    → used' key r ≡ 0
    → ((k : String) (q : ℕ) → same (key, r) k q ≡ false → used' k q ≡ used k q)
    → Inv o used held
    → Inv (drop_key (set_refs o r 0) key) used' held
Inv-drop_key {o} {used} {used'} {held} key r e here there inv = record {
  listed =
      λ k q h. ground (arith, eq_iff key k, there k q, inv.listed k q, lookup-delete key k o.locks);
  counted = λ k q h. ground (
    arith,
    eq_iff key k,
    inv.apart k key r,
    there k q,
    inv.counted k q,
    lookup-delete key k o.locks,
  );
  live =
      λ k q h. ground (arith, eq_iff key k, there k q, inv.live k q, lookup-delete key k o.locks);
  old = λ k q h. ground (arith, inv.old k q, lookup-delete key k o.locks);
  apart = λ j k q a b.
      ground (arith, inv.apart j k q, lookup-delete key k o.locks, lookup-delete key j o.locks);
  exact = λ q. ground (arith, inv.exact q);
  clean = λ q h. ground (arith, inv.clean q);
}

pub Inv-set_locked :
    {o : OperationLocks} {used : String → ℕ → ℕ} {held held' : ℕ → ℕ} (r : ℕ) (b : Bool)
    → r < o.next
    → held' r ≡ bit b
    → ((q : ℕ) → r ≢ q → held' q ≡ held q)
    → Inv o used held
    → Inv (set_locked o r b) used held'
unfolding set_locked
Inv-set_locked {o} r b lt here there inv = record {
  listed = inv.listed;
  counted = λ k q h. ground (arith, inv.counted k q);
  live = inv.live;
  old = inv.old;
  apart = inv.apart;
  exact = λ q. ground (arith, there q, inv.exact q);
  clean = λ q h. ground (arith, inv.clean q);
}

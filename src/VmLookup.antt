-- ===== src/VmLookup.antt =====
-- pkg/csi/opennebula/vm_lookup.go: the virtual machine of a node, by its name.
use storage_provider_openneb.Prelude.{
  ◌≡◌, refl, String, true, false, List, [], ◌∷◌, ◌++◌, if◌then◌else◌, inl, inr, ◌⊎◌, Bool-cases,
  All, arith, ap, subst,
}
use storage_provider_openneb.Prelude.Int.{ℤ}
use storage_provider_openneb.Golang.Answer.{Answer, failed, answered}
use storage_provider_openneb.Golang.Cases.{equal_fold}

-- The fields of a machine of the pool that are read.
pub record Vm : Type 0 where
  pub id : ℤ
  pub name : String

-- The ID with `VMResolutionByName` or `VMResolutionPoolExactMatch`, or the error.
pub data Resolved : Type 0 where
  by_name pool_exact_match : ℤ → Resolved
  list_failed : String → Resolved
  vm_not_found : Resolved
  duplicate_match : List ℤ → Resolved

unfoldable pub matches : String → List Vm → List ℤ
matches node [] = []
matches node (v ∷ vs) =
    let rest = matches node vs in if equal_fold v.name node then v.id ∷ rest else rest

abbrev pub by_matches : List ℤ → Resolved
by_matches [] = vm_not_found
by_matches (id ∷ []) = pool_exact_match id
by_matches (id ∷ j ∷ js) = duplicate_match (id ∷ j ∷ js)

-- What `byName` and `listVMs` return.
unfoldable pub resolve_node_vm_id : String → Answer ℤ → Answer (List Vm) → Resolved
resolve_node_vm_id node (answered id) vms = by_name id
resolve_node_vm_id node (failed e) (failed f) = list_failed f
resolve_node_vm_id node (failed e) (answered vms) = by_matches (matches node vms)

-- No machine of the list has the name, whatever the case of its letters.
abbrev pub Unnamed : String → List Vm → Type 0
Unnamed node vs = All (λ (v : Vm). equal_fold v.name node ≡ false) vs

-- One machine of the list has the name, and no other one.
pub record OnlyMatch (node : String) (vms : List Vm) (id : ℤ) : Type 0 where
  pub before : List Vm
  pub vm : Vm
  pub after : List Vm
  pub split : vms ≡ before ++ (vm ∷ after)
  pub is : vm.id ≡ id
  pub named : equal_fold vm.name node ≡ true
  pub none_before : Unnamed node before
  pub none_after : Unnamed node after

matches-nil : (node : String) (vs : List Vm) → matches node vs ≡ [] → Unnamed node vs
unfolding matches
matches-nil node [] h = tt
matches-nil node (v ∷ vs) h = elim (Bool-cases (equal_fold v.name node)) [
  | inl same ↦ absurd (ground (arith, h, same))
  | inr other ↦ (other, matches-nil node vs (ground (arith, h, other)))
]

matches-OnlyMatch :
    (node : String) (vs : List Vm) (id : ℤ) → matches node vs ≡ id ∷ [] → OnlyMatch node vs id
unfolding matches
matches-OnlyMatch node [] id h = absurd cc
matches-OnlyMatch node (v ∷ vs) id h = elim (Bool-cases (equal_fold v.name node)) [
  | inl same ↦ record {
    before = [];
    vm = v;
    after = vs;
    split = refl;
    is = ground (arith, h, same);
    named = same;
    none_before = tt;
    none_after = matches-nil node vs (ground (arith, h, same));
  }
  | inr other ↦
      let m = matches-OnlyMatch node vs id (ground (arith, h, other)) in
      record {
        before = v ∷ m.before;
        vm = m.vm;
        after = m.after;
        split = ap (λ l. v ∷ l) m.split;
        is = m.is;
        named = m.named;
        none_before = (other, m.none_before);
        none_after = m.none_after;
      }
]

-- The identifiers are those of the machines of the list that have the name, each machine once and in
-- the order of the list.
abbrev pub NamedIds : String → List Vm → List ℤ → Type 0
NamedIds node [] ids = ids ≡ []
NamedIds node (v ∷ vs) ids =
    ((equal_fold v.name node ≡ true)
      × ((rest : List ℤ) × (ids ≡ v.id ∷ rest) × NamedIds node vs rest))
    ⊎ ((equal_fold v.name node ≡ false) × NamedIds node vs ids)

matches-NamedIds : (node : String) (vs : List Vm) → NamedIds node vs (matches node vs)
unfolding matches
matches-NamedIds node [] = refl
matches-NamedIds node (v ∷ vs) = elim (Bool-cases (equal_fold v.name node)) [
  | inl same ↦ inl (same, (matches node vs, rw same refl, matches-NamedIds node vs))
  | inr other ↦ inr (other, rw other (matches-NamedIds node vs))
]

-- When the lookup by name fails and the pool is listed, either one machine of the pool has the node's
-- name, no other one does, and it is taken; or none has it and it is not found; or at least two have
-- it, and the error has their identifiers, each machine's once and in the order of the pool.
pub resolve-OnlyMatch :
    (node e : String) (vms : List Vm)
    → ((id : ℤ) × (resolve_node_vm_id node (failed e) (answered vms) ≡ pool_exact_match id)
        × OnlyMatch node vms id)
      ⊎ ((resolve_node_vm_id node (failed e) (answered vms) ≡ vm_not_found) × Unnamed node vms)
      ⊎ ((j : ℤ) × (k : ℤ) × (ids : List ℤ) × (resolve_node_vm_id node (failed e) (answered vms)
            ≡ duplicate_match (j ∷ k ∷ ids))
          × NamedIds node vms (j ∷ k ∷ ids))
unfolding resolve_node_vm_id
resolve-OnlyMatch node e vms = cases (matches node vms) refl
  where
    cases :
        (ids : List ℤ)
        → matches node vms ≡ ids
        → ((id : ℤ) × (by_matches (matches node vms) ≡ pool_exact_match id) × OnlyMatch node vms id)
          ⊎ ((by_matches (matches node vms) ≡ vm_not_found) × Unnamed node vms)
          ⊎ ((j : ℤ) × (k : ℤ) × (ids : List ℤ) × (by_matches (matches node vms)
                ≡ duplicate_match (j ∷ k ∷ ids))
              × NamedIds node vms (j ∷ k ∷ ids))
    cases [] m = inr (inl (ap by_matches m, matches-nil node vms m))
    cases (id ∷ []) m = inl (id, ap by_matches m, matches-OnlyMatch node vms id m)
    cases (j ∷ k ∷ ids) m =
        inr (
          inr (j, k, ids, ap by_matches m, subst (NamedIds node vms) m (matches-NamedIds node vms)))

-- ===== src/Tests/Lookup.antt =====
-- Runs of pkg/csi/opennebula/vm_lookup.go.
use storage_provider_openneb.Prelude.{◌≡◌, refl, List, [], ◌∷◌, ◌⊎◌}
use storage_provider_openneb.Prelude.Int.{ℤ, pos}
use storage_provider_openneb.Prelude.Keys.{lookup, nat_key}
use storage_provider_openneb.Golang.Answer.{failed, answered}
use storage_provider_openneb.Golang.Cases.{equal_fold}
use storage_provider_openneb.VmLookup.{
  Vm, pool_exact_match, vm_not_found, duplicate_match, matches, resolve_node_vm_id, Unnamed,
  OnlyMatch, NamedIds, resolve-OnlyMatch,
}

abbrev vms : List Vm
vms = record { id = pos 4; name = "worker-1" } ∷ record { id = pos 9; name = "Worker-2" } ∷ []

lookup_run :
    resolve_node_vm_id "worker-2" (failed "not found") (answered vms) ≡ pool_exact_match (pos 9)
unfolding resolve_node_vm_id matches equal_fold lookup
lookup_run = refl

resolve-OnlyMatch_example :
    ((id : ℤ) × (resolve_node_vm_id "worker-2" (failed "not found") (answered vms)
        ≡ pool_exact_match id)
      × OnlyMatch "worker-2" vms id)
    ⊎ ((resolve_node_vm_id "worker-2" (failed "not found") (answered vms) ≡ vm_not_found)
        × Unnamed "worker-2" vms)
    ⊎ ((j : ℤ) × (k : ℤ) × (ids : List ℤ) × (resolve_node_vm_id "worker-2"
            (failed "not found")
            (answered vms)
          ≡ duplicate_match (j ∷ k ∷ ids))
        × NamedIds "worker-2" vms (j ∷ k ∷ ids))
resolve-OnlyMatch_example = resolve-OnlyMatch "worker-2" "not found" vms

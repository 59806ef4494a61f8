-- ===== src/PersistentDisk/Provision/Placement.antt =====
-- Where the volume of a successful CreateVolume stands.
use storage_provider_openneb.Prelude.{
  ◌≡◌, refl, String, str_eq, Bool, true, false, List, [], ◌∷◌, ◌++◌, none, if◌then◌else◌, arith,
  inl, inr, ◌⊎◌, Option-cases, All, subst,
}
use storage_provider_openneb.Prelude.Int.{ℤ, pos, leb_ℤ, ◌≤ℤ◌, ◌/ℤ◌}
use storage_provider_openneb.Golang.Answer.{Answer, failed, answered}
use storage_provider_openneb.Golang.Clock.{Time}
use storage_provider_openneb.Datastore.Kinds.{Schema}
use storage_provider_openneb.Datastore.Resolve.{Datastore, Result, ok, err, resolve_datastores}
use storage_provider_openneb.Datastore.Runtime.{Runtime}
use storage_provider_openneb.Datastore.Autopilot.{Float64}
use storage_provider_openneb.Datastore.Selectors.{Policy, order_datastores}
use storage_provider_openneb.Datastore.Candidates.{Eligible}
use storage_provider_openneb.Datastore.Offered.{All-order}
use storage_provider_openneb.Datastore.Eligible.{resolve_datastores-Eligible}
use storage_provider_openneb.PersistentDisk.Wait.{Info, ready, used, other_state}
use storage_provider_openneb.PersistentDisk.Provision.{
  World, Selection, Provisioned, ProvisionError, VolumeCreateResult, created, refused, provision,
  provision_from, offer, order_resolved, resolve_provisioning_datastores, create_volume, size_mb,
}
use storage_provider_openneb.PersistentDisk.Provision.Outcome.{
  lacks, readiness, reported, settled, provision-Decided,
}

-- A check reads that the image is ready, and every check before it reads another state.
abbrev pub BecomesReady : List Info → Type 0
BecomesReady [] = ⊥
BecomesReady (failed e ∷ infos) = ⊥
BecomesReady (answered (failed e) ∷ infos) = ⊥
BecomesReady (answered (answered ready) ∷ infos) = Unit
BecomesReady (answered (answered used) ∷ infos) = BecomesReady infos
BecomesReady (answered (answered other_state) ∷ infos) = BecomesReady infos

readiness-BecomesReady : (infos : List Info) → readiness infos ≡ none → BecomesReady infos
readiness-BecomesReady [] h = cc
readiness-BecomesReady (failed e ∷ infos) h = cc
readiness-BecomesReady (answered (failed e) ∷ infos) h = cc
readiness-BecomesReady (answered (answered ready) ∷ infos) h = tt
readiness-BecomesReady (answered (answered used) ∷ infos) h = readiness-BecomesReady infos h
readiness-BecomesReady (answered (answered other_state) ∷ infos) h = readiness-BecomesReady infos h

-- A volume of the size on an eligible datastore of the pool, with an image that is ready.
pub record Placed (w : World) (pool : List Schema) (allowed : List String) (size : ℤ)
    (v : VolumeCreateResult) : Type 0 where
  pub eligible : Eligible pool allowed v.datastore
  pub room : size ≤ℤ v.datastore.free_bytes
  pub image : ℤ
  pub made : w.create v.datastore.id ≡ answered image
  pub awaited : BecomesReady (w.infos image)
  pub reported : v.capacity_bytes ≡ size

IfPlaced : World → List Schema → List String → ℤ → Provisioned → Type 0
IfPlaced w pool allowed size (refused e) = Unit
IfPlaced w pool allowed size (created v) = Placed w pool allowed size v

created-IfPlaced :
    (w : World) (pool : List Schema) (allowed : List String) (size : ℤ) (v : VolumeCreateResult)
    → Placed w pool allowed size v
    → IfPlaced w pool allowed size (created v)
unfolding IfPlaced
created-IfPlaced w pool allowed size v h = h

refused-IfPlaced :
    (w : World) (pool : List Schema) (allowed : List String) (size : ℤ) (e : ProvisionError)
    → IfPlaced w pool allowed size (refused e)
unfolding IfPlaced
refused-IfPlaced w pool allowed size e = tt

module _ (w : World) (pool : List Schema) (allowed : List String) (size : ℤ) where
  awaited-IfPlaced :
      (tried : List ℤ) (d : Datastore) (image : ℤ)
      → Eligible pool allowed d
      → size ≤ℤ d.free_bytes
      → w.create d.id ≡ answered image
      → IfPlaced w pool allowed size (reported size tried d image (readiness (w.infos image)))
  awaited-IfPlaced tried d image el room e = elim (Option-cases (readiness (w.infos image))) [
    | inl done ↦ rw done (
        created-IfPlaced w pool allowed size _ (record {
          eligible = el;
          room = room;
          image = image;
          made = e;
          awaited = readiness-BecomesReady (w.infos image) done;
          reported = refl;
        }))
    | inr (f, late) ↦ rw late (refused-IfPlaced w pool allowed size _)
  ]

  Answer-cases :
      {A : Type 0} (a : Answer A) → ((e : String) × (a ≡ failed e)) ⊎ ((x : A) × (a ≡ answered x))
  Answer-cases (failed e) = inl (e, refl)
  Answer-cases (answered x) = inr (x, refl)

  settled-IfPlaced :
      (tried : List ℤ) (d : Datastore)
      → Eligible pool allowed d
      → lacks w size d ≡ false
      → IfPlaced w pool allowed size (settled w size tried d)
  settled-IfPlaced tried d el fit = elim (Answer-cases (w.create d.id)) [
    | inl (e, call) ↦ rw (settled, call) (refused-IfPlaced w pool allowed size _)
    | inr (image, call) ↦ rw (settled, call) (awaited-IfPlaced tried d image el (ground arith) call)
  ]

  All-middle :
      {A : Type 0} (P : A → Type 0) (xs : List A) (y : A) (zs : List A)
      → All P (xs ++ (y ∷ zs))
      → P y
  All-middle P [] y zs h = h.0
  All-middle P (x ∷ xs) y zs h = All-middle P xs y zs h.1

  provision-IfPlaced :
      (r : Runtime) (cs : List Datastore)
      → All (Eligible pool allowed) cs
      → IfPlaced w pool allowed size (provision w size [] [] r cs).1
  provision-IfPlaced r cs all = elim (provision-Decided w size r cs) [
    | inl (none_fits, e) ↦ rw e (refused-IfPlaced w pool allowed size _)
    | inr (fit, e) ↦
        let el =
          All-middle (Eligible pool allowed) fit.before fit.chosen fit.after
            (subst (All (Eligible pool allowed)) fit.split all) in
        rw e (settled-IfPlaced _ fit.chosen el fit.fits)
  ]

  offer-IfPlaced :
      (r : Runtime) (o : Result (Runtime × List Datastore))
      → ((r1 : Runtime) (ordered : List Datastore)
          → o ≡ ok (r1, ordered)
          → All (Eligible pool allowed) ordered)
      → IfPlaced w pool allowed size (provision_from w size (offer o r)).1
  offer-IfPlaced r (err e) all = refused-IfPlaced w pool allowed size _
  offer-IfPlaced r (ok (r1, ordered)) all = provision-IfPlaced r1 ordered (all r1 ordered refl)

  resolved-IfPlaced :
      (f : Float64) (now : Time) (policy : Policy) (r : Runtime) (o : Result (List Datastore))
      → ((resolved : List Datastore) → o ≡ ok resolved → All (Eligible pool allowed) resolved)
      → IfPlaced w pool allowed size (provision_from w size (order_resolved f now policy r o)).1
  resolved-IfPlaced f now policy r (err e) all = refused-IfPlaced w pool allowed size _
  resolved-IfPlaced f now policy r (ok resolved) all =
      offer-IfPlaced r (order_datastores f r now resolved policy) λ r1 ordered e.
        All-order (Eligible pool allowed) f r now resolved policy r1 ordered e (all resolved refl)

  if-IfPlaced :
      (b : Bool) (e : ProvisionError) (r : Runtime) (x : Runtime × Provisioned)
      → IfPlaced w pool allowed size x.1
      → IfPlaced w pool allowed size (if b then (r, refused e) else x).1
  if-IfPlaced true e r x h = refused-IfPlaced w pool allowed size e
  if-IfPlaced false e r x h = h

pool_read-Placed :
    (f : Float64) (w : ℤ → World) (pool : List Schema) (now : Time) (s : Selection) (name : String)
    (size : ℤ) (r r' : Runtime) (v : VolumeCreateResult)
    → create_volume f w (answered pool) now s name size r ≡ (r', created v)
    → Placed (w (size_mb size)) pool s.allowed_types size v
unfolding create_volume IfPlaced resolve_provisioning_datastores
pool_read-Placed f w pool now s name size r r' v h =
    let w' = w (size_mb size) in
    let placed =
      resolved-IfPlaced w' pool s.allowed_types size f now s.policy r
        (resolve_datastores pool s.identifiers s.allowed_types)
        λ ds e. (resolve_datastores-Eligible pool s.identifiers s.allowed_types ds e).0 in
    let guarded = if-IfPlaced w' pool s.allowed_types size (str_eq name "") _ r _ (
      if-IfPlaced w' pool s.allowed_types size (leb_ℤ size (pos 0)) _ r _
        (if-IfPlaced w' pool s.allowed_types size (leb_ℤ (size_mb size) (pos 0)) _ r _ placed)) in
    subst (λ x. IfPlaced w' pool s.allowed_types size x.1) h guarded

pool_unread-refused :
    (f : Float64) (w : ℤ → World) (e : String) (now : Time) (s : Selection) (name : String)
    (size : ℤ) (r r' : Runtime) (v : VolumeCreateResult)
    → create_volume f w (failed e) now s name size r ≡ (r', created v)
    → ⊥
unfolding create_volume resolve_provisioning_datastores
pool_unread-refused f w e now s name size r r' v h = ground (arith, h)

-- When CreateVolume succeeds, the pool was read, and the volume is reported with the size asked for, on
-- a datastore of the pool that is eligible and has as much free, with an image that the client created
-- there, from a template of as many whole MiB as the size has, and that became ready before any check
-- of it failed.
pub create_volume-Placed :
    (f : Float64) (w : ℤ → World) (pool : Answer (List Schema)) (now : Time) (s : Selection)
    (name : String) (size : ℤ) (r r' : Runtime) (v : VolumeCreateResult)
    → create_volume f w pool now s name size r ≡ (r', created v)
    → (schemas : List Schema) × (pool ≡ answered schemas)
      × Placed (w (size /ℤ pos 1048576)) schemas s.allowed_types size v
create_volume-Placed f w (failed e) now s name size r r' v h =
    absurd (pool_unread-refused f w e now s name size r r' v h)
create_volume-Placed f w (answered pool) now s name size r r' v h =
    (pool, refl, pool_read-Placed f w pool now s name size r r' v h)

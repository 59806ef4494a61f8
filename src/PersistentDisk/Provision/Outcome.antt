-- ===== src/PersistentDisk/Provision/Outcome.antt =====
-- Which candidate the loops of CreateVolume and CloneVolume settle on.
use storage_provider_openneb.Prelude.{
  ◌≡◌, refl, sym, ◌∙◌, ap, Bool, true, false, List, [], ◌∷◌, ◌++◌, map, if◌then◌else◌, arith, inl,
  inr, ◌⊎◌, Bool-cases, All, Option, none, some, ltb, length,
}
use storage_provider_openneb.Prelude.Int.{ℤ, ltb_ℤ}
use storage_provider_openneb.Golang.Answer.{failed, answered}
use storage_provider_openneb.Golang.Clock.{Time}
use storage_provider_openneb.Datastore.Resolve.{Datastore}
use storage_provider_openneb.Datastore.Runtime.{Runtime, flying, record_result, prune_locked}
use storage_provider_openneb.Datastore.Runtime.Attempts.{attempts-flying, begins, ends}
use storage_provider_openneb.PersistentDisk.Wait.{
  WaitError, timeout, check_failed, ready, used, other_state, Info, volume_ready,
  wait_for_resource_status,
}
use storage_provider_openneb.PersistentDisk.Provision.{
  World, Provisioned, created, not_ready, refused, create_failed, no_capacity, provision,
  await_ready, after_attempt, is_insufficient_capacity_error,
}

-- The candidate is passed over: too little is free, or the call fails for lack of capacity.
abbrev pub lacks : World → ℤ → Datastore → Bool
lacks w size d = if ltb_ℤ d.free_bytes size then true else elim (w.create d.id) [
  | failed e ↦ is_insufficient_capacity_error e
  | answered image ↦ false
]

-- How the checks of a new image end: with the first error, or when the image is ready.
abbrev pub readiness : List Info → Option WaitError
readiness [] = some timeout
readiness (failed e ∷ infos) = some (check_failed e)
readiness (answered (failed e) ∷ infos) = some (check_failed e)
readiness (answered (answered ready) ∷ infos) = none
readiness (answered (answered used) ∷ infos) = readiness infos
readiness (answered (answered other_state) ∷ infos) = readiness infos

pub wait-readiness :
    (infos : List Info) → wait_for_resource_status (map volume_ready infos) ≡ readiness infos
unfolding wait_for_resource_status volume_ready
wait-readiness [] = refl
wait-readiness (failed e ∷ infos) = refl
wait-readiness (answered (failed e) ∷ infos) = refl
wait-readiness (answered (answered ready) ∷ infos) = refl
wait-readiness (answered (answered used) ∷ infos) = wait-readiness infos
wait-readiness (answered (answered other_state) ∷ infos) = wait-readiness infos

-- The result for an image whose checks end so, when these datastores were tried.
abbrev pub reported : ℤ → List ℤ → Datastore → ℤ → Option WaitError → Provisioned
reported size tried d image (some e) = refused (not_ready image e)
reported size tried d image none = created (record {
  datastore = d;
  capacity_bytes = size;
  fallback_used = ltb 1 (length tried);
  attempted_datastore_ids = tried;
})

-- What the attempt on a candidate that is not passed over gives.
abbrev pub settled : World → ℤ → List ℤ → Datastore → Provisioned
settled w size tried d = elim (w.create d.id) [
  | failed e ↦ refused (create_failed d.id e)
  | answered image ↦ reported size tried d image (readiness (w.infos image))
]

await_ready-reported :
    (w : World) (size : ℤ) (tried : List ℤ) (d : Datastore) (image : ℤ)
    → await_ready w size tried d image ≡ reported size tried d image (readiness (w.infos image))
unfolding await_ready
await_ready-reported w size tried d image =
    as_reported (wait_for_resource_status (map volume_ready (w.infos image)))
    ∙ ap (reported size tried d image) (wait-readiness (w.infos image))
  where
    as_reported :
        (o : Option WaitError)
        → (elim o [
          | some e ↦ refused (not_ready image e)
          | none ↦ created (record {
            datastore = d;
            capacity_bytes = size;
            fallback_used = ltb 1 (length tried);
            attempted_datastore_ids = tried;
          })
        ])
          ≡ reported size tried d image o
    as_reported none = refl
    as_reported (some e) = refl

abbrev pub ids : List Datastore → List ℤ
ids = map (λ (d : Datastore). d.id)

-- The runtime after a candidate that is passed over.
abbrev passed_over : World → ℤ → List ℤ → Runtime → Datastore → Runtime
passed_over w size tried r d =
    if ltb_ℤ d.free_bytes size
    then record_result r d.id false (w.time tried)
    else record_result (after_attempt r d.id) d.id false (w.time tried)

provision-lacks :
    (w : World) (size : ℤ) (tried lacking : List ℤ) (r : Runtime) (d : Datastore)
    (ds : List Datastore)
    → lacks w size d ≡ true
    → provision w size tried lacking r (d ∷ ds)
      ≡ provision w size
          (tried ++ (d.id ∷ []))
          (lacking ++ (d.id ∷ []))
          (passed_over w size (tried ++ (d.id ∷ [])) r d)
          ds
unfolding provision
provision-lacks w size tried lacking r d ds h = ground arith

provision-settled :
    (w : World) (size : ℤ) (tried lacking : List ℤ) (r : Runtime) (d : Datastore)
    (ds : List Datastore)
    → lacks w size d ≡ false
    → (provision w size tried lacking r (d ∷ ds)).1 ≡ settled w size (tried ++ (d.id ∷ [])) d
unfolding provision
provision-settled w size tried lacking r d ds h = grind (arith, await_ready-reported)

-- The first candidate that is not passed over.
pub record FirstFit (w : World) (size : ℤ) (candidates : List Datastore) : Type 0 where
  pub before : List Datastore
  pub chosen : Datastore
  pub after : List Datastore
  pub split : candidates ≡ before ++ (chosen ∷ after)
  pub passed : All (λ d. lacks w size d ≡ true) before
  pub fits : lacks w size chosen ≡ false

append-snoc :
    {A : Type 0} (xs : List A) (y : A) (zs : List A) → (xs ++ (y ∷ [])) ++ zs ≡ xs ++ (y ∷ zs)
append-snoc [] y zs = refl
append-snoc (x ∷ xs) y zs = ap (λ l. x ∷ l) (append-snoc xs y zs)

append-nil : {A : Type 0} (xs : List A) → xs ++ [] ≡ xs
append-nil [] = refl
append-nil (x ∷ xs) = ap (λ l. x ∷ l) (append-nil xs)

-- What the loop returns, after the candidates `tried` and those of them that were passed over.
abbrev pub Decided : World → ℤ → List ℤ → List ℤ → Runtime → List Datastore → Type 0
Decided w size tried lacking r cs =
    (All (λ d. lacks w size d ≡ true) cs
      × ((provision w size tried lacking r cs).1 ≡ refused (no_capacity (lacking ++ ids cs))))
    ⊎ ((f : FirstFit w size cs) × ((provision w size tried lacking r cs).1
          ≡ settled w size (tried ++ (ids f.before ++ (f.chosen.id ∷ []))) f.chosen))

decide :
    (w : World) (size : ℤ) (cs : List Datastore) (tried lacking : List ℤ) (r : Runtime)
    → Decided w size tried lacking r cs
unfolding provision
decide w size [] tried lacking r =
    inl (tt, ap (λ l. refused (no_capacity l)) (sym (append-nil lacking)))
decide w size (d ∷ ds) tried lacking r = elim (Bool-cases (lacks w size d)) [
  | inl lack ↦
      let step = ap (λ x. x.1) (provision-lacks w size tried lacking r d ds lack) in
      elim (decide w size ds (tried ++ (d.id ∷ [])) (lacking ++ (d.id ∷ []))
        (passed_over w size (tried ++ (d.id ∷ [])) r d)) [
          | inl (all, e) ↦ inl (
            (lack, all),
            step ∙ e ∙ ap (λ l. refused (no_capacity l)) (append-snoc lacking d.id (ids ds)),
          )
          | inr (f, e) ↦ inr (
            record {
              before = d ∷ f.before;
              chosen = f.chosen;
              after = f.after;
              split = ap (λ l. d ∷ l) f.split;
              passed = (lack, f.passed);
              fits = f.fits;
            },
            step
                ∙ e
                ∙ ap (λ l. settled w size l f.chosen)
                    (append-snoc tried d.id (ids f.before ++ (f.chosen.id ∷ []))),
          )
        ]
  | inr fit ↦ inr (
    record { before = []; chosen = d; after = ds; split = refl; passed = tt; fits = fit },
    provision-settled w size tried lacking r d ds fit,
  )
]

-- The first candidate that has the free capacity, and on which the call does not fail for lack of it,
-- decides: the call's failure is the error, or the failure of its image to become ready; or the result
-- has this datastore and the size, names the candidates up to this one as attempted, and counts as a
-- fallback if they are more than one. When all are passed over, the error names all of them.
pub provision-Decided :
    (w : World) (size : ℤ) (r : Runtime) (cs : List Datastore) → Decided w size [] [] r cs
provision-Decided w size r cs = decide w size cs [] [] r

record-flying :
    (r : Runtime) (j : ℤ) (b : Bool) (now : Time) (id : ℤ)
    → flying (record_result r j b now) id ≡ flying r id
unfolding record_result prune_locked
record-flying r j true now id = refl
record-flying r j false now id = refl

attempt-flying : (r : Runtime) (j id : ℤ) → flying (after_attempt r j) id ≡ flying r id
attempt-flying r j id = ground (arith, attempts-flying r id (begins j ∷ ends j ∷ []))

recorded-flying :
    (r : Runtime) (j : ℤ) (b : Bool) (now : Time) (id : ℤ)
    → flying (record_result (after_attempt r j) j b now) id ≡ flying r id
recorded-flying r j b now id = record-flying (after_attempt r j) j b now id ∙ attempt-flying r j id

-- However the loop ends, the counts of the attempts in flight are what they were before it.
pub provision-flying :
    (w : World) (size : ℤ) (tried lacking : List ℤ) (r : Runtime) (cs : List Datastore) (id : ℤ)
    → flying (provision w size tried lacking r cs).0 id ≡ flying r id
unfolding provision
provision-flying w size tried lacking r [] id = refl
provision-flying w size tried lacking r (d ∷ ds) id =
    let tried' = tried ++ (d.id ∷ []) in
    let lacking' = lacking ++ (d.id ∷ []) in
    let now = w.time tried' in
    let small = record_result r d.id false now in
    let full = record_result (after_attempt r d.id) d.id false now in
    let after_small =
      provision-flying w size tried' lacking' small ds id ∙ record-flying r d.id false now id in
    let after_full =
      provision-flying w size tried' lacking' full ds id ∙ recorded-flying r d.id false now id in
    ground (
      arith,
      after_small,
      after_full,
      recorded-flying r d.id false now id,
      recorded-flying r d.id true now id,
    )

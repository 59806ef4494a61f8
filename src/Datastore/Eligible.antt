-- ===== src/Datastore/Eligible.antt =====
-- What `ResolveDatastores` of pkg/csi/opennebula/datastore.go lets through.
use storage_provider_openneb.Prelude.{
  ◌≡◌, ◌≢◌, refl, subst, String, Bool, true, false, not, List, [], ◌∷◌, Option, none, some, All,
  inl, inr, ◌⊎◌, Bool-cases, or_else, arith, str_eq, eq_iff,
}
use storage_provider_openneb.Prelude.Int.{ℤ}
use storage_provider_openneb.Prelude.Keys.{int_key}
use storage_provider_openneb.Datastore.Kinds.{Schema, one_of, normalize_datastore_category}
use storage_provider_openneb.Datastore.Backend.{
  ConfigError, fail_if, get_datastore_backend_profile, validate_datastore,
}
use storage_provider_openneb.Datastore.Resolve.{
  Datastore, Result, ok, ◌>>=◌, ◌>>◌, check, checked, datastore_from_schema, pool_by_id,
  default_datastore, found, resolve_datastore_identifier, validate_provisioning_datastore_category,
  normalize_allowed_datastore_types, resolve_one, seen_id, resolve_each, not_empty,
  some_identifiers, resolve_datastores,
}
use storage_provider_openneb.Datastore.Candidates.{
  bind-ok, check-then, Listed, Eligible, identifier-Listed, resolver,
}

fail_if-passed : (b : Bool) (e : ConfigError) → fail_if (not b) e ≡ none → b ≡ true
fail_if-passed true e h = refl
fail_if-passed false e h = cc

passed-then {ℓ} :
    {B : Type ℓ} (c : Bool) (e : ConfigError) (k : Result B) {b : B}
    → (check (fail_if (not c) e) >> k) ≡ ok b
    → (c ≡ true) × (k ≡ ok b)
passed-then true e k h = (refl, h)
passed-then false e k h = cc

found-then {ℓ κ} :
    {A : Type ℓ} {B : Type κ} (o : Option A) (e : ConfigError) (k : A → Result B) {b : B}
    → (found o e >>= k) ≡ ok b
    → (a : A) × (o ≡ some a) × (k a ≡ ok b)
found-then none e k h = cc
found-then (some a) e k h = (a, refl, h)

ok-eq {ℓ} : {A : Type ℓ} {a b : A} → ok a ≡ ok b → a ≡ b
ok-eq h = cc

-- A state that was read as another one than ready is refused.
usable-of : (ready : Option Bool) → or_else ready true ≡ true → ready ≢ some false
usable-of none h e = cc
usable-of (some true) h e = cc
usable-of (some false) h e = cc

category-of :
    (s : Schema)
    → validate_provisioning_datastore_category s ≡ none
    → (normalize_datastore_category s ≡ "")
      ⊎ (normalize_datastore_category s ≡ "IMAGE")
      ⊎ (normalize_datastore_category s ≡ "FILE")
unfolding validate_provisioning_datastore_category
category-of s h =
    let c = normalize_datastore_category s in
    elim (Bool-cases (str_eq c "")) [
      | inl none_given ↦ inl ((eq_iff c "").0 none_given)
      | inr given ↦ elim (Bool-cases (str_eq c "IMAGE")) [
        | inl image ↦ inr (inl ((eq_iff c "IMAGE").0 image))
        | inr other ↦ elim (Bool-cases (str_eq c "FILE")) [
          | inl file ↦ inr (inr ((eq_iff c "FILE").0 file))
          | inr wrong ↦ absurd (ground (arith, given, other, wrong, h))
        ]
      ]
    ]

checked-Eligible :
    (pool : List Schema) (allowed : List String) (identifier : String) (s : Schema) (d : Datastore)
    → Listed s pool
    → checked (normalize_allowed_datastore_types allowed) identifier s ≡ ok d
    → Eligible pool allowed d
unfolding checked datastore_from_schema
checked-Eligible pool allowed identifier s d l h =
    let (enabled, h1) = passed-then (datastore_from_schema s).enabled _ _ h in
    let (category, h2) = check-then (validate_provisioning_datastore_category s) _ h1 in
    let (type_allowed, h3) =
      passed-then
        (one_of (datastore_from_schema s).type (normalize_allowed_datastore_types allowed)) _ _
        h2 in
    let (b, known, h4) =
      found-then (get_datastore_backend_profile (datastore_from_schema s).type) _ _ h3 in
    let (valid, h5) = check-then (validate_datastore b s) _ h4 in
    subst (Eligible pool allowed) (ok-eq h5) (record {
      schema = s;
      backend = b;
      listed = l;
      resolved = refl;
      usable = usable-of s.ready enabled;
      category = category-of s category;
      type_allowed = type_allowed;
      backend_known = known;
      validated = valid;
    })

resolve_one-Eligible :
    (pool : List Schema) (allowed : List String) (identifier : String) (d : Datastore)
    → resolver pool allowed identifier ≡ ok d
    → Eligible pool allowed d
unfolding resolve_one
resolve_one-Eligible pool allowed identifier d h =
    let (s, picked, h1) =
      bind-ok (checked (normalize_allowed_datastore_types allowed) identifier)
        (resolve_datastore_identifier identifier (pool_by_id [] pool) (default_datastore none pool))
        h in
    checked-Eligible pool allowed identifier s d (identifier-Listed pool identifier s picked) h1

-- No id among the datastores is in the list, and no two of them have the same id.
abbrev pub Fresh : List ℤ → List Datastore → Type 0
Fresh seen [] = Unit {0}
Fresh seen (d ∷ ds) = (seen_id d.id seen ≡ false) × Fresh (d.id ∷ seen) ds

unseen-resolved :
    (one : String → Result Datastore) (seen : List ℤ) (d : Datastore) (is : List String)
    (ds : List Datastore)
    → (elim (seen_id d.id seen) [
      | true ↦ resolve_each one seen is
      | false ↦ resolve_each one (d.id ∷ seen) is >>= λ rest. ok (d ∷ rest)
    ])
      ≡ ok ds
    → ((resolve_each one seen is ≡ ok ds)
        ⊎ ((seen_id d.id seen ≡ false)
            × (rest : List Datastore) × (resolve_each one (d.id ∷ seen) is ≡ ok rest)
            × (d ∷ rest ≡ ds)))
unseen-resolved one seen d is ds h = elim (Bool-cases (seen_id d.id seen)) [
  | inl repeated ↦ inl (rw repeated at h)
  | inr fresh ↦
      let (rest, e, h1) =
        bind-ok (λ rest. ok (d ∷ rest)) (resolve_each one (d.id ∷ seen) is) (rw fresh at h) in
      inr (fresh, rest, e, ok-eq h1)
]

resolve_each-Fresh :
    (P : Datastore → Type 0) (one : String → Result Datastore)
    (each : (i : String) (d : Datastore) → one i ≡ ok d → P d) (seen : List ℤ)
    (identifiers : List String) (ds : List Datastore)
    → resolve_each one seen identifiers ≡ ok ds
    → All P ds × Fresh seen ds
unfolding resolve_each
resolve_each-Fresh P one each seen [] ds h = subst (λ x. All P x × Fresh seen x) (ok-eq h) (tt, tt)
resolve_each-Fresh P one each seen (i ∷ is) ds h =
    let (d, e, h1) = bind-ok _ (one i) h in
    elim (unseen-resolved one seen d is ds h1) [
      | inl again ↦ resolve_each-Fresh P one each seen is ds again
      | inr (new, rest, later, same) ↦
          let (all, fresh) = resolve_each-Fresh P one each (d.id ∷ seen) is rest later in
          subst (λ x. All P x × Fresh seen x) same ((each i d e, all), (new, fresh))
    ]

not_empty-ok : (xs ds : List Datastore) → not_empty xs ≡ ok ds → (xs ≡ ds) × (ds ≢ [])
not_empty-ok [] ds h = cc
not_empty-ok (x ∷ xs) ds h = (ok-eq h, λ none_left. cc)

-- When `ResolveDatastores` succeeds, its result is not empty and holds no datastore twice, and
-- every datastore of it is one of the pool whose state was not read as another one than ready, whose
-- category is IMAGE, FILE or none, whose type is allowed, and that the backend of its type accepts.
pub resolve_datastores-Eligible :
    (pool : List Schema) (identifiers allowed : List String) (ds : List Datastore)
    → resolve_datastores pool identifiers allowed ≡ ok ds
    → All (Eligible pool allowed) ds × Fresh [] ds × (ds ≢ [])
unfolding resolve_datastores
resolve_datastores-Eligible pool identifiers allowed ds h =
    let (some_given, h1) = check-then (some_identifiers identifiers) _ h in
    let (xs, e, h2) = bind-ok not_empty (resolve_each (resolver pool allowed) [] identifiers) h1 in
    let (same, filled) = not_empty-ok xs ds h2 in
    let (all, fresh) =
      resolve_each-Fresh (Eligible pool allowed) (resolver pool allowed)
        (resolve_one-Eligible pool allowed) [] identifiers xs e in
    (subst (All (Eligible pool allowed)) same all, subst (Fresh []) same fresh, filled)

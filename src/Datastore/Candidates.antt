-- ===== src/Datastore/Candidates.antt =====
-- The candidates that `resolveDatastoreIdentifier` of pkg/csi/opennebula/datastore.go finds.
use storage_provider_openneb.Prelude.{
  ◌≡◌, refl, String, str_eq, Bool, true, false, List, [], ◌∷◌, Option, none, some, arith,
  if◌then◌else◌, inl, inr, ◌⊎◌, ◌≢◌,
}
use storage_provider_openneb.Prelude.Int.{ℤ}
use storage_provider_openneb.Prelude.Keys.{lookup, insert, lookup-insert, lookup-nil, int_key}
use storage_provider_openneb.Golang.Text.{trim_space}
use storage_provider_openneb.Golang.Cases.{atoi, equal_fold}
use storage_provider_openneb.Datastore.Kinds.{Schema, one_of, normalize_datastore_category}
use storage_provider_openneb.Datastore.Backend.{
  ConfigError, Check, Backend, backend_name, get_datastore_backend_profile, validate_datastore,
  bad_identifier, unknown_datastore, no_default,
}
use storage_provider_openneb.Datastore.Resolve.{
  Datastore, Result, ok, err, ◌>>=◌, ◌>>◌, check, datastore_from_schema, pool_by_id,
  default_datastore, found, resolve_datastore_identifier, normalize_allowed_datastore_types,
  resolve_one,
}

not_ok {ℓ} : {A : Type ℓ} {a : A} {e : ConfigError} → err e ≡ ok a → ⊥
not_ok h = cc

pub bind-ok {κ ℓ} :
    {B : Type κ} {A : Type ℓ} {b : B} (next : A → Result B) (first : Result A)
    → (first >>= next) ≡ ok b
    → (a : A) × (first ≡ ok a) × (next a ≡ ok b)
bind-ok next (err e) h = cc
bind-ok next (ok a) h = (a, refl, h)

pub check-then {ℓ} :
    {B : Type ℓ} (c : Check) (k : Result B) {b : B}
    → (check c >> k) ≡ ok b
    → (c ≡ none) × (k ≡ ok b)
check-then none k h = (refl, h)
check-then (some e) k h = cc

abbrev pub Listed : Schema → List Schema → Type 0
Listed s [] = ⊥
Listed s (x ∷ xs) = (s ≡ x) ⊎ Listed s xs

-- A datastore of the pool that passed every check, as it is resolved.
pub record Eligible (pool : List Schema) (allowed : List String) (d : Datastore) : Type 0 where
  pub schema : Schema
  pub backend : Backend
  pub listed : Listed schema pool
  pub resolved : d ≡ record (datastore_from_schema schema) { backend = backend_name backend }
  pub usable : schema.ready ≢ some false
  pub category :
      (normalize_datastore_category schema ≡ "")
      ⊎ (normalize_datastore_category schema ≡ "IMAGE")
      ⊎ (normalize_datastore_category schema ≡ "FILE")
  pub type_allowed : one_of d.type (normalize_allowed_datastore_types allowed) ≡ true
  pub backend_known : get_datastore_backend_profile d.type ≡ some backend
  pub validated : validate_datastore backend schema ≡ none

pool_by_id-Listed :
    (m : List (ℤ × Schema)) (xs : List Schema) (id : ℤ) (s : Schema)
    → lookup id (pool_by_id m xs) ≡ some s
    → (lookup id m ≡ some s) ⊎ Listed s xs
unfolding pool_by_id
pool_by_id-Listed m [] id s h = inl h
pool_by_id-Listed m (x ∷ xs) id s h = elim (pool_by_id-Listed (insert x.id x m) xs id s h) [
  | inl here ↦ ground (arith, lookup-insert x.id id x m)
  | inr later ↦ inr (inr later)
]

default-Listed :
    (d : Option Schema) (xs : List Schema) (s : Schema)
    → default_datastore d xs ≡ some s
    → (d ≡ some s) ⊎ Listed s xs
unfolding default_datastore
default-Listed d [] s h = inl h
default-Listed d (x ∷ xs) s h =
    elim (default-Listed (if str_eq x.name "default" then some x else d) xs s h) [
      | inl here ↦ ground arith
      | inr later ↦ inr (inr later)
    ]

Result-cases {ℓ} :
    {A : Type ℓ} (r : Result A) → ((e : ConfigError) × (r ≡ err e)) ⊎ ((a : A) × (r ≡ ok a))
Result-cases (ok a) = inr (a, refl)
Result-cases (err e) = inl (e, refl)

found-ok {ℓ} : {A : Type ℓ} {a : A} (o : Option A) (e : ConfigError) → found o e ≡ ok a → o ≡ some a
found-ok none e h = cc
found-ok (some b) e h = cc

if-cases {ℓ} : {A : Type ℓ} (b : Bool) {x y r : A} → (if b then x else y) ≡ r → (x ≡ r) ⊎ (y ≡ r)
if-cases true h = inl h
if-cases false h = inr h

identifier-cases :
    (identifier : String) (m : List (ℤ × Schema)) (d : Option Schema) (s : Schema)
    → resolve_datastore_identifier identifier m d ≡ ok s
    → (d ≡ some s) ⊎ ((id : ℤ) × (lookup id m ≡ some s))
unfolding resolve_datastore_identifier
identifier-cases identifier m d s h = elim (if-cases (str_eq (trim_space identifier) "") h) [
  | inl empty ↦ absurd (not_ok empty)
  | inr other ↦ elim (if-cases (equal_fold (trim_space identifier) "default") other) [
    | inl default ↦ inl (found-ok d no_default default)
    | inr number ↦
        let (id, e, l) =
          bind-ok (λ id. found (lookup id m) (unknown_datastore id))
            (found (atoi (trim_space identifier)) (bad_identifier (trim_space identifier)))
            number in
        inr (id, found-ok (lookup id m) (unknown_datastore id) l)
  ]
]

pub identifier-Listed :
    (pool : List Schema) (identifier : String) (s : Schema)
    → resolve_datastore_identifier identifier (pool_by_id [] pool) (default_datastore none pool)
      ≡ ok s
    → Listed s pool
identifier-Listed pool identifier s h =
    elim (identifier-cases identifier (pool_by_id [] pool) (default_datastore none pool) s h) [
      | inl default ↦ elim (default-Listed none pool s default) [ inl e ↦ cc | inr l ↦ l ]
      | inr (id, e) ↦ elim (pool_by_id-Listed [] pool id s e) [
        | inl nowhere ↦ absurd (lookup-nil id nowhere)
        | inr l ↦ l
      ]
    ]

abbrev pub resolver : List Schema → List String → String → Result Datastore
resolver pool allowed =
    resolve_one (pool_by_id [] pool) (default_datastore none pool)
      (normalize_allowed_datastore_types allowed)

-- ===== src/Golang/Answer.antt =====
-- What a call of a client returns: a value, or an error with its text.
use storage_provider_openneb.Prelude.{String, ◌≡◌, refl, ◌⊎◌, inl, inr}

pub data Answer {ℓ} (A : Type ℓ) : Type ℓ where
  failed : String → Answer A
  answered : A → Answer A

pub Answer-cases {ℓ} :
    {A : Type ℓ} (a : Answer A) → ((e : String) × (a ≡ failed e)) ⊎ ((x : A) × (a ≡ answered x))
Answer-cases (failed e) = inl (e, refl)
Answer-cases (answered x) = inr (x, refl)

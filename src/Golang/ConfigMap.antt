-- ===== src/Golang/ConfigMap.antt =====
-- What a read of a ConfigMap gives: the values of its keys, each as `json.Unmarshal` reads it, or `none`
-- where it cannot; no such ConfigMap; or another error.
use storage_provider_openneb.Prelude.{String, List, Option}

pub data Fetched {ℓ} (A : Type ℓ) : Type ℓ where
  found : List (String × Option A) → Fetched A
  not_found : Fetched A
  fetch_failed : String → Fetched A

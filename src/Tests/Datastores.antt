-- ===== src/Tests/Datastores.antt =====
-- Runs of pkg/csi/opennebula/datastore.go.
use mathlib.Core.List.{Perm}
use storage_provider_openneb.Prelude.{
  ◌*◌, ◌-◌, ◌≡◌, ◌≢◌, arith, refl, Bool, true, false, List, [], ◌∷◌, some, All,
}
use storage_provider_openneb.Prelude.Int.{ℤ, pos, negsuc, wrap64, ◌*ℤ◌, ◌+ℤ◌, ◌-ℤ◌, ltb_ℤ, eq_ℤ}
use storage_provider_openneb.Prelude.Keys.{insert, lookup, int_key, string_key}
use storage_provider_openneb.Golang.Text.{trim_space, is_space, fields}
use storage_provider_openneb.Golang.Cases.{equal_fold, to_upper, to_lower, atoi}
use storage_provider_openneb.Datastore.Backend.{get_datastore_backend_profile, validate_datastore}
use storage_provider_openneb.Datastore.Kinds.{
  Schema, normalize_datastore_category, category_word, normalize_allowed_datastore_type,
  infer_datastore_type, get_datastore_attribute, first_known, first_non_empty, known_value,
  is_numeric_datastore_field, normalize_disk_type,
}
use storage_provider_openneb.Datastore.Resolve.{
  Datastore, resolve_datastores, resolve_datastore_identifier, default_datastore, checked,
  datastore_from_schema, validate_provisioning_datastore_category,
  normalize_allowed_datastore_types, compatible_system_datastores, pool_by_id, resolve_each,
  resolve_one,
}
use storage_provider_openneb.Datastore.Selectors.{
  order_datastores, IsSorted, with_free, order-least_used, sort_least_used, place,
}
use storage_provider_openneb.Datastore.Environment.{HistoryRecord, Report, ceph_mode}
use storage_provider_openneb.Golang.Clock.{Time, second}
use storage_provider_openneb.Datastore.Autopilot.{Float64}
use storage_provider_openneb.Datastore.Runtime.{new_runtime, snapshot, failure_window}
use storage_provider_openneb.Datastore.Runtime.Failures.{results, count_failures, snapshot-results}
use storage_provider_openneb.Datastore.Candidates.{Eligible}
use storage_provider_openneb.Datastore.Eligible.{Fresh, resolve_datastores-Eligible}

abbrev pub ssd : Datastore
ssd = record {
  id = pos 100;
  name = "ssd";
  category = "IMAGE";
  type = "local";
  backend = "local";
  ds_mad = "fs";
  tm_mad = "ssh";
  disk_type = "FILE";
  free_bytes = pos 1000;
  total_bytes = pos 5000;
  enabled = true;
  compatible_system_datastores = [];
}

abbrev pub hdd : Datastore
hdd = record ssd { id = pos 101; name = "hdd"; free_bytes = pos 4000 }

-- Whole numbers in the place of float64.
abbrev pub whole : Float64
whole = record {
  carrier = ℤ;
  of_int = λ n. n;
  tenths = λ n. pos n;
  plus = λ a b. a +ℤ b;
  minus = λ a b. a -ℤ b;
  times = λ a b. a *ℤ b;
  over = λ a b. a;
  more = λ a b. ltb_ℤ b a;
  same = λ a b. eq_ℤ a b;
}

order-least_used_example :
    Perm (hdd ∷ ssd ∷ []) (ssd ∷ hdd ∷ [])
    × IsSorted (hdd ∷ ssd ∷ [])
    × ((n : ℤ) → with_free n (hdd ∷ ssd ∷ []) ≡ with_free n (ssd ∷ hdd ∷ []))
unfolding order_datastores sort_least_used place
order-least_used_example =
    order-least_used whole new_runtime new_runtime (60 * second) (ssd ∷ hdd ∷ []) (hdd ∷ ssd ∷ [])
      refl

abbrev outcomes : List (ℤ × Bool × Time)
outcomes =
    (pos 1, false, 10 * second) ∷ (pos 1, true, 20 * second) ∷ (pos 1, false, 1000 * second) ∷ []

snapshot-results_example :
    (snapshot (results new_runtime outcomes) (1010 * second)).1 (pos 1)
    ≡ count_failures (pos 1) (1010 * second - failure_window) outcomes
snapshot-results_example =
    snapshot-results outcomes (1010 * second) (pos 1)
      (omega arith, (omega arith, (omega arith, tt)))

abbrev pub pool : List Schema
pool =
    record {
      id = pos 100;
      name = "default";
      type = "0";
      ds_mad = "fs";
      tm_mad = "ssh";
      disk_type = "0";
      free_mb = pos 2048;
      total_mb = pos 4096;
      ready = some true;
      template = [];
    }
    ∷ []

abbrev pub default_ds : Datastore
default_ds = record ssd {
  name = "default";
  disk_type = "";
  free_bytes = pos 2147483648;
  total_bytes = pos 4294967296;
}

abbrev default_only : List Datastore
default_only = default_ds ∷ []

resolve_datastores-Eligible_example :
    All (Eligible pool ("local" ∷ [])) default_only × Fresh [] default_only × (default_only ≢ [])
unfolding resolve_datastores resolve_datastore_identifier trim_space is_space equal_fold
    default_datastore checked datastore_from_schema validate_provisioning_datastore_category
    normalize_datastore_category category_word to_upper to_lower atoi
    normalize_allowed_datastore_types normalize_allowed_datastore_type infer_datastore_type
    get_datastore_attribute get_datastore_backend_profile validate_datastore first_known
    first_non_empty known_value is_numeric_datastore_field normalize_disk_type
    compatible_system_datastores pool_by_id resolve_each resolve_one fields wrap64 ◌*ℤ◌ insert
    lookup
resolve_datastores-Eligible_example =
    resolve_datastores-Eligible pool ("default" ∷ " 100" ∷ []) ("local" ∷ []) default_only refl

abbrev ceph_image : Schema
ceph_image = record {
  id = pos 100;
  name = "images";
  type = "0";
  ds_mad = "ceph";
  tm_mad = "ceph";
  disk_type = "RBD";
  free_mb = pos 2048;
  total_mb = pos 4096;
  ready = some true;
  template =
      ("COMPATIBLE_SYS_DS", "101, 102")
      ∷ ("POOL_NAME", "one")
      ∷ ("CEPH_HOST", "mon1 mon2")
      ∷ ("CEPH_USER", "libvirt")
      ∷ ("CEPH_SECRET", "uuid")
      ∷ ("BRIDGE_LIST", "host1")
      ∷ [];
}

abbrev ceph_system : Schema
ceph_system = record ceph_image { id = pos 101; name = "system"; ds_mad = "-" }

abbrev history : List HistoryRecord
history =
    record { seq = pos 0; ds_id = pos 7 }
    ∷ record { seq = pos 2; ds_id = pos 101 }
    ∷ record { seq = pos 3; ds_id = negsuc 0 }
    ∷ []

abbrev ceph_report : Report
ceph_report = record {
  image_datastore = datastore_from_schema ceph_image;
  system_datastore = datastore_from_schema ceph_system;
  deployment_mode = ceph_mode;
  warned = false;
}

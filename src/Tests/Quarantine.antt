-- ===== src/Tests/Quarantine.antt =====
-- Runs of pkg/csi/driver/volume_quarantine.go.
use storage_provider_openneb.Prelude.{
  ◌*◌, ◌+◌, ◌≡◌, refl, String, ◌&&◌, List, [], ◌∷◌, Option, none, some, is_some, leb, ltb, length,
  suc, arith,
}
use storage_provider_openneb.Prelude.Int.{pos}
use storage_provider_openneb.Prelude.Keys.{lookup, string_key}
use storage_provider_openneb.Golang.Clock.{Time, second, zero_time}
use storage_provider_openneb.Golang.Text.{trim_space}
use storage_provider_openneb.VolumeQuarantine.{QuarantineState, Entries, get_active}
use storage_provider_openneb.VolumeQuarantine.Series.{
  last_time, mark_times-get_active, mark_times-untrimmed,
}
use storage_provider_openneb.VolumeQuarantine.Counted.{mark_times}

abbrev failure : QuarantineState
failure = record {
  volume_id = "vol-a";
  reason = "in-use";
  classification = "host-artifact";
  message = "device is busy";
  requested_node = "node-1";
  owner_vm_ids = pos 4 ∷ pos 2 ∷ [];
  failure_count = pos 0;
  first_observed_at = zero_time;
  last_observed_at = zero_time;
  expires_at = zero_time;
}

abbrev again : List (Time × Option String)
again = (20 * second, some "conflict") ∷ (30 * second, none) ∷ []

mark_times-get_active_example :
    let after_all =
      mark_times [] failure (pos 3) (pos (60 * second)) ((10 * second, none) ∷ again) in
    is_some (get_active after_all (trim_space "vol-a") (80 * second) (80 * second)) ≡ (
      leb 3 (suc (length again)) && ltb (80 * second) (last_time (10 * second) again + 60 * second))
unfolding lookup trim_space
mark_times-get_active_example =
    mark_times-get_active [] failure 3 (60 * second) (10 * second) none again (80 * second)
      (80 * second) refl (omega arith) (omega arith) (omega arith) (omega arith) refl

abbrev stored : Entries
stored = ("vol-a", record failure { failure_count = pos 3; expires_at = 90 * second }) ∷ []

abbrev padded : QuarantineState
padded = record failure { volume_id = "vol-a " }

-- The failures count for the trimmed name, and not for the one that they were reported with.
mark_times-untrimmed_example :
    let after_all =
      mark_times [] padded (pos 3) (pos (60 * second)) ((10 * second, none) ∷ again) in
    (is_some (get_active after_all (trim_space "vol-a ") (80 * second) (80 * second)) ≡ (
      leb 3 (suc (length again))
      && ltb (80 * second) (last_time (10 * second) again + 60 * second)))
    × (get_active after_all "vol-a " (80 * second) (80 * second)
        ≡ get_active [] "vol-a " (80 * second) (80 * second))
unfolding lookup trim_space
mark_times-untrimmed_example =
    mark_times-untrimmed [] padded 3 (60 * second) (10 * second) none again (80 * second)
      (80 * second) refl (λ e. cc) (omega arith) (omega arith) (omega arith) (omega arith) refl

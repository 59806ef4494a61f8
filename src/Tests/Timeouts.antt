-- ===== src/Tests/Timeouts.antt =====
-- Runs of pkg/csi/opennebula/adaptive_timeout.go.
use storage_provider_openneb.Prelude.{
  ◌*◌, ◌≡◌, ◌≤◌, ◌⊎◌, refl, true, List, [], ◌∷◌, ◌++◌, map, some, length, arith,
}
use storage_provider_openneb.Prelude.Int.{pos, ◌<ℤ◌, ◌≤ℤ◌}
use storage_provider_openneb.Golang.Clock.{second}
use storage_provider_openneb.AdaptiveTimeout.{
  ObservationKey, Observation, Tracker, new_tracker, samples_of, observe, p95, recommended,
}
use storage_provider_openneb.AdaptiveTimeout.Keys.{key_text, parse_observation_key, parse-key_text}
use storage_provider_openneb.AdaptiveTimeout.Recommended.{
  count_le, recommended_bounds, observe_window, p95_covers,
}

abbrev tracker : Tracker
tracker = new_tracker (record {
  enabled = true;
  min_samples = pos 2;
  sample_window = pos 3;
  p95_multiplier_percent = pos 0;
  max_timeout = pos (100 * second);
})

abbrev key : ObservationKey
key = record { operation = "attach"; backend = "local"; size_bucket = "le20Gi" }

parse-key_text_example : parse_observation_key (key_text key) ≡ some key
parse-key_text_example =
    parse-key_text key
      (
        λ e. omega arith,
        (
          λ e. omega arith,
          (λ e. omega arith, (λ e. omega arith, (λ e. omega arith, (λ e. omega arith, tt)))),
        ),
      )
      (
        λ e. omega arith,
        (λ e. omega arith, (λ e. omega arith, (λ e. omega arith, (λ e. omega arith, tt)))),
      )
      (
        λ e. omega arith,
        (
          λ e. omega arith,
          (λ e. omega arith, (λ e. omega arith, (λ e. omega arith, (λ e. omega arith, tt)))),
        ),
      )

abbrev samples : List Observation
samples =
    record { duration = pos (12 * second); observed_at = 20 * second }
    ∷ record { duration = pos (9 * second); observed_at = 40 * second }
    ∷ []

recommended_bounds_example :
    (pos 0 <ℤ tracker.max_timeout
      → recommended tracker samples (pos (30 * second)) ≤ℤ tracker.max_timeout)
    × ((tracker.max_timeout ≤ℤ pos 0) ⊎ (pos (30 * second) ≤ℤ tracker.max_timeout)
        → pos (30 * second) ≤ℤ recommended tracker samples (pos (30 * second)))
unfolding new_tracker
recommended_bounds_example = recommended_bounds tracker samples (pos (30 * second)) (omega arith)

observe_window_example :
    let w = samples_of (observe tracker key (pos (7 * second)) (50 * second)) key in
    (length w ≤ tracker.sample_window)
    × ((gone : List Observation) × (samples_of tracker key
            ++ (record { duration = pos (7 * second); observed_at = 50 * second } ∷ [])
          ≡ gone ++ w)
        × ((gone ≡ []) ⊎ (length w ≡ tracker.sample_window)))
unfolding new_tracker
observe_window_example = observe_window tracker key (7 * second) (50 * second) refl (omega arith)

p95_covers_example :
    19 * length samples ≤ 20 * count_le (p95 samples) (map (λ s. s.duration) samples)
p95_covers_example = p95_covers samples (λ e. cc)

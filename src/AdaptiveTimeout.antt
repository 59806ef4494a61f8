-- ===== src/AdaptiveTimeout.antt =====
-- pkg/csi/opennebula/adaptive_timeout.go: attach and detach timeouts learned from observed durations.
-- `math.Ceil(float64(n)*0.95)` is written in whole numbers, as it is for every length of a window.
pub mod Keys
pub mod Recommended
use storage_provider_openneb.Prelude.{
  ℕ, zero, suc, ◌+◌, ◌-◌, ◌*◌, ◌/◌, ◌≡◌, String, str_eq, Bool, true, false, not, ◌&&◌, List, [],
  ◌∷◌, ◌++◌, map, Option, none, some, if◌then◌else◌, ltb, leb, length, drop, get_elem?, eq_iff, ◌↔◌,
  arith, or_else,
}
use storage_provider_openneb.Prelude.Int.{ℤ, pos, ltb_ℤ, leb_ℤ, ◌+ℤ◌, ◌*ℤ◌, ◌/ℤ◌, wrap64, pos_part}
use storage_provider_openneb.Prelude.Keys.{Key, lookup, insert}
use storage_provider_openneb.Golang.Clock.{Time, Duration, zero_time}

-- `HotplugObservationKey`
pub record ObservationKey : Type 0 where
  pub operation : String
  pub backend : String
  pub size_bucket : String

abbrev pub same_key : ObservationKey → ObservationKey → Bool
same_key a b =
    str_eq a.operation b.operation
    && str_eq a.backend b.backend
    && str_eq a.size_bucket b.size_bucket

pub same_key_iff : (a b : ObservationKey) → (same_key a b ≡ true) ↔ (a ≡ b)
same_key_iff a b = ground (
  arith,
  eq_iff a.operation b.operation,
  eq_iff a.backend b.backend,
  eq_iff a.size_bucket b.size_bucket,
)

instance abbrev pub observation_key : Key ObservationKey
observation_key = record { beq = same_key; beq_iff = same_key_iff }

-- `AdaptiveTimeoutConfig` as it is given.
pub record Config : Type 0 where
  pub enabled : Bool
  pub min_samples : ℤ
  pub sample_window : ℤ
  pub p95_multiplier_percent : ℤ
  pub max_timeout : Duration

pub record Observation : Type 0 where
  pub duration : Duration
  pub observed_at : Time

-- The tracker's settings are positive numbers once it is made.
pub record Tracker : Type 0 where
  pub enabled : Bool
  pub min_samples : ℕ
  pub sample_window : ℕ
  pub p95_multiplier_percent : ℕ
  pub max_timeout : Duration
  pub window : List (ObservationKey × List Observation)

abbrev pub positive_or : ℤ → ℕ → ℕ
positive_or n d = if leb_ℤ n (pos 0) then d else pos_part n

unfoldable pub new_tracker : Config → Tracker
new_tracker c = record {
  enabled = c.enabled;
  min_samples = positive_or c.min_samples 8;
  sample_window = positive_or c.sample_window 20;
  p95_multiplier_percent = positive_or c.p95_multiplier_percent 400;
  max_timeout = c.max_timeout;
  window = [];
}

abbrev pub gib : ℕ
gib = 1024 * 1024 * 1024

unfoldable pub size_bucket_for_bytes : ℤ → String
size_bucket_for_bytes n =
    if leb_ℤ n (pos (20 * gib))
    then "le20Gi"
    else (if leb_ℤ n (pos (100 * gib))
        then "gt20Gi-le100Gi"
        else (if leb_ℤ n (pos (500 * gib)) then "gt100Gi-le500Gi" else "gt500Gi"))

unfoldable pub normalize_observation_key : String → String → ℤ → ObservationKey
unfolding size_bucket_for_bytes
normalize_observation_key operation backend size = record {
  operation = operation;
  backend = backend;
  size_bucket = size_bucket_for_bytes size;
}

-- `t.window[key]`, which is empty for a key that is not there.
abbrev pub samples_of : Tracker → ObservationKey → List Observation
samples_of t key = or_else (lookup key t.window) []

-- The last `n` samples of a longer window.
unfoldable pub last_samples : ℕ → List Observation → List Observation
last_samples n w = if ltb n (length w) then drop (length w - n) w else w

unfoldable pub observe : Tracker → ObservationKey → Duration → Time → Tracker
unfolding last_samples
observe t key duration now =
    let w = samples_of t key ++ (record { duration = duration; observed_at = now } ∷ []) in
    if not t.enabled
    then t
    else (if leb_ℤ duration (pos 0)
        then t
        else record t { window = insert key (last_samples t.sample_window w) t.window })

-- `sort.Slice` on durations.
unfoldable pub place : Duration → List Duration → List Duration
place x [] = x ∷ []
place x (y ∷ ys) = if leb_ℤ x y then x ∷ y ∷ ys else y ∷ place x ys

unfoldable pub sort_durations : List Duration → List Duration
unfolding place
sort_durations [] = []
sort_durations (x ∷ xs) = place x (sort_durations xs)

-- The index of the 95th percentile among `n` sorted samples.
unfoldable pub p95_index : ℕ → ℕ
p95_index n = let i = (95 * n + 99) / 100 - 1 in if leb n i then n - 1 else i

abbrev pub p95 : List Observation → Duration
p95 w =
    or_else (get_elem? (sort_durations (map (λ s. s.duration) w)) (p95_index (length w))) (pos 0)

unfoldable pub scaled : ℕ → Duration → Duration
scaled percent d = wrap64 (wrap64 (d *ℤ pos percent) +ℤ pos 99) /ℤ pos 100

pub record Recommendation : Type 0 where
  pub key : ObservationKey
  pub sample_count : ℕ
  pub recommended : Duration
  pub static_floor : Duration
  pub adaptive_max : Duration
  pub last_observed_at : Time

-- The recommended time of enough samples: at least the floor, then at most the maximum, if it is set.
unfoldable pub bounded : Duration → Duration → Duration → Duration
bounded floor most d =
    let d' = if ltb_ℤ d floor then floor else d in
    if ltb_ℤ (pos 0) most && ltb_ℤ most d' then most else d'

unfoldable pub recommended : Tracker → List Observation → Duration → Duration
unfolding scaled bounded
recommended t w floor =
    if ltb (length w) t.min_samples
    then floor
    else bounded floor t.max_timeout (scaled t.p95_multiplier_percent (p95 w))

abbrev pub last_observed : List Observation → Time
last_observed [] = zero_time
last_observed (s ∷ []) = s.observed_at
last_observed (s ∷ r ∷ rest) = last_observed (r ∷ rest)

abbrev pub floor_only : Tracker → ObservationKey → Duration → Recommendation
floor_only t key floor = record {
  key = key;
  sample_count = 0;
  recommended = floor;
  static_floor = floor;
  adaptive_max = t.max_timeout;
  last_observed_at = zero_time;
}

abbrev pub recommend_of : Tracker → ObservationKey → Duration → List Observation → Recommendation
recommend_of t key floor [] = floor_only t key floor
recommend_of t key floor (s ∷ rest) = record {
  key = key;
  sample_count = length (s ∷ rest);
  recommended = recommended t (s ∷ rest) floor;
  static_floor = floor;
  adaptive_max = t.max_timeout;
  last_observed_at = last_observed (s ∷ rest);
}

unfoldable pub recommend : Tracker → ObservationKey → Duration → Recommendation
recommend t key floor =
    if t.enabled then recommend_of t key floor (samples_of t key) else floor_only t key floor

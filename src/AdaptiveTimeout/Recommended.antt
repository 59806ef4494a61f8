-- ===== src/AdaptiveTimeout/Recommended.antt =====
-- The timeouts that pkg/csi/opennebula/adaptive_timeout.go recommends, and the samples it keeps.
use storage_provider_openneb.Prelude.{
  ℕ, zero, suc, ◌-◌, ◌*◌, ◌≤◌, ◌<◌, ◌≡◌, ◌≢◌, refl, ap, ◌∙◌, true, ◌⊎◌, inl, inr, List, [], ◌∷◌,
  ◌++◌, map, arith, All, length, length-drop, length-map, drop, get_elem?, if◌then◌else◌,
  Bool-cases, ltb, or_else,
}
use storage_provider_openneb.Prelude.Int.{pos, ◌≤ℤ◌, ◌<ℤ◌, leb_ℤ}
use storage_provider_openneb.Prelude.Keys.{lookup-insert_self, insert}
use storage_provider_openneb.Golang.Clock.{Time, Duration}
use storage_provider_openneb.AdaptiveTimeout.{
  ObservationKey, Observation, observation_key, Tracker, samples_of, observe, last_samples, place,
  sort_durations, p95_index, p95, bounded, recommended,
}

-- With enough samples the recommended timeout is at most the maximum, if one is set, and at least the
-- static floor, unless the maximum is set below it.
pub recommended_bounds :
    (t : Tracker) (w : List Observation) (floor : Duration)
    → t.min_samples ≤ length w
    → (pos 0 <ℤ t.max_timeout → recommended t w floor ≤ℤ t.max_timeout)
      × ((t.max_timeout ≤ℤ pos 0) ⊎ (floor ≤ℤ t.max_timeout) → floor ≤ℤ recommended t w floor)
unfolding recommended bounded
recommended_bounds t w floor h = (λ m. ground arith, λ m. ground arith)

-- A maximum that is set below the static floor takes its place: with enough samples every recommended
-- timeout is then the maximum, and with too few it is the floor.
pub recommended_below_floor :
    (t : Tracker) (w : List Observation) (floor : Duration)
    → pos 0 <ℤ t.max_timeout
    → t.max_timeout <ℤ floor
    → recommended t w floor ≡ (if ltb (length w) t.min_samples then floor else t.max_timeout)
unfolding recommended bounded
recommended_below_floor t w floor hm hf = ground arith

length-last_samples : (n : ℕ) (w : List Observation) → length (last_samples n w) ≤ n
unfolding last_samples
length-last_samples n w = ground (arith, length-drop (length w - n) w)

drop-split : (k : ℕ) (w : List Observation) → (gone : List Observation) × (w ≡ gone ++ drop k w)
drop-split zero w = ([], refl)
drop-split (suc k) [] = ([], refl)
drop-split (suc k) (x ∷ w) = let (gone, e) = drop-split k w in (x ∷ gone, ap (λ l. x ∷ l) e)

-- The last samples end the list, and they are all of it, or as many as the window holds.
last_samples-split :
    (n : ℕ) (w : List Observation)
    → (gone : List Observation) × (w ≡ gone ++ last_samples n w)
      × ((gone ≡ []) ⊎ (length (last_samples n w) ≡ n))
unfolding last_samples
last_samples-split n w = elim (Bool-cases (ltb n (length w))) [
  | inl long ↦
      let (gone, e) = drop-split (length w - n) w in
      (gone, rw long e, inr (rw long (length-drop (length w - n) w ∙ ground arith)))
  | inr short ↦ ([], rw short refl, inl refl)
]

abbrev sample : ℕ → Time → Observation
sample d now = record { duration = pos d; observed_at = now }

observe-samples :
    (t : Tracker) (key : ObservationKey) (d : ℕ) (now : Time)
    → t.enabled ≡ true
    → 0 < d
    → samples_of (observe t key (pos d) now) key
      ≡ last_samples t.sample_window (samples_of t key ++ (sample d now ∷ []))
unfolding observe
observe-samples t key d now on hd =
    ap (λ u. samples_of u key) (observed t key d now on hd)
    ∙ ap (λ o. or_else o []) (lookup-insert_self key _ t.window)
  where
    observed :
        (t : Tracker) (key : ObservationKey) (d : ℕ) (now : Time)
        → t.enabled ≡ true
        → 0 < d
        → observe t key (pos d) now ≡ record t {
          window =
              insert key
                (last_samples t.sample_window (samples_of t key ++ (sample d now ∷ [])))
                t.window;
        }
    observed t key d now on hd = ground arith

-- With the tracker enabled, an observed duration above 0 is appended to its key's samples, and the
-- oldest are dropped until the window holds the rest: none is dropped if it holds all of them, and it
-- is full otherwise.
pub observe_window :
    (t : Tracker) (key : ObservationKey) (d : ℕ) (now : Time)
    → t.enabled ≡ true
    → 0 < d
    → let w = samples_of (observe t key (pos d) now) key in
      (length w ≤ t.sample_window)
      × ((gone : List Observation) × (samples_of t key
              ++ (record { duration = pos d; observed_at = now } ∷ [])
            ≡ gone ++ w)
          × ((gone ≡ []) ⊎ (length w ≡ t.sample_window)))
unfolding observe
observe_window t key d now on hd =
    let all = samples_of t key ++ (sample d now ∷ []) in
    let (gone, split, full) = last_samples-split t.sample_window all in
    let kept = observe-samples t key d now on hd in
    (rw kept (length-last_samples t.sample_window all), (gone, rw kept split, rw kept full))

-- How many are at most `d`.
abbrev pub count_le : Duration → List Duration → ℕ
count_le d [] = 0
count_le d (x ∷ xs) = if leb_ℤ x d then suc (count_le d xs) else count_le d xs

count_le-place :
    (d x : Duration) (ys : List Duration) → count_le d (place x ys) ≡ count_le d (x ∷ ys)
unfolding place
count_le-place d x [] = refl
count_le-place d x (y ∷ ys) = ground (arith, count_le-place d x ys)

count_le-sort : (d : Duration) (xs : List Duration) → count_le d (sort_durations xs) ≡ count_le d xs
unfolding sort_durations
count_le-sort d [] = refl
count_le-sort d (x ∷ xs) =
    ground (arith, count_le-place d x (sort_durations xs), count_le-sort d xs)

abbrev IsSorted : List Duration → Type 0
IsSorted [] = Unit
IsSorted (x ∷ xs) = All (λ y. x ≤ℤ y) xs × IsSorted xs

All-le_trans :
    (x y : Duration) (zs : List Duration) → x ≤ℤ y → All (λ z. y ≤ℤ z) zs → All (λ z. x ≤ℤ z) zs
All-le_trans x y [] h hs = tt
All-le_trans x y (z ∷ zs) h hs = (omega arith, All-le_trans x y zs h hs.1)

All-place :
    (w x : Duration) (ys : List Duration)
    → w ≤ℤ x
    → All (λ z. w ≤ℤ z) ys
    → All (λ z. w ≤ℤ z) (place x ys)
unfolding place
All-place w x [] h hs = (h, tt)
All-place w x (y ∷ ys) h hs = ground (arith, All-place w x ys h hs.1)

IsSorted-place : (x : Duration) (ys : List Duration) → IsSorted ys → IsSorted (place x ys)
unfolding place
IsSorted-place x [] h = (tt, tt)
IsSorted-place x (y ∷ ys) h = elim (Bool-cases (leb_ℤ x y)) [
  | inl le ↦ rw le ((ground arith, All-le_trans x y ys (ground arith) h.0), h)
  | inr gt ↦ rw gt (All-place y x ys (ground arith) h.0, IsSorted-place x ys h.1)
]

IsSorted-sort : (xs : List Duration) → IsSorted (sort_durations xs)
unfolding sort_durations
IsSorted-sort [] = tt
IsSorted-sort (x ∷ xs) = IsSorted-place x (sort_durations xs) (IsSorted-sort xs)

length-place : (x : Duration) (ys : List Duration) → length (place x ys) ≡ suc (length ys)
unfolding place
length-place x [] = refl
length-place x (y ∷ ys) = ground (arith, length-place x ys)

length-sort : (xs : List Duration) → length (sort_durations xs) ≡ length xs
unfolding sort_durations
length-sort [] = refl
length-sort (x ∷ xs) = length-place x (sort_durations xs) ∙ ap suc (length-sort xs)

-- In a sorted list the element at an index has that many and itself at or below it.
All-get :
    (x : Duration) (xs : List Duration) (i : ℕ)
    → All (λ y. x ≤ℤ y) xs
    → i < length xs
    → x ≤ℤ or_else (get_elem? xs i) (pos 0)
All-get x [] i h l = elim l [ ]
All-get x (y ∷ ys) zero h l = h.0
All-get x (y ∷ ys) (suc i) h l = All-get x ys i h.1 (omega arith)

count_le-get :
    (xs : List Duration) (i : ℕ)
    → IsSorted xs
    → i < length xs
    → suc i ≤ count_le (or_else (get_elem? xs i) (pos 0)) xs
count_le-get [] i h l = elim l [ ]
count_le-get (x ∷ xs) zero h l = ground arith
count_le-get (x ∷ xs) (suc i) h l = ground (arith, count_le-get xs i h.1, All-get x xs i h.0)

p95_index-lt : (n : ℕ) → 0 < n → p95_index n < n
unfolding p95_index
p95_index-lt n h = ground arith

p95_index-ge : (n : ℕ) → 0 < n → 19 * n ≤ 20 * suc (p95_index n)
unfolding p95_index
p95_index-ge n h = ground arith

-- The percentile that the timeout is scaled from covers 95 of 100 of the samples of a window that
-- is not empty.
pub p95_covers :
    (w : List Observation)
    → w ≢ []
    → 19 * length w ≤ 20 * count_le (p95 w) (map (λ s. s.duration) w)
p95_covers [] h = absurd (h refl)
p95_covers (s ∷ rest) h = omega (
  arith,
  p95_index-ge (suc (length rest)) (omega arith),
  count_le-get (sort_durations xs) i (IsSorted-sort xs) (
      omega (
        arith,
        length-sort xs,
        length-map rest (λ s. s.duration),
        p95_index-lt (suc (length rest)),
      )),
  count_le-sort (or_else (get_elem? (sort_durations xs) i) (pos 0)) xs,
)
  where
    xs : List Duration
    xs = map (λ s. s.duration) (s ∷ rest)

    i : ℕ
    i = p95_index (suc (length rest))

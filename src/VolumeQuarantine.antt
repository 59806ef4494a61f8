-- ===== src/VolumeQuarantine.antt =====
-- pkg/csi/driver/volume_quarantine.go: volumes that are refused for a time after repeated failures.
-- `now` is the time that a method reads, and a ConfigMap write's error is an argument.
pub mod Counted
pub mod Series
use storage_provider_openneb.Prelude.{
  ℕ, ◌≡◌, ◌*◌, String, str_eq, Bool, true, false, not, ◌&&◌, ◌||◌, List, [], ◌∷◌, Option, none,
  some, if◌then◌else◌,
}
use storage_provider_openneb.Prelude.Int.{ℤ, pos, leb_ℤ, ◌+ℤ◌, wrap64}
use storage_provider_openneb.Prelude.Keys.{lookup, insert, delete, string_key}
use storage_provider_openneb.Golang.Clock.{Time, Duration, is_zero, after, add, zero_time, minute}
use storage_provider_openneb.Golang.ConfigMap.{Fetched, found, not_found, fetch_failed}
use storage_provider_openneb.Golang.Text.{trim_space}

pub record QuarantineState : Type 0 where
  pub volume_id : String
  pub reason : String
  pub classification : String
  pub message : String
  pub requested_node : String
  pub owner_vm_ids : List ℤ
  pub failure_count : ℤ
  pub first_observed_at : Time
  pub last_observed_at : Time
  pub expires_at : Time

abbrev pub Entries : Type 0
Entries = List (String × QuarantineState)

abbrev pub is_blank : String → Bool
is_blank s = str_eq (trim_space s) ""

-- `sort.Ints`
unfoldable pub place_int : ℤ → List ℤ → List ℤ
place_int x [] = x ∷ []
place_int x (y ∷ ys) = if leb_ℤ x y then x ∷ y ∷ ys else y ∷ place_int x ys

unfoldable pub sort_ints : List ℤ → List ℤ
unfolding place_int
sort_ints [] = []
sort_ints (x ∷ xs) = place_int x (sort_ints xs)

unfoldable pub same_quarantine_series : QuarantineState → QuarantineState → Bool
same_quarantine_series previous next =
    str_eq (trim_space previous.reason) (trim_space next.reason)
    && str_eq (trim_space previous.classification) (trim_space next.classification)
    && str_eq (trim_space previous.requested_node) (trim_space next.requested_node)

-- The state with its texts trimmed, as `MarkFailure` compares and stores it.
unfoldable pub normalized : QuarantineState → Time → QuarantineState
unfolding sort_ints
normalized state now = record state {
  volume_id = trim_space state.volume_id;
  reason = trim_space state.reason;
  classification = trim_space state.classification;
  requested_node = trim_space state.requested_node;
  owner_vm_ids = sort_ints state.owner_vm_ids;
  last_observed_at = now;
}

-- The first failure of a series.
abbrev pub first_of_series : QuarantineState → Time → QuarantineState
first_of_series state now = record state { first_observed_at = now; failure_count = pos 1 }

-- `FirstObservedAt` and `FailureCount`, from the entry that was there.
unfoldable pub counted : Option QuarantineState → QuarantineState → Time → QuarantineState
unfolding same_quarantine_series
counted none state now = first_of_series state now
counted (some previous) state now =
    if same_quarantine_series previous state
    then record state {
      first_observed_at = previous.first_observed_at;
      failure_count = wrap64 (previous.failure_count +ℤ pos 1);
    }
    else first_of_series state now

abbrev pub threshold_or_default : ℤ → ℤ
threshold_or_default threshold = if leb_ℤ threshold (pos 0) then pos 2 else threshold

abbrev pub ttl_or_default : Duration → Duration
ttl_or_default ttl = if leb_ℤ ttl (pos 0) then pos (30 * minute) else ttl

unfoldable pub is_active : QuarantineState → ℤ → Bool
is_active state threshold = leb_ℤ (threshold_or_default threshold) state.failure_count

unfoldable pub marked : Entries → QuarantineState → ℤ → Duration → Time → QuarantineState
unfolding normalized counted is_active
marked entries state threshold ttl now =
    let named = normalized state now in
    let state' = counted (lookup named.volume_id entries) named now in
    record state' {
      expires_at = if is_active state' threshold then add now (ttl_or_default ttl) else zero_time;
    }

pub record Marked : Type 0 where
  pub entries : Entries
  pub state : QuarantineState
  pub active : Bool
  pub err : Option String

unfoldable pub mark_failure :
    Entries → QuarantineState → ℤ → Duration → Time → Option String → Marked
mark_failure entries state threshold ttl now write =
    let state' = marked entries state threshold ttl now in
    if is_blank state.volume_id
    then record { entries = entries; state = state; active = false; err = none }
    else record {
      entries = insert state'.volume_id state' entries;
      state = state';
      active = is_active state' threshold;
      err = write;
    }

-- `clock` is read if the caller gives the zero time.
unfoldable pub get_active : Entries → String → Time → Time → Option QuarantineState
get_active entries volume_id now clock =
    let time = if is_zero now then clock else now in
    if is_blank volume_id then none else elim (lookup volume_id entries) [
      | none ↦ none
      | some state ↦
          if is_zero state.expires_at || not (after state.expires_at time) then none else some state
    ]

unfoldable pub clear : Entries → String → Entries
clear entries volume_id =
    if is_blank volume_id then entries else delete (trim_space volume_id) entries

-- One value of the ConfigMap; one that cannot be decoded is `none`.
unfoldable pub load_one : Entries → String → Option QuarantineState → Time → Entries
load_one loaded key none now = loaded
load_one loaded key (some raw) now =
    let state = if is_blank raw.volume_id then record raw { volume_id = key } else raw in
    if is_zero state.expires_at || after state.expires_at now
    then insert state.volume_id state loaded
    else loaded

unfoldable pub load_entries : Entries → List (String × Option QuarantineState) → Time → Entries
unfolding load_one
load_entries loaded [] now = loaded
load_entries loaded ((key, raw) ∷ rest) now = load_entries (load_one loaded key raw now) rest now

-- `LoadFromConfigMap`, with the error that it returns.
unfoldable pub load_from_config_map :
    Entries → Fetched QuarantineState → Time → Entries × Option String
unfolding load_entries
load_from_config_map entries (found cm) now = (load_entries [] cm now, none)
load_from_config_map entries not_found now = (entries, none)
load_from_config_map entries (fetch_failed e) now = (entries, some e)

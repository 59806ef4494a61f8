-- ===== src/HostArtifact.antt =====
-- pkg/csi/driver/host_artifact_quarantine.go: attachments that are refused for a time because a host
-- holds a leftover volume. `now` is the time that a method reads, and a ConfigMap write's error is an
-- argument.
pub mod Spelling
use storage_provider_openneb.Prelude.{
  ℕ, ◌*◌, String, str_eq, Bool, true, false, not, ◌&&◌, ◌||◌, List, [], ◌∷◌, Option, none, some,
  if◌then◌else◌,
}
use storage_provider_openneb.Prelude.Int.{ℤ, pos, leb_ℤ, eq_ℤ, ◌+ℤ◌, wrap64}
use storage_provider_openneb.Prelude.Keys.{lookup, insert, delete, string_key}
use storage_provider_openneb.Golang.Clock.{Time, Duration, is_zero, after, add, zero_time, minute}
use storage_provider_openneb.Golang.ConfigMap.{Fetched, found, not_found, fetch_failed}
use storage_provider_openneb.Golang.Text.{trim_space}

pub record ArtifactState : Type 0 where
  pub key : String
  pub classification : String
  pub reason : String
  pub message : String
  pub volume_id : String
  pub image_id : ℤ
  pub node_name : String
  pub vm_id : ℤ
  pub host_id : ℤ
  pub host_name : String
  pub system_datastore_id : ℤ
  pub system_datastore_name : String
  pub system_datastore_tm : String
  pub disk_id : ℤ
  pub target : String
  pub lv_name : String
  pub failure_count : ℤ
  pub first_observed_at : Time
  pub last_observed_at : Time
  pub expires_at : Time
  pub repair_hint : String

abbrev pub Entries : Type 0
Entries = List (String × ArtifactState)

abbrev pub is_blank : String → Bool
is_blank s = str_eq (trim_space s) ""

unfoldable pub same_host_artifact_series : ArtifactState → ArtifactState → Bool
same_host_artifact_series previous next =
    str_eq (trim_space previous.classification) (trim_space next.classification)
    && eq_ℤ previous.vm_id next.vm_id
    && eq_ℤ previous.disk_id next.disk_id
    && str_eq (trim_space previous.lv_name) (trim_space next.lv_name)

abbrev pub text_or : String → String → String
text_or s default = if is_blank s then default else trim_space s

-- The state as `MarkFailure` compares and stores it.
unfoldable pub filled : ArtifactState → Time → ArtifactState
filled state now = record state {
  key = trim_space state.key;
  classification = text_or state.classification "host_local_lv_conflict";
  reason = text_or state.reason "external_host_artifact_repair_required";
  last_observed_at = now;
}

abbrev pub first_artifact : ArtifactState → Time → ArtifactState
first_artifact state now = record state { first_observed_at = now; failure_count = pos 1 }

unfoldable pub counted_artifact : Option ArtifactState → ArtifactState → Time → ArtifactState
unfolding same_host_artifact_series
counted_artifact none state now = first_artifact state now
counted_artifact (some previous) state now =
    if same_host_artifact_series previous state
    then record state {
      first_observed_at = previous.first_observed_at;
      failure_count = wrap64 (previous.failure_count +ℤ pos 1);
    }
    else first_artifact state now

-- `threshold` and `ttl` with their defaults: 1, and an hour.
unfoldable pub reached : ArtifactState → ℤ → Bool
reached state threshold =
    leb_ℤ (if leb_ℤ threshold (pos 0) then pos 1 else threshold) state.failure_count

abbrev pub ttl_or_hour : Duration → Duration
ttl_or_hour ttl = if leb_ℤ ttl (pos 0) then pos (60 * minute) else ttl

unfoldable pub marked_artifact : Entries → ArtifactState → ℤ → Duration → Time → ArtifactState
unfolding filled counted_artifact reached
marked_artifact entries state threshold ttl now =
    let named = filled state now in
    let state' = counted_artifact (lookup named.key entries) named now in
    record state' {
      expires_at = if reached state' threshold then add now (ttl_or_hour ttl) else zero_time;
    }

pub record MarkedArtifact : Type 0 where
  pub entries : Entries
  pub state : ArtifactState
  pub active : Bool
  pub err : Option String

unfoldable pub mark_artifact_failure :
    Entries → ArtifactState → ℤ → Duration → Time → Option String → MarkedArtifact
mark_artifact_failure entries state threshold ttl now write =
    let state' = marked_artifact entries state threshold ttl now in
    if is_blank state.key
    then record {
      entries = entries;
      state = record state { key = trim_space state.key };
      active = false;
      err = none;
    }
    else record {
      entries = insert state'.key state' entries;
      state = state';
      active = reached state' threshold;
      err = write;
    }

-- `clock` is read if the caller gives the zero time.
unfoldable pub get_active_artifact : Entries → String → Time → Time → Option ArtifactState
get_active_artifact entries key now clock =
    let time = if is_zero now then clock else now in
    if is_blank key then none else elim (lookup (trim_space key) entries) [
      | none ↦ none
      | some state ↦
          if is_zero state.expires_at || not (after state.expires_at time) then none else some state
    ]

unfoldable pub clear_artifact : Entries → String → Entries
clear_artifact entries key = if is_blank key then entries else delete (trim_space key) entries

-- One value of the ConfigMap; one that cannot be decoded is `none`.
unfoldable pub load_artifact : Entries → String → Option ArtifactState → Time → Entries
load_artifact loaded key none now = loaded
load_artifact loaded key (some raw) now =
    let state = if is_blank raw.key then record raw { key = key } else raw in
    if is_zero state.expires_at || after state.expires_at now
    then insert state.key state loaded
    else loaded

unfoldable pub load_artifacts : Entries → List (String × Option ArtifactState) → Time → Entries
unfolding load_artifact
load_artifacts loaded [] now = loaded
load_artifacts loaded ((key, raw) ∷ rest) now =
    load_artifacts (load_artifact loaded key raw now) rest now

-- `LoadFromConfigMap`, with the error that it returns.
unfoldable pub load_from_config_map :
    Entries → Fetched ArtifactState → Time → Entries × Option String
unfolding load_artifacts
load_from_config_map entries (found cm) now = (load_artifacts [] cm now, none)
load_from_config_map entries not_found now = (entries, none)
load_from_config_map entries (fetch_failed e) now = (entries, some e)

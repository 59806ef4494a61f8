-- ===== src/StickyAttachment.antt =====
-- pkg/csi/driver/sticky_attachment.go: volumes that stay attached for a grace period. The writes to
-- the ConfigMap are calls of the Kubernetes client: what a write returns is an argument.
pub mod Laws
use storage_provider_openneb.Prelude.{
  ℕ, ◌≡◌, String, str_eq, Bool, true, false, not, List, [], ◌∷◌, Option, none, some, if◌then◌else◌,
}
use storage_provider_openneb.Prelude.Int.{ℤ}
use storage_provider_openneb.Prelude.Keys.{lookup, insert, delete, string_key}
use storage_provider_openneb.Golang.Clock.{Time, after}
use storage_provider_openneb.Golang.ConfigMap.{Fetched, found, not_found, fetch_failed}
use storage_provider_openneb.Golang.Text.{trim_space, str_lt}

pub record StickyState : Type 0 where
  pub volume_id : String
  pub node_id : String
  pub backend : String
  pub datastore_id : ℤ
  pub pvc_namespace : String
  pub pvc_name : String
  pub started_at : Time
  pub expires_at : Time
  pub grace_seconds : ℤ
  pub reason : String
  pub last_known_node_ready : Bool

-- `entries`, in the order of their iteration.
abbrev pub Entries : Type 0
Entries = List (String × StickyState)

pub data StickyError : Type 0 where
  volume_id_required : StickyError
  store_failed : String → StickyError

-- What the ConfigMap write returned: `none` is no error.
abbrev pub Write : Type 0
Write = Option String

abbrev pub is_blank : String → Bool
is_blank s = str_eq (trim_space s) ""

unfoldable pub start_grace : Entries → StickyState → Write → Entries × Option StickyError
start_grace entries state write =
    let stored = insert state.volume_id state entries in
    if is_blank state.volume_id then (entries, some volume_id_required) else elim write [
      | none ↦ (stored, none)
      | some e ↦ (delete state.volume_id stored, some (store_failed e))
    ]

unfoldable pub get : Entries → String → Option StickyState
get entries volume_id = lookup volume_id entries

unfoldable pub clear : Entries → String → Write → Entries × Option StickyError
clear entries volume_id write =
    if is_blank volume_id
    then (entries, none)
    else (delete volume_id entries, elim write [ none ↦ none | some e ↦ some (store_failed e) ])

-- `previous`, `hadPrevious` put back.
abbrev pub restore : Entries → String → Option StickyState → Entries
restore entries id none = delete id entries
restore entries id (some previous) = insert id previous entries

unfoldable pub update : Entries → StickyState → Write → Entries × Option StickyError
update entries state write =
    let stored = insert state.volume_id state entries in
    if is_blank state.volume_id then (entries, some volume_id_required) else elim write [
      | none ↦ (stored, none)
      | some e ↦
          (restore stored state.volume_id (lookup state.volume_id entries), some (store_failed e))
    ]

unfoldable pub list_expired : Entries → Time → List StickyState
list_expired [] now = []
list_expired ((id, entry) ∷ rest) now =
    let more = list_expired rest now in
    if not (after entry.expires_at now) then entry ∷ more else more

unfoldable pub with_reason : Entries → String → List StickyState
with_reason [] reason = []
with_reason ((id, entry) ∷ rest) reason =
    let more = with_reason rest reason in
    if str_eq (trim_space entry.reason) reason then entry ∷ more else more

-- `sort.Slice` by the volume: the states of one map differ in it, so that any sort gives this list.
unfoldable pub place : StickyState → List StickyState → List StickyState
place x [] = x ∷ []
place x (y ∷ ys) = if str_lt y.volume_id x.volume_id then y ∷ place x ys else x ∷ y ∷ ys

unfoldable pub sort_by_volume : List StickyState → List StickyState
unfolding place
sort_by_volume [] = []
sort_by_volume (x ∷ xs) = place x (sort_by_volume xs)

unfoldable pub list_by_reason : Entries → String → List StickyState
unfolding with_reason sort_by_volume
list_by_reason entries reason = sort_by_volume (with_reason entries (trim_space reason))

-- A ConfigMap's data, each value as `json.Unmarshal` read it, or `none` for its error.
abbrev pub keyed : String → StickyState → StickyState
keyed key state = if is_blank state.volume_id then record state { volume_id = key } else state

unfoldable pub load_entries : Entries → List (String × Option StickyState) → Entries
load_entries loaded [] = loaded
load_entries loaded ((key, none) ∷ rest) = load_entries loaded rest
load_entries loaded ((key, some state) ∷ rest) =
    let state' = keyed key state in load_entries (insert state'.volume_id state' loaded) rest

unfoldable pub load_from_config_map : Entries → Fetched StickyState → Entries × Option String
unfolding load_entries
load_from_config_map entries (found cm) = (load_entries [] cm, none)
load_from_config_map entries not_found = (entries, none)
load_from_config_map entries (fetch_failed e) = (entries, some e)

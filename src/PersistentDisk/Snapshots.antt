-- ===== src/PersistentDisk/Snapshots.antt =====
-- pkg/csi/opennebula/snapshot.go, and the listing of snapshots in pages, of
-- pkg/csi/opennebula/persistentdisk.go.
pub mod Pages
use storage_provider_openneb.Prelude.{
  ℕ, zero, suc, ◌+◌, ◌-◌, ◌≡◌, String, str_eq, Bool, true, false, not, ◌||◌, List, [], ◌∷◌, ◌++◌,
  map, Option, none, some, if◌then◌else◌, length, drop, ltb, leb,
}
use storage_provider_openneb.Prelude.Int.{
  ℤ, pos, negsuc, ltb_ℤ, leb_ℤ, eq_ℤ, pos_part, ◌*ℤ◌, wrap64,
}
use storage_provider_openneb.Golang.Answer.{Answer, failed, answered}
use storage_provider_openneb.Golang.Text.{trim_space, concat}
use storage_provider_openneb.Golang.Cases.{atoi, to_lower}
use storage_provider_openneb.Golang.Search.{cut_prefix, contains}
use storage_provider_openneb.Golang.Decimal.{itoa}
use storage_provider_openneb.Golang.Texts.{cut_on}

-- `snapshotIDPrefix` and `sharedSnapshotIDPrefix`
abbrev pub snapshot_id_prefix : String
snapshot_id_prefix = "image-snapshot:"

abbrev pub shared_snapshot_id_prefix : String
shared_snapshot_id_prefix = "cephfs-snapshot:"

unfoldable pub encode_volume_snapshot_id : ℤ → ℤ → String
encode_volume_snapshot_id image_id snapshot_id =
    concat snapshot_id_prefix (concat (itoa image_id) (concat ":" (itoa snapshot_id)))

abbrev pub both : Option ℤ → Option ℤ → Option (ℤ × ℤ)
both none b = none
both (some a) none = none
both (some a) (some b) = some (a, b)

-- The numbers on the two sides of the first colon.
abbrev pub id_pair : Option (String × String) → Option (ℤ × ℤ)
id_pair none = none
id_pair (some (image, snapshot)) = both (atoi image) (atoi snapshot)

abbrev pub id_payload : Option String → Option (ℤ × ℤ)
id_payload none = none
id_payload (some payload) = id_pair (cut_on b':' payload)

-- `none` is the error.
unfoldable pub decode_volume_snapshot_id : String → Option (ℤ × ℤ)
decode_volume_snapshot_id value = id_payload (cut_prefix (trim_space value) snapshot_id_prefix)

-- What json and base64 make of the rest of the ID, as `SharedVolumeSnapshotMetadata`.
pub record SharedMetadata : Type 0 where
  pub datastore_id : ℤ
  pub backend : String
  pub fs_name : String
  pub subvolume_group : String
  pub subvolume_name : String
  pub snapshot_name : String
  pub source_volume_id : String
  pub creation_unix : ℤ
  pub size_bytes : ℤ

abbrev pub is_missing_metadata : SharedMetadata → Bool
is_missing_metadata m =
    leb_ℤ m.datastore_id (pos 0)
    || str_eq m.fs_name ""
    || str_eq m.subvolume_name ""
    || str_eq m.snapshot_name ""

abbrev pub default_backend : SharedMetadata → SharedMetadata
default_backend m = if str_eq m.backend "" then record m { backend = "cephfs" } else m

abbrev pub complete_metadata : Option SharedMetadata → Option SharedMetadata
complete_metadata none = none
complete_metadata (some m) = if is_missing_metadata m then none else some (default_backend m)

-- `read` is base64 and then json; `none` is an error.
unfoldable pub decode_shared_volume_snapshot_id :
    (String → Option SharedMetadata) → String → Option SharedMetadata
decode_shared_volume_snapshot_id read value =
    elim (cut_prefix (trim_space value) shared_snapshot_id_prefix) [
      | none ↦ none
      | some payload ↦ complete_metadata (read payload)
    ]

-- `write` is json and then base64.
unfoldable pub encode_shared_volume_snapshot_id :
    (SharedMetadata → String) → SharedMetadata → String
encode_shared_volume_snapshot_id write m = concat shared_snapshot_id_prefix (write m)

-- A snapshot of an image, as the client gives it, and the image with its size in MiB.
pub record ImageSnapshot : Type 0 where
  pub id : ℤ
  pub date : ℤ

pub record Image : Type 0 where
  pub id : ℤ
  pub name : String
  pub size : ℤ
  pub snapshots : List ImageSnapshot

pub record VolumeSnapshot : Type 0 where
  pub snapshot_id : String
  pub source_volume_id : String
  pub creation_time : ℤ
  pub size_bytes : ℤ

unfoldable pub convert_image_snapshot : Image → ImageSnapshot → VolumeSnapshot
convert_image_snapshot image s = record {
  snapshot_id = encode_volume_snapshot_id image.id s.id;
  source_volume_id = image.name;
  creation_time = s.date;
  size_bytes = wrap64 (image.size *ℤ pos 1048576);
}

unfoldable pub convert_image_snapshots : Image → List VolumeSnapshot
convert_image_snapshots image = map (convert_image_snapshot image) image.snapshots

unfoldable pub image_snapshot_by_id : List ImageSnapshot → ℤ → Option ImageSnapshot
image_snapshot_by_id [] id = none
image_snapshot_by_id (s ∷ ss) id = if eq_ℤ s.id id then some s else image_snapshot_by_id ss id

abbrev pub convert_pool : List Image → List VolumeSnapshot
convert_pool [] = []
convert_pool (i ∷ is) = convert_image_snapshots i ++ convert_pool is

pub data ListError : Type 0 where
  invalid_snapshot_id missing_snapshot invalid_token token_out_of_range : ListError
  inspect_failed : String → ListError

pub data SnapshotPage : Type 0 where
  list_failed : ListError → SnapshotPage
  page_of : List VolumeSnapshot → String → SnapshotPage

unfoldable pub take_first {ℓ} : {A : Type ℓ} → ℕ → List A → List A
take_first zero xs = []
take_first (suc n) [] = []
take_first (suc n) (x ∷ xs) = x ∷ take_first n xs

-- `snapshots[start:end]` with the next token.
abbrev pub page_from : List VolumeSnapshot → ℤ → ℕ → SnapshotPage
page_from snapshots max_entries start =
    let most = pos_part max_entries in
    if ltb (length snapshots) start
    then list_failed token_out_of_range
    else if ltb 0 most
    then (if ltb (start + most) (length snapshots)
        then page_of (take_first most (drop start snapshots)) (itoa (pos (start + most)))
        else page_of (drop start snapshots) "")
    else page_of (drop start snapshots) ""

abbrev pub start_at : List VolumeSnapshot → ℤ → Option ℤ → SnapshotPage
start_at snapshots max_entries none = list_failed invalid_token
start_at snapshots max_entries (some (negsuc n)) = list_failed invalid_token
start_at snapshots max_entries (some (pos n)) = page_from snapshots max_entries n

-- The page of the snapshots from a token.
unfoldable pub page : List VolumeSnapshot → ℤ → String → SnapshotPage
page snapshots max_entries token =
    if str_eq (trim_space token) ""
    then page_from snapshots max_entries 0
    else start_at snapshots max_entries (atoi token)

-- What the client returns: an image by its ID, the ID of a volume, and all images.
pub record Images : Type 0 where
  pub info : ℤ → Answer Image
  pub volume_exists : String → Answer ℤ
  pub all : Answer (List Image)

pub data Chosen : Type 0 where
  not_chosen : ListError → Chosen
  chosen : List VolumeSnapshot → Chosen

abbrev pub found_snapshot : Image → Option ImageSnapshot → Chosen
found_snapshot image none = not_chosen missing_snapshot
found_snapshot image (some s) = chosen (convert_image_snapshot image s ∷ [])

abbrev pub snapshot_of : ℤ → Answer Image → Chosen
snapshot_of id (failed e) = not_chosen (inspect_failed e)
snapshot_of id (answered image) = found_snapshot image (image_snapshot_by_id image.snapshots id)

abbrev pub by_snapshot_id : Images → Option (ℤ × ℤ) → Chosen
by_snapshot_id c none = not_chosen invalid_snapshot_id
by_snapshot_id c (some (image, id)) = snapshot_of id (c.info image)

abbrev pub snapshots_of : Answer Image → Chosen
snapshots_of (failed e) = not_chosen (inspect_failed e)
snapshots_of (answered image) = chosen (convert_image_snapshots image)

abbrev pub by_source : Images → Answer ℤ → Chosen
by_source c (failed e) = not_chosen (inspect_failed e)
by_source c (answered id) = snapshots_of (c.info id)

abbrev pub of_pool : Answer (List Image) → Chosen
of_pool (failed e) = not_chosen (inspect_failed e)
of_pool (answered images) = chosen (convert_pool images)

-- The `switch` of ListSnapshots.
unfoldable pub choose_snapshots : Images → String → String → Chosen
choose_snapshots c snapshot_id source =
    if not (str_eq (trim_space snapshot_id) "")
    then by_snapshot_id c (decode_volume_snapshot_id snapshot_id)
    else (if not (str_eq (trim_space source) "")
        then by_source c (c.volume_exists source)
        else of_pool c.all)

abbrev pub page_chosen : Chosen → ℤ → String → SnapshotPage
page_chosen (not_chosen e) max_entries token = list_failed e
page_chosen (chosen snapshots) max_entries token = page snapshots max_entries token

unfoldable pub list_snapshots : Images → String → String → ℤ → String → SnapshotPage
list_snapshots c snapshot_id source max_entries token =
    page_chosen (choose_snapshots c snapshot_id source) max_entries token

-- `DeleteSnapshot`: the result of the client's call, of which "not found" is no error.
unfoldable pub delete_snapshot : (ℤ → ℤ → Option String) → String → Option (Option String)
delete_snapshot delete value = elim (decode_volume_snapshot_id value) [
  | none ↦ some none
  | some (image, id) ↦ elim (delete image id) [
    | none ↦ none
    | some e ↦ if contains (to_lower e) "not found" then none else some (some e)
  ]
]

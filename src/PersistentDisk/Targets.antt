-- ===== src/PersistentDisk/Targets.antt =====
-- The next disk of a virtual machine: its number and its device, of
-- pkg/csi/opennebula/persistentdisk.go.
pub mod Letters
use Prim.Native.Char.{Char, code}
use storage_provider_openneb.Prelude.{
  ℕ, zero, suc, ◌+◌, ◌-◌, ◌*◌, ◌/◌, ◌%◌, ◌≡◌, ◌==◌, String, str_eq, Bool, true, false, ◌||◌, ◌&&◌,
  List, [], ◌∷◌, Option, none, some, if◌then◌else◌, length, some_elem, leb, ltb,
}
use storage_provider_openneb.Prelude.Int.{ℤ, pos, negsuc, ◌*ℤ◌, ◌+ℤ◌, ◌-ℤ◌, wrap64, eq_ℤ, leb_ℤ}
use storage_provider_openneb.Golang.Text.{trim_space, concat}
use storage_provider_openneb.Golang.Cases.{atoi}
use storage_provider_openneb.Golang.Search.{cut_prefix}
use storage_provider_openneb.Golang.Decimal.{chr}

-- `letters` is before `rest`; `fuel` is above the index.
unfoldable pub letters_from : ℕ → ℕ → String → String
letters_from zero index rest = rest
letters_from (suc fuel) index rest =
    let letters = String.◌∷◌ (chr (b'a' + index % 26)) rest in
    let more = letters_from fuel (index / 26 - 1) letters in
    if index / 26 == 0 then letters else more

unfoldable pub linux_disk_letters : ℤ → String
linux_disk_letters (pos index) = letters_from (suc index) index String.[]
linux_disk_letters (negsuc n) = letters_from 1 0 String.[]

-- The loop over the letters of the suffix; `none` is `false`.
unfoldable pub read_letters : ℤ → String → Option ℤ
read_letters index String.[] = some index
read_letters index (String.◌∷◌ c s) =
    let more = read_letters (wrap64 (wrap64 (index *ℤ pos 26) +ℤ pos (code c - b'a' + 1))) s in
    if ltb (code c) b'a' || ltb b'z' (code c) then none else more

abbrev pub index_of : Option ℤ → Option ℤ
index_of none = none
index_of (some index) = some (wrap64 (index -ℤ pos 1))

abbrev pub suffix_index : Option String → Option ℤ
suffix_index none = none
suffix_index (some suffix) =
    if str_eq suffix "" then none else index_of (read_letters (pos 0) suffix)

unfoldable pub linux_disk_target_index : String → String → Option ℤ
linux_disk_target_index target prefix =
    if str_eq prefix "" then none else suffix_index (cut_prefix target prefix)

-- The numbers of a set, each once.
unfoldable pub distinct : List ℤ → List ℤ
distinct [] = []
distinct (n ∷ ns) = let set = distinct ns in if some_elem (eq_ℤ n) set then set else n ∷ set

-- The first number from `start` that is not used, of as many as `count`.
unfoldable pub first_free : ℕ → ℕ → List ℤ → Option ℕ
first_free zero start used = none
first_free (suc count) start used =
    let more = first_free count (suc start) used in
    if some_elem (eq_ℤ (pos start)) used then more else some start

abbrev pub keep_number : Option ℤ → List ℤ → List ℤ
keep_number none used = used
keep_number (some id) used = if leb_ℤ (pos 0) id then id ∷ used else used

-- The `DISK_ID` of each disk, where it is a number, and that of the context.
abbrev pub used_ids : List (Option ℤ) → Option String → List ℤ
used_ids [] none = []
used_ids [] (some raw) = keep_number (atoi (trim_space raw)) []
used_ids (d ∷ ds) context = keep_number d (used_ids ds context)

unfoldable pub next_available_disk_id : List (Option ℤ) → Option String → ℕ
next_available_disk_id disks context =
    let used = used_ids disks context in
    elim (first_free 512 0 used) [ some id ↦ id | none ↦ length (distinct used) ]

-- `params["devPrefix"]`
abbrev pub target_prefix : Option String → String
target_prefix none = "sd"
target_prefix (some given) = if str_eq (trim_space given) "" then "sd" else trim_space given

abbrev pub keep_index : Option ℤ → List ℤ → List ℤ
keep_index none used = used
keep_index (some index) used = index ∷ used

-- The `TARGET` of each disk that has one.
abbrev pub used_indices : String → List (Option String) → List ℤ
used_indices prefix [] = []
used_indices prefix (none ∷ ds) = used_indices prefix ds
used_indices prefix (some target ∷ ds) =
    keep_index (linux_disk_target_index (trim_space target) prefix) (used_indices prefix ds)

unfoldable pub next_available_disk_target : List (Option String) → Option String → String
next_available_disk_target disks dev_prefix =
    let prefix = target_prefix dev_prefix in
    elim (first_free 512 0 (used_indices prefix disks)) [
      | some index ↦ concat prefix (linux_disk_letters (pos index))
      | none ↦ ""
    ]

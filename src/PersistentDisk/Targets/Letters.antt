-- ===== src/PersistentDisk/Targets/Letters.antt =====
-- The devices of pkg/csi/opennebula/persistentdisk.go: their letters are read back, and the next one
-- is free.
use Prim.Native.Char.{Char}
use storage_provider_openneb.Prelude.{
  ℕ, zero, suc, ◌+◌, ◌-◌, ◌*◌, ◌/◌, ◌%◌, ◌≤◌, ◌<◌, ◌≡◌, ◌==◌, refl, ap, ◌∙◌, String, str_eq, true,
  false, List, [], ◌∷◌, Option, none, some, some_elem, arith, inl, inr, ◌⊎◌, Bool-cases,
  Option-cases,
}
use storage_provider_openneb.Prelude.Int.{
  ℤ, pos, ◌*ℤ◌, ◌+ℤ◌, ◌-ℤ◌, wrap64, wrap64-Int64, eq_ℤ, eq_ℤ-iff, max_int64,
}
use storage_provider_openneb.Golang.Text.{trim_space, concat}
use storage_provider_openneb.Golang.Decimal.{chr, code-chr}
use storage_provider_openneb.Golang.Texts.{cut_prefix-concat, cons-empty}
use storage_provider_openneb.PersistentDisk.Targets.{
  letters_from, linux_disk_letters, read_letters, index_of, linux_disk_target_index, first_free,
  used_indices, target_prefix, keep_index, next_available_disk_target,
}

times-pos : (k : ℕ) → pos k *ℤ pos 26 ≡ pos (k * 26)
unfolding ◌*ℤ◌
times-pos k = ground arith

plus-pos : (a b : ℕ) → pos a +ℤ pos b ≡ pos (a + b)
unfolding ◌+ℤ◌
plus-pos a b = ground arith

step-value :
    (k d : ℕ)
    → k * 26 + d + 1 ≤ max_int64
    → wrap64 (wrap64 (pos k *ℤ pos 26) +ℤ pos (d + 1)) ≡ pos (k * 26 + d + 1)
step-value k d h =
    rw (times-pos k, wrap64-Int64 (pos (k * 26)) (omega arith), plus-pos (k * 26) (d + 1))
      (wrap64-Int64 (pos (k * 26 + (d + 1))) (omega arith) ∙ ap pos (omega arith))

read_letters-letter :
    (k d : ℕ) (rest : String)
    → d < 26
    → k * 26 + d + 1 ≤ max_int64
    → read_letters (pos k) (String.◌∷◌ (chr (b'a' + d)) rest)
      ≡ read_letters (pos (k * 26 + d + 1)) rest
unfolding read_letters
read_letters-letter k d rest h small = ground (arith, code-chr (b'a' + d), step-value k d)

read_letters-letters_from :
    (fuel i : ℕ) (rest : String)
    → i < fuel
    → i + 1 ≤ max_int64
    → read_letters (pos 0) (letters_from fuel i rest) ≡ read_letters (pos (i + 1)) rest
unfolding letters_from
read_letters-letters_from zero i rest h small = absurd (omega arith)
read_letters-letters_from (suc fuel) i rest h small = elim (Bool-cases (i / 26 == 0)) [
  | inl last ↦ rw last (
      read_letters-letter 0 (i % 26) rest (omega arith) (omega arith)
      ∙ ap (λ k. read_letters (pos k) rest) (ground arith))
  | inr more ↦ rw more (
      read_letters-letters_from fuel (i / 26 - 1) (String.◌∷◌ (chr (b'a' + i % 26)) rest)
        (ground arith) (omega arith)
      ∙ ap (λ k. read_letters (pos k) (String.◌∷◌ (chr (b'a' + i % 26)) rest)) (ground arith)
      ∙ read_letters-letter (i / 26) (i % 26) rest (omega arith) (omega arith)
      ∙ ap (λ k. read_letters (pos k) rest) (omega arith))
]

letters-cons :
    (fuel i : ℕ) (rest : String)
    → i < fuel
    → (c : Char) × (s : String) × (letters_from fuel i rest ≡ String.◌∷◌ c s)
unfolding letters_from
letters-cons zero i rest h = absurd (omega arith)
letters-cons (suc fuel) i rest h = elim (Bool-cases (i / 26 == 0)) [
  | inl last ↦ (chr (b'a' + i % 26), rest, rw last refl)
  | inr more ↦ rw more (letters-cons fuel (i / 26 - 1) _ (ground arith))
]

letters-empty : (i : ℕ) → str_eq (linux_disk_letters (pos i)) "" ≡ false
unfolding linux_disk_letters
letters-empty i =
    let (c, s, e) = letters-cons (suc i) i String.[] (omega arith) in rw e (cons-empty c s)

minus-one : (i : ℕ) → i + 1 ≤ max_int64 → wrap64 (pos (i + 1) -ℤ pos 1) ≡ pos i
unfolding ◌-ℤ◌
minus-one i h = ground (arith, wrap64-Int64 (pos i))

read-letters :
    (i : ℕ)
    → i + 1 ≤ max_int64
    → index_of (read_letters (pos 0) (linux_disk_letters (pos i))) ≡ some (pos i)
unfolding linux_disk_letters read_letters
read-letters i small =
    ap index_of (read_letters-letters_from (suc i) i String.[] (omega arith) small)
    ∙ ap some (minus-one i small)

-- The letters of an index are read back as the index, behind any prefix that is not empty.
pub target_index-letters :
    (prefix : String) (i : ℕ)
    → str_eq prefix "" ≡ false
    → i + 1 ≤ max_int64
    → linux_disk_target_index (concat prefix (linux_disk_letters (pos i))) prefix ≡ some (pos i)
unfolding linux_disk_target_index
target_index-letters prefix i p small =
    rw
      (
        linux_disk_target_index,
        p,
        cut_prefix-concat prefix (linux_disk_letters (pos i)),
        letters-empty i,
      )
      (read-letters i small)

first_free-unused :
    (count start : ℕ) (used : List ℤ) (i : ℕ)
    → first_free count start used ≡ some i
    → (some_elem (eq_ℤ (pos i)) used ≡ false) × (i < start + count)
unfolding first_free
first_free-unused zero start used i h = cc
first_free-unused (suc count) start used i h =
    elim (Bool-cases (some_elem (eq_ℤ (pos start)) used)) [
      | inl taken ↦
          let (free, bound) = first_free-unused count (suc start) used i (ground arith) in
          (free, omega arith)
      | inr free ↦ let e : start ≡ i = ground arith in (rw (← e) free, omega arith)
    ]

-- A device that some disk has.
abbrev pub Taken : String → List (Option String) → Type 0
Taken target [] = ⊥
Taken target (none ∷ ds) = Taken target ds
Taken target (some t ∷ ds) = (trim_space t ≡ target) ⊎ Taken target ds

Taken-index :
    (prefix target : String) (i : ℤ) (disks : List (Option String))
    → linux_disk_target_index target prefix ≡ some i
    → Taken target disks
    → some_elem (eq_ℤ i) (used_indices prefix disks) ≡ true
Taken-index prefix target i [] e t = elim t [ ]
Taken-index prefix target i (none ∷ ds) e t = Taken-index prefix target i ds e t
Taken-index prefix target i (some d ∷ ds) e (inl same) = rw (same, e) (ground (arith, eq_ℤ-iff i i))
Taken-index prefix target i (some d ∷ ds) e (inr t) =
    keep-index i (linux_disk_target_index (trim_space d) prefix) (used_indices prefix ds)
      (Taken-index prefix target i ds e t)
  where
    keep-index :
        (i : ℤ) (o : Option ℤ) (used : List ℤ)
        → some_elem (eq_ℤ i) used ≡ true
        → some_elem (eq_ℤ i) (keep_index o used) ≡ true
    keep-index i none used h = h
    keep-index i (some j) used h = ground arith

prefix-empty : (given : Option String) → str_eq (target_prefix given) "" ≡ false
prefix-empty none = refl
prefix-empty (some given) = elim (Bool-cases (str_eq (trim_space given) "")) [
  | inl blank ↦ rw (target_prefix, blank) refl
  | inr named ↦ rw (target_prefix, named) named
]

-- The device that is predicted for the next disk is the empty text, or no disk of the machine has it.
pub next_target-free :
    (disks : List (Option String)) (dev_prefix : Option String)
    → (next_available_disk_target disks dev_prefix ≡ "")
      ⊎ (Taken (next_available_disk_target disks dev_prefix) disks → ⊥)
unfolding next_available_disk_target
next_target-free disks dev_prefix =
    let prefix = target_prefix dev_prefix in
    elim (Option-cases (first_free 512 0 (used_indices prefix disks))) [
      | inl full ↦ inl (rw (next_available_disk_target, full) refl)
      | inr (i, e) ↦
          let (free, bound) = first_free-unused 512 0 (used_indices prefix disks) i e in
          let index = target_index-letters prefix i (prefix-empty dev_prefix) (omega arith) in
          inr (
            rw (next_available_disk_target, e)
              λ taken.
                let used =
                  Taken-index prefix (concat prefix (linux_disk_letters (pos i))) (pos i) disks
                    index taken in
                absurd (ground (arith, used, free)))
    ]

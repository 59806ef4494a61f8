-- ===== src/PersistentDisk/Sizes/Restore.antt =====
-- Sizes that an expansion writes and an attachment restores, of pkg/csi/opennebula/persistentdisk.go.
use storage_provider_openneb.Prelude.{
  ℕ, ◌+◌, ◌-◌, ap, ◌∙◌, ◌*◌, ◌/◌, ◌%◌, ◌≤◌, ◌<◌, ◌≡◌, refl, ◌==◌, String, true, false, ◌||◌, List,
  [], ◌∷◌, none, some, arith, inl, inr, Bool-cases, ◌⊎◌,
}
use storage_provider_openneb.Prelude.Int.{
  ℤ, pos, negsuc, leb_ℤ, ◌/ℤ◌, ◌*ℤ◌, ◌+ℤ◌, ◌≤ℤ◌, ◌<ℤ◌, wrap64, ltb_ℤ, wrap64-Int64, rem_ℤ, Int64,
  max_int64,
}
use storage_provider_openneb.Prelude.Keys.{lookup, string_key}
use storage_provider_openneb.Golang.Text.{trim_space}
use storage_provider_openneb.Golang.Decimal.{itoa, atoi-itoa}
use storage_provider_openneb.Golang.Texts.{trim_space-visible, itoa-IsVisible, itoa-empty}
use storage_provider_openneb.PersistentDisk.Provision.{size_conversion}
use storage_provider_openneb.PersistentDisk.Sizes.{
  Template, bytes_to_mib_round_up, effective_volume_size_bytes, scan_sizes,
  csi_requested_size_bytes, verify_csi_requested_size, csi_requested_size_pairs,
  attach_restore_resize_plan, volume_size, size_bytes_tag, size_mb_tag, expanded_by_tag,
  expanded_at_tag, expanded_by_value, verify_size, not_blank, positive,
}

-- The MiB that hold a size are as many as needed, and no more.
pub round_up_bounds :
    (n : ℕ)
    → (m : ℕ) × (bytes_to_mib_round_up (pos n) ≡ pos m)
      × (n ≤ m * 1048576)
      × (m * 1048576 < n + 1048576)
unfolding bytes_to_mib_round_up ◌/ℤ◌ rem_ℤ ◌+ℤ◌
round_up_bounds n = elim (Bool-cases (n % 1048576 == 0)) [
  | inl whole ↦ (n / 1048576, ground arith, ground arith, ground arith)
  | inr part ↦ (n / 1048576 + 1, ground arith, ground arith, ground arith)
]

mul_mib : (m : ℕ) → pos m *ℤ size_conversion ≡ pos (m * 1048576)
unfolding ◌*ℤ◌
mul_mib m = ground arith

whole_bytes :
    (m : ℕ) → m * 1048576 ≤ max_int64 → wrap64 (pos m *ℤ size_conversion) ≡ pos (m * 1048576)
whole_bytes m room = ap wrap64 (mul_mib m) ∙ wrap64-Int64 (pos (m * 1048576)) room

-- What is resized to, when a disk is smaller than the size asked for, which an int64 can hold in whole
-- MiB: the least number of MiB that hold the size. The disk's size in bytes is then read without
-- wrap-around, and nothing is left to restore. Otherwise nothing is done.
pub resize_plan_restores :
    (attached requested : ℤ)
    → requested ≤ℤ pos (max_int64 - 1048576)
    → ((attach_restore_resize_plan attached requested ≡ (false, pos 0))
        × ((requested ≤ℤ pos 0) ⊎ (requested ≤ℤ attached)))
      ⊎ ((m : ℕ) × (attach_restore_resize_plan attached requested ≡ (true, pos m))
          × (attached <ℤ requested)
          × (requested ≤ℤ pos (m * 1048576))
          × (pos ((m - 1) * 1048576) <ℤ requested)
          × (wrap64 (pos m *ℤ size_conversion) ≡ pos (m * 1048576))
          × (attach_restore_resize_plan (pos (m * 1048576)) requested ≡ (false, pos 0)))
unfolding attach_restore_resize_plan
resize_plan_restores attached (negsuc n) fits = inl (ground arith, inl (omega arith))
resize_plan_restores attached (pos n) fits =
    elim (Bool-cases (leb_ℤ (pos n) (pos 0) || leb_ℤ (pos n) attached)) [
      | inl enough ↦ inl (rw enough refl, ground arith)
      | inr small ↦
          let (m, e, low, high) = round_up_bounds n in
          let few : n ≤ max_int64 - 1048576 = omega (arith, fits) in
          let room : m * 1048576 ≤ max_int64 = omega (arith, high, few) in
          inr (
            m,
            rw (small, e) refl,
            ground arith,
            ground arith,
            ground arith,
            whole_bytes m room,
            ground arith,
          )
    ]

-- The client's template holds these pairs, and nothing else under the tags: `GetStr` gives the value
-- of a tag, and `GetStrs` all values of it.
pub record Reads (t : Template) (pairs : List (String × String)) : Type 0 where
  pub one : (tag value : String) → lookup tag pairs ≡ some value → t.get_str tag ≡ some value
  pub all : (tag value : String) → lookup tag pairs ≡ some value → t.get_strs tag ≡ value ∷ []

-- A number that Itoa wrote, as the code reads it back.
trim-itoa : (a : ℤ) → trim_space (itoa a) ≡ itoa a
trim-itoa a = trim_space-visible (itoa a) (itoa-IsVisible a)

itoa-not_blank : (a : ℤ) → not_blank (some (itoa a)) ≡ true
itoa-not_blank a = rw (trim-itoa a, itoa-empty a) refl

verify_size-itoa :
    (tag : String) (least a : ℤ)
    → Int64 a
    → least ≤ℤ a
    → verify_size tag least (some (itoa a)) ≡ none
verify_size-itoa tag least a h le =
    rw (verify_size, trim-itoa a, itoa-empty a, atoi-itoa a h) (ground arith)

mul_one : (n : ℕ) → pos n *ℤ pos 1 ≡ pos n
unfolding ◌*ℤ◌
mul_one n = ground arith

scan_sizes-itoa :
    (n : ℕ)
    → 0 < n
    → n ≤ max_int64
    → scan_sizes (pos 1) (pos 0) false (itoa (pos n) ∷ []) ≡ (pos n, false)
unfolding scan_sizes
scan_sizes-itoa n some_size small =
    rw (trim-itoa (pos n), itoa-empty (pos n), atoi-itoa (pos n) small, positive, leb_ℤ)
      (ground (arith, mul_one n, wrap64-Int64 (pos n) small))

module _ (n m : ℕ) (at : String) (t : Template) (some_size : 0 < n) (small : n ≤ max_int64)
    (small_mb : m ≤ max_int64) (dated : not_blank (some at) ≡ true)
    (reads : Reads t (csi_requested_size_pairs (pos n) (pos m) at)) where
  written-verified : verify_csi_requested_size t (pos n) (pos m) ≡ none
  unfolding verify_csi_requested_size csi_requested_size_pairs lookup
  written-verified =
      rw
        (
          reads.one size_bytes_tag (itoa (pos n)) refl,
          reads.one size_mb_tag (itoa (pos m)) refl,
          reads.one expanded_by_tag expanded_by_value refl,
          reads.one expanded_at_tag at refl,
          verify_size-itoa size_bytes_tag (pos n) (pos n) small (omega arith),
          verify_size-itoa size_mb_tag (pos m) (pos m) small_mb (omega arith),
          trim_space-visible expanded_by_value (omega arith),
          dated,
        )
        refl

  -- The size that an expansion asked for is read back.
  written-read : csi_requested_size_bytes t ≡ some (pos n)
  unfolding csi_requested_size_bytes csi_requested_size_pairs lookup
  written-read =
      rw (reads.all size_bytes_tag (itoa (pos n)) refl, scan_sizes-itoa n some_size small)
        (ground arith)

-- The greater size is one of the two, and neither is above it.
greater_size :
    (canonical requested : ℤ)
    → let size = effective_volume_size_bytes canonical requested in
      (canonical ≤ℤ size) × (requested ≤ℤ size) × ((size ≡ canonical) ⊎ (size ≡ requested))
unfolding effective_volume_size_bytes
greater_size canonical requested = elim (Bool-cases (ltb_ℤ canonical requested)) [
  | inl less ↦ rw less (ground arith, ground arith, inr refl)
  | inr least ↦ rw least (ground arith, ground arith, inl refl)
]

-- What an expansion writes into the template passes the check that follows, whatever the number of MiB,
-- and from then on the volume is found with a size that is the image's own or the one asked for, and
-- below neither.
pub persisted-volume_size :
    (n m : ℕ) (at : String) (t : Template) (image_mb : ℤ)
    → 0 < n
    → n ≤ max_int64
    → m ≤ max_int64
    → not_blank (some at) ≡ true
    → Reads t (csi_requested_size_pairs (pos n) (pos m) at)
    → let own = wrap64 (image_mb *ℤ pos 1048576) in
      (verify_csi_requested_size t (pos n) (pos m) ≡ none)
      × ((size : ℤ) × (volume_size image_mb t ≡ inr size)
          × (own ≤ℤ size)
          × (pos n ≤ℤ size)
          × ((size ≡ own) ⊎ (size ≡ pos n)))
unfolding volume_size
persisted-volume_size n m at t image_mb some_size small small_mb dated reads =
    let own = wrap64 (image_mb *ℤ size_conversion) in
    let (above_own, above_asked, one_of_both) = greater_size own (pos n) in
    (
      written-verified n m at t some_size small small_mb dated reads,
      (
        effective_volume_size_bytes own (pos n),
        rw (volume_size, written-read n m at t some_size small small_mb dated reads) (ground arith),
        above_own,
        above_asked,
        one_of_both,
      ),
    )

-- ===== src/PersistentDisk/Snapshots/Pages.antt =====
-- The identifiers and the pages of snapshots, of pkg/csi/opennebula/snapshot.go and persistentdisk.go.
use storage_provider_openneb.Prelude.{
  ℕ, zero, suc, ◌+◌, ◌-◌, ◌≤◌, ◌<◌, ◌≡◌, refl, sym, ap, ◌∙◌, String, str_eq, false, List, [], ◌∷◌,
  ◌++◌, Option, none, some, if◌then◌else◌, length, drop, ltb, ◌&&◌, ◌⊎◌, arith, inl, inr,
  Bool-cases,
}
use storage_provider_openneb.Prelude.Int.{ℤ, pos, Int64, pos_part, max_int64}
use storage_provider_openneb.Golang.Text.{trim_space, concat}
use storage_provider_openneb.Golang.Search.{cut_prefix}
use storage_provider_openneb.Golang.Decimal.{itoa, atoi-itoa}
use storage_provider_openneb.Golang.Texts.{
  AllCodes, AllCodes-concat, IsVisible, trim_space-visible, cut_prefix-concat, cut_on,
  cut_on-concat, itoa-IsVisible, itoa-Without, itoa-empty,
}
use storage_provider_openneb.PersistentDisk.Snapshots.{
  snapshot_id_prefix, encode_volume_snapshot_id, decode_volume_snapshot_id, id_pair, id_payload,
  VolumeSnapshot, list_failed, page_of, take_first, page_from, page,
}

encode-IsVisible : (a b : ℤ) → AllCodes IsVisible (encode_volume_snapshot_id a b)
unfolding encode_volume_snapshot_id
encode-IsVisible a b = AllCodes-concat IsVisible snapshot_id_prefix _ (omega arith) (
    AllCodes-concat IsVisible (itoa a) _ (itoa-IsVisible a)
      (AllCodes-concat IsVisible ":" (itoa b) (omega arith) (itoa-IsVisible b)))

-- DecodeVolumeSnapshotID reads back the image and the snapshot that EncodeVolumeSnapshotID wrote, for
-- all int64 numbers.
pub decode-encode :
    (a b : ℤ)
    → Int64 a
    → Int64 b
    → decode_volume_snapshot_id (encode_volume_snapshot_id a b) ≡ some (a, b)
unfolding decode_volume_snapshot_id encode_volume_snapshot_id cut_on concat
decode-encode a b ha hb =
    let payload = concat (itoa a) (concat ":" (itoa b)) in
    ap (λ t. id_payload (cut_prefix t snapshot_id_prefix))
      (trim_space-visible (encode_volume_snapshot_id a b) (encode-IsVisible a b))
    ∙ ap id_payload (cut_prefix-concat snapshot_id_prefix payload)
    ∙ ap id_pair (cut_on-concat b':' (itoa a) (itoa b) ":" (itoa-Without a) refl)
    ∙ rw (atoi-itoa a ha, atoi-itoa b hb) refl

take_first-drop {ℓ} : {A : Type ℓ} (n : ℕ) (xs : List A) → take_first n xs ++ drop n xs ≡ xs
unfolding take_first
take_first-drop zero xs = refl
take_first-drop (suc n) [] = refl
take_first-drop (suc n) (x ∷ xs) = ap (λ l. x ∷ l) (take_first-drop n xs)

drop-nil {ℓ} : {A : Type ℓ} (n : ℕ) → drop {A = A} n [] ≡ []
drop-nil zero = refl
drop-nil (suc n) = refl

drop-drop {ℓ} : {A : Type ℓ} (k n j : ℕ) (xs : List A) → k + n ≡ j → drop j xs ≡ drop n (drop k xs)
drop-drop zero n j xs e = ap (λ i. drop i xs) (omega arith)
drop-drop (suc k) n zero xs e = absurd (omega arith)
drop-drop (suc k) n (suc j) [] e = sym (drop-nil n)
drop-drop (suc k) n (suc j) (x ∷ xs) e = drop-drop k n j xs (omega arith)

-- The pages from a token on, one after another, as a client follows them. `none` if one fails, or if
-- there are more than `fuel`.
abbrev pub joined_pages :
    List VolumeSnapshot → Option (List VolumeSnapshot) → Option (List VolumeSnapshot)
joined_pages snapshots none = none
joined_pages snapshots (some more) = some (snapshots ++ more)

pub follow : ℕ → List VolumeSnapshot → ℤ → String → Option (List VolumeSnapshot)
follow zero snapshots most token = none
follow (suc fuel) snapshots most token = elim (page snapshots most token) [
  | list_failed e ↦ none
  | page_of got next ↦
      let rest = follow fuel snapshots most next in
      if str_eq next "" then some got else joined_pages got rest
]

page-itoa :
    (snapshots : List VolumeSnapshot) (most : ℤ) (k : ℕ)
    → k ≤ max_int64
    → page snapshots most (itoa (pos k)) ≡ page_from snapshots most k
unfolding page
page-itoa snapshots most k h =
    rw
      (
        trim_space-visible (itoa (pos k)) (itoa-IsVisible (pos k)),
        itoa-empty (pos k),
        atoi-itoa (pos k) h,
      )
      refl

page_from-cut :
    (snapshots : List VolumeSnapshot) (most : ℤ) (k : ℕ)
    → 0 < pos_part most
    → k + pos_part most < length snapshots
    → page_from snapshots most k
      ≡ page_of (take_first (pos_part most) (drop k snapshots)) (itoa (pos (k + pos_part most)))
page_from-cut snapshots most k some_limit cut = ground arith

page_from-last :
    (snapshots : List VolumeSnapshot) (most : ℤ) (k : ℕ)
    → k ≤ length snapshots
    → (pos_part most ≡ 0) ⊎ (length snapshots ≤ k + pos_part most)
    → page_from snapshots most k ≡ page_of (drop k snapshots) ""
page_from-last snapshots most k within last = ground arith

follow-last :
    (fuel : ℕ) (snapshots : List VolumeSnapshot) (most : ℤ) (token : String)
    (got : List VolumeSnapshot)
    → page snapshots most token ≡ page_of got ""
    → follow (suc fuel) snapshots most token ≡ some got
unfolding follow
follow-last fuel snapshots most token got e = rw (follow, e) refl

follow-more :
    (fuel : ℕ) (snapshots : List VolumeSnapshot) (most : ℤ) (token next : String)
    (got rest : List VolumeSnapshot)
    → page snapshots most token ≡ page_of got next
    → str_eq next "" ≡ false
    → follow fuel snapshots most next ≡ some rest
    → follow (suc fuel) snapshots most token ≡ some (got ++ rest)
unfolding follow
follow-more fuel snapshots most token next got rest e n f = rw (follow, e, n, f) refl

follow-page :
    (fuel : ℕ) (snapshots : List VolumeSnapshot) (most : ℤ) (token : String) (k : ℕ)
    → length snapshots ≤ max_int64
    → k ≤ length snapshots
    → length snapshots - k < fuel
    → page snapshots most token ≡ page_from snapshots most k
    → follow fuel snapshots most token ≡ some (drop k snapshots)
follow-page zero snapshots most token k small within more e = absurd (omega arith)
follow-page (suc fuel) snapshots most token k small within more e =
    let n = pos_part most in
    elim (Bool-cases (ltb 0 n && ltb (k + n) (length snapshots))) [
      | inl cut ↦
          let (some_limit, below) : (0 < n) × (k + n < length snapshots) = ground arith in
          let rest =
            follow-page fuel snapshots most (itoa (pos (k + n))) (k + n) small (omega arith)
              (omega arith) (page-itoa snapshots most (k + n) (omega arith)) in
          follow-more fuel snapshots most token (itoa (pos (k + n)))
            (take_first n (drop k snapshots)) (drop (k + n) snapshots)
            (e ∙ page_from-cut snapshots most k some_limit below) (itoa-empty (pos (k + n))) rest
          ∙ ap some (
              ap (λ l. take_first n (drop k snapshots) ++ l) (drop-drop k n (k + n) snapshots refl)
              ∙ take_first-drop n (drop k snapshots))
      | inr last ↦
          follow-last fuel snapshots most token (drop k snapshots)
            (e ∙ page_from-last snapshots most k within (ground arith))
    ]

-- A client that starts without a token and follows the tokens that ListSnapshots returns gets all
-- snapshots, in their order and each once, whatever number it asks for in a page, and in at most as
-- many pages as there are snapshots, and one.
pub follow-all :
    (snapshots : List VolumeSnapshot) (most : ℤ)
    → length snapshots ≤ max_int64
    → follow (suc (length snapshots)) snapshots most "" ≡ some snapshots
unfolding page trim_space
follow-all snapshots most small =
    follow-page (suc (length snapshots)) snapshots most "" 0 small (omega arith) (omega arith) refl

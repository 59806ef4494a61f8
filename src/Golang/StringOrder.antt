-- ===== src/Golang/StringOrder.antt =====
-- The order of Go's strings, and sort.Strings.
use mathlib.Core.Path.{ap₂}
use text.Mathlib.TextEquality.{codes_equal}
use storage_provider_openneb.Prelude.{
  ◌≡◌, refl, String, true, false, List, [], ◌∷◌, if◌then◌else◌, arith, Bool-cases, inl, inr, ◌≢◌,
  All,
}
use storage_provider_openneb.Golang.Text.{str_lt}

pub str_lt_irrefl : (a : String) → str_lt a a ≡ false
unfolding str_lt
str_lt_irrefl String.[] = refl
str_lt_irrefl (String.◌∷◌ c s) = ground (arith, str_lt_irrefl s)

pub str_lt_trans : (a b c : String) → str_lt a b ≡ true → str_lt b c ≡ true → str_lt a c ≡ true
unfolding str_lt
str_lt_trans a String.[] String.[] p q = cc
str_lt_trans String.[] String.[] (String.◌∷◌ c s) p q = refl
str_lt_trans String.[] (String.◌∷◌ d t) (String.◌∷◌ c s) p q = refl
str_lt_trans (String.◌∷◌ d t) String.[] c p q = cc
str_lt_trans a (String.◌∷◌ d t) String.[] p q = cc
str_lt_trans (String.◌∷◌ a r) (String.◌∷◌ b s) (String.◌∷◌ c t) p q =
    ground (arith, str_lt_trans r s t)

pub str_lt_total : (a b : String) → str_lt a b ≡ false → str_lt b a ≡ false → a ≡ b
unfolding str_lt
str_lt_total String.[] String.[] p q = refl
str_lt_total String.[] (String.◌∷◌ d t) p q = cc
str_lt_total (String.◌∷◌ d t) String.[] p q = cc
str_lt_total (String.◌∷◌ c s) (String.◌∷◌ d t) p q =
    ap₂ (λ a b. String.◌∷◌ a b) (codes_equal c d (ground arith))
      (str_lt_total s t (ground arith) (ground arith))

-- `sort.Strings`
abbrev pub place : String → List String → List String
place k [] = k ∷ []
place k (j ∷ js) = if str_lt j k then j ∷ place k js else k ∷ j ∷ js

unfoldable pub sort_strings : List String → List String
sort_strings [] = []
sort_strings (k ∷ ks) = place k (sort_strings ks)

-- In strictly ascending order.
abbrev pub Ascending : List String → Type 0
Ascending [] = Unit
Ascending (k ∷ []) = Unit
Ascending (k ∷ j ∷ js) = (str_lt k j ≡ true) × Ascending (j ∷ js)

abbrev pub Differs : String → List String → Type 0
Differs k ks = All (λ j. k ≢ j) ks

abbrev pub AllDiffer : List String → Type 0
AllDiffer [] = Unit
AllDiffer (k ∷ ks) = Differs k ks × AllDiffer ks

All-place {κ} :
    (P : String → Type κ) (k : String) (ks : List String) → P k → All P ks → All P (place k ks)
All-place P k [] p h = (p, h)
All-place P k (j ∷ js) p h = elim (Bool-cases (str_lt j k)) [
  | inl lt ↦ rw lt (h.0, All-place P k js p h.1)
  | inr ge ↦ rw ge (p, h)
]

All-sort {κ} : (P : String → Type κ) (ks : List String) → All P ks → All P (sort_strings ks)
unfolding sort_strings
All-sort P [] h = h
All-sort P (k ∷ ks) h = All-place P k (sort_strings ks) h.0 (All-sort P ks h.1)

Ascending-under :
    (j k : String) (ks : List String)
    → str_lt j k ≡ true
    → Ascending (j ∷ ks)
    → Ascending (place k ks)
    → Ascending (j ∷ place k ks)
Ascending-under j k [] lt h a = (lt, tt)
Ascending-under j k (i ∷ is) lt h a = elim (Bool-cases (str_lt i k)) [
  | inl more ↦ rw more (h.0, ground (arith, a))
  | inr stop ↦ rw stop (lt, ground (arith, a))
]

pub Ascending-tail : (k : String) (ks : List String) → Ascending (k ∷ ks) → Ascending ks
Ascending-tail k [] h = tt
Ascending-tail k (j ∷ js) h = h.1

Ascending-place :
    (k : String) (ks : List String) → Differs k ks → Ascending ks → Ascending (place k ks)
Ascending-place k [] d h = tt
Ascending-place k (j ∷ js) d h = elim (Bool-cases (str_lt j k)) [
  | inl lt ↦ rw lt (Ascending-under j k js lt h (Ascending-place k js d.1 (Ascending-tail j js h)))
  | inr ge ↦ elim (Bool-cases (str_lt k j)) [
    | inl lt ↦ rw ge (lt, h)
    | inr gt ↦ absurd (d.0 (str_lt_total k j gt ge))
  ]
]

-- Texts that all differ are in strictly ascending order once sorted.
pub Ascending-sort : (ks : List String) → AllDiffer ks → Ascending (sort_strings ks)
unfolding sort_strings
Ascending-sort [] h = tt
Ascending-sort (k ∷ ks) h =
    Ascending-place k (sort_strings ks) (All-sort (λ j. k ≢ j) ks h.0) (Ascending-sort ks h.1)

-- ===== src/Golang/Texts.antt =====
-- Texts whose characters all have a property, and their parts.
use Prim.Native.Char.{Char, code}
use storage_provider_openneb.Prelude.{
  ℕ, zero, suc, ◌+◌, ◌≤◌, ◌/◌, ◌%◌, ◌≡◌, refl, inl, inr, Bool-cases, String, false, ◌==◌, str_eq,
  eq_iff, ltb, if◌then◌else◌, Option, none, some, arith,
}
use storage_provider_openneb.Prelude.Int.{ℤ, pos, negsuc}
use storage_provider_openneb.Golang.Text.{
  is_space, trim_space, trim_left, trim_right, concat, Without,
}
use storage_provider_openneb.Golang.Search.{cut_prefix}
use storage_provider_openneb.Golang.Decimal.{itoa, digits, digits-first, chr, code-chr}

abbrev pub AllCodes : (ℕ → Type 0) → String → Type 0
AllCodes P String.[] = Unit
AllCodes P (String.◌∷◌ c s) = P (code c) × AllCodes P s

pub AllCodes-concat :
    (P : ℕ → Type 0) (s t : String) → AllCodes P s → AllCodes P t → AllCodes P (concat s t)
unfolding concat
AllCodes-concat P String.[] t h g = g
AllCodes-concat P (String.◌∷◌ c s) t h g = (h.0, AllCodes-concat P s t h.1 g)

pub AllCodes-weaken :
    (P Q : ℕ → Type 0) → ((n : ℕ) → P n → Q n) → (s : String) → AllCodes P s → AllCodes Q s
AllCodes-weaken P Q f String.[] h = tt
AllCodes-weaken P Q f (String.◌∷◌ c s) h = (f (code c) h.0, AllCodes-weaken P Q f s h.1)

-- A visible ASCII character.
abbrev pub IsVisible : ℕ → Type 0
IsVisible n = (33 ≤ n) × (n ≤ 126)

visible-space : (c : Char) → IsVisible (code c) → is_space c ≡ false
unfolding is_space
visible-space c h = ground arith

keep-trim :
    (c : Char) (s : String)
    → is_space c ≡ false
    → trim_right s ≡ s
    → trim_right (String.◌∷◌ c s) ≡ String.◌∷◌ c s
unfolding trim_right
keep-trim c String.[] h e = rw h refl
keep-trim c (String.◌∷◌ d s) h e = rw e refl

trim_right-visible : (s : String) → AllCodes IsVisible s → trim_right s ≡ s
unfolding trim_right
trim_right-visible String.[] h = refl
trim_right-visible (String.◌∷◌ c s) h =
    keep-trim c s (visible-space c h.0) (trim_right-visible s h.1)

-- A text of visible characters is trimmed already.
pub trim_space-visible : (s : String) → AllCodes IsVisible s → trim_space s ≡ s
unfolding trim_space trim_left
trim_space-visible String.[] h = trim_right-visible String.[] h
trim_space-visible (String.◌∷◌ c s) h =
    rw (visible-space c h.0) (trim_right-visible (String.◌∷◌ c s) h)

pub cut_prefix-concat : (p s : String) → cut_prefix (concat p s) p ≡ some s
unfolding cut_prefix concat
cut_prefix-concat String.[] s = refl
cut_prefix-concat (String.◌∷◌ c p) s = ground (arith, cut_prefix-concat p s)

-- `strings.Cut` at the first character with this code.
unfoldable pub cut_on : ℕ → String → Option (String × String)
cut_on sep String.[] = none
cut_on sep (String.◌∷◌ c s) =
    let rest = cut_on sep s in
    if code c == sep
    then some (String.[], s)
    else elim rest [ none ↦ none | some (before, after) ↦ some (String.◌∷◌ c before, after) ]

pub cut_on-concat :
    (sep : ℕ) (s t : String) (d : Char)
    → Without sep s
    → code d ≡ sep
    → cut_on sep (concat s (String.◌∷◌ d t)) ≡ some (s, t)
unfolding cut_on concat
cut_on-concat sep String.[] t d h e = ground arith
cut_on-concat sep (String.◌∷◌ c s) t d h e = ground (arith, cut_on-concat sep s t d h.1 e)

-- The characters of a number: digits and a sign.
abbrev pub IsNumeral : ℕ → Type 0
IsNumeral n = (45 ≤ n) × (n ≤ 57)

digits-IsNumeral :
    (fuel n : ℕ) (rest : String) → AllCodes IsNumeral rest → AllCodes IsNumeral (digits fuel n rest)
unfolding digits
digits-IsNumeral zero n rest h = h
digits-IsNumeral (suc fuel) n rest h = elim (Bool-cases (ltb n 10)) [
  | inl small ↦ rw small (ground (arith, code-chr (48 + n)), h)
  | inr big ↦ rw big (
      digits-IsNumeral fuel (n / 10) (String.◌∷◌ (chr (48 + n % 10)) rest)
        (ground (arith, code-chr (48 + n % 10)), h))
]

pub itoa-IsNumeral : (a : ℤ) → AllCodes IsNumeral (itoa a)
unfolding itoa
itoa-IsNumeral (pos n) = digits-IsNumeral (suc n) n String.[] tt
itoa-IsNumeral (negsuc n) =
    (ground (arith, code-chr 45), digits-IsNumeral (suc (suc n)) (suc n) String.[] tt)

pub itoa-IsVisible : (a : ℤ) → AllCodes IsVisible (itoa a)
itoa-IsVisible a =
    AllCodes-weaken IsNumeral IsVisible (λ n h. omega arith) (itoa a) (itoa-IsNumeral a)

numeral-Without : (s : String) → AllCodes IsNumeral s → Without 58 s
numeral-Without String.[] h = tt
numeral-Without (String.◌∷◌ c s) h = (λ e. omega arith, numeral-Without s h.1)

-- No colon stands in a number.
pub itoa-Without : (a : ℤ) → Without 58 (itoa a)
itoa-Without a = numeral-Without (itoa a) (itoa-IsNumeral a)

pub cons-empty : (c : Char) (s : String) → str_eq (String.◌∷◌ c s) "" ≡ false
cons-empty c s = elim (Bool-cases (str_eq (String.◌∷◌ c s) "")) [
  | inl same ↦ let e = (eq_iff (String.◌∷◌ c s) "").0 same in absurd cc
  | inr other ↦ other
]

-- A number is not written as the empty text.
pub itoa-empty : (a : ℤ) → str_eq (itoa a) "" ≡ false
unfolding itoa
itoa-empty (pos n) =
    let (c, s, e, d) = digits-first (suc n) n String.[] (omega arith) in rw e (cons-empty c s)
itoa-empty (negsuc n) = cons-empty (chr b'-') (digits (suc (suc n)) (suc n) String.[])

-- ===== src/Golang/Decimal.antt =====
-- Decimal numbers, of package strconv: what Itoa writes, Atoi reads.
use Prim.Native.Char.{Char, code, char, nul, IsScalar}
use native.Mathlib.Decide.{dec_lt}
use mathlib.Core.Logic.{dite}
use storage_provider_openneb.Prelude.{
  ℕ, zero, suc, ◌+◌, ◌*◌, ◌/◌, ◌%◌, ◌≤◌, ◌<◌, ◌≡◌, refl, sym, ap, ◌∙◌, inl, inr, Bool-cases, String,
  ltb, if◌then◌else◌, some, arith,
}
use storage_provider_openneb.Prelude.Int.{ℤ, pos, negsuc, Int64}
use storage_provider_openneb.Golang.Cases.{digits_from, unsigned, in_range, atoi}

scalar : (n : ℕ) → n < 55296 → IsScalar n
scalar n h = ground arith

-- `rune(n)`, for a number below the surrogates.
unfoldable pub chr : ℕ → Char
unfolding dec_lt scalar
chr n = dite (dec_lt n 55296) (λ h. char n (scalar n h)) (λ h. nul)

pub code-chr : (n : ℕ) → n < 55296 → code (chr n) ≡ n
unfolding chr
code-chr n h =
    elim (dec_lt n 55296) as (λ d. code (dite d (λ h. char n (scalar n h)) (λ h. nul)) ≡ n) [
      | yes p ↦ refl
      | no q ↦ absurd (q h)
    ]

-- The digits of a number before a text; `fuel` is above the number.
unfoldable pub digits : ℕ → ℕ → String → String
digits zero n rest = rest
digits (suc fuel) n rest =
    let more = digits fuel (n / 10) (String.◌∷◌ (chr (b'0' + n % 10)) rest) in
    if ltb n 10 then String.◌∷◌ (chr (b'0' + n)) rest else more

-- `strconv.Itoa`
unfoldable pub itoa : ℤ → String
itoa (pos n) = digits (suc n) n String.[]
itoa (negsuc n) = String.◌∷◌ (chr b'-') (digits (suc (suc n)) (suc n) String.[])

digits_from-digit :
    (k n : ℕ) (rest : String)
    → n < 10
    → digits_from k (String.◌∷◌ (chr (b'0' + n)) rest) ≡ digits_from (k * 10 + n) rest
unfolding digits_from
digits_from-digit k n rest h = ground (arith, code-chr (b'0' + n))

digits_from-digits :
    (fuel n : ℕ) (rest : String)
    → n < fuel
    → digits_from 0 (digits fuel n rest) ≡ digits_from n rest
unfolding digits
digits_from-digits zero n rest h = absurd (omega arith)
digits_from-digits (suc fuel) n rest h = elim (Bool-cases (ltb n 10)) [
  | inl small ↦
      rw small
        (digits_from-digit 0 n rest (ground arith) ∙ ap (λ k. digits_from k rest) (omega arith))
  | inr big ↦ rw big (
      digits_from-digits fuel (n / 10) (String.◌∷◌ (chr (b'0' + n % 10)) rest) (ground arith)
      ∙ digits_from-digit (n / 10) (n % 10) rest (omega arith)
      ∙ ap (λ k. digits_from k rest) (omega arith))
]

-- The first digit.
pub digits-first :
    (fuel n : ℕ) (rest : String)
    → n < fuel
    → (c : Char) × (s : String) × (digits fuel n rest ≡ String.◌∷◌ c s) × (b'0' ≤ code c)
unfolding digits
digits-first zero n rest h = absurd (omega arith)
digits-first (suc fuel) n rest h = elim (Bool-cases (ltb n 10)) [
  | inl small ↦ (chr (b'0' + n), rest, rw small refl, ground (arith, code-chr (b'0' + n)))
  | inr big ↦ rw big (digits-first fuel (n / 10) _ (ground arith))
]

unsigned-digits : (fuel n : ℕ) → n < fuel → unsigned (digits fuel n String.[]) ≡ some n
unfolding unsigned
unsigned-digits fuel n h =
    let (c, s, e, d) = digits-first fuel n String.[] h in
    let read : unsigned (String.◌∷◌ c s) ≡ digits_from 0 (digits fuel n String.[]) = rw e refl in
    rw e (read ∙ digits_from-digits fuel n String.[] h)

-- Atoi reads back what Itoa writes for an int64.
pub atoi-itoa : (a : ℤ) → Int64 a → atoi (itoa a) ≡ some a
unfolding atoi itoa in_range
atoi-itoa (pos n) h =
    let (c, s, e, d) = digits-first (suc n) n String.[] (omega arith) in
    let read : unsigned (String.◌∷◌ c s) ≡ some n =
      ap unsigned (sym e) ∙ unsigned-digits (suc n) n (omega arith) in
    rw e (ground (arith, read, in_range))
atoi-itoa (negsuc n) h = ground (arith, code-chr b'-', unsigned-digits (suc (suc n)) (suc n))

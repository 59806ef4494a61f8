-- ===== src/Golang/Cases.antt =====
-- The letters of package strings and the numbers of package strconv. Of the letters beyond ASCII those
-- are changed that become an ASCII letter.
use Prim.Native.Char.{Char, code}
use storage_provider_openneb.Prelude.{
  ℕ, ◌+◌, ◌*◌, ◌-◌, ◌≡◌, refl, String, str_eq, Bool, true, ◌&&◌, leb, ◌==◌, if◌then◌else◌, List, [],
  ◌∷◌, Option, none, some, or_else,
}
use storage_provider_openneb.Prelude.Int.{ℤ, pos, negsuc, sub_ℕ, max_int64}
use storage_provider_openneb.Prelude.Keys.{lookup, nat_key}

abbrev pairs : String → String → List (ℕ × Char)
pairs String.[] t = []
pairs (String.◌∷◌ c s) String.[] = []
pairs (String.◌∷◌ c s) (String.◌∷◌ d t) = (code c, d) ∷ pairs s t

replace_chars : List (ℕ × Char) → String → String
replace_chars table String.[] = String.[]
replace_chars table (String.◌∷◌ c s) =
    String.◌∷◌ (or_else (lookup (code c) table) c) (replace_chars table s)

-- `strings.ToLower`
unfoldable pub to_lower : String → String
unfolding replace_chars lookup
to_lower s = replace_chars (pairs "ABCDEFGHIJKLMNOPQRSTUVWXYZKİ" "abcdefghijklmnopqrstuvwxyzki") s

-- `strings.ToUpper`
unfoldable pub to_upper : String → String
unfolding replace_chars lookup
to_upper s = replace_chars (pairs "abcdefghijklmnopqrstuvwxyzıſ" "ABCDEFGHIJKLMNOPQRSTUVWXYZIS") s

-- One spelling of each text that `strings.EqualFold` takes for equal.
fold_case : String → String
unfolding replace_chars lookup
fold_case s = replace_chars (pairs "ABCDEFGHIJKLMNOPQRSTUVWXYZKſ" "abcdefghijklmnopqrstuvwxyzks") s

unfoldable pub equal_fold : String → String → Bool
unfolding fold_case
equal_fold a b = str_eq (fold_case a) (fold_case b)

-- The number of a text of digits behind a number; none if another character stands there.
unfoldable pub digits_from : ℕ → String → Option ℕ
digits_from n String.[] = some n
digits_from n (String.◌∷◌ c s) =
    let more = digits_from (n * 10 + (code c - b'0')) s in
    if leb b'0' (code c) && leb (code c) b'9' then more else none

unfoldable pub unsigned : String → Option ℕ
unfolding digits_from
unsigned String.[] = none
unsigned (String.◌∷◌ c s) = digits_from 0 (String.◌∷◌ c s)

unfoldable pub in_range : Option ℕ → ℕ → (ℕ → ℤ) → Option ℤ
in_range none most f = none
in_range (some n) most f = if leb n most then some (f n) else none

-- `strconv.Atoi`, whose error is `none`.
unfoldable pub atoi : String → Option ℤ
unfolding unsigned in_range
atoi String.[] = none
atoi (String.◌∷◌ c s) =
    if code c == b'-'
    then in_range (unsigned s) (max_int64 + 1) (sub_ℕ 0)
    else (if code c == b'+'
        then in_range (unsigned s) max_int64 pos
        else in_range (unsigned (String.◌∷◌ c s)) max_int64 pos)

atoi_examples : atoi "-102" ≡ some (negsuc 101)
unfolding atoi
atoi_examples = refl

fold_example : equal_fold "Default" "dEFAULT" ≡ true
unfolding equal_fold
fold_example = refl

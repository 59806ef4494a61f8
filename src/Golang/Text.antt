-- ===== src/Golang/Text.antt =====
-- Package strings. A string is its sequence of code points (valid UTF-8).
use Prim.Native.Char.{Char, code}
use mathlib.Core.Path.{ap₂}
use text.Mathlib.TextEquality.{codes_equal}
use storage_provider_openneb.Prelude.{
  ℕ, ◌≡◌, refl, sym, ap, ◌∙◌, inl, inr, Bool-cases, ◌≢◌, List, [], ◌∷◌, String, Bool, true, false,
  ◌||◌, ◌&&◌, leb, ltb, ◌==◌, if◌then◌else◌, arith,
}

-- `unicode.IsSpace`
unfoldable pub is_space : Char → Bool
is_space c =
    let n = code c in
    (leb 9 n && leb n 13)
    || n == 32
    || n == 0x85
    || n == 0xa0
    || n == 0x1680
    || (leb 0x2000 n && leb n 0x200a)
    || n == 0x2028
    || n == 0x2029
    || n == 0x202f
    || n == 0x205f
    || n == 0x3000

unfoldable pub trim_left : String → String
trim_left String.[] = String.[]
trim_left (String.◌∷◌ c s) = if is_space c then trim_left s else String.◌∷◌ c s

-- Drops the spaces at the end: a space is kept if something is kept behind it.
abbrev pub keep_before : Char → String → String
keep_before c String.[] = if is_space c then String.[] else String.◌∷◌ c String.[]
keep_before c (String.◌∷◌ d s) = String.◌∷◌ c (String.◌∷◌ d s)

unfoldable pub trim_right : String → String
trim_right String.[] = String.[]
trim_right (String.◌∷◌ c s) = keep_before c (trim_right s)

-- `strings.TrimSpace`
unfoldable pub trim_space : String → String
unfolding trim_left trim_right is_space
trim_space s = trim_right (trim_left s)

trim_example : trim_space " a b  " ≡ "a b"
unfolding trim_space
trim_example = refl

-- No space stands first.
abbrev NoLead : String → Type 0
NoLead String.[] = Unit {0}
NoLead (String.◌∷◌ c s) = is_space c ≡ false

NoLead-trim_left : (s : String) → NoLead (trim_left s)
unfolding trim_left
NoLead-trim_left String.[] = tt
NoLead-trim_left (String.◌∷◌ c s) = elim (Bool-cases (is_space c)) [
  | inl space ↦ rw (space, trim_left) (NoLead-trim_left s)
  | inr other ↦ rw (other, trim_left) other
]

keep-NoLead : (c : Char) (t : String) → is_space c ≡ false → NoLead (keep_before c t)
keep-NoLead c String.[] h = rw h h
keep-NoLead c (String.◌∷◌ d t) h = h

NoLead-trim_right : (s : String) → NoLead s → NoLead (trim_right s)
unfolding trim_right
NoLead-trim_right String.[] h = tt
NoLead-trim_right (String.◌∷◌ c s) h = keep-NoLead c (trim_right s) h

trim_left-NoLead : (s : String) → NoLead s → trim_left s ≡ s
unfolding trim_left
trim_left-NoLead String.[] h = refl
trim_left-NoLead (String.◌∷◌ c s) h = rw h

trim_right-keep :
    (c : Char) (t : String) → trim_right t ≡ t → trim_right (keep_before c t) ≡ keep_before c t
unfolding trim_right
trim_right-keep c String.[] h = elim (Bool-cases (is_space c)) [
  | inl space ↦ rw space refl
  | inr other ↦ rw other (rw other refl)
]
trim_right-keep c (String.◌∷◌ d t) h = rw h refl

trim_right_idem : (s : String) → trim_right (trim_right s) ≡ trim_right s
unfolding trim_right
trim_right_idem String.[] = refl
trim_right_idem (String.◌∷◌ c s) = trim_right-keep c (trim_right s) (trim_right_idem s)

-- `strings.TrimSpace` of a trimmed text is that text.
pub trim_space_idem : (s : String) → trim_space (trim_space s) ≡ trim_space s
unfolding trim_space
trim_space_idem s =
    ap trim_right (
      trim_left-NoLead (trim_right (trim_left s))
        (NoLead-trim_right (trim_left s) (NoLead-trim_left s)))
    ∙ trim_right_idem (trim_left s)

-- `a < b` on strings: the order of the bytes, which for UTF-8 is the order of the code points.
unfoldable pub str_lt : String → String → Bool
str_lt String.[] String.[] = false
str_lt String.[] (String.◌∷◌ d t) = true
str_lt (String.◌∷◌ c s) String.[] = false
str_lt (String.◌∷◌ c s) (String.◌∷◌ d t) =
    if ltb (code c) (code d) then true else (if ltb (code d) (code c) then false else str_lt s t)

pub str_lt_asymm : (a b : String) → str_lt a b ≡ true → str_lt b a ≡ false
unfolding str_lt
str_lt_asymm String.[] String.[] h = refl
str_lt_asymm String.[] (String.◌∷◌ d t) h = refl
str_lt_asymm (String.◌∷◌ c s) String.[] h = cc
str_lt_asymm (String.◌∷◌ c s) (String.◌∷◌ d t) h = ground (arith, str_lt_asymm s t)

-- `a + b`
unfoldable pub concat : String → String → String
concat String.[] t = t
concat (String.◌∷◌ c s) t = String.◌∷◌ c (concat s t)

abbrev pub cons_head : Char → List String → List String
cons_head c [] = String.◌∷◌ c String.[] ∷ []
cons_head c (p ∷ ps) = String.◌∷◌ c p ∷ ps

-- The parts between the characters with this code, which is that of an ASCII character.
unfoldable pub split_on : ℕ → String → List String
split_on sep String.[] = String.[] ∷ []
split_on sep (String.◌∷◌ c s) =
    let parts = split_on sep s in if code c == sep then String.[] ∷ parts else cons_head c parts

-- No character of the text has this code.
abbrev pub Without : ℕ → String → Type 0
Without sep String.[] = Unit {0}
Without sep (String.◌∷◌ c s) = (code c ≢ sep) × Without sep s

pub split_on-part :
    (sep : ℕ) (s t : String) (d : Char)
    → Without sep s
    → code d ≡ sep
    → split_on sep (concat s (String.◌∷◌ d t)) ≡ s ∷ split_on sep t
unfolding split_on concat
split_on-part sep String.[] t d h e = ground arith
split_on-part sep (String.◌∷◌ c s) t d h e = ground (arith, split_on-part sep s t d h.1 e)

pub split_on-last : (sep : ℕ) (s : String) → Without sep s → split_on sep s ≡ s ∷ []
unfolding split_on
split_on-last sep String.[] h = refl
split_on-last sep (String.◌∷◌ c s) h = ground (arith, split_on-last sep s h.1)

-- The parts with the separator between them.
abbrev pub joined : Char → List String → String
joined d [] = String.[]
joined d (p ∷ []) = p
joined d (p ∷ q ∷ ps) = concat p (String.◌∷◌ d (joined d (q ∷ ps)))

joined-cons_head :
    (d c : Char) (ps : List String)
    → ps ≢ []
    → joined d (cons_head c ps) ≡ String.◌∷◌ c (joined d ps)
unfolding concat
joined-cons_head d c [] h = absurd (h refl)
joined-cons_head d c (p ∷ []) h = refl
joined-cons_head d c (p ∷ q ∷ ps) h = refl

split_on-cons :
    (sep : ℕ) (s : String) → (p : String) × (ps : List String) × (split_on sep s ≡ p ∷ ps)
unfolding split_on
split_on-cons sep String.[] = (String.[], [], refl)
split_on-cons sep (String.◌∷◌ c s) = elim (Bool-cases (code c == sep)) [
  | inl here ↦ (String.[], split_on sep s, rw here)
  | inr other ↦
      let (p, ps, e) = split_on-cons sep s in (String.◌∷◌ c p, ps, rw other (ap (cons_head c) e))
]

pub joined-split_on :
    (sep : ℕ) (d : Char) (s : String) → code d ≡ sep → joined d (split_on sep s) ≡ s
unfolding split_on concat
joined-split_on sep d String.[] e = refl
joined-split_on sep d (String.◌∷◌ c s) e =
    let (p, ps, made) = split_on-cons sep s in
    let back : joined d (p ∷ ps) ≡ s = ap (joined d) (sym made) ∙ joined-split_on sep d s e in
    elim (Bool-cases (code c == sep)) [
      | inl here ↦ rw (here, made) (ap₂ String.◌∷◌ (codes_equal d c (ground arith)) back)
      | inr other ↦
          rw (other, made) (joined-cons_head d c (p ∷ ps) (λ h. cc) ∙ ap (String.◌∷◌ c) back)
    ]

-- `strings.Fields` of the text with each `,` and `;` replaced by a space: the words between them.
-- `word` is the word read so far, last character first.
abbrev reversed : String → String → String
reversed String.[] t = t
reversed (String.◌∷◌ c s) t = reversed s (String.◌∷◌ c t)

abbrev flush : String → List String → List String
flush String.[] ws = ws
flush (String.◌∷◌ c s) ws = reversed (String.◌∷◌ c s) String.[] ∷ ws

fields_from : String → String → List String
unfolding is_space
fields_from word String.[] = flush word []
fields_from word (String.◌∷◌ c s) =
    let gap = is_space c || code c == b',' || code c == b';' in
    let rest = fields_from String.[] s in
    let more = fields_from (String.◌∷◌ c word) s in if gap then flush word rest else more

unfoldable pub fields : String → List String
unfolding fields_from
fields s = fields_from String.[] s

fields_example : fields " a,b; cd " ≡ "a" ∷ "b" ∷ "cd" ∷ []
unfolding fields
fields_example = refl

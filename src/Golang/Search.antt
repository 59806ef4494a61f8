-- ===== src/Golang/Search.antt =====
-- Prefixes and parts of a text, of package strings.
use Prim.Native.Char.{code}
use storage_provider_openneb.Prelude.{
  ◌≡◌, refl, String, Bool, true, false, ◌||◌, ◌==◌, if◌then◌else◌, Option, none, some, List, [],
  ◌∷◌,
}

-- `strings.CutPrefix`: what follows the prefix.
unfoldable pub cut_prefix : String → String → Option String
cut_prefix s String.[] = some s
cut_prefix String.[] (String.◌∷◌ d t) = none
cut_prefix (String.◌∷◌ c s) (String.◌∷◌ d t) =
    let rest = cut_prefix s t in if code c == code d then rest else none

abbrev pub has_prefix : String → String → Bool
has_prefix s t = elim (cut_prefix s t) [ none ↦ false | some r ↦ true ]

-- `strings.Contains`
unfoldable pub contains : String → String → Bool
contains String.[] t = has_prefix String.[] t
contains (String.◌∷◌ c s) t = has_prefix (String.◌∷◌ c s) t || contains s t

-- The text contains one of the parts.
abbrev pub contains_any : String → List String → Bool
contains_any s [] = false
contains_any s (t ∷ ts) = contains s t || contains_any s ts

contains_example : contains "no space left on device" "space left" ≡ true
unfolding contains cut_prefix
contains_example = refl

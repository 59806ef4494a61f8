-- ===== src/AdaptiveTimeout/Keys.antt =====
-- The text form of an observation key in pkg/csi/opennebula/adaptive_timeout.go.
use Prim.Native.Char.{Char}
use storage_provider_openneb.Prelude.{
  ◌≡◌, refl, sym, some-eq, ap, ◌∙◌, String, List, [], ◌∷◌, Option, none, some,
}
use storage_provider_openneb.Golang.Text.{
  concat, split_on, Without, split_on-part, split_on-last, joined, joined-split_on,
}
use storage_provider_openneb.AdaptiveTimeout.{ObservationKey}

abbrev bar : Char
bar = "|"

-- `String`
unfoldable pub key_text : ObservationKey → String
key_text k = concat k.operation (String.◌∷◌ bar (concat k.backend (String.◌∷◌ bar k.size_bucket)))

abbrev of_parts : List String → Option ObservationKey
of_parts [] = none
of_parts (a ∷ []) = none
of_parts (a ∷ b ∷ []) = none
of_parts (a ∷ b ∷ c ∷ []) = some (record { operation = a; backend = b; size_bucket = c })
of_parts (a ∷ b ∷ c ∷ d ∷ rest) = none

-- `ParseHotplugObservationKey`, whose error is `none`.
unfoldable pub parse_observation_key : String → Option ObservationKey
parse_observation_key raw = of_parts (split_on b'|' raw)

-- A key none of whose parts has a `|` is read back from its text.
pub parse-key_text :
    (k : ObservationKey)
    → Without b'|' k.operation
    → Without b'|' k.backend
    → Without b'|' k.size_bucket
    → parse_observation_key (key_text k) ≡ some k
unfolding parse_observation_key key_text
parse-key_text k ho hb hs = rw (
  split_on-part b'|' k.operation _ bar ho refl,
  split_on-part b'|' k.backend _ bar hb refl,
  split_on-last b'|' k.size_bucket hs,
)

key_text-of_parts :
    (parts : List String) (k : ObservationKey)
    → of_parts parts ≡ some k
    → key_text k ≡ joined bar parts
unfolding key_text
key_text-of_parts [] k h = cc
key_text-of_parts (a ∷ []) k h = cc
key_text-of_parts (a ∷ b ∷ []) k h = cc
key_text-of_parts (a ∷ b ∷ c ∷ []) k h = ap key_text (sym (some-eq h))
key_text-of_parts (a ∷ b ∷ c ∷ d ∷ rest) k h = cc

-- What is read as a key is the text of that key.
pub key_text-parse :
    (raw : String) (k : ObservationKey) → parse_observation_key raw ≡ some k → key_text k ≡ raw
unfolding parse_observation_key
key_text-parse raw k h =
    key_text-of_parts (split_on b'|' raw) k h ∙ joined-split_on b'|' bar raw refl

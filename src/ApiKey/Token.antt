-- ===== src/ApiKey/Token.antt =====
-- newSecret and parsePrefix of issuer-node/internal/core/apikey/api_key.go.
use e_native_issuer.Common.{
  ℕ, ◌+◌, ◌/◌, ◌%◌, Bytes, codes, Bool, true, false, ◌&&◌, ◌||◌, Option, none, some, [], ◌∷◌, ◌++◌,
  ◌==◌, ltb, if◌then◌else◌,
}

-- hex.EncodeToString
abbrev pub hex_digit : ℕ → ℕ
hex_digit d = if ltb d 10 then 48 + d else 87 + d

abbrev pub hex : Bytes → Bytes
hex [] = []
hex (b ∷ bs) = hex_digit (b / 16) ∷ hex_digit (b % 16) ∷ hex bs

-- The byte `_`
abbrev pub separator : ℕ
separator = b'_'

abbrev pub token_prefix : Bytes
token_prefix = codes "enat_live"

-- The two texts of newSecret, from its random bytes.
unfoldable pub prefix_of : Bytes → Bytes
prefix_of prefix_raw = token_prefix ++ separator ∷ hex prefix_raw

unfoldable pub secret_of : Bytes → Bytes → Bytes
unfolding prefix_of
secret_of prefix_raw secret_raw = prefix_of prefix_raw ++ separator ∷ hex secret_raw

-- The text before the last separator and the text after it: strings.LastIndex.
abbrev pub add_front : ℕ → Bytes → Option (Bytes × Bytes) → Option (Bytes × Bytes)
add_front x xs none = if x == separator then some ([], xs) else none
add_front x xs (some (a, b)) = some (x ∷ a, b)

unfoldable pub split_last : Bytes → Option (Bytes × Bytes)
split_last [] = none
split_last (x ∷ xs) = add_front x xs (split_last xs)

-- strings.HasPrefix
abbrev pub has_prefix : Bytes → Bytes → Bool
has_prefix [] s = true
has_prefix (p ∷ ps) [] = false
has_prefix (p ∷ ps) (x ∷ xs) = (p == x) && has_prefix ps xs

abbrev is_empty : Bytes → Bool
is_empty [] = true
is_empty (x ∷ xs) = false

abbrev pub parsed : Option (Bytes × Bytes) → Option Bytes
parsed none = none
parsed (some (before, rest)) =
    if is_empty before || is_empty rest
    then none
    else if has_prefix (token_prefix ++ separator ∷ []) before
    then some before
    else none

-- parsePrefix
unfoldable pub parse_prefix : Bytes → Option Bytes
parse_prefix secret = parsed (split_last secret)

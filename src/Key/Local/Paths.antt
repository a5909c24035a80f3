-- ===== src/Key/Local/Paths.antt =====
-- The regular expressions of the local providers, `^(?i).*/ETH:([a-f0-9]{64})$` and
-- `^(?i)ETH:([a-f0-9]{64})$` with the type's text for ETH, and encoding/hex.
use e_native_issuer.Common.{
  ℕ, ◌+◌, ◌-◌, ◌*◌, Bytes, codes, bytes_eq, Bool, ◌&&◌, ◌||◌, Option, none, some, [], ◌∷◌, ◌++◌,
  map, all, length, take, drop, leb, ◌==◌, if◌then◌else◌,
}
use e_native_issuer.Key.{KeyType}
use e_native_issuer.Key.Names.{type_text}

-- Letters count without their case.
abbrev pub lower : ℕ → ℕ
lower c = if leb 65 c && leb c 90 then c + 32 else c

abbrev pub is_digit : ℕ → Bool
is_digit c = leb 48 c && leb c 57

abbrev pub is_hex : ℕ → Bool
is_hex c = is_digit c || (leb 97 (lower c) && leb (lower c) 102)

-- The text is the mark, a colon and 64 hexadecimal digits: those digits.
unfoldable pub after_mark : Bytes → Bytes → Option Bytes
after_mark mark id =
    let digits = drop (length mark + 1) id in
    if bytes_eq (map lower (take (length mark + 1) id)) (map lower (mark ++ codes ":"))
      && all is_hex digits
      && (length digits == 64)
    then some digits
    else none

-- reAnonKeyPathHex
unfoldable pub anonymous_key : KeyType → Bytes → Option Bytes
anonymous_key ty id = after_mark (type_text ty) id

-- reIdenKeyPathHex: the dot stands for any byte but a new line, which is 10.
unfoldable pub bound_after : Bytes → Bytes → Option Bytes
bound_after mark [] = none
bound_after mark (c ∷ id) =
    let rest = bound_after mark id in
    let later = if c == 10 then none else rest in
    elim (if c == 47 then after_mark mark id else none) [ some text ↦ some text | none ↦ later ]

abbrev pub bound_key : KeyType → Bytes → Option Bytes
bound_key ty id = bound_after (type_text ty) id

abbrev pub hex_value : ℕ → ℕ
hex_value c = if is_digit c then c - 48 else lower c - 87

-- hex.DecodeString: two digits for a byte
unfoldable pub hex_decode : Bytes → Option Bytes
hex_decode [] = some []
hex_decode (a ∷ []) = none
hex_decode (a ∷ b ∷ text) =
    let rest = hex_decode text in
    if is_hex a && is_hex b
    then elim rest [ none ↦ none | some bytes ↦ some ((hex_value a * 16 + hex_value b) ∷ bytes) ]
    else none

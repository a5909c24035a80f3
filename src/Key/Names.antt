-- ===== src/Key/Names.antt =====
-- The texts of key types and of key ids: issuer-node/internal/kms/utils.go, and getKeyType of
-- issuer-node/internal/core/services/key.go.
use e_native_issuer.Common.{
  Bytes, codes, bytes_eq, contains_text, Bool, true, false, Option, none, some, ◌++◌, if◌then◌else◌,
  Result, ok, err,
}
use e_native_issuer.Key.{KeyType, bjj, eth, ed25519, untyped, Error, invalid_key_type}

-- The text of a KeyType
abbrev pub type_text : KeyType → Bytes
type_text bjj = codes "BJJ"
type_text eth = codes "ETH"
type_text ed25519 = codes "Ed25519"
type_text untyped = codes ""

-- keyID.Type == keyType
abbrev pub type_eq : KeyType → KeyType → Bool
type_eq bjj bjj = true
type_eq eth eth = true
type_eq ed25519 ed25519 = true
type_eq untyped untyped = true
type_eq x y = false

-- convertFromKeyType
unfoldable pub convert_from_key_type : KeyType → Bytes
convert_from_key_type bjj = codes "babyjubjub"
convert_from_key_type eth = codes "ethereum"
convert_from_key_type ed25519 = codes "ed25519"
convert_from_key_type untyped = codes ""

-- convertToKeyType
unfoldable pub convert_to_key_type : Bytes → KeyType
convert_to_key_type t =
    if bytes_eq t (codes "babyjubjub")
    then bjj
    else (if bytes_eq t (codes "ethereum")
        then eth
        else (if bytes_eq t (codes "ed25519") then ed25519 else untyped))

-- getKeyID
unfoldable pub get_key_id : Option Bytes → KeyType → Bytes → Bytes
get_key_id none ty id = type_text ty ++ codes ":" ++ id
get_key_id (some did) ty id =
    if contains_text id (type_text ty)
    then did ++ codes "/" ++ id
    else did ++ codes "/" ++ type_text ty ++ codes ":" ++ id

abbrev base_path : Option Bytes → Bytes
base_path none = codes ""
base_path (some did) = did ++ codes "/"

-- keyPathForLocalProvider
unfoldable pub key_path_for_local_provider : Option Bytes → KeyType → Bytes → Bytes
key_path_for_local_provider did ty id = base_path did ++ type_text ty ++ codes ":" ++ id

-- getKeyType
unfoldable pub get_key_type : Bytes → Result Error KeyType
get_key_type id =
    if contains_text id (codes "BJJ")
    then ok bjj
    else (if contains_text id (codes "ETH")
        then ok eth
        else (if contains_text id (codes "Ed25519") then ok ed25519 else err invalid_key_type))

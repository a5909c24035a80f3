-- ===== src/Key/Service/Bound.antt =====
-- What keeps a key from being deleted: hasAssociatedAuthCredential and isAssociatedWithIdentity of
-- issuer-node/internal/core/services/key.go, and what they call: GetAuthCredentialByPublicKey of
-- issuer-node/internal/core/services/claims.go and CheckEthIdentityByDID of
-- issuer-node/internal/common/util.go.
use e_native_issuer.Common.{
  ℕ, Bytes, codes, bytes_eq, Bool, false, not, ◌&&◌, Option, none, some, List, ◌++◌, ◌-◌, map, find,
  leb, if◌then◌else◌, is_some, Result, ok, err, ◌>>=◌, reject,
}
use e_native_issuer.Key.{
  KeyType, bjj, eth, ed25519, untyped, Error, invalid_key_type, auth_credential_not_revoked,
  key_associated_with_identity,
}

-- The errors of core.EthAddressFromID
pub data AddressError : Type 0 where
  high_bytes_not_zero : AddressError
  other : Error → AddressError

-- hexutil.Encode, solana.PublicKey.String, base64's EncodeToString, crypto.DecompressPubkey with
-- crypto.PubkeyToAddress and Hex, core.IDFromDID, and core.EthAddressFromID written with %x.
pub record Library : Type 0 where
  pub hex_encode : Bytes → Bytes
  pub solana_text : Bytes → Bytes
  pub base64 : Bytes → Bytes
  pub address_hex : Bytes → Result Error Bytes
  pub id_from_did : Bytes → Result Error ℕ
  pub eth_address_from_id : ℕ → Result AddressError Bytes

-- An auth credential: its revocation nonce and the public key in its core claim
pub record AuthCredential : Type 0 where
  pub rev_nonce : ℕ
  pub public_key : Bytes

-- GetAuthCredentials, and GetRevocationStatus: MTP.Existence of the status, which may be nil
pub record ClaimService : Type 0 where
  pub get_auth_credentials : Bytes → Result Error (List AuthCredential)
  pub get_revocation_status : Bytes → ℕ → Result Error (Option Bool)

-- The text of a public key
unfoldable pub public_text : Library → KeyType → Bytes → Bytes
public_text lib ed25519 pk = lib.solana_text pk
public_text lib bjj pk = lib.hex_encode pk
public_text lib eth pk = lib.hex_encode pk
public_text lib untyped pk = lib.hex_encode pk

-- strings.ToUpper on ASCII
abbrev pub to_upper : Bytes → Bytes
to_upper = map (λ c. if leb 97 c && leb c 122 then c - 32 else c)

module _ (lib : Library) (claims : ClaimService) where
  -- GetAuthCredentialByPublicKey
  unfoldable pub get_auth_credential_by_public_key :
      Bytes → Bytes → Result Error (Option AuthCredential)
  get_auth_credential_by_public_key did pk = do
    credentials ← claims.get_auth_credentials did
    ok (find (λ c. bytes_eq c.public_key pk) credentials)

  -- CheckEthIdentityByDID: the address of an identity that has one
  unfoldable pub check_eth_identity_by_did : Bytes → Result Error (Option Bytes)
  check_eth_identity_by_did did = lib.id_from_did did >>= λ id. elim (lib.eth_address_from_id id) [
    | ok address ↦ ok (some address)
    | err high_bytes_not_zero ↦ ok none
    | err (other e) ↦ err e
  ]

  abbrev pub is_same_address : Bytes → Option Bytes → Bool
  is_same_address key none = false
  is_same_address key (some address) = bytes_eq (to_upper (codes "0x" ++ address)) (to_upper key)

  -- isAssociatedWithIdentity
  unfoldable pub is_associated_with_identity : Bytes → Bytes → Result Error Bool
  is_associated_with_identity did pk = do
    key ← lib.address_hex pk
    address ← check_eth_identity_by_did did
    ok (is_same_address key address)

  -- The switch of Get
  unfoldable pub associated : Bytes → KeyType → Bytes → Result Error Bool
  associated did untyped pk = err invalid_key_type
  associated did ed25519 pk = ok false
  associated did bjj pk = do
    credential ← get_auth_credential_by_public_key did pk
    ok (is_some credential)
  associated did eth pk = is_associated_with_identity did pk

  -- revStatus != nil && !revStatus.MTP.Existence
  abbrev pub is_unrevoked : Option Bool → Bool
  is_unrevoked none = false
  is_unrevoked (some existence) = not existence

  -- The auth credential of a BabyJubJub key has to be revoked.
  unfoldable pub credential_deletable : Bytes → Option AuthCredential → Result Error (Unit {0})
  credential_deletable did none = ok tt
  credential_deletable did (some c) = do
    status ← claims.get_revocation_status did c.rev_nonce
    reject (is_unrevoked status) auth_credential_not_revoked

  -- The switch of Delete
  unfoldable pub deletable : Bytes → KeyType → Bytes → Result Error (Unit {0})
  deletable did untyped pk = err invalid_key_type
  deletable did ed25519 pk = ok tt
  deletable did bjj pk = do
    credential ← get_auth_credential_by_public_key did pk
    credential_deletable did credential
  deletable did eth pk = do
    bound ← is_associated_with_identity did pk
    reject bound key_associated_with_identity

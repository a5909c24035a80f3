-- ===== src/Key.antt =====
-- Signing keys: the key management system (issuer-node/internal/kms), the table `keys`
-- (issuer-node/internal/repositories/key.go, issuer-node/internal/core/domain/key.go) and the
-- service that manages an identity's keys (issuer-node/internal/core/services/key.go).
-- A text is a list of bytes, and a DID is its text. Elliptic curves, hashes and the encodings of
-- imported packages are fields of `Library`.
pub mod Names
pub mod Files
pub mod Kms
pub mod Local
pub mod Repository
pub mod Service
pub mod Protected
pub mod Unique
pub mod Listed
pub mod Stored
pub mod Lost
pub mod Unlinked
pub mod Example
pub mod Tests
use e_native_issuer.Common.{ℕ, Bool, Bytes, Option, List, Result}

-- KeyType. `untyped` is the empty text, the type of KeyID{}.
pub data KeyType : Type 0 where
  bjj eth ed25519 untyped : KeyType

-- KeyID
pub record KeyId : Type 0 where
  pub key_type : KeyType
  pub id : Bytes

-- kms.ErrUnknownKeyType, ErrIncorrectKeyType, ErrKeyTypeConflict and ErrKeyNotFound, and the errors
-- that the providers make on the spot; repositories.ErrKeyNotFound and ErrDuplicateKeyName; the
-- errors of the service; `panics` stands for a run-time panic, `callee` for an error from outside.
pub data Error : Type 0 where
  unknown_key_type incorrect_key_type key_type_conflict material_not_found : Error
  private_key_not_found incorrect_private_key not_in_key_id : Error
  empty_key_id incorrect_key_id digest_too_large not_hexadecimal : Error
  row_not_found name_already_exists : Error
  key_not_found invalid_key_type duplicate_key_name : Error
  auth_credential_not_revoked key_associated_with_identity : Error
  panics : Error
  callee : ℕ → Error

-- KeyProvider, for providers that keep their state in S
pub record KeyProvider (S : Type 0) : Type 0 where
  pub new : Option Bytes → S → Result Error KeyId × S
  pub public_key : KeyId → S → Result Error Bytes
  pub sign : KeyId → Bytes → S → Result Error Bytes
  pub list_by_identity : Bytes → S → Result Error (List KeyId)
  pub link_to_identity : KeyId → Bytes → S → Result Error KeyId × S
  pub delete : KeyId → S → Result Error (Unit {0}) × S
  pub exists : KeyId → S → Result Error Bool

-- A row of the table `keys`
pub record Key : Type 0 where
  pub id : ℕ
  pub issuer_did : Bytes
  pub public_key : Bytes
  pub name : Bytes

-- KMSKey
pub record KmsKey : Type 0 where
  pub key_id : Bytes
  pub key_type : KeyType
  pub public_key : Bytes
  pub has_associated_auth_credential : Bool
  pub name : Bytes

-- KeyFilter
pub record KeyFilter : Type 0 where
  pub max_results : ℕ
  pub page : ℕ
  pub key_type : Option KeyType

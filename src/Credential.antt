-- ===== src/Credential.antt =====
-- Revocation of credentials and the calculation of an identity's next state: the tables `claims`
-- and `revocation` (issuer-node/internal/core/domain/claim.go,
-- issuer-node/internal/core/domain/revocation.go), and the three merkle trees of an identity
-- (issuer-node/internal/core/domain/IdentityMerkleTrees.go). The merkle tree itself is a package
-- that the code imports, given by a record.
pub mod Repository
pub mod Revoke
pub mod Rows
pub mod Revoked
pub mod Auth
pub mod Deleted
pub mod Partial
pub mod State
pub mod Waiting
pub mod Steps
pub mod Taken
pub mod Published
pub mod Guard
pub mod Document
pub mod Create
pub mod Acceptable
pub mod Created
pub mod Agent
pub mod Holder
pub mod Listing
pub mod Joins
pub mod Listed
pub mod Example
pub mod LaterTests
pub mod ListingTests
pub mod Tests
use e_native_issuer.Common.{ℕ, String, Bool, Option, List, Result}
use e_native_issuer.IdentityStates.{IdentityState}

-- The columns of a claim that these operations look at; `columns` stands for those that every
-- statement here reads and writes together.
pub record Claim : Type 0 where
  pub id : ℕ
  pub identifier : Option String
  pub issuer : String
  pub other_identifier : String
  pub schema_hash : String
  pub rev_nonce : ℕ
  pub revoked : Bool
  pub mtp_proof : Option ℕ
  pub core_claim : ℕ
  pub identity_state : Option String
  pub mtp : Bool
  pub link_id : Option ℕ
  pub created_at : ℕ
  pub columns : ℕ

-- RevStatus
pub data RevStatus : Type 0 where
  rev_pending rev_published : RevStatus

-- Revocation
pub record Revocation : Type 0 where
  pub identifier : String
  pub nonce : ℕ
  pub version : ℕ
  pub status : RevStatus
  pub description : String

-- A row of the table `connections`
pub record Connection : Type 0 where
  pub id : ℕ
  pub issuer_id : String
  pub user_id : String

pub data Error : Type 0 where
  claim_does_not_exist credential_not_found auth_credential_cannot_be_revoked : Error
  duplicate trees_not_found no_claims_found_to_process claim_not_updated no_previous_state : Error
  callee : ℕ → Error

-- What the code calls of a sparse merkle tree of the type T, and of its hash functions: `hi_hv` are
-- the two hashes of a core claim.
pub record MerkleTree (T : Type 0) : Type 0 where
  pub add : ℕ → ℕ → T → Result Error T
  pub get : ℕ → T → Result Error (Option ℕ)
  pub root : T → ℕ
  pub hash_elems : ℕ → ℕ → ℕ → Result Error ℕ
  pub hi_hv : ℕ → Result Error (ℕ × ℕ)
  pub hex : ℕ → String

-- IdentityMerkleTrees
pub record Trees (T : Type 0) : Type 0 where
  pub identifier : String
  pub claims : T
  pub revocations : T
  pub roots : T

pub record Store (T : Type 0) : Type 0 where
  pub claims : List Claim
  pub revocations : List Revocation
  pub connections : List Connection
  pub states : List IdentityState
  pub trees : List (Trees T)

-- ===== src/Credential/Document.antt =====
-- The data of the creation of a credential in issuer-node/internal/core/services/claims.go: the
-- document, the claim that is saved (issuer-node/internal/core/domain/claim.go), the errors, and what
-- the calls of imported code answer.
use e_native_issuer.Common.{ℕ, String, Bool, Option, List, Result}
use e_native_issuer.Credential.Guard.{GuardError, Service, SubjectId, Formats}

-- The errors of CreateCredential; `process` tells those of the schema processor apart.
pub data CreateError : Type 0 where
  guarded : GuardError → CreateError
  loading_schema process_schema json_ld_context invalid_did : CreateError
  parse_claim invalid_credential_subject : CreateError
  outside : ℕ → CreateError

pub data ProcessError : Type 0 where
  parse_error validate_error load_error : ProcessError
  other : ℕ → ProcessError

-- W3CCredential
pub record Vc : Type 0 where
  pub id : ℕ
  pub context : List String
  pub types : List String
  pub expiration : Option ℕ
  pub issuance_date : ℕ
  pub subject_id : SubjectId
  pub subject_type : String
  pub attributes : ℕ
  pub issuer : String
  pub schema : String
  pub status : ℕ
  pub refresh_service : Option Service
  pub display_method : Option Service

-- CoreClaimOptions
pub record Options : Type 0 where
  pub rev_nonce : ℕ
  pub merklized_root_position : String
  pub version : ℕ
  pub subject_position : String

-- What FromClaimer reads from a core claim
pub record Claimed : Type 0 where
  pub schema_hash : String
  pub other_identifier : String
  pub expiration : ℕ
  pub version : ℕ
  pub rev_nonce : ℕ
  pub h_index : String

-- domain.Claim as CreateCredential makes it
pub record NewClaim : Type 0 where
  pub id : ℕ
  pub identifier : String
  pub issuer : String
  pub schema_url : String
  pub schema_type : String
  pub claimed : Claimed
  pub core_claim : ℕ
  pub signature_proof : Option ℕ
  pub data_ : Option Vc
  pub encrypted_data : Option ℕ
  pub context_url : Option String
  pub credential_status : ℕ
  pub mt_proof : Bool
  pub link_id : Option ℕ
  pub created_at : ℕ

-- What the calls answer: common.Int64, LoadSchema with its metadata and the metadata's jsonLdContext,
-- uuid.NewUUID, jsonschema.Load with TypeIDFromContext, GetLatestStateByID, the status resolver, the
-- clock, Process, whether the metadata has a serialization, utils.MerklizedRootPositionIndex, FromClaimer, the signature by the auth claim with its
-- JSON, encryptCredential, and the column of the status.
pub record CreateCalls : Type 0 where
  pub formats : Formats
  pub random_nonce : Result CreateError ℕ
  pub load_schema : Result CreateError (Option (Option String))
  pub new_uuid : Result CreateError ℕ
  pub load_type : String → String → Result CreateError (Unit {0})
  pub latest_state : Result CreateError ℕ
  pub revocation_status : ℕ → ℕ → ℕ → Result CreateError ℕ
  pub now : ℕ
  pub process : Vc → Options → Result ProcessError ℕ
  pub has_serialization : Bool
  pub default_position : String
  pub from_claimer : ℕ → Result CreateError Claimed
  pub sign : ℕ → Result CreateError ℕ
  pub encrypt : ℕ → Vc → Result CreateError ℕ
  pub set_status : ℕ → Result CreateError ℕ

-- ===== src/Credential/Guard.antt =====
-- The request of a new credential (issuer-node/internal/core/ports/claim_service.go), and
-- guardCreateClaimRequest of issuer-node/internal/core/services/claims.go. url.ParseRequestURI and
-- w3c.ParseDID are fields of `Formats`.
use e_native_issuer.Common.{
  ℕ, String, str_eq, Bool, not, ◌||◌, Option, none, some, is_some, Result, ok, err, reject, ◌>>◌,
}

-- The errors of the guards
pub data GuardError : Type 0 where
  malformed_url wrong_credential_subject_id : GuardError
  refresh_service_lacks_expiration_time refresh_service_lacks_url : GuardError
  unsupported_refresh_service_type : GuardError
  display_method_lacks_url unsupported_display_method_type : GuardError

-- A refresh service or a display method: `is_supported` says that its type is the one that there is.
pub record Service : Type 0 where
  pub id : String
  pub is_supported : Bool

-- CredentialSubject["id"]: not there, not a text, or a text
pub data SubjectId : Type 0 where
  absent not_text : SubjectId
  text : String → SubjectId

-- CreateClaimRequest. `attributes` is the rest of the subject.
pub record Request : Type 0 where
  pub did : String
  pub claim_id : Option ℕ
  pub schema : String
  pub subject_id : SubjectId
  pub attributes : ℕ
  pub expiration : Option ℕ
  pub schema_type : String
  pub version : ℕ
  pub subject_position : String
  pub merklized_root_position : String
  pub signature_proof : Bool
  pub mt_proof : Bool
  pub link_id : Option ℕ
  pub status_type : ℕ
  pub refresh_service : Option Service
  pub rev_nonce : Option ℕ
  pub display_method : Option Service
  pub encryption_key : Option ℕ

pub record Formats : Type 0 where
  pub is_request_uri : String → Bool
  pub parse_did : String → Option String

-- An id that is empty or no URI
abbrev pub lacks_url : Formats → Service → Bool
lacks_url f s = str_eq s.id "" || not (f.is_request_uri s.id)

-- The first check of a refresh service, before the guards
unfoldable pub check_refresh_service : Option ℕ → Option Service → Result GuardError (Unit {0})
check_refresh_service expiration none = ok tt
check_refresh_service expiration (some s) = do
  reject (not (is_some expiration)) refresh_service_lacks_expiration_time
  reject (not s.is_supported) unsupported_refresh_service_type

unfoldable pub guard_refresh_service :
    Formats → Option ℕ → Option Service → Result GuardError (Unit {0})
guard_refresh_service f expiration none = ok tt
guard_refresh_service f expiration (some s) = do
  reject (not (is_some expiration)) refresh_service_lacks_expiration_time
  reject (lacks_url f s) refresh_service_lacks_url
  reject (not s.is_supported) unsupported_refresh_service_type

unfoldable pub guard_display_method : Formats → Option Service → Result GuardError (Unit {0})
guard_display_method f none = ok tt
guard_display_method f (some s) = do
  reject (lacks_url f s) display_method_lacks_url
  reject (not s.is_supported) unsupported_display_method_type

unfoldable pub guard_subject : Formats → SubjectId → Result GuardError (Unit {0})
guard_subject f absent = ok tt
guard_subject f not_text = err wrong_credential_subject_id
guard_subject f (text did) = reject (not (is_some (f.parse_did did))) wrong_credential_subject_id

-- guardCreateClaimRequest
unfoldable pub guard_create_claim_request : Formats → Request → Result GuardError (Unit {0})
guard_create_claim_request f req = do
  check_refresh_service req.expiration req.refresh_service
  reject (not (f.is_request_uri req.schema)) malformed_url
  guard_refresh_service f req.expiration req.refresh_service
  guard_display_method f req.display_method
  guard_subject f req.subject_id

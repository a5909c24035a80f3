-- ===== src/Link.antt =====
-- The links that offer a credential: issuer-node/internal/core/domain/link.go, with the rows of the
-- tables that issuer-node/internal/repositories/link.go reads and writes. Times are in nanoseconds.
-- The API accepts only limits above 0 (issuer-node/internal/api/links.go), so a limit is a number.
pub mod Repository
pub mod Listing
pub mod Service
pub mod Issue
pub mod Validity
pub mod Activation
pub mod Rows
pub mod Limit
pub mod Scope
pub mod Tests
use e_native_issuer.Common.{
  ℕ, String, Bool, true, false, Option, none, some, List, [], ◌∷◌, str_eq, ltb, leb, if◌then◌else◌,
  some_and,
}

pub data RefreshServiceType : Type 0 where
  iden3_refresh_service_2023 other : RefreshServiceType

pub record RefreshService : Type 0 where
  pub id : String
  pub kind : RefreshServiceType

pub data DisplayMethodType : Type 0 where
  iden3_basic_display_method_v1 other : DisplayMethodType

pub record DisplayMethod : Type 0 where
  pub id : String
  pub kind : DisplayMethodType

-- CredentialSubject; the values are opaque.
abbrev pub CredentialSubject : Type 0
CredentialSubject = List (String × String)

-- subject[key] = value
unfoldable pub set_key : String → String → CredentialSubject → CredentialSubject
set_key key value [] = (key, value) ∷ []
set_key key value ((k, v) ∷ rest) =
    if str_eq k key then (key, value) ∷ rest else (k, v) ∷ set_key key value rest

abbrev pub get_key : String → CredentialSubject → Option String
get_key key [] = none
get_key key ((k, v) ∷ rest) = if str_eq k key then some v else get_key key rest

-- A row of the table `links`. The authorization request is the id of its message.
pub record Row : Type 0 where
  pub id : ℕ
  pub issuer_did : String
  pub created_at : ℕ
  pub max_issuance : Option ℕ
  pub valid_until : Option ℕ
  pub schema_id : ℕ
  pub credential_expiration : Option ℕ
  pub credential_signature_proof : Bool
  pub credential_mtp_proof : Bool
  pub credential_subject : CredentialSubject
  pub active : Bool
  pub refresh_service : Option RefreshService
  pub display_method : Option DisplayMethod
  pub authorization_request_message : Option ℕ

-- Link: the row, and the number of its claims.
pub record Link : Type 0 where
  pub row : Row
  pub open row use *
  pub issued_claims : ℕ

pub data Status : Type 0 where
  is_inactive is_exceeded is_active : Status

-- Status
unfoldable pub status : ℕ → Link → Status
status now l =
    if l.active
    then (if some_and l.valid_until (λ t. ltb t now)
        then is_exceeded
        else if some_and l.max_issuance (λ m. leb m l.issued_claims)
        then is_exceeded
        else is_active)
    else is_inactive

-- NewLink; the database sets `created_at` to the time of the insertion.
unfoldable pub new_link :
    ℕ
    → ℕ
    → String
    → Option ℕ
    → Option ℕ
    → ℕ
    → Option ℕ
    → Bool
    → Bool
    → CredentialSubject
    → Option RefreshService
    → Option DisplayMethod
    → Link
new_link id now did max until schema expiration signature mtp subject refresh display = record {
  row = record {
    id = id;
    issuer_did = did;
    created_at = now;
    max_issuance = max;
    valid_until = until;
    schema_id = schema;
    credential_expiration = expiration;
    credential_signature_proof = signature;
    credential_mtp_proof = mtp;
    credential_subject = subject;
    active = true;
    refresh_service = refresh;
    display_method = display;
    authorization_request_message = none;
  };
  issued_claims = 0;
}

-- The columns of the table `claims` that the links look at.
pub record ClaimRow : Type 0 where
  pub id : ℕ
  pub identifier : String
  pub other_identifier : String
  pub link_id : Option ℕ
  pub has_mtp_proof : Bool

pub record Db : Type 0 where
  pub links : List Row
  pub claims : List ClaimRow

pub data Error : Type 0 where
  link_does_not_exist link_not_found link_already_active link_already_inactive : Error
  link_already_expired link_max_exceeded link_inactive : Error
  invalid_credential_subject refresh_service_lacks_expiration_time refresh_service_lacks_url : Error
  unsupported_refresh_service_type display_method_lacks_url unsupported_display_method_type : Error
  callee : ℕ → Error

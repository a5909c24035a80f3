-- ===== src/Link/Service.antt =====
-- The link service of issuer-node/internal/core/services/link.go, but for the issuance.
use e_native_issuer.Common.{
  ℕ, String, Bool, true, false, not, ◌&&◌, Option, none, some, str_eq, leb, ltb, if◌then◌else◌,
  some_and, is_some, Result, ok, err, ◌>>=◌, ◌>>◌, reject, or_err,
}
use e_native_issuer.Link.{
  RefreshService, RefreshServiceType, iden3_refresh_service_2023, DisplayMethod, DisplayMethodType,
  iden3_basic_display_method_v1, CredentialSubject, Link, Db, Error, link_does_not_exist,
  link_not_found, link_already_active, link_already_inactive, link_already_expired,
  link_max_exceeded, link_inactive, invalid_credential_subject,
  refresh_service_lacks_expiration_time, refresh_service_lacks_url,
  unsupported_refresh_service_type, display_method_lacks_url, unsupported_display_method_type,
  new_link,
}
use e_native_issuer.Link.Repository

-- Validate
unfoldable pub validate : ℕ → Link → Result Error (Unit {0})
validate now l = do
  reject (some_and l.valid_until (λ t. ltb t now)) link_already_expired
  reject (some_and l.max_issuance (λ m. leb m l.issued_claims)) link_max_exceeded
  reject (not l.active) link_inactive
  ok tt

abbrev is_iden3_refresh : RefreshServiceType → Bool
is_iden3_refresh iden3_refresh_service_2023 = true
is_iden3_refresh RefreshServiceType.other = false

abbrev is_iden3_display : DisplayMethodType → Bool
is_iden3_display iden3_basic_display_method_v1 = true
is_iden3_display DisplayMethodType.other = false

-- validateRefreshService; `parses` is whether url.ParseRequestURI takes a text.
unfoldable pub validate_refresh_service :
    (String → Bool) → Option RefreshService → Option ℕ → Result Error (Unit {0})
validate_refresh_service parses none expiration = ok tt
validate_refresh_service parses (some rs) expiration = do
  reject (not (is_some expiration)) refresh_service_lacks_expiration_time
  reject (str_eq rs.id "") refresh_service_lacks_url
  reject (not (parses rs.id)) refresh_service_lacks_url
  reject (not (is_iden3_refresh rs.kind)) unsupported_refresh_service_type
  ok tt

-- validateDisplayMethod
unfoldable pub validate_display_method :
    (String → Bool) → Option DisplayMethod → Result Error (Unit {0})
validate_display_method parses none = ok tt
validate_display_method parses (some dm) = do
  reject (str_eq dm.id "") display_method_lacks_url
  reject (not (parses dm.id)) display_method_lacks_url
  reject (not (is_iden3_display dm.kind)) unsupported_display_method_type
  ok tt

-- The arguments of Save, and the answers of what it calls.
pub record SaveRequest : Type 0 where
  pub did : String
  pub max_issuance : Option ℕ
  pub valid_until : Option ℕ
  pub schema_id : ℕ
  pub credential_expiration : Option ℕ
  pub credential_signature_proof : Bool
  pub credential_mtp_proof : Bool
  pub credential_subject : CredentialSubject
  pub refresh_service : Option RefreshService
  pub display_method : Option DisplayMethod

pub record SaveCalls : Type 0 where
  pub now : ℕ
  pub new_id : ℕ
  pub schema_by_id : String → ℕ → Result Error ℕ
  pub subject_valid : ℕ → CredentialSubject → Bool
  pub parses : String → Bool
  pub save_fault : Option Error

-- The checks of Save, in their order.
unfoldable pub check_request : SaveCalls → SaveRequest → Result Error (Unit {0})
check_request c q = do
  schema ← c.schema_by_id q.did q.schema_id
  reject (not (c.subject_valid schema q.credential_subject)) invalid_credential_subject
  validate_refresh_service c.parses q.refresh_service q.credential_expiration
  validate_display_method c.parses q.display_method

abbrev pub requested_link : SaveCalls → SaveRequest → Link
unfolding new_link
requested_link c q =
    new_link c.new_id c.now q.did q.max_issuance q.valid_until q.schema_id q.credential_expiration
      q.credential_signature_proof q.credential_mtp_proof q.credential_subject q.refresh_service
      q.display_method

-- Save
unfoldable pub save : SaveCalls → SaveRequest → Db → Result Error Link × Db
unfolding new_link
save c q db = elim (check_request c q) [
  | err e ↦ (err e, db)
  | ok _ ↦
      let (r, after) = Repository.save c.save_fault (requested_link c q) db in
      elim r [ err e ↦ (err e, after) | ok _ ↦ (ok (requested_link c q), after) ]
]

-- Activate; the faults are those of the read and of the write.
unfoldable pub activate :
    Option Error → Option Error → String → ℕ → Bool → Db → Result Error (Unit {0}) × Db
activate read_fault save_fault issuer id active db =
    elim (Repository.get_by_id read_fault issuer id db) [
      | err e ↦ (err e, db)
      | ok l ↦
          if l.active && active
          then (err link_already_active, db)
          else if not l.active && not active
          then (err link_already_inactive, db)
          else Repository.save save_fault (record l { row = record l.row { active = active } }) db
    ]

abbrev not_found : Error → Error
not_found link_does_not_exist = link_not_found
not_found e = e

-- GetByID: the first read of a link without an authorization request gives it one, of id
-- `request`. The texts of the deep link and the universal link are left out.
unfoldable pub get_by_id :
    Option Error → Option Error → ℕ → String → ℕ → Db → Result Error Link × Db
get_by_id read_fault add_fault request issuer id db =
    elim (Repository.get_by_id read_fault issuer id db) [
      | err e ↦ (err (not_found e), db)
      | ok l ↦
          if is_some l.authorization_request_message
          then (ok l, db)
          else (let (r, after) =
                Repository.add_authorization_request add_fault l.id issuer request db in
              elim r [
                | err e ↦ (err e, after)
                | ok _ ↦ (
                  ok (record l {
                    row = record l.row { authorization_request_message = some request };
                  }),
                  after,
                )
              ])
    ]

-- CreateQRCode: the link whose QR code is shown. `readable` is whether the stored request is valid
-- JSON.
unfoldable pub create_qr_code :
    Option Error
    → Option Error
    → ℕ
    → ℕ
    → (ℕ → Result Error ℕ)
    → String
    → ℕ
    → Db
    → Result Error Link × Db
create_qr_code read_fault add_fault request now readable issuer id db =
    let (r, after) = get_by_id read_fault add_fault request issuer id db in
    (
      do
        l ← r
        validate now l
        message ← or_err l.authorization_request_message link_not_found
        _ ← readable message
        ok l,
      after,
    )

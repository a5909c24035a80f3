-- ===== src/Link/Issue.antt =====
-- IssueOrFetchClaim and ProcessCallBack of issuer-node/internal/core/services/link.go.
use e_native_issuer.Common.{
  ℕ, String, Bool, false, Option, none, some, List, [], ◌∷◌, if◌then◌else◌, Result, ok, err, ◌>>=◌,
  ◌>>◌, ◌+◌,
}
use e_native_issuer.Link.{
  RefreshService, DisplayMethod, CredentialSubject, set_key, Link, ClaimRow, Db, Error,
}
use e_native_issuer.Link.Repository
use e_native_issuer.Link.Service.{validate}

-- The part of ports.CreateClaimRequest that IssueOrFetchClaim fills.
pub record CreateClaimRequest : Type 0 where
  pub did : String
  pub schema : ℕ
  pub credential_subject : CredentialSubject
  pub expiration : Option ℕ
  pub signature_proof : Bool
  pub mtp_proof : Bool
  pub link_id : ℕ
  pub status_type : String
  pub refresh_service : Option RefreshService
  pub display_method : Option DisplayMethod

-- The credential that the claim service made, before it is saved: the holder is the subject's id.
pub record NewCredential : Type 0 where
  pub id : ℕ
  pub other_identifier : String

pub record IssueCalls : Type 0 where
  pub now : ℕ
  pub link_fault : Option Error
  pub issued_fault : Option Error
  pub schema_by_id : String → ℕ → Result Error ℕ
  pub credential_status_type : String → Result Error String
  pub create_credential : CreateClaimRequest → Result Error NewCredential
  pub save_link_fault : Option Error
  pub save_claim_fault : Option Error

-- link.CredentialSubject["id"] = userDID
abbrev pub addressed : String → Link → Link
addressed user l = record l {
  row = record l.row { credential_subject = set_key "id" user l.credential_subject };
}

abbrev pub request_of : String → ℕ → String → Link → CreateClaimRequest
request_of issuer schema status l = record {
  did = issuer;
  schema = schema;
  credential_subject = l.credential_subject;
  expiration = l.credential_expiration;
  signature_proof = l.credential_signature_proof;
  mtp_proof = l.credential_mtp_proof;
  link_id = l.id;
  status_type = status;
  refresh_service = l.refresh_service;
  display_method = l.display_method;
}

abbrev pub claim_of : String → ℕ → NewCredential → ClaimRow
claim_of issuer link n = record {
  id = n.id;
  identifier = issuer;
  other_identifier = n.other_identifier;
  link_id = some link;
  has_mtp_proof = false;
}

-- What the issuance hands to the user: the id of the credential on offer, or nothing while the
-- state has to be published first.
abbrev pub offer : Link → ClaimRow → Option ℕ
offer l c =
    if l.credential_signature_proof then some c.id else if c.has_mtp_proof then some c.id else none

-- The two writes of a new credential. They use the pool and not the transaction around them, so
-- the first stays when the second fails.
unfoldable pub save_issued : IssueCalls → Link → ClaimRow → Db → Result Error ClaimRow × Db
save_issued c l claim db =
    let (r, after) =
      Repository.save c.save_link_fault (record l { issued_claims = l.issued_claims + 1 }) db in
    elim r [
      | err e ↦ (err e, after)
      | ok _ ↦
          let (s, done) = Repository.save_claim c.save_claim_fault claim after in
          elim s [ err e ↦ (err e, done) | ok id ↦ (ok claim, done) ]
    ]

-- CreateCredential for the user, with the request that the link gives.
unfoldable pub new_credential : IssueCalls → String → ℕ → Link → Result Error NewCredential
new_credential c issuer schema l = do
  status ← c.credential_status_type issuer
  c.create_credential (request_of issuer schema status l)

unfoldable pub save_new :
    IssueCalls → String → Link → Result Error NewCredential → Db → Result Error ClaimRow × Db
save_new c issuer l (err e) db = (err e, db)
save_new c issuer l (ok n) db = save_issued c l (claim_of issuer l.id n) db

-- The branch of a user without a credential of the link.
unfoldable pub issue : IssueCalls → String → String → ℕ → Link → Db → Result Error ClaimRow × Db
issue c issuer user schema l db =
    let to_user = addressed user l in
    save_new c issuer to_user (new_credential c issuer schema to_user) db

-- IssueOrFetchClaim from the claims that the user holds on
unfoldable pub issue_or_fetch :
    IssueCalls → String → String → ℕ → Link → List ClaimRow → Db → Result Error ClaimRow × Db
issue_or_fetch c issuer user schema l [] db = issue c issuer user schema l db
issue_or_fetch c issuer user schema l (held ∷ _) db = (ok held, db)

-- The reads and checks that come first.
pub record Ready : Type 0 where
  pub link : Link
  pub held : List ClaimRow
  pub schema : ℕ

unfoldable pub ready : IssueCalls → String → String → ℕ → Db → Result Error Ready
ready c issuer user id db = do
  l ← Repository.get_by_id c.link_fault issuer id db
  held ← Repository.get_claims_issued_for_user c.issued_fault issuer user id db
  validate c.now l
  schema ← c.schema_by_id issuer l.schema_id
  ok (record { link = l; held = held; schema = schema })

unfoldable pub issue_or_fetch_claim :
    IssueCalls → String → String → ℕ → Db → Result Error (Option ℕ) × Db
issue_or_fetch_claim c issuer user id db = elim (ready c issuer user id db) [
  | err e ↦ (err e, db)
  | ok q ↦
      let (r, after) = issue_or_fetch c issuer user q.schema q.link q.held db in
      (do claim ← r; ok (offer q.link claim), after)
]

-- ProcessCallBack: the verified response names the user and the issuer.
pub record CallBackCalls : Type 0 where
  pub link_fault : Option Error
  pub unmarshal : Option ℕ → Result Error ℕ
  pub authenticate_with_request : ℕ → String → Result Error (String × String)
  pub parse_did : String → Result Error String
  pub issue_calls : IssueCalls

abbrev pub authenticated : CallBackCalls → String → String → ℕ → Db → Result Error (String × String)
authenticated c issuer message id db = do
  l ← Repository.get_by_id c.link_fault issuer id db
  request ← c.unmarshal l.authorization_request_message
  arm ← c.authenticate_with_request request message
  user_did ← c.parse_did arm.0
  issuer_did ← c.parse_did arm.1
  ok (user_did, issuer_did)

unfoldable pub process_call_back :
    CallBackCalls → String → String → ℕ → Db → Result Error (Option ℕ) × Db
process_call_back c issuer message id db = elim (authenticated c issuer message id db) [
  | err e ↦ (err e, db)
  | ok (user_did, issuer_did) ↦ issue_or_fetch_claim c.issue_calls issuer_did user_did id db
]

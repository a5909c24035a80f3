-- ===== src/Credential/Create.antt =====
-- CreateCredential and Save of issuer-node/internal/core/services/claims.go. The JSON-LD processor,
-- the core claim, signatures and encryption are imported: what they answer are fields of
-- `CreateCalls` (Credential/Document). A credential's JSON is the record `Vc`.
use e_native_issuer.Common.{
  ℕ, String, str_eq, Bool, true, false, Option, none, some, List, [], ◌∷◌, if◌then◌else◌, Result,
  ok, err, or_err, map_err, ◌>>=◌, ◌>>◌,
}
use e_native_issuer.Credential.Guard.{
  Service, SubjectId, absent, not_text, text, Request, Formats, guard_create_claim_request,
}
use e_native_issuer.Credential.Document.{
  CreateError, guarded, loading_schema, process_schema, json_ld_context, invalid_did, parse_claim,
  invalid_credential_subject, outside, ProcessError, parse_error, validate_error, load_error, other,
  Vc, NewClaim, CreateCalls,
}

-- A value of the request, or the answer of a call
abbrev pub or_call : Option ℕ → Result CreateError ℕ → Result CreateError ℕ
or_call (some n) r = ok n
or_call none r = r

-- DefineMerklizedRootPosition of issuer-node/internal/common/common.go
unfoldable pub define_merklized_root_position : Bool → String → String → String
define_merklized_root_position true default position = ""
define_merklized_root_position false default position =
    if str_eq position "" then default else position

-- credentialSubject["id"] in the normal form of w3c.DID
unfoldable pub normal_subject : Formats → SubjectId → Result CreateError SubjectId
normal_subject f absent = ok absent
normal_subject f not_text = ok not_text
normal_subject f (text did) = do parsed ← or_err (f.parse_did did) invalid_did; ok (text parsed)

abbrev pub contexts : String → Option Service → List String
contexts json_ld none =
    "JSONLDSchemaW3CCredential2018" ∷ "JSONLDSchemaIden3Credential" ∷ json_ld ∷ []
contexts json_ld (some s) =
    "JSONLDSchemaW3CCredential2018" ∷ "JSONLDSchemaIden3Credential" ∷ json_ld
    ∷ "JSONLDSchemaIden3DisplayMethod" ∷ []

-- newVerifiableCredential. A context and a type stand by the names of their constants.
unfoldable pub new_verifiable_credential :
    CreateCalls → Request → ℕ → String → ℕ → Result CreateError Vc
new_verifiable_credential c req id json_ld nonce = do
  subject ← normal_subject c.formats req.subject_id
  state ← c.latest_state
  status ← c.revocation_status nonce state req.status_type
  ok (record {
    id = id;
    context = contexts json_ld req.display_method;
    types = "TypeW3CVerifiableCredential" ∷ req.schema_type ∷ [];
    expiration = req.expiration;
    issuance_date = c.now;
    subject_id = subject;
    subject_type = req.schema_type;
    attributes = req.attributes;
    issuer = req.did;
    schema = req.schema;
    status = status;
    refresh_service = req.refresh_service;
    display_method = req.display_method;
  })

-- The errors of Process, as CreateCredential returns them
abbrev pub process_error : ProcessError → CreateError
process_error parse_error = parse_claim
process_error validate_error = invalid_credential_subject
process_error load_error = loading_schema
process_error (other n) = outside n

-- The steps of CreateCredential up to the credential: the guards, the nonce, the schema with its
-- context, the id and the type
unfoldable pub prepare_vc : CreateCalls → Request → Result CreateError (Vc × ℕ × ℕ × String)
prepare_vc c req = do
  map_err guarded (guard_create_claim_request c.formats req)
  nonce ← or_call req.rev_nonce c.random_nonce
  schema ← map_err (λ _. loading_schema) c.load_schema
  metadata ← or_err schema process_schema
  json_ld ← or_err metadata json_ld_context
  id ← or_call req.claim_id c.new_uuid
  c.load_type json_ld req.schema_type
  vc ← new_verifiable_credential c req id json_ld nonce
  ok (vc, id, nonce, json_ld)

-- setSignature, where a signature is asked for
abbrev pub signature : CreateCalls → Bool → ℕ → Result CreateError (Option ℕ)
signature c true core = c.sign core >>= λ proof. ok (some proof)
signature c false core = ok none

-- The encrypted data of setVC
unfoldable pub encrypted : CreateCalls → Option ℕ → Vc → Result CreateError (Option ℕ)
encrypted c none vc = ok none
encrypted c (some key) vc = c.encrypt key vc >>= λ data_. ok (some data_)

abbrev pub unless_encrypted : {A : Type 0} → Option ℕ → A → Option A
unless_encrypted none a = some a
unless_encrypted (some key) a = none

abbrev pub if_encrypted : {A : Type 0} → Option ℕ → A → Option A
if_encrypted none a = none
if_encrypted (some key) a = some a

-- The claim of CreateCredential
unfoldable pub claim_of : CreateCalls → Request → ℕ → Vc → String → ℕ → Result CreateError NewClaim
claim_of c req id vc json_ld core = do
  claimed ← c.from_claimer core
  proof ← signature c req.signature_proof core
  secret ← encrypted c req.encryption_key vc
  status ← c.set_status vc.status
  ok (record {
    id = id;
    identifier = req.did;
    issuer = req.did;
    schema_url = req.schema;
    schema_type = req.schema_type;
    claimed = claimed;
    core_claim = core;
    signature_proof = proof;
    data_ = unless_encrypted req.encryption_key vc;
    encrypted_data = secret;
    context_url = if_encrypted req.encryption_key json_ld;
    credential_status = status;
    mt_proof = req.mt_proof;
    link_id = req.link_id;
    created_at = vc.issuance_date;
  })

-- CreateCredential
unfoldable pub create_credential : CreateCalls → Request → Result CreateError NewClaim
create_credential c req = do
  (vc, id, nonce, json_ld) ← prepare_vc c req
  core ← map_err process_error (
      c.process vc (record {
        rev_nonce = nonce;
        merklized_root_position =
            define_merklized_root_position c.has_serialization c.default_position
              req.merklized_root_position;
        version = req.version;
        subject_position = req.subject_position;
      }))
  claim_of c req id vc json_ld core

-- The claims that were saved and the events that were sent: the claim's id and its issuer
pub record Issued : Type 0 where
  pub claims : List NewClaim
  pub events : List (ℕ × String)

abbrev pub with_event : Bool → Bool → NewClaim → Issued → Issued
with_event true true claim db = record db { events = (claim.id, claim.issuer) ∷ db.events }
with_event true false claim db = db
with_event false is_sent claim db = db

-- Save: the statement's answer is `saved`, and `is_sent` says whether the event could be sent, whose
-- error is only logged.
unfoldable pub save_credential :
    CreateCalls
    → (NewClaim → Result CreateError ℕ)
    → Bool
    → Request
    → Issued
    → Result CreateError NewClaim × Issued
save_credential c saved is_sent req db = elim (create_credential c req) [
  | err e ↦ (err e, db)
  | ok claim ↦ elim (saved claim) [
    | err e ↦ (err e, db)
    | ok id ↦
        let stored : NewClaim = record claim { id = id } in
        (
          ok stored,
          with_event req.signature_proof is_sent stored (record db { claims = stored ∷ db.claims }),
        )
  ]
]

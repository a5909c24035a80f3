-- ===== src/Credential/LaterTests.antt =====
-- The creation of credentials and the answers to wallets at concrete values.
use e_native_issuer.Common.{ℕ, str_eq, ◌≡◌, refl, true, false, none, some, [], ◌∷◌, ok, err}
use e_native_issuer.Credential.{Claim, Store}
use e_native_issuer.Credential.Repository.{get_by_id_and_issuer}
use e_native_issuer.Credential.Guard.{
  text, Request, Formats, check_refresh_service, guard_refresh_service, guard_display_method,
  guard_subject, guard_create_claim_request, refresh_service_lacks_expiration_time,
}
use e_native_issuer.Credential.Document.{CreateCalls, Claimed, NewClaim, Vc}
use e_native_issuer.Credential.Create.{
  normal_subject, define_merklized_root_position, new_verifiable_credential, prepare_vc, encrypted,
  claim_of, create_credential, save_credential,
}
use e_native_issuer.Credential.Created.{Made, create_credential-Made}
use e_native_issuer.Credential.Agent.{
  credential_fetch_request, credential_issuance_response, AgentRequest, Message, MediaTypeManager,
  AgentCalls, allow_media_type, get_agent_credential, answer_by, agent,
}
use e_native_issuer.Credential.Holder.{Given, agent-Given}

abbrev formats : Formats
formats = record { is_request_uri = λ s. str_eq s "https://s"; parse_did = λ d. some d }

abbrev request : Request
request = record {
  did = "i";
  claim_id = none;
  schema = "https://s";
  subject_id = text "u";
  attributes = 3;
  expiration = none;
  schema_type = "Kyc";
  version = 0;
  subject_position = "";
  merklized_root_position = "";
  signature_proof = true;
  mt_proof = false;
  link_id = none;
  status_type = 0;
  refresh_service = none;
  rev_nonce = none;
  display_method = none;
  encryption_key = none;
}

-- A refresh service needs an expiration, and that is said before a malformed schema.
guard_test :
    guard_create_claim_request formats (record request {
      schema = "s";
      refresh_service = some (record { id = "r"; is_supported = true });
    })
    ≡ err refresh_service_lacks_expiration_time
unfolding guard_create_claim_request check_refresh_service
guard_test = refl

abbrev claimed : Claimed
claimed = record {
  schema_hash = "h";
  other_identifier = "u";
  expiration = 0;
  version = 0;
  rev_nonce = 9;
  h_index = "x";
}

abbrev calls : CreateCalls
calls = record {
  formats = formats;
  random_nonce = ok 9;
  load_schema = ok (some (some "https://c"));
  new_uuid = ok 5;
  load_type = λ url type_name. ok tt;
  latest_state = ok 1;
  revocation_status = λ n state type_name. ok 2;
  now = 40;
  process = λ vc options. ok 77;
  has_serialization = false;
  default_position = "index";
  from_claimer = λ core. ok claimed;
  sign = λ core. ok 6;
  encrypt = λ key vc. ok 7;
  set_status = λ status. ok status;
}

abbrev vc : Vc
vc = record {
  id = 5;
  context = "JSONLDSchemaW3CCredential2018" ∷ "JSONLDSchemaIden3Credential" ∷ "https://c" ∷ [];
  types = "TypeW3CVerifiableCredential" ∷ "Kyc" ∷ [];
  expiration = none;
  issuance_date = 40;
  subject_id = text "u";
  subject_type = "Kyc";
  attributes = 3;
  issuer = "i";
  schema = "https://s";
  status = 2;
  refresh_service = none;
  display_method = none;
}

abbrev made : NewClaim
made = record {
  id = 5;
  identifier = "i";
  issuer = "i";
  schema_url = "https://s";
  schema_type = "Kyc";
  claimed = claimed;
  core_claim = 77;
  signature_proof = some 6;
  data_ = some vc;
  encrypted_data = none;
  context_url = none;
  credential_status = 2;
  mt_proof = false;
  link_id = none;
  created_at = 40;
}

create_credential-Made_example : Made calls request made
unfolding create_credential prepare_vc guard_create_claim_request check_refresh_service
    guard_refresh_service guard_display_method guard_subject new_verifiable_credential
    normal_subject define_merklized_root_position claim_of encrypted
create_credential-Made_example = create_credential-Made calls request made refl

save_test :
    (save_credential calls
      (λ claim. ok 8)
      true
      request
      (record { claims = []; events = [] })).1.events
    ≡ (8, "i") ∷ []
unfolding save_credential create_credential prepare_vc guard_create_claim_request
    check_refresh_service guard_refresh_service guard_display_method guard_subject
    new_verifiable_credential normal_subject define_merklized_root_position claim_of encrypted
save_test = refl

abbrev held : Claim
held = record {
  id = 4;
  identifier = some "i";
  issuer = "i";
  other_identifier = "u";
  schema_hash = "h";
  rev_nonce = 9;
  revoked = false;
  mtp_proof = none;
  core_claim = 77;
  identity_state = none;
  mtp = false;
  link_id = none;
  created_at = 40;
  columns = 0;
}

abbrev db : Store ℕ
db = record { claims = held ∷ []; revocations = []; connections = []; states = []; trees = [] }

abbrev agent_calls : AgentCalls
agent_calls = record {
  exists = λ issuer. ok true;
  urn_id = λ body. none;
  uuid_id = λ body. some body;
  is_fetch_body = λ body. true;
  nonce_of = λ body. none;
  has_encrypted_data = λ claim. false;
  credential_body = λ claim. ok claim.core_claim;
  encrypted_body = λ claim. ok 0;
  status_body = λ status. ok 0;
  revocation_proof = λ n root. ok false;
  claim_fault = none;
  state_fault = none;
}

abbrev manager : MediaTypeManager
manager = record { enabled = false; allow_list = λ kind. none }

abbrev asking : AgentRequest
asking = record {
  body = 4;
  thread_id = "t";
  issuer_did = some "i";
  user_did = some "u";
  kind = credential_fetch_request;
}

abbrev message : Message
message = record {
  kind = credential_issuance_response;
  thread_id = "t";
  body = 77;
  from = "i";
  to = "u";
}

agent-Given_example : Given agent_calls message asking "i" "u" db
unfolding agent answer_by get_agent_credential allow_media_type get_by_id_and_issuer
agent-Given_example =
    agent-Given agent_calls manager asking "m" "i" "u" db message refl refl refl refl

-- ===== src/Credential/Agent.antt =====
-- What a wallet asks of issuer-node/internal/core/services/claims.go: Agent, getAgentCredential,
-- getRevocationStatus and GetRevocationStatus, with
-- issuer-node/internal/core/services/mediatype_manager.go. JSON bodies are numbers.
use e_native_issuer.Common.{
  ℕ, String, str_eq, Bool, true, false, not, ◌||◌, Option, none, some, List, any, if◌then◌else◌,
  Result, ok, err, or_err, map_err, reject, ◌>>=◌, ◌>>◌,
}
use e_native_issuer.IdentityStates
use e_native_issuer.IdentityStates.{get_latest_state_by_identifier}
use e_native_issuer.Credential.{Claim, Store}
use e_native_issuer.Credential.Repository.{get_by_id_and_issuer}
use e_native_issuer.Credential

-- The types of messages
pub data Kind : Type 0 where
  credential_fetch_request revocation_status_request : Kind
  credential_issuance_response encrypted_credential_issuance_response : Kind
  revocation_status_response : Kind
  other_kind : ℕ → Kind

pub data AgentError : Type 0 where
  no_sender no_receiver unsupported_media_type identity_not_found invalid_type : AgentError
  invalid_body invalid_claim_id not_of_sender : AgentError
  claim_error : Credential.Error → AgentError
  state_error : IdentityStates.Error → AgentError
  other_error : ℕ → AgentError

-- AgentRequest
pub record AgentRequest : Type 0 where
  pub body : ℕ
  pub thread_id : String
  pub issuer_did : Option String
  pub user_did : Option String
  pub kind : Kind

-- BasicMessage
pub record Message : Type 0 where
  pub kind : Kind
  pub thread_id : String
  pub body : ℕ
  pub from : String
  pub to : String

-- MediaTypeManager: the media types of each type of message, in a list
pub record MediaTypeManager : Type 0 where
  pub enabled : Bool
  pub allow_list : Kind → Option (List String)

-- AllowMediaType
unfoldable pub allow_media_type : MediaTypeManager → Kind → String → Bool
allow_media_type m kind media = if not m.enabled then true else elim (m.allow_list kind) [
  | none ↦ false
  | some allowed ↦ any (λ v. str_eq v "*" || str_eq v media) allowed
]

-- RevocationStatus: the state's text, its tree root, and MTP.Existence
pub record Status : Type 0 where
  pub state : String
  pub revocation_tree_root : Option String
  pub existence : Bool

-- What the calls answer: Exists of the identity service, the two readings of a claim's id in a body,
-- the nonce in a body, whether a claim has encrypted data only, the body of an answer, and the proof of
-- a nonce against a root.
pub record AgentCalls : Type 0 where
  pub exists : String → Result AgentError Bool
  pub urn_id : ℕ → Option ℕ
  pub uuid_id : ℕ → Option ℕ
  pub is_fetch_body : ℕ → Bool
  pub nonce_of : ℕ → Option ℕ
  pub has_encrypted_data : Claim → Bool
  pub credential_body : Claim → Result AgentError ℕ
  pub encrypted_body : Claim → Result AgentError ℕ
  pub status_body : Status → Result AgentError ℕ
  pub revocation_proof : ℕ → String → Result AgentError Bool
  pub claim_fault : Option Credential.Error
  pub state_fault : Option IdentityStates.Error

module _ (c : AgentCalls) where
  -- The proof of GetRevocationStatus: without a root of revocations, no nonce is in the tree.
  abbrev pub existence_in : ℕ → Option String → Result AgentError Bool
  existence_in n none = ok false
  existence_in n (some root) = c.revocation_proof n root

  -- The id in a request: a URN, or else a UUID
  abbrev pub requested_id : ℕ → Result AgentError ℕ
  requested_id body = elim (c.urn_id body) [
    | some id ↦ ok id
    | none ↦ or_err (c.uuid_id body) invalid_claim_id
  ]

  -- The body of an answer to a request for a credential, with its type
  abbrev pub issuance : Claim → Result AgentError (Kind × ℕ)
  issuance claim =
      if c.has_encrypted_data claim
      then (c.encrypted_body claim >>= λ body. ok (encrypted_credential_issuance_response, body))
      else (c.credential_body claim >>= λ body. ok (credential_issuance_response, body))

module _ {T : Type 0} (c : AgentCalls) where
  -- GetRevocationStatus
  unfoldable pub get_revocation_status : String → ℕ → Store T → Result AgentError Status
  get_revocation_status issuer n db = do
    state ← map_err state_error (get_latest_state_by_identifier c.state_fault issuer db.states)
    existence ← existence_in c n state.revocation_tree_root
    ok (record {
      state = state.state;
      revocation_tree_root = state.revocation_tree_root;
      existence = existence;
    })

  -- getAgentCredential
  unfoldable pub get_agent_credential :
      AgentRequest → String → String → Store T → Result AgentError Message
  get_agent_credential req issuer user db = do
    reject (not (c.is_fetch_body req.body)) invalid_body
    id ← requested_id c req.body
    claim ← map_err claim_error (get_by_id_and_issuer c.claim_fault issuer id db)
    reject (not (str_eq claim.other_identifier user)) not_of_sender
    answer ← issuance c claim
    ok (record {
      kind = answer.0;
      thread_id = req.thread_id;
      body = answer.1;
      from = issuer;
      to = user;
    })

  -- getRevocationStatus
  unfoldable pub answer_revocation_status :
      AgentRequest → String → String → Store T → Result AgentError Message
  answer_revocation_status req issuer user db = do
    n ← or_err (c.nonce_of req.body) invalid_body
    status ← get_revocation_status issuer n db
    body ← c.status_body status
    ok (record {
      kind = revocation_status_response;
      thread_id = req.thread_id;
      body = body;
      from = issuer;
      to = user;
    })

  -- The switch of Agent
  unfoldable pub answer_by :
      Kind → AgentRequest → String → String → Store T → Result AgentError Message
  answer_by credential_fetch_request req issuer user db = get_agent_credential req issuer user db
  answer_by revocation_status_request req issuer user db =
      answer_revocation_status req issuer user db
  answer_by credential_issuance_response req issuer user db = err invalid_type
  answer_by encrypted_credential_issuance_response req issuer user db = err invalid_type
  answer_by revocation_status_response req issuer user db = err invalid_type
  answer_by (other_kind n) req issuer user db = err invalid_type

  -- Agent
  unfoldable pub agent :
      MediaTypeManager → AgentRequest → String → Store T → Result AgentError Message
  agent manager req media db = do
    user ← or_err req.user_did no_sender
    issuer ← or_err req.issuer_did no_receiver
    reject (not (allow_media_type manager req.kind media)) unsupported_media_type
    there ← c.exists issuer
    reject (not there) identity_not_found
    answer_by req.kind req issuer user db

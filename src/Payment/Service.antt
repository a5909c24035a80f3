-- ===== src/Payment/Service.antt =====
-- CreatePaymentRequest and VerifyPayment of issuer-node/internal/core/services/payment.go.
use e_native_issuer.Common.{
  ℕ, String, Bool, true, false, not, ◌&&◌, Option, none, some, List, [], ◌∷◌, str_eq, if◌then◌else◌,
  some_and, Result, ok, err, ◌>>=◌, ◌>>◌, reject, or_err,
}
use e_native_issuer.Payment.{
  Status, canceled, not_verified, ChainStatus, cancelled, unknown, Kind, solana_v1, solana_spl_v1,
  ChainConfig, ConfigItem, Item, Row, Request, Db, Error, not_configured, user_does_not_match,
}
use e_native_issuer.Payment.Repository.{
  save_payment_request, get_payment_request_by_id, get_payment_request_item,
  update_payment_request_status,
}
use e_native_issuer.Payment.Options.{get_payment_option_by_id}
use e_native_issuer.Payment.Build.{SigningCalls, payment_info}
use e_native_issuer.Payment.Chain.{
  EthClient, SolanaClient, verify_payment_on_blockchain, verify_solana_payment_on_blockchain,
}

-- payments.Config: a map from the ids of the configured options
abbrev pub Settings : Type 0
Settings = ℕ → Option ChainConfig

-- CreatePaymentRequestReq
pub record CreateReq : Type 0 where
  pub issuer_did : String
  pub user_did : String
  pub option_id : ℕ
  pub schema_id : ℕ
  pub description : String

-- The calls of CreatePaymentRequest; `nonce` and `item_id` are the random numbers drawn for the
-- n-th item.
pub record CreateCalls : Type 0 where
  pub now : ℕ
  pub new_id : ℕ
  pub option_fault : Option Error
  pub schema_by_id : String → ℕ → Result Error ℕ
  pub nonce : ℕ → Result Error ℕ
  pub item_id : ℕ → ℕ
  pub signing : SigningCalls
  pub save_fault : Option Error

-- One round of the loop over the items of the option
unfoldable pub new_item : Settings → CreateCalls → ℕ → ConfigItem → Result Error Item
new_item settings c n item = do
  setting ← or_err (settings item.payment_option_id) not_configured
  nonce ← c.nonce n
  info ← payment_info c.signing setting item nonce
  ok (record {
    id = c.item_id n;
    nonce = nonce;
    payment_request_id = c.new_id;
    payment_option_id = item.payment_option_id;
    signing_key_id = item.signing_key_id;
    payment = info;
  })

unfoldable pub new_items : Settings → CreateCalls → ℕ → List ConfigItem → Result Error (List Item)
new_items settings c n [] = ok []
new_items settings c n (item ∷ rest) = do
  i ← new_item settings c n item
  is ← new_items settings c (ℕ.suc n) rest
  ok (i ∷ is)

unfoldable pub new_row : CreateCalls → CreateReq → ℕ → Row
new_row c q schema = record {
  id = c.new_id;
  schema_id = some schema;
  description = q.description;
  issuer_did = q.issuer_did;
  user_did = q.user_did;
  payment_option_id = q.option_id;
  created_at = c.now;
  modified_at = c.now;
  status = not_verified;
  paid_nonce = none;
}

-- CreatePaymentRequest up to the write
unfoldable pub prepare_request : Settings → CreateCalls → CreateReq → Db → Result Error Request
prepare_request settings c q db = do
  option ← get_payment_option_by_id c.option_fault (some q.issuer_did) q.option_id db
  schema ← c.schema_by_id q.issuer_did q.schema_id
  items ← new_items settings c 0 option.config
  ok (record { row = new_row c q schema; payments = items })

-- CreatePaymentRequest
unfoldable pub create_payment_request :
    Settings → CreateCalls → CreateReq → Db → Result Error Request × Db
create_payment_request settings c q db = elim (prepare_request settings c q db) [
  | err e ↦ (err e, db)
  | ok request ↦
      let (r, after) = save_payment_request c.save_fault request db in
      elim r [ err e ↦ (err e, after) | ok _ ↦ (ok request, after) ]
]

-- The calls of VerifyPayment. `eth_client` is the client and the contract for a chain.
pub record VerifyCalls : Type 0 where
  pub now : ℕ
  pub item_fault : Option Error
  pub request_fault : Option Error
  pub eth_client : ChainConfig → Result Error EthClient
  pub cluster : ℕ → SolanaClient
  pub get_eth_signer_address : String → Result Error String
  pub get_sol_signer_address : String → Result Error String
  pub update_fault : Option Error

abbrev pub is_solana : Kind → Bool
is_solana solana_v1 = true
is_solana solana_spl_v1 = true
is_solana _ = false

-- The question to the chain of a setting
unfoldable pub chain_status :
    VerifyCalls → ChainConfig → String → ℕ → Option String → Result Error ChainStatus
chain_status c setting key nonce tx =
    if is_solana setting.kind
    then (c.get_sol_signer_address key >>= λ signer.
        verify_solana_payment_on_blockchain c.cluster setting.chain_id setting.payment_rails signer
          nonce tx)
    else (c.eth_client setting >>= λ client. c.get_eth_signer_address key >>= λ signer.
        verify_payment_on_blockchain client signer nonce tx)

-- getPaymentRequestStatusFromBlockChainStatus
unfoldable pub request_status : ChainStatus → Status
request_status ChainStatus.pending = Status.pending
request_status ChainStatus.success = Status.success
request_status cancelled = canceled
request_status ChainStatus.failed = Status.failed
request_status unknown = not_verified

-- What VerifyPayment reads and asks before it writes. The source's error results also carry a
-- status, which is left out.
unfoldable pub checked :
    Settings
    → VerifyCalls
    → String
    → ℕ
    → Option String
    → Option String
    → Db
    → Result Error (Request × ChainStatus)
checked settings c issuer nonce tx user db = do
  item ← get_payment_request_item c.item_fault issuer nonce db
  request ← get_payment_request_by_id c.request_fault issuer item.payment_request_id db
  reject (some_and user (λ u. not (str_eq u request.row.user_did))) user_does_not_match
  setting ← or_err (settings item.payment_option_id) not_configured
  status ← chain_status c setting item.signing_key_id nonce tx
  ok (request, status)

abbrev pub status_eq : Status → Status → Bool
status_eq canceled canceled = true
status_eq Status.failed Status.failed = true
status_eq not_verified not_verified = true
status_eq Status.pending Status.pending = true
status_eq Status.success Status.success = true
status_eq _ _ = false

-- The nonce that goes with a status
unfoldable pub paid_nonce_of : Status → ℕ → Option ℕ
paid_nonce_of status nonce = if status_eq status Status.success then some nonce else none

unfoldable pub record_status :
    VerifyCalls → String → ℕ → Request → ChainStatus → Db → Result Error (ChainStatus × ℕ) × Db
record_status c issuer nonce request status db =
    let new = request_status status in
    let (r, after) =
      update_payment_request_status c.update_fault c.now issuer request.row.id new
        (paid_nonce_of new nonce) db in
    if not (status_eq new request.row.status) && not (status_eq request.row.status Status.success)
    then (elim r [ err e ↦ (err e, after) | ok _ ↦ (ok (status, request.row.id), after) ])
    else (ok (status, request.row.id), db)

-- VerifyPayment
unfoldable pub verify_payment :
    Settings
    → VerifyCalls
    → String
    → ℕ
    → Option String
    → Option String
    → Db
    → Result Error (ChainStatus × ℕ) × Db
verify_payment settings c issuer nonce tx user db =
    elim (checked settings c issuer nonce tx user db) [
      | err e ↦ (err e, db)
      | ok (request, status) ↦ record_status c issuer nonce request status db
    ]

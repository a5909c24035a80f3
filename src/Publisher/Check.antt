-- ===== src/Publisher/Check.antt =====
-- CheckTransactionStatus and checkStatus of issuer-node/internal/gateways/publisher.go, the job
-- that looks after transactions whose goroutine is gone, with ResolverPrefix of
-- issuer-node/internal/common/common.go.
use e_native_issuer.Common.{
  ℕ, ◌+◌, ◌/◌, ◌^◌, String, Bool, false, Option, none, some, List, [], ◌∷◌, ◌++◌, Bytes, codes,
  split, ltb, if◌then◌else◌, Result, ok, err, ◌>>=◌, or_err,
}
use e_native_issuer.IdentityStates.{
  IdentityState, Table, Error, transacted, state_is_being_processed, dereference,
  invalid_identifier, get_states_by_status,
}
use e_native_issuer.Publisher.Node.{Node, Identity}
use e_native_issuer.Publisher.Receipt.{Receipt, ReceiptCalls, update_identity_state_tx_status}

-- The third and the fourth part of a DID, with the colon between them.
abbrev chain_and_network : List Bytes → Result Error Bytes
chain_and_network (method ∷ name ∷ chain ∷ network ∷ _) = ok (chain ++ b':' ∷ network)
chain_and_network _ = err invalid_identifier

-- ResolverPrefix, and GetResolverPrefix of the identity
unfoldable pub resolver_prefix : String → Result Error Bytes
resolver_prefix did = chain_and_network (split b':' (codes did))

-- The calls of checkStatus. `new_identity_from_identifier` is given nothing where the identifier
-- of the state could not be parsed.
pub record CheckCalls : Type 0 where
  pub parse_did : String → Result Error String
  pub new_identity_from_identifier : Option String → Result Error Identity
  pub get_transaction_receipt_by_id : Identity → String → Result Error Receipt
  pub get_confirmation_block_count : Bytes → Result Error ℕ
  pub check_confirmation : Identity → Receipt → ℕ → Result Error Bool
  pub receipt_calls : ReceiptCalls

abbrev as_option : Result Error String → Option String
as_option (ok did) = some did
as_option (err e) = none

unfoldable pub identity_of_state :
    CheckCalls → Option Identity → IdentityState → Result Error Identity
identity_of_state c (some identity) s = ok identity
identity_of_state c none s = c.new_identity_from_identifier (as_option (c.parse_did s.identifier))

-- checkStatus up to the update of the state. A state with no transaction, on which the source
-- panics, is the error `dereference`.
unfoldable pub confirmed_receipt :
    CheckCalls → Option Identity → IdentityState → Result Error Receipt
confirmed_receipt c given s = do
  identity ← identity_of_state c given s
  tx_id ← or_err s.tx_id dereference
  receipt ← c.get_transaction_receipt_by_id identity tx_id
  prefix ← resolver_prefix identity.identifier
  count ← c.get_confirmation_block_count prefix
  enough ← c.check_confirmation identity receipt count
  if enough then ok receipt else err state_is_being_processed

unfoldable pub check_status :
    CheckCalls → Option Identity → IdentityState → Node → Result Error (Unit {0}) × Node
check_status c given s node = elim (confirmed_receipt c given s) [
  | err e ↦ (err e, node)
  | ok receipt ↦ update_identity_state_tx_status c.receipt_calls s receipt node
]

-- t.Unix(), for a time in nanoseconds
abbrev unix : ℕ → ℕ
unix t = t / 10 ^ 9

-- The calls of one run of the job; each checked state has calls of its own.
pub record JobCalls : Type 0 where
  pub now : ℕ
  pub new_uuid : Result Error (Unit {0})
  pub states_fault : Option Error
  pub parse_did : String → Result Error String
  pub get_confirmation_timeout : Bytes → Result Error ℕ
  pub check_calls : IdentityState → CheckCalls

abbrev pub timeout_of : JobCalls → IdentityState → Result Error ℕ
timeout_of c s = do
  did ← c.parse_did s.identifier
  prefix ← resolver_prefix did
  c.get_confirmation_timeout prefix

-- Whether a state has waited for longer than the timeout of its network.
unfoldable pub is_due : JobCalls → IdentityState → Bool
is_due c s = elim (timeout_of c s) [
  | err e ↦ false
  | ok timeout ↦ ltb (unix (s.modified_at + timeout)) (unix c.now)
]

unfoldable pub to_check : JobCalls → Table → Table
to_check c [] = []
to_check c (s ∷ rest) = if is_due c s then s ∷ to_check c rest else to_check c rest

-- The second loop of the job: an error is logged, and a panic ends the run.
unfoldable pub check_all : JobCalls → Option Identity → List IdentityState → Node → Node
check_all c given [] node = node
check_all c given (s ∷ rest) node =
    let (r, after) = check_status (c.check_calls s) given s node in
    let go_on = check_all c given rest after in
    elim r [ err dereference ↦ after | err _ ↦ go_on | ok _ ↦ go_on ]

unfoldable pub check_transaction_status : JobCalls → Option Identity → Node → Node
check_transaction_status c given node = elim c.new_uuid [
  | err e ↦ node
  | ok _ ↦ elim (get_states_by_status c.states_fault transacted node.states) [
    | err e ↦ node
    | ok states ↦ check_all c given (to_check c states) node
  ]
]

-- ===== src/Payment/Chain.antt =====
-- How a payment is looked up on its chain: issuer-node/internal/core/services/payment.go. What the
-- clients of the chains answer is given by records.
use e_native_issuer.Common.{
  ℕ, ◌%◌, ◌^◌, List, String, Bool, true, false, Option, none, some, str_eq, ◌==◌, if◌then◌else◌,
  Result, ok, err, ◌>>=◌,
}
use e_native_issuer.Payment.{
  ChainStatus, pending, cancelled, success, failed, unknown, Error, unsupported_chain, no_account,
}

-- The client of an Ethereum chain and the payment contract. `transaction` is GetTransactionByID:
-- nothing where its error is "not found", else whether the transaction is pending; `receipt`
-- is the status of the receipt.
pub record EthClient : Type 0 where
  pub transaction : String → Result Error (Option Bool)
  pub receipt : String → Result Error ℕ
  pub is_payment_done : String → ℕ → Result Error Bool

-- handlePaymentTransaction
unfoldable pub handle_payment_transaction : EthClient → String → Result Error ChainStatus
handle_payment_transaction c tx = do
  found ← c.transaction tx
  elim found [
    | none ↦ ok cancelled
    | some true ↦ ok pending
    | some false ↦ do status ← c.receipt tx; ok (if status == 1 then success else failed)
  ]

-- txID != nil && *txID != ""
abbrev pub provided : Option String → Option String
provided none = none
provided (some tx) = if str_eq tx "" then none else some tx

abbrev pub is_success : ChainStatus → Bool
is_success success = true
is_success other = false

-- The question to the contract. An error of it is no error of the call.
abbrev pub contract_status : Result Error Bool → ChainStatus
contract_status (err e) = pending
contract_status (ok true) = success
contract_status (ok false) = failed

-- verifyPaymentOnBlockchain
unfoldable pub verify_payment_on_blockchain :
    EthClient → String → ℕ → Option String → Result Error ChainStatus
verify_payment_on_blockchain c signer nonce tx = elim (provided tx) [
  | none ↦ ok (contract_status (c.is_payment_done signer nonce))
  | some t ↦ do
    status ← handle_payment_transaction c t
    ok (if is_success status then contract_status (c.is_payment_done signer nonce) else status)
]

-- The confirmation status of a signature, without an error of the transaction.
pub data Confirmation : Type 0 where
  processed confirmed finalized other : Confirmation

-- The client of a Solana cluster: `signature_status` is nothing where the ledger has no record of
-- the signature, and otherwise whether the transaction failed, with its confirmation status;
-- `signature_status_again` is what it says when it is asked once more; `payment_record` is the
-- byte `is_paid` of the account of a program, a signer and a nonce, where it is there.
pub record SolanaClient : Type 0 where
  pub public_key : String → Result Error (List ℕ)
  pub signature_status : String → Result Error (Option (Bool × Confirmation))
  pub signature_status_again : String → Result Error (Option (Bool × Confirmation))
  pub payment_record : List ℕ → List ℕ → ℕ → Result Error (Option ℕ)

abbrev pub confirmation_status : Confirmation → ChainStatus
confirmation_status processed = pending
confirmation_status confirmed = pending
confirmation_status finalized = success
confirmation_status other = unknown

-- handleSolanaPaymentTransaction
unfoldable pub handle_solana_payment_transaction :
    Result Error (Option (Bool × Confirmation)) → Result Error ChainStatus
handle_solana_payment_transaction answer = do
  found ← answer
  elim found [
    | none ↦ ok cancelled
    | some (true, status) ↦ ok failed
    | some (false, status) ↦ ok (confirmation_status status)
  ]

-- The three clusters that the code knows.
abbrev pub solana_chain : ℕ → Bool
solana_chain id = if id == 103 then true else if id == 102 then true else id == 101

-- The account of the payment, and then the transaction again or the record.
unfoldable pub solana_record :
    SolanaClient → List ℕ → String → ℕ → Option String → Result Error ChainStatus
solana_record c program signer nonce tx = do
  key ← c.public_key signer
  account ← c.payment_record program key (nonce % 2 ^ 64)
  elim account [
    | none ↦ err no_account
    | some is_paid ↦ elim (provided tx) [
      | some t ↦ handle_solana_payment_transaction (c.signature_status_again t)
      | none ↦ ok (if is_paid == 0 then unknown else success)
    ]
  ]

-- The transaction first, where there is one: only its success leads to the account.
abbrev pub solana_checked :
    SolanaClient → List ℕ → String → ℕ → Option String → Result Error ChainStatus
solana_checked c program signer nonce tx =
    let read = solana_record c program signer nonce tx in
    elim (provided tx) [
      | none ↦ read
      | some t ↦ do
        status ← handle_solana_payment_transaction (c.signature_status t)
        (if is_success status then read else ok status)
    ]

-- verifySolanaPaymentOnBlockchain. `cluster` is the client for the chain id.
unfoldable pub verify_solana_payment_on_blockchain :
    (ℕ → SolanaClient) → ℕ → String → String → ℕ → Option String → Result Error ChainStatus
verify_solana_payment_on_blockchain cluster chain rails signer nonce tx =
    let c = cluster chain in
    let answer = (c.public_key rails >>= λ program. solana_checked c program signer nonce tx) in
    if solana_chain chain then answer else err unsupported_chain

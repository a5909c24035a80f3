-- ===== src/Payment.antt =====
-- Payments for credentials: issuer-node/internal/core/domain/payment.go, the statuses of
-- issuer-node/internal/core/ports/payment_service.go, the settings of
-- issuer-node/internal/payments/settings.go, and the tables. Ids, nonces, amounts and times are
-- numbers; DIDs, keys and addresses are opaque texts.
pub mod Repository
pub mod Requests
pub mod Options
pub mod Chain
pub mod Build
pub mod Service
pub mod Rows
pub mod Settled
pub mod Found
pub mod Ledger
pub mod Verified
pub mod Stored
pub mod Removed
pub mod Listed
pub mod Recovery
pub mod Solana
pub mod Example
pub mod Tests
use e_native_issuer.Common.{ℕ, String, Bool, true, false, Option, List}

-- PaymentRequestStatus
pub data Status : Type 0 where
  canceled failed not_verified pending success : Status

-- BlockchainPaymentStatus
pub data ChainStatus : Type 0 where
  pending cancelled success failed unknown : ChainStatus

-- protocol.PaymentRequestType, as far as the code tells types apart
pub data Kind : Type 0 where
  rails_v1 rails_erc20_v1 solana_v1 solana_spl_v1 other : Kind

-- ChainConfig, with the parts of PaymentOptionConfig that the code reads
pub record ChainConfig : Type 0 where
  pub chain_id : ℕ
  pub payment_rails : String
  pub kind : Kind
  pub contract_address : String
  pub features : List String

-- PaymentOptionConfigItem
pub record ConfigItem : Type 0 where
  pub payment_option_id : ℕ
  pub amount : ℕ
  pub recipient : String
  pub signing_key_id : String
  pub expiration : Option ℕ

-- PaymentOption
pub record PaymentOption : Type 0 where
  pub id : ℕ
  pub issuer_did : String
  pub name : String
  pub description : String
  pub config : List ConfigItem
  pub created_at : ℕ
  pub updated_at : ℕ

-- What a proof of a payment names, of both signature types.
pub record Proof : Type 0 where
  pub proof_value : List ℕ
  pub signer : String
  pub chain_id : ℕ
  pub verifying_contract : String

-- The data of a payment, of the four types of the protocol; the two fields of a token are there
-- for the types of tokens.
pub record Info : Type 0 where
  pub kind : Kind
  pub nonce : ℕ
  pub amount : ℕ
  pub expiration_date : ℕ
  pub recipient : String
  pub token : Option (String × List String)
  pub proof : Proof

-- PaymentRequestItem
pub record Item : Type 0 where
  pub id : ℕ
  pub nonce : ℕ
  pub payment_request_id : ℕ
  pub payment_option_id : ℕ
  pub signing_key_id : String
  pub payment : Info

-- A row of the table `payment_requests`
pub record Row : Type 0 where
  pub id : ℕ
  pub schema_id : Option ℕ
  pub description : String
  pub issuer_did : String
  pub user_did : String
  pub payment_option_id : ℕ
  pub created_at : ℕ
  pub modified_at : ℕ
  pub status : Status
  pub paid_nonce : Option ℕ

-- PaymentRequest: the row and its items. The credentials that it names are left out.
pub record Request : Type 0 where
  pub row : Row
  pub payments : List Item

pub record Db : Type 0 where
  pub options : List PaymentOption
  pub requests : List Row
  pub items : List Item

pub data Error : Type 0 where
  payment_option_not_found payment_request_not_found payment_request_item_not_found : Error
  duplicate null_scanned option_is_referenced : Error
  not_configured unsupported_type unsupported_chain user_does_not_match : Error
  no_account bad_signature : Error
  callee : ℕ → Error

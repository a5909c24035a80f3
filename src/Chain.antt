-- ===== src/Chain.antt =====
-- Access to the blockchains: the client of one network (issuer-node/internal/eth/client.go), the
-- networks that are configured (issuer-node/internal/network/resolver.go), and the gateways that
-- publish a state and follow its transaction
-- (issuer-node/internal/gateways/publisher_gateway.go, issuer-node/internal/gateways/transaction.go).
-- What the node of a network answers is an argument: one answer for each round of a loop.
-- An amount is a natural number; a configured price that is negative, which no check of the code
-- tells from zero, stands as zero.
pub mod Wait
pub mod Fees
pub mod Network
pub mod Gateway
pub mod Abi
pub mod Publish
pub mod Waited
pub mod Priced
pub mod Configured
pub mod Published
pub mod Tests
use e_native_issuer.Common.{ℕ, Bool, Option, Bytes}
use e_native_issuer.Key
use e_native_issuer.Key.{KeyType}

-- ClientConfig. Times are in nanoseconds.
pub record ClientConfig : Type 0 where
  pub receipt_timeout : ℕ
  pub confirmation_timeout : ℕ
  pub confirmation_block_count : ℕ
  pub default_gas_limit : ℕ
  pub min_gas_price : Option ℕ
  pub max_gas_price : Option ℕ
  pub gas_less : Bool

-- The fields of types.Receipt that the code reads
pub record Receipt : Type 0 where
  pub block_number : ℕ
  pub status : ℕ

-- `tip_not_supported` is an error of the node whose text has "eth_maxPriorityFeePerGas not found",
-- `underpriced` one with "transaction underpriced".
pub data Error : Type 0 where
  receipt_not_received block_number_timeout private_key_nil signer_is_read_only : Error
  tip_not_supported underpriced : Error
  client_not_found state_not_changed unsupported_key_type invalid_identifier : Error
  rhs_url_not_found contract_address_not_found : Error
  panics : Error
  key_error : Key.Error → Error
  callee : ℕ → Error

-- The fields of domain.Identity that the gateways read
pub record Identity : Type 0 where
  pub identifier : Bytes
  pub key_type : KeyType

-- ===== src/Payment/Build.antt =====
-- The data of a payment that is asked for: paymentInfo, the two signatures and the two proofs of
-- issuer-node/internal/core/services/payment.go.
use e_native_issuer.Common.{
  ℕ, zero, suc, ◌+◌, ◌%◌, ◌^◌, String, Option, none, some, List, [], ◌∷◌, leb, if◌then◌else◌,
  Result, ok, err, ◌>>=◌,
}
use e_native_issuer.Payment.{
  Kind, rails_v1, rails_erc20_v1, solana_v1, solana_spl_v1, ChainConfig, ConfigItem, Proof, Info,
  Error, unsupported_type,
}

-- apitypes.TypedData, without the constants of the format
pub record TypedData : Type 0 where
  pub kind : Kind
  pub chain_id : ℕ
  pub verifying_contract : String
  pub recipient : String
  pub amount : ℕ
  pub expiration_date : ℕ
  pub nonce : ℕ
  pub token_address : Option String

-- solanaNativePaymentRequest and solanaSplPaymentRequest: public keys of 32 bytes and numbers of
-- 64 bits
pub record SolanaRequest : Type 0 where
  pub chain_id : ℕ
  pub verifying_contract : List ℕ
  pub token_address : Option (List ℕ)
  pub recipient : List ℕ
  pub amount : ℕ
  pub expiration_date : ℕ
  pub nonce : ℕ

-- The types of keys that sign payments
pub data KeyType : Type 0 where
  ethereum ed25519 : KeyType

-- The answers of the key management and of the libraries: base64, the hash of typed data, base58
-- and borsh. `now` is in seconds.
pub record SigningCalls : Type 0 where
  pub now : ℕ
  pub decode_key : String → Result Error String
  pub typed_data_hash : TypedData → Result Error (List ℕ)
  pub public_key : String → Result Error (List ℕ)
  pub serialize : SolanaRequest → Result Error (List ℕ)
  pub sign : KeyType → String → List ℕ → Result Error (List ℕ)
  pub get_eth_signer_address : String → Result Error String
  pub get_sol_signer_address : String → Result Error String

-- signature[64] += 27 where there is such a byte and it is 0 or 1
unfoldable pub fix_recovery_id : ℕ → List ℕ → List ℕ
fix_recovery_id offset [] = []
fix_recovery_id zero (b ∷ signature) = (if leb b 1 then b + 27 else b) ∷ signature
fix_recovery_id (suc offset) (b ∷ signature) = b ∷ fix_recovery_id offset signature

-- The token's address in the typed data of a type
unfoldable pub typed_token : ChainConfig → Result Error (Option String)
typed_token s = elim s.kind [
  | rails_v1 ↦ ok none
  | rails_erc20_v1 ↦ ok (some s.contract_address)
  | _ ↦ err unsupported_type
]

unfoldable pub typed_data : ChainConfig → ConfigItem → ℕ → ℕ → Option String → TypedData
typed_data s item expiration nonce token = record {
  kind = s.kind;
  chain_id = s.chain_id;
  verifying_contract = s.payment_rails;
  recipient = item.recipient;
  amount = item.amount;
  expiration_date = expiration;
  nonce = nonce;
  token_address = token;
}

-- eip712PaymentRequestSignature
unfoldable pub eip712_payment_request_signature :
    SigningCalls → ChainConfig → ConfigItem → ℕ → ℕ → Result Error (List ℕ)
eip712_payment_request_signature c s item expiration nonce = do
  key ← c.decode_key item.signing_key_id
  token ← typed_token s
  bytes ← c.typed_data_hash (typed_data s item expiration nonce token)
  signature ← c.sign ethereum key bytes
  ok (fix_recovery_id 64 signature)

-- The token's key in the request of a type
unfoldable pub solana_token : SigningCalls → ChainConfig → Result Error (Option (List ℕ))
solana_token c s = elim s.kind [
  | solana_v1 ↦ ok none
  | solana_spl_v1 ↦ (do token ← c.public_key s.contract_address; ok (some token))
  | _ ↦ err unsupported_type
]

-- Uint64() of a big number, and the bits of Int64()
abbrev pub uint64 : ℕ → ℕ
uint64 n = n % 2 ^ 64

unfoldable pub solana_request :
    ChainConfig → ConfigItem → ℕ → ℕ → List ℕ → Option (List ℕ) → List ℕ → SolanaRequest
solana_request s item expiration nonce rails token recipient = record {
  chain_id = s.chain_id;
  verifying_contract = rails;
  token_address = token;
  recipient = recipient;
  amount = uint64 item.amount;
  expiration_date = expiration;
  nonce = uint64 nonce;
}

-- ed25519PaymentRequestSignature
unfoldable pub ed25519_payment_request_signature :
    SigningCalls → ChainConfig → ConfigItem → ℕ → ℕ → Result Error (List ℕ)
ed25519_payment_request_signature c s item expiration nonce = do
  recipient ← c.public_key item.recipient
  rails ← c.public_key s.payment_rails
  token ← solana_token c s
  bytes ← c.serialize (solana_request s item expiration nonce rails token recipient)
  key ← c.decode_key item.signing_key_id
  c.sign ed25519 key bytes

-- eip712PaymentProof and solanaEd25519PaymentProof, without the constants of the formats
unfoldable pub payment_proof : ChainConfig → List ℕ → String → Proof
payment_proof s signature signer = record {
  proof_value = signature;
  signer = signer;
  chain_id = s.chain_id;
  verifying_contract = s.payment_rails;
}

-- The data of the four types; the tokens' types carry the token and its features.
unfoldable pub info_of :
    ChainConfig → ConfigItem → ℕ → ℕ → Option (String × List String) → List ℕ → String → Info
unfolding payment_proof
info_of s item expiration nonce token signature signer = record {
  kind = s.kind;
  nonce = nonce;
  amount = item.amount;
  expiration_date = expiration;
  recipient = item.recipient;
  token = token;
  proof = payment_proof s signature signer;
}

-- An hour from now where the option has no expiration
unfoldable pub expiration_of : ℕ → ConfigItem → ℕ
expiration_of now item = elim item.expiration [ none ↦ now + 3600 | some t ↦ t ]

abbrev pub eth_info :
    SigningCalls
    → ChainConfig
    → ConfigItem
    → ℕ
    → ℕ
    → Option (String × List String)
    → Result Error Info
eth_info c s item expiration nonce token = do
  signature ← eip712_payment_request_signature c s item expiration nonce
  signer ← c.get_eth_signer_address item.signing_key_id
  ok (info_of s item expiration nonce token signature signer)

abbrev pub solana_info :
    SigningCalls
    → ChainConfig
    → ConfigItem
    → ℕ
    → ℕ
    → Option (String × List String)
    → Result Error Info
solana_info c s item expiration nonce token = do
  signature ← ed25519_payment_request_signature c s item expiration nonce
  signer ← c.get_sol_signer_address item.signing_key_id
  ok (info_of s item expiration nonce token signature signer)

-- paymentInfo
unfoldable pub payment_info : SigningCalls → ChainConfig → ConfigItem → ℕ → Result Error Info
payment_info c s item nonce =
    let expiration = expiration_of c.now item in
    elim s.kind [
      | rails_v1 ↦ eth_info c s item expiration nonce none
      | rails_erc20_v1 ↦ eth_info c s item expiration nonce (some (s.contract_address, s.features))
      | solana_v1 ↦ solana_info c s item expiration nonce none
      | solana_spl_v1 ↦
          solana_info c s item expiration nonce (some (s.contract_address, s.features))
      | Kind.other ↦ err unsupported_type
    ]

-- ===== src/Chain/Publish.antt =====
-- PublishState of issuer-node/internal/gateways/publisher_gateway.go, and the address and the
-- signature of the client that it uses (issuer-node/internal/eth/client.go). One call runs at a time.
use e_native_issuer.Common.{
  ℕ, Bytes, length, ◌==◌, Bool, Option, none, some, List, [], find, if◌then◌else◌, Result, err,
  or_err, map_err, reject, ◌>>=◌, ◌>>◌,
}
use e_native_issuer.Key.{KeyType, bjj, eth, ed25519, untyped, KeyId}
use e_native_issuer.Key.Names.{type_eq}
use e_native_issuer.Key.Kms
use e_native_issuer.Key.Kms.{Kms}
use e_native_issuer.Chain.{
  ClientConfig, Error, Identity, key_error, signer_is_read_only, state_not_changed,
  unsupported_key_type,
}
use e_native_issuer.Chain.Fees.{TransactOpts, create_tx_opts}
use e_native_issuer.Chain.Network.{
  Resolver, get_resolver_prefix, get_eth_client, get_contract_address,
}
use e_native_issuer.Chain.Abi.{ProofData, AbiProof, adapt_proof_to_abi}

-- crypto.DecompressPubkey, DecodeAWSETHPubKey and UnmarshalPubkey, each to the key's address
pub record Addresses : Type 0 where
  pub of_compressed : Bytes → Result Error Bytes
  pub of_aws : Bytes → Result Error Bytes
  pub of_uncompressed : Bytes → Result Error Bytes

-- The decoding of getAddress: by the length of the public key
unfoldable pub address_of : Addresses → Bytes → Result Error Bytes
address_of decode pk =
    if length pk == 33
    then decode.of_compressed pk
    else (if length pk == 88 then decode.of_aws pk else decode.of_uncompressed pk)

-- The signer of a chain: ChainID, the transaction's hash, and WithSignature
pub record Signer (T : Type 0) : Type 0 where
  pub chain_id : Result Error ℕ
  pub hash : ℕ → T → Bytes
  pub with_signature : T → Bytes → Result Error T

-- The new state: the DID's id, the latest state, the new one, and whether the latest is the genesis
pub record Transition : Type 0 where
  pub id : ℕ
  pub latest_state : ℕ
  pub new_state : ℕ
  pub is_old_state_genesis : Bool

-- The contract: TransitStateGeneric and TransitState, to the hash of the transaction
pub record Contract : Type 0 where
  pub bind : Bytes → Result Error (Unit {0})
  pub transit_state_generic : TransactOpts Bytes → Transition → Result Error Bytes
  pub transit_state : TransactOpts Bytes → Transition → AbiProof → Result Error Bytes

module _ {S : Type 0} (decode : Addresses) (kms : Option (Kms S)) (s : S) where
  -- getAddress
  unfoldable pub get_address : KeyId → Result Error Bytes
  get_address k = do
    keys ← or_err kms signer_is_read_only
    pk ← map_err key_error (Kms.public_key k keys s)
    address_of decode pk

  -- The function that signerFnFactory makes
  unfoldable pub sign_tx : {T : Type 0} → Signer T → KeyId → T → Result Error T
  sign_tx signer k tx = do
    keys ← or_err kms signer_is_read_only
    chain ← signer.chain_id
    signature ← map_err key_error (Kms.sign k (signer.hash chain tx) keys s)
    signer.with_signature tx signature

-- The first key of Ethereum, or the zero value of KeyID
abbrev pub signing_key : List KeyId → KeyId
signing_key keys = elim (find (λ k. type_eq k.key_type eth) keys) [
  | some k ↦ k
  | none ↦ record { key_type = untyped; id = [] }
]

-- What PublishState reads from outside: core.IDFromDID, SuggestGasTipCap, SuggestGasPrice, the contract,
-- and big.Int's SetString
pub record World : Type 0 where
  pub id_from_did : Bytes → Result Error ℕ
  pub gas_tip : Result Error ℕ
  pub gas_price : Result Error ℕ
  pub contract : Contract
  pub parse : ℕ → Bytes → Option ℕ

module _ {S : Type 0} (world : World) (decode : Addresses) (resolver : Resolver) (kms : Kms S)
    (publishing_key : KeyId) (s : S) where
  abbrev pub opts_of : ClientConfig → KeyId → Result Error (TransactOpts Bytes)
  opts_of client k =
      create_tx_opts client world.gas_tip world.gas_price (get_address decode (some kms) s k)

  -- getContractBinding
  unfoldable pub get_contract_binding : Bytes → Result Error (Unit {0})
  get_contract_binding key = do
    address ← get_contract_address key resolver
    world.contract.bind address

  -- The case of a key of Ethereum
  unfoldable pub publish_generic : Identity → Bytes → Transition → Result Error Bytes
  publish_generic identity did transition = do
    keys ← map_err key_error (Kms.keys_by_identity did kms s)
    client ← get_eth_client identity resolver
    opts ← opts_of client (signing_key keys)
    key ← get_resolver_prefix identity
    get_contract_binding key
    world.contract.transit_state_generic opts transition

  -- The case of a key of BabyJubJub
  unfoldable pub publish_with_proof : Identity → ProofData → Transition → Result Error Bytes
  publish_with_proof identity proof transition = do
    client ← get_eth_client identity resolver
    opts ← opts_of client publishing_key
    abi ← adapt_proof_to_abi world.parse proof
    key ← get_resolver_prefix identity
    get_contract_binding key
    world.contract.transit_state opts transition abi

  -- The switch of PublishState
  unfoldable pub publish_by :
      KeyType → Identity → Bytes → ProofData → Transition → Result Error Bytes
  publish_by eth identity did proof transition = publish_generic identity did transition
  publish_by bjj identity did proof transition = publish_with_proof identity proof transition
  publish_by ed25519 identity did proof transition = err unsupported_key_type
  publish_by untyped identity did proof transition = err unsupported_key_type

  -- PublishState
  unfoldable pub publish_state : Identity → Bytes → ℕ → ℕ → Bool → ProofData → Result Error Bytes
  publish_state identity did latest new genesis proof = do
    reject (new == latest) state_not_changed
    id ← world.id_from_did did
    publish_by identity.key_type identity did proof
        (record { id = id; latest_state = latest; new_state = new; is_old_state_genesis = genesis })

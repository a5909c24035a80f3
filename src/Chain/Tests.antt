-- ===== src/Chain/Tests.antt =====
-- Runs of the chain client and of the gateways at concrete inputs.
use e_native_issuer.Common.{
  ℕ, ◌≤◌, ◌≡◌, refl, Bytes, codes, true, false, Option, none, some, List, [], ◌∷◌, ltb,
  if◌then◌else◌, ok, err, arith, inr,
}
use e_native_issuer.Key.{bjj, eth, KeyId, KeyProvider}
use e_native_issuer.Key.Kms
use e_native_issuer.Key.Kms.{Kms, registered}
use e_native_issuer.Chain.{
  ClientConfig, Receipt, Error, Identity, panics, callee, receipt_not_received, underpriced,
}
use e_native_issuer.Chain.Wait.{Answer, received, wait_receipt_from, wait_receipt}
use e_native_issuer.Chain.Waited.{Ended, wait_receipt-ends, wait_receipt-receives}
use e_native_issuer.Chain.Fees.{get_gas_price, call_auth, TransactionParams, DynamicFeeTx, Node}
use e_native_issuer.Chain.Priced.{InRange, get_gas_price-InRange}
use e_native_issuer.Chain.Network.{
  off_chain, RhsSettings, NetworkSettings, Resolver, Outside, new_resolver, add_chains,
  add_networks, add_network, register_flagged, check_rhs, get_resolver_prefix_key,
  get_eth_client_of, get_rhs_settings,
}
use e_native_issuer.Chain.Configured.{IsServed, new_resolver-Served}
use e_native_issuer.Chain.Gateway.{confirmation_block_count}
use e_native_issuer.Chain.Abi.{ProofData, string_to_big_int, adapt_proof_to_abi}
use e_native_issuer.Chain.Publish.{World, Addresses, publish_state}
use e_native_issuer.Chain.Published.{adapt_proof_to_abi-panics, publish_state-keyless}

abbrev config : ClientConfig
config = record {
  receipt_timeout = 5;
  confirmation_timeout = 5;
  confirmation_block_count = 2;
  default_gas_limit = 100;
  min_gas_price = some 10;
  max_gas_price = some 50;
  gas_less = false;
}

abbrev receipt : Receipt
receipt = record { block_number = 7; status = 1 }

-- A receipt in the third round and later
abbrev answer : ℕ → Answer
answer i = if ltb 1 i then (some receipt, none) else (none, some (callee 1))

abbrev elapsed : ℕ → ℕ
elapsed i = i

wait_receipt-ends_example :
    (i : ℕ) × (wait_receipt 5 answer elapsed ≡ some (received (answer i)))
    × Ended 5 answer elapsed 0 i
wait_receipt-ends_example = wait_receipt-ends 5 answer elapsed (λ i. omega arith)

wait_receipt-receives_example :
    (i : ℕ) × (got : Receipt) × (i ≤ 3)
    × ((answer i).0 ≡ some got)
    × (wait_receipt 5 answer elapsed ≡ some (ok (got, (answer i).1)))
wait_receipt-receives_example =
    wait_receipt-receives 5 answer elapsed 3 receipt (λ i. omega arith) refl
      (λ j h. omega (arith, h))

wait_receipt_test : wait_receipt 1 answer elapsed ≡ some (err receipt_not_received)
unfolding wait_receipt wait_receipt_from
wait_receipt_test = refl

get_gas_price-InRange_example : InRange config 50
unfolding get_gas_price
get_gas_price-InRange_example = get_gas_price-InRange config (ok 100) 50 refl

-- The second price of CallAuth is above the configured maximum.
call_auth_test :
    call_auth {T = ℕ} config true (ok 100) (ok tt) 0 (λ limit price. err underpriced)
    ≡ (err underpriced, 50 ∷ 1500 ∷ [])
unfolding call_auth get_gas_price
call_auth_test = refl

abbrev node : Node
node = record { pending_nonce = ok 3; estimate_gas = ok 21; calc_base_fee = ok 10; gas_tip = ok 2 }

abbrev params : TransactionParams
params = record { base_fee = none; gas_tips = none; nonce = none; value = none }

abbrev tx : DynamicFeeTx
tx = record { nonce = 3; gas = 21; value = 0; gas_tip_cap = some 2; gas_fee_cap = some 15 }

abbrev outside : Outside
outside = record {
  register_custom_did_method = λ chain network settings. ok tt;
  dial = λ url. ok tt;
  get_chain_id = λ chain network. ok 80002;
  new_state = λ address. ok tt;
}

abbrev rhs : RhsSettings
rhs = record {
  iden3_comm_agent_status = codes "http://a";
  mode = off_chain;
  contract_address = none;
  rhs_url = some (codes "http://rhs");
  single_issuer = true;
}

abbrev settings : List (Bytes × List (Bytes × NetworkSettings))
settings =
    (
      codes "polygon",
      (
        codes "amoy",
        record {
          contract_address = codes "0x1";
          network_url = codes "http://n";
          config = config;
          rhs_settings = rhs;
          network_flag = 0;
        },
      )
          ∷ [],
    )
    ∷ []

abbrev key : Bytes
key = codes "polygon:amoy"

abbrev resolver : Resolver
resolver = record {
  ethereum_clients_by_chain_id =
      (80002, record { config = config; contract_address = codes "0x1" }) ∷ [];
  ethereum_clients = (key, record { config = config; contract_address = codes "0x1" }) ∷ [];
  rhs_settings = (key, rhs) ∷ [];
  supported_networks = (codes "polygon", codes "amoy" ∷ []) ∷ [];
}

new_resolver-Served_example :
    (found : RhsSettings) × (get_rhs_settings key resolver ≡ ok found) × IsServed found
unfolding new_resolver add_chains add_networks add_network register_flagged check_rhs
    get_resolver_prefix_key get_eth_client_of
new_resolver-Served_example =
    new_resolver-Served outside (codes "http://a/") settings resolver key config refl refl

abbrev identity : Identity
identity = record { identifier = codes "did:iden3:polygon:amoy:x"; key_type = eth }

abbrev parse : ℕ → Bytes → Option ℕ
parse base [] = none
parse base (c ∷ cs) = some c

abbrev proof : ProofData
proof = record { a = codes "1" ∷ [] ∷ codes "1" ∷ []; b = []; c = [] }

adapt_proof_to_abi-panics_example : adapt_proof_to_abi parse proof ≡ err panics
unfolding string_to_big_int
adapt_proof_to_abi-panics_example =
    adapt_proof_to_abi-panics parse proof (codes "1") [] (codes "1" ∷ []) refl (inr refl)

-- A system whose only key of the identity is one of BabyJubJub
abbrev provider : KeyProvider ℕ
provider = record {
  new = λ did s. (ok (record { key_type = bjj; id = [] }), s);
  public_key = λ k s. ok [];
  sign = λ k digest s. ok digest;
  list_by_identity = λ did s. ok (record { key_type = bjj; id = codes "BJJ:1" } ∷ []);
  link_to_identity = λ k did s. (ok k, s);
  delete = λ k s. (ok tt, s);
  exists = λ k s. ok true;
}

abbrev kms : Kms ℕ
kms = (bjj, provider) ∷ []

abbrev world : World
world = record {
  id_from_did = λ did. ok 1;
  gas_tip = ok 1;
  gas_price = ok 1;
  contract = record {
    bind = λ address. ok tt;
    transit_state_generic = λ opts transition. ok (codes "0x2");
    transit_state = λ opts transition abi. ok (codes "0x2");
  };
  parse = parse;
}

abbrev decode : Addresses
decode = record { of_compressed = λ pk. ok pk; of_aws = λ pk. ok pk; of_uncompressed = λ pk. ok pk }

abbrev signer : KeyId
signer = record { key_type = eth; id = codes "pbkey" }

publish_state-keyless_example :
    (e : Error) × (publish_state world decode resolver kms signer 0 identity
        (codes "did")
        1
        2
        false
        proof
      ≡ err e)
unfolding Kms.keys_by_identity registered
publish_state-keyless_example =
    publish_state-keyless world decode resolver kms signer 0 identity (codes "did") 1 2 false proof
      (record { key_type = bjj; id = codes "BJJ:1" } ∷ []) refl refl refl refl

-- ===== src/Payment/Example.antt =====
-- A payment option, a request for it and the answers that the tests give.
use e_native_issuer.Common.{true, false, none, some, List, [], ◌∷◌, ok, ◌+◌}
use e_native_issuer.Payment.{
  Status, rails_v1, ChainConfig, PaymentOption, Info, Row, Request, Db, not_verified,
}
use e_native_issuer.Payment.Chain.{EthClient, SolanaClient}
use e_native_issuer.Payment.Build.{SigningCalls}
use e_native_issuer.Payment.Service.{Settings, CreateReq, CreateCalls, VerifyCalls}
use e_native_issuer.Payment.Settled.{Call, create, verify}

abbrev pub setting : ChainConfig
setting = record {
  chain_id = 137;
  payment_rails = "0xrails";
  kind = rails_v1;
  contract_address = "";
  features = [];
}

abbrev pub settings : Settings
settings n = some setting

abbrev pub signing : SigningCalls
signing = record {
  now = 1000;
  decode_key = λ k. ok k;
  typed_data_hash = λ d. ok (d.nonce ∷ []);
  public_key = λ k. ok [];
  serialize = λ r. ok (r.nonce ∷ []);
  sign = λ t k bytes. ok (7 ∷ []);
  get_eth_signer_address = λ k. ok "0xsigner";
  get_sol_signer_address = λ k. ok "sol";
}

abbrev pub create_calls : CreateCalls
create_calls = record {
  now = 1000;
  new_id = 5;
  option_fault = none;
  schema_by_id = λ i s. ok s;
  nonce = λ n. ok (77 + n);
  item_id = λ n. 90 + n;
  signing = signing;
  save_fault = none;
}

abbrev pub asked : CreateReq
asked = record { issuer_did = "i"; user_did = "u"; option_id = 1; schema_id = 3; description = "d" }

abbrev pub option : PaymentOption
option = record {
  id = 1;
  issuer_did = "i";
  name = "o";
  description = "";
  config =
      record {
        payment_option_id = 2;
        amount = 10;
        recipient = "0xme";
        signing_key_id = "key";
        expiration = none;
      }
      ∷ [];
  created_at = 1;
  updated_at = 1;
}

abbrev pub start : Db
start = record { options = option ∷ []; requests = []; items = [] }

abbrev pub row : Row
row = record {
  id = 5;
  schema_id = some 3;
  description = "d";
  issuer_did = "i";
  user_did = "u";
  payment_option_id = 1;
  created_at = 1000;
  modified_at = 1000;
  status = not_verified;
  paid_nonce = none;
}

abbrev pub info : Info
info = record {
  kind = rails_v1;
  nonce = 77;
  amount = 10;
  expiration_date = 4600;
  recipient = "0xme";
  token = none;
  proof = record {
    proof_value = 7 ∷ [];
    signer = "0xsigner";
    chain_id = 137;
    verifying_contract = "0xrails";
  };
}

abbrev pub request : Request
request = record {
  row = row;
  payments =
      record {
        id = 90;
        nonce = 77;
        payment_request_id = 5;
        payment_option_id = 2;
        signing_key_id = "key";
        payment = info;
      }
      ∷ [];
}

abbrev pub stored : Db
stored = record { options = option ∷ []; requests = request.row ∷ []; items = request.payments }

abbrev pub eth : EthClient
eth = record {
  transaction = λ t. ok (some false);
  receipt = λ t. ok 1;
  is_payment_done = λ s n. ok true;
}

abbrev pub solana : SolanaClient
solana = record {
  public_key = λ k. ok [];
  signature_status = λ t. ok none;
  signature_status_again = λ t. ok none;
  payment_record = λ p s n. ok none;
}

abbrev pub verify_calls : VerifyCalls
verify_calls = record {
  now = 2000;
  item_fault = none;
  request_fault = none;
  eth_client = λ s. ok eth;
  cluster = λ n. solana;
  get_eth_signer_address = λ k. ok "0xsigner";
  get_sol_signer_address = λ k. ok "sol";
  update_fault = none;
}

abbrev pub settled : Row
settled = record request.row { status = Status.success; paid_nonce = some 77; modified_at = 2000 }

abbrev pub calls : List Call
calls =
    create settings create_calls asked
    ∷ verify settings verify_calls "i" 77 (some "0xt") (some "u")
    ∷ []

-- ===== src/Key/Example.antt =====
-- A key management system on a file, for the tests.
use e_native_issuer.Common.{Bytes, codes, false, none, some, List, [], ◌∷◌, ◌++◌, ok}
use e_native_issuer.Key.Files.{Material, Disk}
use e_native_issuer.Key.Local.{Curves, Local}
use e_native_issuer.Key.Service.{Library, ClaimService, Keys}

abbrev pub hex64 : Bytes
hex64 = codes "0101010101010101010101010101010101010101010101010101010101010101"

abbrev pub curves : Curves
curves = record {
  draw = λ ty. ok (record { key_data = hex64; public_text = codes "03" });
  public_of = λ ty key. ok (2 ∷ []);
  sign_with = λ ty key digest. ok (key ++ digest);
  check_digest = λ digest. ok tt;
}

abbrev pub lib : Library
lib = record {
  hex_encode = λ b. 0 ∷ b;
  solana_text = λ b. 1 ∷ b;
  base64 = λ b. 2 ∷ b;
  address_hex = λ b. ok (codes "0xAb");
  id_from_did = λ d. ok 1;
  eth_address_from_id = λ i. ok (codes "ab");
}

abbrev pub claims : ClaimService
claims = record {
  get_auth_credentials = λ d. ok (record { rev_nonce = 7; public_key = 1 ∷ [] } ∷ []);
  get_revocation_status = λ d n. ok (some false);
}

abbrev pub did : Bytes
did = codes "did:a"

abbrev pub rows : List Material
rows =
    record { key_type = codes "ethereum"; key_path = codes "did:a/ETH:02"; private_key = hex64 }
    ∷ record { key_type = codes "ed25519"; key_path = codes "did:a/Ed25519:k"; private_key = hex64 }
    ∷ []

abbrev pub disk : Disk
disk = record { content = ok rows; refusal = none }

abbrev pub store : Local
store = record { temporary_bjj = []; temporary_eth = []; temporary_ed25519 = []; disk = disk }

abbrev pub db : Keys Local
db = record {
  rows = record { id = 1; issuer_did = did; public_key = 1 ∷ 2 ∷ []; name = codes "b" } ∷ [];
  store = store;
}

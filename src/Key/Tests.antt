-- ===== src/Key/Tests.antt =====
-- Runs of the key service on the local providers at concrete inputs.
use e_native_issuer.Common.{
  ◌≡◌, refl, Bytes, codes, Bool, true, false, none, some, List, [], ◌∷◌, ◌++◌, any, take, drop,
  length, leb, if◌then◌else◌, ok, err, is_ok, arith, ◌*◌,
}
use e_native_issuer.Key.{
  private_key_not_found, bjj, eth, ed25519, KeyId, KmsKey, Error, key_not_found, callee,
}
use e_native_issuer.Key.Names.{get_key_type, get_key_id, convert_from_key_type, convert_to_key_type}
use e_native_issuer.Key.Files.{
  save_key_material, search_rows, search_by_identity, search_private_key, get_key_material,
  without_first, delete_key_material,
}
use e_native_issuer.Key.Local
use e_native_issuer.Key.Local.{
  Pair, Curves, Local, at, temporary_of, local_bjj, local_linked, local_ed25519, local_kms,
  after_mark, anonymous_key, bound_after, hex_decode,
}
use e_native_issuer.Key.Kms
use e_native_issuer.Key.Kms.{registered}
use e_native_issuer.Key.Repository
use e_native_issuer.Key.Service
use e_native_issuer.Key.Service.{
  Library, ClaimService, Keys, of_type, sort_by_name, insert_key, public_text,
}
use e_native_issuer.Key.Example.{hex64, curves, lib, claims, did, rows, store, db}
use e_native_issuer.Key.Protected.{delete-Protected}
use e_native_issuer.Key.Unique.{Call, creating, updating, deleting, UniqueKeys, run, run-UniqueKeys}
use e_native_issuer.Key.Listed.{page_of, SortedByName, get_all-page}
use e_native_issuer.Key.Stored.{stored, create-get}
use e_native_issuer.Key.Lost.{delete-get}
use e_native_issuer.Key.Unlinked.{IsLeft, link_to_identity-lost}

-- A DID that holds the letters of another type gives that type.
get_key_type_test : get_key_type (get_key_id (some (codes "did:BJJ")) eth (codes "ETH:02")) ≡ ok bjj
unfolding get_key_type get_key_id
get_key_type_test = refl

-- A file that cannot be read has every key.
exists_test :
    Local.exists
      (record { key_type = eth; id = codes "x" })
      (record store { disk = record { content = err (callee 1); refusal = none } })
    ≡ ok true
unfolding Local.exists get_key_material
exists_test = refl

-- A key of Ethereum is linked to an identity and signs under its new id.
linked_test :
    is_ok (
      Local.sign curves eth
        (record { key_type = eth; id = codes "did:b/ETH:03" })
        (9 ∷ [])
        (Local.link_to_identity curves eth
          (record { key_type = eth; id = codes "ETH:03" })
          (codes "did:b")
          (record store {
            temporary_eth = (codes "ETH:03", record { key_type = eth; key_data = hex64 }) ∷ [];
          })).1)
    ≡ true
unfolding Local.sign Local.private_key Local.key_data Local.link_to_identity search_private_key
    save_key_material get_key_id hex_decode
linked_test = refl

abbrev eth_id : Bytes
eth_id = codes "did:a/ETH:02"

delete-Protected_example :
    (e : Error) × (Service.delete lib claims (local_kms curves) none did eth_id db ≡ (err e, db))
unfolding get_key_type Kms.public_key registered local_kms local_bjj local_linked local_ed25519
    Local.public_key Local.private_key Local.key_data search_private_key bound_after after_mark
    hex_decode Service.is_associated_with_identity Service.check_eth_identity_by_did
delete-Protected_example =
    delete-Protected lib claims (local_kms curves) none did eth_id db eth (2 ∷ []) refl refl
      (codes "0xAb", codes "ab", 1, refl, refl, refl, refl)

abbrev calls : List Call
calls =
    creating none none did eth (codes "b") 2
    ∷ updating none none did eth_id (codes "c") 3
    ∷ deleting none did (codes "did:a/Ed25519:k")
    ∷ []

run-UniqueKeys_example : UniqueKeys (run lib claims (local_kms curves) calls db).rows
run-UniqueKeys_example = run-UniqueKeys lib claims (local_kms curves) calls db (refl, refl, tt)

abbrev found : List KeyId
found =
    record { key_type = eth; id = eth_id }
    ∷ record { key_type = ed25519; id = codes "did:a/Ed25519:k" }
    ∷ []

abbrev eth_key : KmsKey
eth_key = record {
  key_id = eth_id;
  key_type = eth;
  public_key = 0 ∷ 2 ∷ [];
  has_associated_auth_credential = true;
  name = 0 ∷ 2 ∷ [];
}

abbrev ed25519_key : KmsKey
ed25519_key = record {
  key_id = codes "did:a/Ed25519:k";
  key_type = ed25519;
  public_key = 1 ∷ 2 ∷ [];
  has_associated_auth_credential = false;
  name = codes "b";
}

abbrev keys : List KmsKey
keys = eth_key ∷ ed25519_key ∷ []

get_all-page_example :
    (Service.get_all lib claims (local_kms curves) none did (page_of 1 1 none) db ≡ (
      if leb (length keys) (1 * 1)
      then ok ([], 0)
      else ok (take 1 (drop (1 * 1) (sort_by_name keys)), length keys)))
    × SortedByName (sort_by_name keys)
    × ((p : KmsKey → Bool) → any p (sort_by_name keys) ≡ any p keys)
unfolding Kms.keys_by_identity Kms.exists Kms.public_key registered local_kms local_bjj local_linked
    local_ed25519 Local.list_by_identity Local.exists Local.public_key Local.private_key
    Local.key_data search_private_key get_key_material search_by_identity search_rows
    convert_from_key_type convert_to_key_type bound_after after_mark hex_decode Service.get_each
    Service.get Service.located Service.get_public_key Service.associated
    Service.is_associated_with_identity Service.check_eth_identity_by_did Service.name_of
    Repository.get_by_public_key public_text get_key_type
get_all-page_example =
    get_all-page lib claims (local_kms curves) none did 1 1 none db found keys refl refl
      (omega arith) (omega arith) (omega arith)

abbrev new_id : Bytes
new_id = codes "did:a/ETH:03"

abbrev new_store : Local
new_store = record store {
  disk = record {
    content = ok (
        rows
        ++ record { key_type = codes "ethereum"; key_path = new_id; private_key = hex64 } ∷ []);
    refusal = none;
  };
}

create-get_example :
    (Service.create lib claims (local_kms curves) none none did eth (codes "n") 2 db ≡ (
      ok (record { key_type = eth; id = lib.base64 new_id }),
      stored lib claims (local_kms curves) did eth (codes "n") (2 ∷ []) 2 new_store db,
    ))
    × (Service.get lib claims
          (local_kms curves)
          none
          did
          new_id
          (stored lib claims (local_kms curves) did eth (codes "n") (2 ∷ []) 2 new_store db)
        ≡ ok (record {
          key_id = new_id;
          key_type = eth;
          public_key = public_text lib eth (2 ∷ []);
          has_associated_auth_credential = true;
          name = codes "n";
        }))
unfolding Kms.create_key Kms.link_to_identity Kms.exists Kms.public_key registered local_kms
    local_bjj local_linked local_ed25519 Local.new_temporary Local.link_to_identity Local.exists
    Local.public_key Local.private_key Local.key_data search_private_key get_key_material
    save_key_material convert_from_key_type get_key_id bound_after after_mark hex_decode
    Service.new_key Service.associated Service.is_associated_with_identity
    Service.check_eth_identity_by_did public_text get_key_type
create-get_example =
    create-get lib claims (local_kms curves) did (codes "n") (2 ∷ []) eth 2 db new_id new_store true
      refl refl refl refl refl refl refl refl

delete-get_example :
    Service.get lib claims
      (local_kms curves)
      none
      did
      (codes "did:a/Ed25519:k")
      (Service.delete lib claims (local_kms curves) none did (codes "did:a/Ed25519:k") db).1
    ≡ err key_not_found
unfolding Kms.exists Kms.public_key Kms.delete registered local_kms local_bjj local_linked
    local_ed25519 Local.exists Local.delete Local.public_key Local.private_key Local.key_data
    search_private_key get_key_material delete_key_material without_first bound_after after_mark
    hex_decode Service.delete Service.checked_delete Service.located Service.get_public_key
    Service.deletable Repository.delete public_text get_key_type
delete-get_example =
    delete-get curves lib claims none none did (codes "did:a/Ed25519:k") db rows refl
      (refl, (refl, tt)) refl

abbrev full_store : Local
full_store = record {
  temporary_bjj = [];
  temporary_eth = (codes "ETH:03", record { key_type = eth; key_data = hex64 }) ∷ [];
  temporary_ed25519 = [];
  disk = record { content = ok []; refusal = some (callee 5, err (callee 6)) };
}

link_to_identity-lost_example :
    (at (codes "ETH:03") (
        temporary_of eth
          (Local.link_to_identity curves eth
            (record { key_type = eth; id = codes "ETH:03" })
            did
            full_store).1)
      ≡ none)
    × ((next : Bytes)
        → (Local.link_to_identity curves eth
            (record { key_type = eth; id = codes "ETH:03" })
            next
            (Local.link_to_identity curves eth
              (record { key_type = eth; id = codes "ETH:03" })
              did
              full_store).1).0
          ≡ err private_key_not_found)
    × IsLeft full_store.disk
        (Local.link_to_identity curves eth
          (record { key_type = eth; id = codes "ETH:03" })
          did
          full_store).1.disk
unfolding Local.link_to_identity save_key_material get_key_id
link_to_identity-lost_example =
    link_to_identity-lost curves eth (record { key_type = eth; id = codes "ETH:03" }) did full_store
      (callee 5) refl refl

-- ===== src/Key/Local/Linked.antt =====
-- issuer-node/internal/kms/local_eth_key_provider.go, and local_ed25519_key_provider.go, which
-- differs where a comment says so.
use e_native_issuer.Common.{
  Bytes, codes, bytes_eq, not, ◌&&◌, Option, none, some, [], ◌++◌, length, ◌==◌, if◌then◌else◌,
  Result, ok, err, or_err, ◌>>=◌, ◌>>◌, reject, map_err,
}
use e_native_issuer.Key.{
  KeyType, eth, KeyId, Error, incorrect_key_type, private_key_not_found, incorrect_private_key,
  empty_key_id, not_hexadecimal,
}
use e_native_issuer.Key.Names.{type_eq, get_key_id}
use e_native_issuer.Key.Files
use e_native_issuer.Key.Files.{Disk, KeyMaterial}
use e_native_issuer.Key.Local.Memory.{
  Curves, Local, at, without, with_entry, temporary_of, set_temporary, saved,
}
use e_native_issuer.Key.Local.Paths.{hex_decode, bound_key}

module _ (curves : Curves) where
  -- localEthKeyProvider.New, which localEd25519KeyProvider.New is too
  unfoldable pub new_temporary : KeyType → Option Bytes → Local → Result Error KeyId × Local
  new_temporary ty did s = elim (curves.draw ty) [
    | err e ↦ (err e, s)
    | ok pair ↦
        let id = get_key_id did ty pair.public_text in
        let material : KeyMaterial = record { key_type = ty; key_data = pair.key_data } in
        (
          ok (record { key_type = ty; id = id }),
          set_temporary ty (with_entry id material (temporary_of ty s)) s,
        )
  ]

  -- The private key of a provider for Ethereum or Ed25519: a temporary one, or the file's.
  unfoldable pub key_data : KeyType → KeyId → Local → Result Error Bytes
  key_data ty k s = elim (at k.id (temporary_of ty s)) [
    | some (id, material) ↦
        if bytes_eq material.key_data []
        then Files.search_private_key k s.disk
        else ok material.key_data
    | none ↦ Files.search_private_key k s.disk
  ]

  -- localEthKeyProvider.privateKey. The check of the length is not in localEd25519KeyProvider's.
  unfoldable pub private_key : KeyType → KeyId → Local → Result Error Bytes
  private_key ty k s = do
    reject (not (type_eq k.key_type ty)) incorrect_key_type
    reject (bytes_eq k.id []) empty_key_id
    text ← key_data ty k s
    key ← or_err (hex_decode text) not_hexadecimal
    reject (type_eq ty eth && not (length key == 32)) incorrect_private_key >> ok key

  -- PublicKey of the two: from the id where it ends in 64 hexadecimal digits, else from the
  -- private key.
  unfoldable pub public_key : KeyType → KeyId → Local → Result Error Bytes
  public_key ty k s = do
    reject (not (type_eq k.key_type ty)) incorrect_key_type
    elim (bound_key ty k.id) [
      | some text ↦ or_err (hex_decode text) not_hexadecimal
      | none ↦ do
        key ← map_err (λ _. private_key_not_found) (private_key ty k s)
        curves.public_of ty key
    ]

  -- Sign of the two
  unfoldable pub sign : KeyType → KeyId → Bytes → Local → Result Error Bytes
  sign ty k digest s = do key ← private_key ty k s; curves.sign_with ty key digest

  -- LinkToIdentity of the two: the temporary key is taken out before it is saved.
  unfoldable pub link_to_identity : KeyType → KeyId → Bytes → Local → Result Error KeyId × Local
  link_to_identity ty k did s =
      let after = set_temporary ty (without k.id (temporary_of ty s)) s in
      if not (type_eq k.key_type ty)
      then (err incorrect_key_type, s)
      else elim (at k.id (temporary_of ty s)) [
        | none ↦ (err private_key_not_found, after)
        | some (id, material) ↦
            let (answer, last) = saved material (get_key_id (some did) ty k.id) after in
            (answer >>= λ _. ok (record k { id = did ++ codes "/" ++ k.id }), last)
      ]

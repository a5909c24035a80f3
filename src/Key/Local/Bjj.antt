-- ===== src/Key/Local/Bjj.antt =====
-- issuer-node/internal/kms/local_bjj_key_provider.go.
use e_native_issuer.Common.{
  Bytes, not, Option, none, some, length, leb, ◌==◌, if◌then◌else◌, Result, ok, err, or_err, ◌>>=◌,
  ◌>>◌, reject,
}
use e_native_issuer.Key.{
  bjj, KeyId, Error, incorrect_key_type, private_key_not_found, incorrect_private_key,
  not_in_key_id, incorrect_key_id, digest_too_large, not_hexadecimal,
}
use e_native_issuer.Key.Names.{type_eq, get_key_id, key_path_for_local_provider}
use e_native_issuer.Key.Files
use e_native_issuer.Key.Files.{Disk, KeyMaterial}
use e_native_issuer.Key.Local.Memory.{Curves, Local, at, without, with_entry, saved}
use e_native_issuer.Key.Local.Paths.{hex_decode, bound_key, anonymous_key}

module _ (curves : Curves) where
  -- localBJJKeyProvider.New: with an identity, the key goes to the file.
  unfoldable pub new_bjj : Option Bytes → Local → Result Error KeyId × Local
  new_bjj did s = elim (curves.draw bjj) [
    | err e ↦ (err e, s)
    | ok pair ↦
        let id = key_path_for_local_provider did bjj pair.public_text in
        let material : KeyMaterial = record { key_type = bjj; key_data = pair.key_data } in
        let k : KeyId = record { key_type = bjj; id = id } in
        elim did [
          | none ↦ (ok k, record s { temporary_bjj = with_entry id material s.temporary_bjj })
          | some d ↦
              let (answer, after) = saved material id s in
              elim answer [
                | err e ↦ (err e, after)
                | ok u ↦ (ok k, record after { temporary_bjj = without id after.temporary_bjj })
              ]
        ]
  ]

  -- The text of the public key in an id, with an identity or without one
  abbrev pub id_key : Bytes → Option Bytes
  id_key id = elim (anonymous_key bjj id) [ some text ↦ some text | none ↦ bound_key bjj id ]

  -- localBJJKeyProvider.PublicKey
  unfoldable pub public_key_bjj : KeyId → Local → Result Error Bytes
  public_key_bjj k s = do
    reject (not (type_eq k.key_type bjj)) incorrect_key_type
    text ← or_err (id_key k.id) not_in_key_id
    or_err (hex_decode text) not_hexadecimal

  -- localBJJKeyProvider.privateKey, which reads the file only
  unfoldable pub private_key_bjj : KeyId → Local → Result Error Bytes
  private_key_bjj k s = do
    reject (not (type_eq k.key_type bjj)) incorrect_key_type
    found ← or_err (id_key k.id) incorrect_key_id
    text ← Files.search_private_key k s.disk
    key ← or_err (hex_decode text) not_hexadecimal
    reject (not (length key == 32)) incorrect_private_key >> ok key

  -- localBJJKeyProvider.Sign: a digest of 32 bytes at most, in the field
  unfoldable pub sign_bjj : KeyId → Bytes → Local → Result Error Bytes
  sign_bjj k digest s = do
    reject (not (leb (length digest) 32)) digest_too_large
    curves.check_digest digest
    key ← private_key_bjj k s
    curves.sign_with bjj key digest

  -- localBJJKeyProvider.LinkToIdentity
  unfoldable pub link_to_identity_bjj : KeyId → Bytes → Local → Result Error KeyId × Local
  link_to_identity_bjj k did s =
      let after = record s { temporary_bjj = without k.id s.temporary_bjj } in
      if not (type_eq k.key_type bjj)
      then (err incorrect_key_type, s)
      else elim (at k.id s.temporary_bjj) [
        | none ↦ (err private_key_not_found, s)
        | some (id, material) ↦
            let (answer, last) = saved material (get_key_id (some did) bjj k.id) after in
            (answer >>= λ _. ok (record k { id = did }), last)
      ]

-- ===== src/Key/Kms.antt =====
-- KMS of issuer-node/internal/kms/kms.go: one provider for each type of key. The registry is a list
-- in the order in which the providers answer KeysByIdentity.
use e_native_issuer.Common.{
  Bytes, Bool, Option, none, some, List, [], ◌∷◌, ◌++◌, if◌then◌else◌, Result, ok, err, or_err,
  ◌>>=◌,
}
use e_native_issuer.Key.{KeyType, KeyId, Error, KeyProvider, unknown_key_type, key_type_conflict}
use e_native_issuer.Key.Names.{type_eq}

abbrev pub Kms : Type 0 → Type 0
Kms S = List (KeyType × KeyProvider S)

module _ {S : Type 0} where
  -- k.registry[kt]
  unfoldable pub registered : KeyType → Kms S → Option (KeyProvider S)
  registered ty [] = none
  registered ty (entry ∷ registry) =
      let rest = registered ty registry in if type_eq entry.0 ty then some entry.1 else rest

  -- RegisterKeyProvider
  unfoldable pub register_key_provider : KeyType → KeyProvider S → Kms S → Result Error (Kms S)
  register_key_provider ty provider kms = elim (registered ty kms) [
    | some p ↦ err key_type_conflict
    | none ↦ ok (kms ++ (ty, provider) ∷ [])
  ]

  -- CreateKey
  unfoldable pub create_key : KeyType → Option Bytes → Kms S → S → Result Error KeyId × S
  create_key ty did kms s = elim (registered ty kms) [
    | none ↦ (err unknown_key_type, s)
    | some p ↦ p.new did s
  ]

  -- PublicKey
  unfoldable pub public_key : KeyId → Kms S → S → Result Error Bytes
  public_key k kms s = do p ← or_err (registered k.key_type kms) unknown_key_type; p.public_key k s

  -- Sign
  unfoldable pub sign : KeyId → Bytes → Kms S → S → Result Error Bytes
  sign k digest kms s = do
    p ← or_err (registered k.key_type kms) unknown_key_type
    p.sign k digest s

  -- KeysByIdentity: an answer that is an error ends the collection.
  unfoldable pub keys_by_identity : Bytes → Kms S → S → Result Error (List KeyId)
  keys_by_identity did [] s = ok []
  keys_by_identity did (entry ∷ kms) s = do
    keys ← entry.1.list_by_identity did s
    rest ← keys_by_identity did kms s
    ok (keys ++ rest)

  -- LinkToIdentity
  unfoldable pub link_to_identity : KeyId → Bytes → Kms S → S → Result Error KeyId × S
  link_to_identity k did kms s = elim (registered k.key_type kms) [
    | none ↦ (err unknown_key_type, s)
    | some p ↦ p.link_to_identity k did s
  ]

  -- Delete
  unfoldable pub delete : KeyId → Kms S → S → Result Error (Unit {0}) × S
  delete k kms s = elim (registered k.key_type kms) [
    | none ↦ (err unknown_key_type, s)
    | some p ↦ p.delete k s
  ]

  -- Exists
  unfoldable pub exists : KeyId → Kms S → S → Result Error Bool
  exists k kms s = do p ← or_err (registered k.key_type kms) unknown_key_type; p.exists k s

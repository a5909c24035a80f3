-- ===== src/Key/Protected.antt =====
-- Keys that Delete of issuer-node/internal/core/services/key.go leaves alone.
use e_native_issuer.Common.{
  ℕ, ◌++◌, List, codes, bytes_eq, bytes_eq_sound, bytes_eq_refl, any, All, find-any, find-All,
  find-passes, ◌≡◌, Bytes, Bool, true, false, Option, some, ok, err, arith, Result-cases,
  Bool-cases, inl, inr,
}
use e_native_issuer.Key.{
  KeyType, bjj, eth, ed25519, untyped, Error, key_not_found, auth_credential_not_revoked,
  key_associated_with_identity,
}
use e_native_issuer.Key.Names.{get_key_type}
use e_native_issuer.Key.Kms
use e_native_issuer.Key.Kms.{Kms}
use e_native_issuer.Key.Service.{
  check_eth_identity_by_did, to_upper, Library, ClaimService, AuthCredential, Keys,
  get_auth_credential_by_public_key, is_associated_with_identity, deletable, credential_deletable,
  checked_delete, get_public_key, located, delete,
}

module _ (lib : Library) (claims : ClaimService) where
  -- The identity has an auth credential of the key, and none of those that it has is revoked; or the
  -- address of the key is the identity's, up to the case of its letters.
  abbrev pub Protected : Bytes → KeyType → Bytes → Type 0
  Protected did bjj pk =
      (credentials : List AuthCredential) × (claims.get_auth_credentials did ≡ ok credentials)
      × (any (λ c. bytes_eq c.public_key pk) credentials ≡ true)
      × All
          (λ c. c.public_key ≡ pk → claims.get_revocation_status did c.rev_nonce ≡ ok (some false))
          credentials
  Protected did eth pk =
      (key address : Bytes) × (id : ℕ) × (lib.address_hex pk ≡ ok key)
      × (lib.id_from_did did ≡ ok id)
      × (lib.eth_address_from_id id ≡ ok address)
      × (to_upper (codes "0x" ++ address) ≡ to_upper key)
  Protected did ed25519 pk = ◌≡◌ {A = Bool} true false
  Protected did untyped pk = ◌≡◌ {A = Bool} true false

  deletable-Protected :
      (did : Bytes) (ty : KeyType) (pk : Bytes)
      → Protected did ty pk
      → (e : Error) × (deletable lib claims did ty pk ≡ err e)
  unfolding deletable credential_deletable get_auth_credential_by_public_key
      is_associated_with_identity check_eth_identity_by_did
  deletable-Protected did bjj pk (credentials, read, some_one, active) =
      let of_key = λ (c : AuthCredential). bytes_eq c.public_key pk in
      let (c, found) = find-any of_key credentials some_one in
      let same = bytes_eq_sound c.public_key pk (find-passes of_key credentials c found) in
      let status = find-All _ of_key credentials c found active same in
      (auth_credential_not_revoked, ground (arith, read, found, status))
  deletable-Protected did eth pk (key, address, id, key_read, parsed, own, same) =
      let equal : bytes_eq (to_upper (codes "0x" ++ address)) (to_upper key) ≡ true =
        rw same (bytes_eq_refl (to_upper key)) in
      (key_associated_with_identity, ground (arith, key_read, parsed, own, equal))
  deletable-Protected did ed25519 pk h = absurd (ground (arith, h))
  deletable-Protected did untyped pk h = absurd (ground (arith, h))

module _ {S : Type 0} (lib : Library) (claims : ClaimService) (kms : Kms S) where
  checked_delete-Protected :
      (did id : Bytes) (s : Keys S) (ty : KeyType) (pk : Bytes)
      → get_key_type id ≡ ok ty
      → Kms.public_key (record { key_type = ty; id = id }) kms s.store ≡ ok pk
      → Protected lib claims did ty pk
      → (e : Error) × (checked_delete lib claims kms did id s ≡ err e)
  unfolding checked_delete get_public_key located
  checked_delete-Protected did id s ty pk typed public h =
      let (e, refused) = deletable-Protected lib claims did ty pk h in
      elim (Result-cases (Kms.exists (record { key_type = ty; id = id }) kms s.store)) [
        | inl (f, g) ↦ (f, ground (arith, typed, g))
        | inr (there, g) ↦ elim (Bool-cases there) [
          | inl t ↦ (e, ground (arith, typed, g, t, public, refused))
          | inr t ↦ (key_not_found, ground (arith, typed, g, t))
        ]
      ]

  -- Delete of a BabyJubJub key that has an auth credential of the identity, where none of the auth
  -- credentials of the key is revoked, fails and leaves the table and the providers as they were. So
  -- does Delete of an Ethereum key whose address is the one in the identity, up to the case of its
  -- letters. The id must say the type, and the key management system must give the public key.
  pub delete-Protected :
      (fault : Option Error) (did id : Bytes) (s : Keys S) (ty : KeyType) (pk : Bytes)
      → get_key_type id ≡ ok ty
      → Kms.public_key (record { key_type = ty; id = id }) kms s.store ≡ ok pk
      → Protected lib claims did ty pk
      → (e : Error) × (delete lib claims kms fault did id s ≡ (err e, s))
  unfolding delete
  delete-Protected fault did id s ty pk typed public h =
      let (e, refused) = checked_delete-Protected did id s ty pk typed public h in
      (e, ground (arith, refused))

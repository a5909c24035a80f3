-- ===== src/Credential/Revoke.antt =====
-- Revoke, RevokeAllFromConnection and Delete of issuer-node/internal/core/services/claims.go.
use e_native_issuer.Common.{
  ℕ, suc, String, Bool, true, false, not, Option, none, some, List, [], ◌∷◌, map, any, find, str_eq,
  ◌==◌, if◌then◌else◌, length, Result, ok, err, ◌>>=◌, ◌>>◌, reject, or_err, map_err,
}
use e_native_issuer.Credential.{
  Claim, rev_pending, Revocation, Error, claim_does_not_exist, credential_not_found,
  auth_credential_cannot_be_revoked, trees_not_found, MerkleTree, Trees, Store,
}
use e_native_issuer.Credential.Repository.{
  get_by_revocation_nonce, find_claims_by_schema_hash, get_by_id_and_issuer, save, revoke_nonce,
  delete, get_non_revoked_by_connection_and_issuer_id,
}

-- What the calls of one revocation find: the hash of the schema of auth credentials, and the faults
-- of the statements, in their order; `save_fault` is that of the n-th claim.
pub record RevokeCalls : Type 0 where
  pub auth_hash : Result Error String
  pub first_fault : Option Error
  pub auth_fault : Option Error
  pub trees_fault : Option Error
  pub second_fault : Option Error
  pub save_fault : ℕ → Option Error
  pub nonce_fault : Option Error
  pub fresh : ℕ

-- The claims, or none after an error, which is only logged
abbrev pub or_no_claims : Result Error (List Claim) → List Claim
or_no_claims (ok claims) = claims
or_no_claims (err e) = []

-- What is left of the auth credentials when a nonce is revoked: the only one cannot be revoked, and
-- of several one must have another nonce.
abbrev pub leaves_another : ℕ → List Claim → Bool
leaves_another nonce claims =
    if length claims == 1 then false else any (λ r. not (r.rev_nonce == nonce)) claims

-- canRevokeNonce
unfoldable pub can_revoke_nonce :
    {T : Type 0} → Option Error → String → List Claim → ℕ → String → Store T → Result Error Bool
can_revoke_nonce fault did claims nonce auth db =
    let left =
      (find_claims_by_schema_hash fault did auth db >>= λ credentials.
      ok (leaves_another nonce credentials)) in
    if any (λ r. str_eq r.schema_hash auth) claims then left else ok true

-- The check at the head of revoke
unfoldable pub allowed : {T : Type 0} → RevokeCalls → String → ℕ → Store T → Result Error (Unit {0})
allowed c did nonce db = do
  auth ← c.auth_hash
  can ←
      can_revoke_nonce c.auth_fault did
        (or_no_claims (get_by_revocation_nonce c.first_fault did nonce db)) nonce auth db
  reject (not can) auth_credential_cannot_be_revoked

abbrev pub trees_of : {T : Type 0} → String → List (Trees T) → Result Error (Trees T)
trees_of did trees = or_err (find (λ t. str_eq t.identifier did) trees) trees_not_found

abbrev pub with_revocations : {T : Type 0} → String → T → Trees T → Trees T
with_revocations did new t = if str_eq t.identifier did then record t { revocations = new } else t

-- GetIdentityMerkleTrees, then RevokeClaim: the nonce is added to the tree of revocations.
unfoldable pub revoke_claim :
    {T : Type 0} → MerkleTree T → Option Error → String → ℕ → Store T → Result Error (Store T)
revoke_claim mt (some e) did nonce db = err e
revoke_claim mt none did nonce db = do
  trees ← trees_of did db.trees
  added ← mt.add nonce 0 trees.revocations
  ok (record db { trees = map (with_revocations did added) db.trees })

-- The saves of the claims, one after the other
unfoldable pub save_revoked :
    {T : Type 0} → RevokeCalls → ℕ → List Claim → Store T → Result Error (Store T)
save_revoked c n [] db = ok db
save_revoked c n (r ∷ claims) db = do
  saved ← save (c.save_fault n) c.fresh (record r { revoked = true }) db
  save_revoked c (suc n) claims saved.1

unfoldable pub revocation : String → ℕ → String → Revocation
revocation did nonce description = record {
  identifier = did;
  nonce = nonce;
  version = 0;
  status = rev_pending;
  description = description;
}

-- The second half of revoke: the claims are read again, and saved with the revocation in a
-- transaction.
unfoldable pub record_revocation :
    {T : Type 0} → RevokeCalls → String → ℕ → String → Store T → Result Error (Store T)
record_revocation c did nonce description db = do
  claims ← get_by_revocation_nonce c.second_fault did nonce db
  saved ← save_revoked c 0 claims db
  revoke_nonce c.nonce_fault (revocation did nonce description) saved

-- revoke. What the tree has taken stays there when a later step fails.
unfoldable pub revoke :
    {T : Type 0}
    → MerkleTree T
    → RevokeCalls
    → String
    → ℕ
    → String
    → Store T
    → Result Error (Unit {0}) × Store T
revoke mt c did nonce description db = elim (allowed c did nonce db) [
  | err e ↦ (err e, db)
  | ok _ ↦ elim (revoke_claim mt c.trees_fault did nonce db) [
    | err e ↦ (err e, db)
    | ok after ↦ elim (record_revocation c did nonce description after) [
      | err e ↦ (err e, after)
      | ok done ↦ (ok tt, done)
    ]
  ]
]

-- The revocations of a connection's credentials, up to the first error
unfoldable pub revoke_each :
    {T : Type 0}
    → MerkleTree T
    → (ℕ → RevokeCalls)
    → ℕ
    → String
    → List Claim
    → Store T
    → Result Error (Unit {0}) × Store T
revoke_each mt c n issuer [] db = (ok tt, db)
revoke_each mt c n issuer (r ∷ rows) db =
    let (answer, after) = revoke mt (c n) issuer r.rev_nonce "" db in
    let rest = revoke_each mt c (suc n) issuer rows after in
    elim answer [ err e ↦ (err e, after) | ok _ ↦ rest ]

-- RevokeAllFromConnection: the trees are written in its own transaction, which an error rolls
-- back, but revoke saves the claims and the revocation through the pool.
unfoldable pub revoke_all_from_connection :
    {T : Type 0}
    → MerkleTree T
    → Option Error
    → (ℕ → RevokeCalls)
    → ℕ
    → String
    → Store T
    → Result Error (Unit {0}) × Store T
revoke_all_from_connection mt fault c connection issuer db =
    elim (get_non_revoked_by_connection_and_issuer_id fault connection issuer db) [
      | err e ↦ (err e, db)
      | ok rows ↦
          let (answer, after) = revoke_each mt c 0 issuer rows db in
          elim answer [ err e ↦ (err e, record after { trees = db.trees }) | ok _ ↦ (ok tt, after) ]
    ]

-- errors.Is(err, ErrClaimDoesNotExist)
abbrev pub credential_error : Error → Error
credential_error claim_does_not_exist = credential_not_found
credential_error e = e

-- The read and the check at the head of Delete
unfoldable pub checked_claim :
    {T : Type 0}
    → Option Error
    → Result Error String
    → Option Error
    → String
    → ℕ
    → Store T
    → Result Error Claim
checked_claim read_fault auth_hash auth_fault did id db = do
  claim ← map_err credential_error (get_by_id_and_issuer read_fault did id db)
  auth ← auth_hash
  can ← can_revoke_nonce auth_fault did (claim ∷ []) claim.rev_nonce auth db
  reject (not can) auth_credential_cannot_be_revoked
  ok claim

-- Delete
unfoldable pub delete_credential :
    {T : Type 0}
    → Option Error
    → Result Error String
    → Option Error
    → Option Error
    → String
    → ℕ
    → Store T
    → Result Error (Unit {0}) × Store T
delete_credential read_fault auth_hash auth_fault fault did id db =
    elim (checked_claim read_fault auth_hash auth_fault did id db) [
      | err e ↦ (err e, db)
      | ok claim ↦
          let (answer, after) = delete fault id db in (map_err credential_error answer, after)
    ]

-- ===== src/Credential/Repository.antt =====
-- The statements on claims and revocations: issuer-node/internal/repositories/claim.go and
-- issuer-node/internal/repositories/revocation.go. A statement that the database refuses is an
-- argument `fault`.
use e_native_issuer.Common.{
  ℕ, String, Bool, false, not, ◌&&◌, ◌||◌, Option, none, some, List, [], ◌∷◌, ◌++◌, map, any, keep,
  find, str_eq, ◌==◌, if◌then◌else◌, Result, ok, err, or_err, some_and, is_some,
}
use e_native_issuer.Credential.{
  Claim, Revocation, Connection, Error, claim_does_not_exist, duplicate, Store,
}

abbrev pub owned_by : String → Claim → Bool
owned_by did r = some_and r.identifier (λ i. str_eq i did)

-- The claims of an identity that have a nonce
abbrev pub has_nonce : String → ℕ → Claim → Bool
has_nonce did nonce r = owned_by did r && (r.rev_nonce == nonce)

-- What GetByRevocationNonce scans: it leaves out `revoked`, `link_id` and `created_at`, so these
-- fields have their zero values.
abbrev pub as_read : Claim → Claim
as_read r = record r { revoked = false; link_id = none; created_at = 0 }

abbrev pub found_claims : List Claim → Result Error (List Claim)
found_claims [] = err claim_does_not_exist
found_claims (r ∷ rows) = ok (r ∷ rows)

-- GetByRevocationNonce
unfoldable pub get_by_revocation_nonce :
    {T : Type 0} → Option Error → String → ℕ → Store T → Result Error (List Claim)
get_by_revocation_nonce (some e) did nonce db = err e
get_by_revocation_nonce none did nonce db =
    found_claims (map as_read (keep (has_nonce did nonce) db.claims))

-- A published credential of the identity about itself, with a schema, that is not revoked
abbrev pub is_published : String → String → Claim → Bool
is_published did schema r =
    owned_by did r
    && (str_eq r.other_identifier did || str_eq r.other_identifier "")
    && str_eq r.schema_hash schema
    && not r.revoked
    && is_some r.mtp_proof

-- The columns without the link
abbrev pub without_link : Claim → Claim
without_link r = record r { link_id = none }

-- FindClaimsBySchemaHash
unfoldable pub find_claims_by_schema_hash :
    {T : Type 0} → Option Error → String → String → Store T → Result Error (List Claim)
find_claims_by_schema_hash (some e) did schema db = err e
find_claims_by_schema_hash none did schema db =
    ok (map without_link (keep (is_published did schema) db.claims))

-- GetByIdAndIssuer
unfoldable pub get_by_id_and_issuer :
    {T : Type 0} → Option Error → String → ℕ → Store T → Result Error Claim
get_by_id_and_issuer (some e) did id db = err e
get_by_id_and_issuer none did id db =
    or_err (find (λ r. owned_by did r && (r.id == id)) db.claims) claim_does_not_exist

-- ON CONFLICT ON CONSTRAINT claims_pkey DO UPDATE: every column but the identifier
abbrev pub overwritten : Claim → Claim → Claim
overwritten new old = record new { identifier = old.identifier }

unfoldable pub upsert : Claim → List Claim → List Claim
upsert new [] = new ∷ []
upsert new (r ∷ rows) =
    let rest = upsert new rows in if r.id == new.id then overwritten new r ∷ rows else r ∷ rest

-- Save: the nil id asks the database for one, `fresh`.
unfoldable pub save : {T : Type 0} → Option Error → ℕ → Claim → Store T → Result Error (ℕ × Store T)
save (some e) fresh claim db = err e
save none fresh claim db =
    if claim.id == 0
    then ok (fresh, record db { claims = db.claims ++ record claim { id = fresh } ∷ [] })
    else ok (claim.id, record db { claims = upsert claim db.claims })

-- RevokeNonce. An identifier, a nonce and a version are unique together.
abbrev pub same_nonce : Revocation → Revocation → Bool
same_nonce new r =
    str_eq r.identifier new.identifier && (r.nonce == new.nonce) && (r.version == new.version)

unfoldable pub revoke_nonce :
    {T : Type 0} → Option Error → Revocation → Store T → Result Error (Store T)
revoke_nonce (some e) new db = err e
revoke_nonce none new db =
    if any (same_nonce new) db.revocations
    then err duplicate
    else ok (record db { revocations = db.revocations ++ new ∷ [] })

-- Delete
unfoldable pub delete :
    {T : Type 0} → Option Error → ℕ → Store T → Result Error (Unit {0}) × Store T
delete (some e) id db = (err e, db)
delete none id db =
    if any (λ r. r.id == id) db.claims
    then (ok tt, record db { claims = keep (λ r. not (r.id == id)) db.claims })
    else (err claim_does_not_exist, db)

-- GetNonRevokedByConnectionAndIssuerID, without the joined status of the state
abbrev pub is_between : Connection → Claim → Bool
is_between c r = str_eq c.issuer_id r.issuer && str_eq c.user_id r.other_identifier

unfoldable pub get_non_revoked_by_connection_and_issuer_id :
    {T : Type 0} → Option Error → ℕ → String → Store T → Result Error (List Claim)
get_non_revoked_by_connection_and_issuer_id (some e) connection issuer db = err e
get_non_revoked_by_connection_and_issuer_id none connection issuer db = ok (
    map without_link (
      keep
        (λ r.
          any (λ c. (c.id == connection) && is_between c r) db.connections
          && str_eq r.issuer issuer
          && not r.revoked)
        db.claims))

-- ===== src/Link/Repository.antt =====
-- issuer-node/internal/repositories/link.go, and the reads and the write of claims by
-- issuer-node/internal/repositories/claim.go that go with a link. A statement that the database
-- refuses is an argument `fault`.
use e_native_issuer.Common.{
  ℕ, String, Bool, true, false, Option, none, some, List, [], ◌∷◌, map, str_eq, ◌==◌, ◌&&◌,
  if◌then◌else◌, some_and, find, keep, any, length, Result, ok, err,
}
use e_native_issuer.Link.{Row, Link, ClaimRow, Db, Error, link_does_not_exist}

-- claims.link_id = links.id AND claims.identifier = links.issuer_id
abbrev pub issued_by : ℕ → String → ClaimRow → Bool
issued_by id issuer c = some_and c.link_id (λ l. l == id) && str_eq c.identifier issuer

-- count(claims.id) of the join in GetByID and GetAll
abbrev pub issued : ℕ → String → List ClaimRow → ℕ
issued id issuer claims = length (keep (issued_by id issuer) claims)

abbrev pub is_row : ℕ → String → Row → Bool
is_row id issuer r = (r.id == id) && str_eq r.issuer_did issuer

-- GetByID
unfoldable pub get_by_id : Option Error → String → ℕ → Db → Result Error Link
get_by_id (some e) issuer id db = err e
get_by_id none issuer id db = elim (find (is_row id issuer) db.links) [
  | none ↦ err link_does_not_exist
  | some r ↦ ok (record { row = r; issued_claims = issued r.id r.issuer_did db.claims })
]

-- The columns that ON CONFLICT (id) DO UPDATE sets.
abbrev pub overwritten : Row → Row → Row
overwritten new old = record old {
  issuer_did = new.issuer_did;
  max_issuance = new.max_issuance;
  valid_until = new.valid_until;
  schema_id = new.schema_id;
  credential_expiration = new.credential_expiration;
  credential_signature_proof = new.credential_signature_proof;
  credential_mtp_proof = new.credential_mtp_proof;
  credential_subject = new.credential_subject;
  active = new.active;
}

unfoldable pub upsert : Row → List Row → List Row
upsert new [] = new ∷ []
upsert new (r ∷ rows) = if r.id == new.id then overwritten new r ∷ rows else r ∷ upsert new rows

-- Save
unfoldable pub save : Option Error → Link → Db → Result Error (Unit {0}) × Db
save (some e) l db = (err e, db)
save none l db = (ok tt, record db { links = upsert l.row db.links })

-- AddAuthorizationRequest
unfoldable pub add_authorization_request :
    Option Error → ℕ → String → ℕ → Db → Result Error (Unit {0}) × Db
add_authorization_request (some e) id issuer message db = (err e, db)
add_authorization_request none id issuer message db = (
  ok tt,
  record db {
    links =
        map
          (λ r.
            if is_row id issuer r
            then record r { authorization_request_message = some message }
            else r)
          db.links;
  },
)

abbrev pub unlinked : ℕ → String → ClaimRow → ClaimRow
unlinked id issuer c = if issued_by id issuer c then record c { link_id = none } else c

-- Delete. The two statements are one transaction; `first_fault`, `second_fault` and `commit_fault`
-- are its faults. That no row was there is found after the commit.
unfoldable pub delete :
    Option Error → Option Error → Option Error → ℕ → String → Db → Result Error (Unit {0}) × Db
delete (some e) second commit id issuer db = (err e, db)
delete none (some e) commit id issuer db = (err e, db)
delete none none (some e) id issuer db = (err e, db)
delete none none none id issuer db =
    let after : Db = record {
      links = keep (λ r. if is_row id issuer r then false else true) db.links;
      claims = map (unlinked id issuer) db.claims;
    } in
    if any (is_row id issuer) db.links then (ok tt, after) else (err link_does_not_exist, after)

-- GetClaimsIssuedForUser
unfoldable pub get_claims_issued_for_user :
    Option Error → String → String → ℕ → Db → Result Error (List ClaimRow)
get_claims_issued_for_user (some e) issuer user link db = err e
get_claims_issued_for_user none issuer user link db =
    ok (keep (λ c. issued_by link issuer c && str_eq c.other_identifier user) db.claims)

-- Save of a claim that has an id: a row with the id is overwritten, but for its `identifier`.
unfoldable pub upsert_claim : ClaimRow → List ClaimRow → List ClaimRow
upsert_claim new [] = new ∷ []
upsert_claim new (c ∷ cs) =
    if c.id == new.id
    then record new { identifier = c.identifier } ∷ cs
    else c ∷ upsert_claim new cs

unfoldable pub save_claim : Option Error → ClaimRow → Db → Result Error ℕ × Db
save_claim (some e) c db = (err e, db)
save_claim none c db = (ok c.id, record db { claims = upsert_claim c db.claims })

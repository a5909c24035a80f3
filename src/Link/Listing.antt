-- ===== src/Link/Listing.antt =====
-- GetAll of issuer-node/internal/repositories/link.go: the WHERE clause that it builds, read with
-- SQL's precedence (AND binds tighter than OR), and the list of links.
use e_native_issuer.Common.{
  ℕ, String, Bool, true, not, ◌&&◌, ◌||◌, Option, none, some, List, map, str_eq, ltb, leb, ◌==◌,
  some_and, keep, length, sort_desc, Result, ok, err,
}
use e_native_issuer.Link.{Row, Link, ClaimRow, Db, Error}
use e_native_issuer.Link.Repository.{issued}

-- ports.LinkStatus
pub data LinkStatus : Type 0 where
  all active inactive exceeded : LinkStatus

-- SELECT count(claims.id) FROM claims WHERE claims.link_id = links.id
abbrev pub claims_of_link : ℕ → List ClaimRow → ℕ
claims_of_link id claims = length (keep (λ c. some_and c.link_id (λ l. l == id)) claims)

-- coalesce(test, true)
abbrev pub unless_null : Option ℕ → (ℕ → Bool) → Bool
unless_null none test = true
unless_null (some n) test = test n

-- `words` is the condition on the words of the schema, or true where there is no query.
unfoldable pub where_clause : LinkStatus → ℕ → String → (Row → Bool) → List ClaimRow → Row → Bool
where_clause all now issuer words claims r = str_eq r.issuer_did issuer && words r
where_clause active now issuer words claims r =
    str_eq r.issuer_did issuer
    && r.active
    && unless_null r.valid_until (λ t. ltb now t)
    && unless_null r.max_issuance (λ m. ltb (claims_of_link r.id claims) m)
    && words r
where_clause inactive now issuer words claims r =
    str_eq r.issuer_did issuer && not r.active && words r
where_clause exceeded now issuer words claims r =
    (str_eq r.issuer_did issuer && some_and r.valid_until (λ t. leb t now))
    || (some_and r.max_issuance (λ m. leb m (claims_of_link r.id claims)) && words r)

-- The links that the query finds, newest first.
abbrev pub listed : LinkStatus → ℕ → String → (Row → Bool) → Db → List Link
listed status now issuer words db =
    map (λ r. record { row = r; issued_claims = issued r.id r.issuer_did db.claims })
      (sort_desc (λ r. r.created_at)
        (keep (where_clause status now issuer words db.claims) db.links))

-- GetAll
unfoldable pub get_all :
    Option Error → LinkStatus → ℕ → String → (Row → Bool) → Db → Result Error (List Link)
get_all (some e) status now issuer words db = err e
get_all none status now issuer words db = ok (listed status now issuer words db)

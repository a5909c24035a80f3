-- ===== src/Link/Validity.antt =====
-- Three readings of when a link can be used: Status of the domain, Validate of the service and the
-- filter of the listing.
use e_native_issuer.Common.{ℕ, ◌≡◌, ◌≤◌, ◌↔◌, String, Bool, true, str_eq, List, [], ◌∷◌, ok, arith}
use e_native_issuer.Link.{Row, Link, ClaimRow, is_active, status}
use e_native_issuer.Link.Repository.{issued}
use e_native_issuer.Link.Listing.{active, where_clause, claims_of_link}
use e_native_issuer.Link.Service.{validate}

-- A link is shown as active exactly when the service would issue from it.
pub status-validate : (now : ℕ) (l : Link) → (status now l ≡ is_active) ↔ (validate now l ≡ ok tt)
unfolding status validate
status-validate now l = (λ h. ground arith, λ h. ground arith)

issued-le :
    (id : ℕ) (issuer : String) (claims : List ClaimRow)
    → issued id issuer claims ≤ claims_of_link id claims
issued-le id issuer [] = omega arith
issued-le id issuer (c ∷ cs) = ground (arith, issued-le id issuer cs)

-- A row that the listing calls active is a link of the issuer that the service would issue from,
-- with its claims counted as GetByID counts them.
pub listed_active-validate :
    (now : ℕ) (issuer : String) (words : Row → Bool) (claims : List ClaimRow) (r : Row)
    → where_clause active now issuer words claims r ≡ true
    → (str_eq r.issuer_did issuer ≡ true)
      × (validate now (record { row = r; issued_claims = issued r.id r.issuer_did claims }) ≡ ok tt)
unfolding where_clause validate
listed_active-validate now issuer words claims r h =
    (ground arith, ground (arith, issued-le r.id r.issuer_did claims))

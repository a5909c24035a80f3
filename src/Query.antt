-- ===== src/Query.antt =====
-- How the listings page and order their rows, and the names of credentials:
-- issuer-node/internal/core/pagination/pagination.go, issuer-node/internal/sqltools/orderbyfilter.go
-- and issuer-node/internal/urn/urn.go.
pub mod Pagination
pub mod OrderBy
pub mod Urn
pub mod Pages
pub mod Fields
pub mod Names
pub mod Tests

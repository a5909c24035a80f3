-- ===== src/Query/Tests.antt =====
-- Runs of the helpers of the listings and the theorems at concrete inputs.
use e_native_issuer.Common.{ℕ, ◌≡◌, refl, codes, true, false, some, List, [], ◌∷◌}
use e_native_issuer.Query.Pagination.{new_filter, get_limit, get_offset, selected}
use e_native_issuer.Query.OrderBy.{OrderByFilter, add_filter, clause, order_by}

abbrev five : List ℕ
five = 1 ∷ 2 ∷ 3 ∷ 4 ∷ 5 ∷ []

third_page : selected (new_filter (some 2) (some 3)) five ≡ 5 ∷ []
unfolding selected new_filter get_limit get_offset
third_page = refl

abbrev by_type : OrderByFilter
by_type = record { field = codes "schema_type"; desc = true; nulls_last = false }

clause_of_two :
    order_by (add_filter (codes "revoked") false true (by_type ∷ [])).1
    ≡ codes "schema_type DESC, revoked ASC NULLS LAST"
unfolding order_by add_filter clause
clause_of_two = refl

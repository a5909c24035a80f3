-- ===== src/Query/OrderBy.antt =====
-- issuer-node/internal/sqltools/orderbyfilter.go
use e_native_issuer.Common.{
  Bytes, codes, bytes_eq, Bool, List, [], ◌∷◌, ◌++◌, any, if◌then◌else◌, Result, ok, err,
}

-- OrderByFilter
pub record OrderByFilter : Type 0 where
  pub field : Bytes
  pub desc : Bool
  pub nulls_last : Bool

pub data Error : Type 0 where
  field_already_exists : Error

-- add: the collection as the call leaves it.
unfoldable pub add_filter :
    Bytes → Bool → Bool → List OrderByFilter → Result Error (Unit {0}) × List OrderByFilter
add_filter f desc nulls_last s =
    if any (λ v. bytes_eq v.field f) s
    then (err field_already_exists, s)
    else (ok tt, s ++ record { field = f; desc = desc; nulls_last = nulls_last } ∷ [])

-- The clause of one field.
unfoldable pub clause : OrderByFilter → Bytes
clause v =
    v.field
    ++ (if v.desc then codes " DESC" else codes " ASC")
    ++ (if v.nulls_last then codes " NULLS LAST" else [])

abbrev joined : Bytes → List OrderByFilter → Bytes
joined c [] = c
joined c (v ∷ s) = c ++ codes ", " ++ joined (clause v) s

-- String
unfoldable pub order_by : List OrderByFilter → Bytes
order_by [] = []
order_by (v ∷ s) = joined (clause v) s

-- ===== src/Query/Fields.antt =====
-- The fields of an ORDER BY clause are distinct.
use e_native_issuer.Common.{
  ◌≡◌, refl, Bytes, bytes_eq, Bool, false, ◌||◌, List, [], ◌∷◌, ◌++◌, any, arith, Bool-cases, inl,
  inr,
}
use e_native_issuer.Query.OrderBy.{OrderByFilter, add_filter}

abbrev pub has_field : Bytes → List OrderByFilter → Bool
has_field f = any (λ v. bytes_eq v.field f)

-- No field stands twice.
abbrev pub Distinct : List OrderByFilter → Type 0
Distinct [] = Unit
Distinct (v ∷ s) = (has_field v.field s ≡ false) × Distinct s

bytes_eq_comm : (x y : Bytes) → bytes_eq x y ≡ bytes_eq y x
bytes_eq_comm [] [] = refl
bytes_eq_comm [] (y ∷ ys) = refl
bytes_eq_comm (x ∷ xs) [] = refl
bytes_eq_comm (x ∷ xs) (y ∷ ys) = ground (arith, bytes_eq_comm xs ys)

has_field-append :
    (f : Bytes) (s : List OrderByFilter) (v : OrderByFilter)
    → has_field f (s ++ v ∷ []) ≡ (has_field f s || bytes_eq v.field f)
has_field-append f [] v = ground arith
has_field-append f (w ∷ s) v = ground (arith, has_field-append f s v)

Distinct-append :
    (s : List OrderByFilter) (v : OrderByFilter)
    → has_field v.field s ≡ false
    → Distinct s
    → Distinct (s ++ v ∷ [])
Distinct-append [] v h d = (refl, tt)
Distinct-append (w ∷ s) v h d =
    ground (arith, has_field-append w.field s v, bytes_eq_comm v.field w.field, Distinct-append s v)

-- Adding a field keeps the fields distinct, whether it is taken or refused.
pub add_filter-Distinct :
    (f : Bytes) (desc nulls_last : Bool) (s : List OrderByFilter)
    → Distinct s
    → Distinct (add_filter f desc nulls_last s).1
unfolding add_filter
add_filter-Distinct f desc nulls_last s d = elim (Bool-cases (has_field f s)) [
  | inl e ↦ rw e d
  | inr e ↦
      rw e (Distinct-append s (record { field = f; desc = desc; nulls_last = nulls_last }) e d)
]

-- ===== src/Credential/Joins.antt =====
-- The joined rows of a listing of issuer-node/internal/repositories/claim.go, and predicates on the
-- parts of a list.
use mathlib.Core.List.{mem-cons_self, mem-cons_of_mem}
use e_native_issuer.Common.{
  ℕ, zero, suc, ◌≡◌, refl, bytes_eq, Bool, true, List, [], ◌∷◌, map, Mem, All, All-append, keep,
  take, drop, length, arith, Bool-cases, inl, inr,
}
use e_native_issuer.Credential.Listing.{
  Row, Schema, Joined, ClaimsFilter, is_schema_of, with_schemas, left_join, from_tables,
}

-- The rows that are kept pass the test, and have what all rows have.
pub All-keep {ℓ κ} :
    {A : Type ℓ} (P : A → Type κ) (p : A → Bool) (xs : List A)
    → All P xs
    → All (λ x. P x × (p x ≡ true)) (keep p xs)
All-keep P p [] h = tt
All-keep P p (x ∷ xs) h = elim (Bool-cases (p x)) [
  | inl e ↦ rw e ((h.0, e), All-keep P p xs h.1)
  | inr e ↦ rw e (All-keep P p xs h.1)
]

pub All-drop {ℓ κ} :
    {A : Type ℓ} (P : A → Type κ) (n : ℕ) (xs : List A) → All P xs → All P (drop n xs)
All-drop P zero xs h = h
All-drop P (suc n) [] h = tt
All-drop P (suc n) (x ∷ xs) h = All-drop P n xs h.1

pub All-take {ℓ κ} :
    {A : Type ℓ} (P : A → Type κ) (n : ℕ) (xs : List A) → All P xs → All P (take n xs)
All-take P zero xs h = tt
All-take P (suc n) [] h = tt
All-take P (suc n) (x ∷ xs) h = (h.0, All-take P n xs h.1)

pub All-implies {ℓ κ μ} :
    {A : Type ℓ} (P : A → Type κ) (Q : A → Type μ) (xs : List A)
    → ((x : A) → P x → Q x)
    → All P xs
    → All Q xs
All-implies P Q [] f h = tt
All-implies P Q (x ∷ xs) f h = (f x h.0, All-implies P Q xs f h.1)

pub All-Mem {ℓ} : {A : Type ℓ} (xs : List A) → All (λ x. Mem x xs) xs
All-Mem [] = tt
All-Mem (x ∷ xs) = (
  mem-cons_self,
  All-implies (λ y. Mem y xs) (λ y. Mem y (x ∷ xs)) xs (λ y m. mem-cons_of_mem x m) (All-Mem xs),
)

-- The join repeats claims and adds none.
module _ {κ} (P : Row → Type κ) where
  abbrev OfClaim : Joined → Type κ
  OfClaim j = P j.claim

  words-OfClaim :
      (r : Row) (schemas : List Schema)
      → P r
      → All OfClaim (map (λ t. record { claim = r; words = t.words }) schemas)
  words-OfClaim r [] h = tt
  words-OfClaim r (s ∷ schemas) h = (h, words-OfClaim r schemas h)

  with_schemas-OfClaim :
      (r : Row) (schemas : List Schema) → P r → All OfClaim (with_schemas r schemas)
  with_schemas-OfClaim r [] h = (h, tt)
  with_schemas-OfClaim r (s ∷ schemas) h = (h, words-OfClaim r schemas h)

  left_join-OfClaim :
      (schemas : List Schema) (rows : List Row) → All P rows → All OfClaim (left_join schemas rows)
  unfolding left_join
  left_join-OfClaim schemas [] h = tt
  left_join-OfClaim schemas (r ∷ rows) h =
      All-append OfClaim (with_schemas r (keep (is_schema_of r) schemas)) (left_join schemas rows)
        (with_schemas-OfClaim r (keep (is_schema_of r) schemas) h.0)
        (left_join-OfClaim schemas rows h.1)

  pub from_tables-OfClaim :
      (filter : ClaimsFilter) (schemas : List Schema) (rows : List Row)
      → All P rows
      → All OfClaim (from_tables filter schemas rows)
  unfolding from_tables
  from_tables-OfClaim filter schemas rows h = elim (Bool-cases (bytes_eq filter.fts_query [])) [
    | inl e ↦ rw e (left_join-OfClaim [] rows h)
    | inr e ↦ rw e (left_join-OfClaim schemas rows h)
  ]

  pub claims-All : (js : List Joined) → All OfClaim js → All P (map (λ j. j.claim) js)
  claims-All [] h = tt
  claims-All (j ∷ js) h = (h.0, claims-All js h.1)

pub claims-length : (js : List Joined) → length (map (λ (j : Joined). j.claim) js) ≡ length js
claims-length [] = refl
claims-length (j ∷ js) = ground (arith, claims-length js)

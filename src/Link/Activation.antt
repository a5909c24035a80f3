-- ===== src/Link/Activation.antt =====
-- Activate of the link service.
use e_native_issuer.Common.{
  ℕ, ◌≡◌, ◌≢◌, refl, String, Bool, true, Option, none, some, ◌==◌, str_eq, eq_iff, List, [], ◌∷◌,
  find, if◌then◌else◌, ok, err, arith,
}
use e_native_issuer.Link.{Row, Db, link_already_active, link_already_inactive}
use e_native_issuer.Link.Repository
use e_native_issuer.Link.Repository.{issued, is_row, overwritten, upsert}
use e_native_issuer.Link.Service.{activate}

-- The row that a link was read from, after its switch is saved.
abbrev switched : Bool → Row → Row
switched b r = record r { active = b }

overwritten_self : (b : Bool) (r : Row) → overwritten (switched b r) r ≡ switched b r
overwritten_self b r = refl

-- `id` is the primary key of the table: this is the row that it names.
abbrev pub row_of : ℕ → List Row → Option Row
row_of id rows = find (λ s. s.id == id) rows

find-row_of :
    (id : ℕ) (issuer : String) (rows : List Row) (r : Row)
    → row_of id rows ≡ some r
    → str_eq r.issuer_did issuer ≡ true
    → find (is_row id issuer) rows ≡ some r
find-row_of id issuer [] r h k = cc
find-row_of id issuer (s ∷ rows) r h k = ground (arith, find-row_of id issuer rows r)

row_of-id : (id : ℕ) (rows : List Row) (r : Row) → row_of id rows ≡ some r → r.id ≡ id
row_of-id id [] r h = cc
row_of-id id (s ∷ rows) r h = ground (arith, row_of-id id rows r)

-- Saving a link that was read changes the row that it was read from.
row_of-upsert :
    (id : ℕ) (rows : List Row) (r : Row) (b : Bool)
    → r.id ≡ id
    → row_of id rows ≡ some r
    → row_of id (upsert (switched b r) rows) ≡ some (switched b r)
unfolding upsert
row_of-upsert id [] r b e h = cc
row_of-upsert id (s ∷ rows) r b e h = ground (arith, row_of-upsert id rows r b e)

module _ (issuer : String) (id : ℕ) (b : Bool) (db : Db) (r : Row)
    (named : row_of id db.links ≡ some r) (owned : str_eq r.issuer_did issuer ≡ true) where
  -- With no fault of the database, a link of the issuer that is already switched as asked is
  -- refused, and nothing changes.
  pub activate-again :
      r.active ≡ b
      → activate none none issuer id b db
        ≡ (err (if b then link_already_active else link_already_inactive), db)
  unfolding activate Repository.get_by_id
  activate-again same = ground (arith, find-row_of id issuer db.links r named owned)

  -- With no fault of the database, a link of the issuer that is not switched as asked is switched,
  -- and a later read finds the switch and all else as it was.
  pub activate-switches :
      r.active ≢ b
      → ((activate none none issuer id b db).0 ≡ ok tt)
        × (Repository.get_by_id none issuer id (activate none none issuer id b db).1
            ≡ ok (record {
              row = record r { active = b };
              issued_claims = issued id issuer db.claims;
            }))
  unfolding activate Repository.get_by_id Repository.save
  activate-switches other =
      let e : r.id ≡ id = row_of-id id db.links r named in
      ground (
        arith,
        e,
        eq_iff r.issuer_did issuer,
        find-row_of id issuer db.links r named owned,
        row_of-upsert id db.links r b e named,
        find-row_of id issuer (upsert (switched b r) db.links) (switched b r),
      )

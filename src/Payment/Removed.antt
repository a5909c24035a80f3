-- ===== src/Payment/Removed.antt =====
-- What a deletion of a payment request leaves.
use mathlib.Core.Path.{subst}
use e_native_issuer.Common.{
  ℕ, ◌≡◌, refl, sym, String, true, false, not, none, some, List, [], ◌∷◌, any, keep, find, ◌==◌, ok,
  err, arith, find-passes,
}
use e_native_issuer.Payment.{Item, Row, Db, null_scanned, payment_request_not_found}
use e_native_issuer.Payment.Repository.{
  is_request, get_payment_request_by_id, items_of, delete_payment_request, without_items,
}
use e_native_issuer.Payment.Found.{find-removed}

-- The items of a request are gone once they were deleted.
items_of-without :
    (id : ℕ) (items : List Item)
    → items_of id (keep (λ i. not (i.payment_request_id == id)) items) ≡ []
items_of-without id [] = refl
items_of-without id (i ∷ items) = ground (arith, items_of-without id items)

-- A deletion under the issuer that has the request: it succeeds, and the request is found no more.
pub delete-forgets :
    (issuer : String) (id : ℕ) (db : Db)
    → any (is_request issuer id) db.requests ≡ true
    → ((delete_payment_request none none issuer id db).0 ≡ ok tt)
      × (get_payment_request_by_id none issuer id (delete_payment_request none none issuer id db).1
          ≡ err payment_request_not_found)
unfolding delete_payment_request get_payment_request_by_id
delete-forgets issuer id db h =
    (ground (arith, h), ground (arith, h, find-removed issuer id db.requests))

-- A deletion under an issuer that does not have the request: the error says that there is no such
-- request, but the payments of the request are deleted, and its owner can read it no more.
pub delete-by_another :
    (issuer owner : String) (id : ℕ) (db : Db) (r : Row)
    → any (is_request issuer id) db.requests ≡ false
    → find (is_request owner id) db.requests ≡ some r
    → ((delete_payment_request none none issuer id db).0 ≡ err payment_request_not_found)
      × (get_payment_request_by_id none owner id (delete_payment_request none none issuer id db).1
          ≡ err null_scanned)
unfolding delete_payment_request get_payment_request_by_id
delete-by_another issuer owner id db r h own =
    let same : r.id ≡ id = ground (arith, find-passes (is_request owner id) db.requests r own) in
    let no_item : items_of r.id (without_items id db).items ≡ [] =
      subst (λ n. items_of n (without_items id db).items ≡ []) (sym same)
        (items_of-without id db.items) in
    (ground (arith, h), ground (arith, h, own, no_item))

-- ===== src/Payment/Repository.antt =====
-- The payment requests and their items in issuer-node/internal/repositories/payment.go. A
-- statement that the database refuses for a reason of its own is an argument `fault`.
use e_native_issuer.Common.{
  ℕ, String, Bool, true, false, not, ◌&&◌, ◌||◌, Option, none, some, List, [], ◌∷◌, ◌++◌, map, any,
  keep, find, str_eq, ◌==◌, if◌then◌else◌, Result, ok, err,
}
use e_native_issuer.Payment.{
  Status, Item, Row, Request, Db, Error, payment_request_not_found, payment_request_item_not_found,
  duplicate, null_scanned,
}

abbrev pub is_empty {ℓ} : {A : Type ℓ} → List A → Bool
is_empty [] = true
is_empty (x ∷ xs) = false

-- The keys of the table of items: the id and the nonce.
abbrev pub same_item : Item → Item → Bool
same_item new i = (i.id == new.id) || (i.nonce == new.nonce)

-- The INSERTs of the items, one after the other.
unfoldable pub insert_items : List Item → List Item → Option (List Item)
insert_items [] items = some items
insert_items (i ∷ rest) items =
    let inserted = insert_items rest (items ++ i ∷ []) in
    if any (same_item i) items then none else inserted

-- The items come after the request, in one transaction.
abbrev pub saved_items : Row → Option (List Item) → Db → Result Error ℕ × Db
saved_items r none db = (err duplicate, db)
saved_items r (some items) db =
    (ok r.id, record db { requests = db.requests ++ r ∷ []; items = items })

-- SavePaymentRequest
unfoldable pub save_payment_request : Option Error → Request → Db → Result Error ℕ × Db
save_payment_request (some e) q db = (err e, db)
save_payment_request none q db =
    if any (λ r. r.id == q.row.id) db.requests
    then (err duplicate, db)
    else saved_items q.row (insert_items q.payments db.items) db

abbrev pub is_request : String → ℕ → Row → Bool
is_request issuer id r = str_eq r.issuer_did issuer && (r.id == id)

abbrev pub items_of : ℕ → List Item → List Item
items_of id = keep (λ i. i.payment_request_id == id)

-- The query leaves the column of the schema out: the field is nil.
abbrev pub without_schema : Row → Row
without_schema r = record r { schema_id = none }

-- The rows of the join: a request with no item gives one row with a NULL nonce, which the scan
-- refuses.
abbrev pub joined : Row → List Item → Result Error Request
joined r [] = err null_scanned
joined r (i ∷ items) = ok (record { row = without_schema r; payments = i ∷ items })

abbrev pub joined_row : Option Row → Db → Result Error Request
joined_row none db = err payment_request_not_found
joined_row (some r) db = joined r (items_of r.id db.items)

-- GetPaymentRequestByID
unfoldable pub get_payment_request_by_id : Option Error → String → ℕ → Db → Result Error Request
get_payment_request_by_id (some e) issuer id db = err e
get_payment_request_by_id none issuer id db =
    joined_row (find (is_request issuer id) db.requests) db

-- DeletePaymentRequest: two statements on the pool, each with a fault of its own.
abbrev pub without_items : ℕ → Db → Db
without_items id db = record db { items = keep (λ i. not (i.payment_request_id == id)) db.items }

unfoldable pub delete_payment_request :
    Option Error → Option Error → String → ℕ → Db → Result Error (Unit {0}) × Db
delete_payment_request (some e) second issuer id db = (err e, db)
delete_payment_request none (some e) issuer id db = (err e, without_items id db)
delete_payment_request none none issuer id db =
    let after = without_items id db in
    if any (is_request issuer id) db.requests
    then (ok tt, record after { requests = keep (λ r. not (is_request issuer id r)) db.requests })
    else (err payment_request_not_found, after)

-- The row that the join finds for a nonce of an issuer; nonces are unique.
abbrev pub issued_by : String → List Row → Item → Bool
issued_by issuer rows i =
    any (λ r. (r.id == i.payment_request_id) && str_eq r.issuer_did issuer) rows

-- GetPaymentRequestItem
unfoldable pub get_payment_request_item : Option Error → String → ℕ → Db → Result Error Item
get_payment_request_item (some e) issuer nonce db = err e
get_payment_request_item none issuer nonce db =
    elim (find (λ i. issued_by issuer db.requests i && (i.nonce == nonce)) db.items) [
      | none ↦ err payment_request_item_not_found
      | some i ↦ ok i
    ]

abbrev pub with_status : ℕ → String → ℕ → Status → Option ℕ → Row → Row
with_status now issuer id status paid r =
    if is_request issuer id r
    then record r { status = status; paid_nonce = paid; modified_at = now }
    else r

-- UpdatePaymentRequestStatus
unfoldable pub update_payment_request_status :
    Option Error → ℕ → String → ℕ → Status → Option ℕ → Db → Result Error (Unit {0}) × Db
update_payment_request_status (some e) now issuer id status paid db = (err e, db)
update_payment_request_status none now issuer id status paid db =
    if any (is_request issuer id) db.requests
    then (ok tt, record db { requests = map (with_status now issuer id status paid) db.requests })
    else (err payment_request_not_found, db)

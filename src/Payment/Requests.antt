-- ===== src/Payment/Requests.antt =====
-- GetAllPaymentRequests of issuer-node/internal/repositories/payment.go.
use e_native_issuer.Common.{
  ℕ, String, Bool, true, ◌&&◌, Option, none, some, List, [], ◌∷◌, any, keep, some_and, str_eq, ◌==◌,
  Result, ok, err,
}
use e_native_issuer.Payment.{Item, Row, Request, Db, Error}
use e_native_issuer.Payment.Repository.{items_of}

-- PaymentRequestsQueryParams
pub record QueryParams : Type 0 where
  pub user_did : Option String
  pub schema_id : Option ℕ
  pub nonce : Option ℕ

abbrev pub unless_set {ℓ} : {A : Type ℓ} → Option A → (A → Bool) → Bool
unless_set none test = true
unless_set (some a) test = test a

-- The items of a row that the query takes.
abbrev pub selected_items : QueryParams → Row → List Item → List Item
selected_items q r items = keep (λ i. unless_set q.nonce (λ n. i.nonce == n)) (items_of r.id items)

-- With a nonce, the condition on the joined item drops the rows that have no such item.
abbrev pub selected : String → QueryParams → List Item → Row → Bool
selected issuer q items r =
    str_eq r.issuer_did issuer
    && unless_set q.user_did (λ u. str_eq r.user_did u)
    && unless_set q.schema_id (λ s. some_and r.schema_id (λ t. t == s))
    && unless_set q.nonce (λ n. any (λ i. i.nonce == n) (items_of r.id items))

-- The variable `pr` is declared before the loop over the rows, and its PaidNonce is set only from
-- a row that has one: `carried` is what it holds.
abbrev pub or_carried : Option ℕ → Option ℕ → Option ℕ
or_carried none carried = carried
or_carried (some n) carried = some n

unfoldable pub scan_rows : QueryParams → List Item → Option ℕ → List Row → List Request
scan_rows q items carried [] = []
scan_rows q items carried (r ∷ rows) =
    let paid = or_carried r.paid_nonce carried in
    record { row = record r { paid_nonce = paid }; payments = selected_items q r items }
    ∷ scan_rows q items paid rows

-- GetAllPaymentRequests. The query has no order; `arranged` is the order that the database gives.
unfoldable pub get_all_payment_requests :
    Option Error → (List Row → List Row) → String → QueryParams → Db → Result Error (List Request)
get_all_payment_requests (some e) arranged issuer q db = err e
get_all_payment_requests none arranged issuer q db =
    ok (scan_rows q db.items none (arranged (keep (selected issuer q db.items) db.requests)))

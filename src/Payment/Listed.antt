-- ===== src/Payment/Listed.antt =====
-- What the listing of the payment requests says of the nonces that have paid.
use e_native_issuer.Common.{
  ℕ, ◌≡◌, refl, ap, ◌∙◌, String, Option, none, List, [], ◌∷◌, ◌++◌, map, keep, ok,
}
use e_native_issuer.Payment.{Item, Row, Request, Db}
use e_native_issuer.Payment.Requests.{
  QueryParams, selected, selected_items, or_carried, scan_rows, get_all_payment_requests,
}

-- The last nonce that has paid a row of a list
abbrev pub last_paid : Option ℕ → List Row → Option ℕ
last_paid start [] = start
last_paid start (r ∷ rows) = last_paid (or_carried r.paid_nonce start) rows

scan-append :
    (q : QueryParams) (items : List Item) (carried : Option ℕ) (before after : List Row)
    → scan_rows q items carried (before ++ after)
      ≡ scan_rows q items carried before ++ scan_rows q items (last_paid carried before) after
unfolding scan_rows
scan-append q items carried [] after = refl
scan-append q items carried (r ∷ before) after =
    ap
      (λ l.
        record {
          row = record r { paid_nonce = or_carried r.paid_nonce carried };
          payments = selected_items q r items;
        }
        ∷ l)
      (scan-append q items (or_carried r.paid_nonce carried) before after)

scan-ids :
    (q : QueryParams) (items : List Item) (carried : Option ℕ) (rows : List Row)
    → map (λ p. p.row.id) (scan_rows q items carried rows) ≡ map (λ r. r.id) rows
unfolding scan_rows
scan-ids q items carried [] = refl
scan-ids q items carried (r ∷ rows) =
    ap (λ l. r.id ∷ l) (scan-ids q items (or_carried r.paid_nonce carried) rows)

-- A request that is not paid is listed, at its place, with the nonce that has paid the last paid
-- request before it in the list, and otherwise as its row is.
pub get_all-unpaid :
    (arranged : List Row → List Row) (issuer : String) (q : QueryParams) (db : Db)
    (before after : List Row) (r : Row)
    → arranged (keep (selected issuer q db.items) db.requests) ≡ before ++ r ∷ after
    → r.paid_nonce ≡ none
    → (xs ys : List Request) × (map (λ p. p.row.id) xs ≡ map (λ r. r.id) before)
      × (get_all_payment_requests none arranged issuer q db
          ≡ ok (
              xs
              ++ record {
                row = record r { paid_nonce = last_paid none before };
                payments = selected_items q r db.items;
              }
                ∷ ys))
unfolding get_all_payment_requests scan_rows
get_all-unpaid arranged issuer q db before after r order unpaid =
    let start = last_paid none before in
    let rest = scan_rows q db.items start after in
    let here : scan_rows q db.items start (r ∷ after)
        ≡ record { row = record r { paid_nonce = start }; payments = selected_items q r db.items }
          ∷ rest =
      ap
        (λ n.
          record {
            row = record r { paid_nonce = or_carried n start };
            payments = selected_items q r db.items;
          }
          ∷ scan_rows q db.items (or_carried n start) after)
        unpaid in
    (
      scan_rows q db.items none before,
      rest,
      scan-ids q db.items none before,
      ap ok (
          ap (scan_rows q db.items none) order
          ∙ (scan-append q db.items none before (r ∷ after)
              ∙ ap (λ l. scan_rows q db.items none before ++ l) here)),
    )

-- ===== src/Payment/Stored.antt =====
-- A payment request is read back as it was created.
use mathlib.Core.Path.{subst}
use mathlib.Core.List.{append_assoc, append-nil}
use e_native_issuer.Common.{
  ℕ, ◌≡◌, refl, sym, ap, ◌∙◌, String, true, false, none, some, List, [], ◌∷◌, ◌++◌, any, find, All,
  ◌==◌, eq_refl, ok, or_err, arith, Bool-cases, Option-cases, Result-cases, inl, inr, bind_ok,
}
use e_native_issuer.Payment.{ConfigItem, Item, Row, Request, Db, not_configured}
use e_native_issuer.Payment.Repository.{
  is_request, is_empty, same_item, insert_items, save_payment_request, get_payment_request_by_id,
  items_of, joined, joined_row, without_schema,
}
use e_native_issuer.Payment.Build.{payment_info}
use e_native_issuer.Payment.Service.{
  Settings, CreateReq, CreateCalls, new_item, new_items, new_row, prepare_request,
  create_payment_request,
}
use e_native_issuer.Payment.Rows.{prepare_request-row}
use e_native_issuer.Payment.Found.{find-none, find-append}

-- Every item is an item of a request that is there.
abbrev pub Held : Db → Type 0
Held db = All (λ i. any (λ r. r.id == i.payment_request_id) db.requests ≡ true) db.items

abbrev OfRequest : ℕ → List Item → Type 0
OfRequest id = All (λ i. i.payment_request_id ≡ id)

new_item-request :
    (settings : Settings) (c : CreateCalls) (n : ℕ) (x : ConfigItem) (i : Item)
    → new_item settings c n x ≡ ok i
    → i.payment_request_id ≡ c.new_id
unfolding new_item
new_item-request settings c n x i h =
    let (setting, f, h1) = bind_ok (or_err (settings x.payment_option_id) not_configured) _ _ h in
    let (nonce, g, h2) = bind_ok (c.nonce n) _ _ h1 in
    let (info, k, h3) = bind_ok (payment_info c.signing setting x nonce) _ _ h2 in
    ground (arith, h3)

new_items-OfRequest :
    (settings : Settings) (c : CreateCalls) (n : ℕ) (config : List ConfigItem) (items : List Item)
    → new_items settings c n config ≡ ok items
    → OfRequest c.new_id items
unfolding new_items
new_items-OfRequest settings c n [] items h =
    let e : [] ≡ items = ground (arith, h) in subst (OfRequest c.new_id) e tt
new_items-OfRequest settings c n (x ∷ rest) items h =
    elim (Result-cases (new_item settings c n x)) [
      | inl (e, f) ↦ absurd (ground (arith, f, h))
      | inr (i, f) ↦ elim (Result-cases (new_items settings c (ℕ.suc n) rest)) [
        | inl (e, g) ↦ absurd (ground (arith, f, g, h))
        | inr (is, g) ↦
            let e : i ∷ is ≡ items = ground (arith, f, g, h) in
            subst (OfRequest c.new_id) e (
              new_item-request settings c n x i f,
              new_items-OfRequest settings c (ℕ.suc n) rest is g,
            )
      ]
    ]

items_of-all : (id : ℕ) (items : List Item) → OfRequest id items → items_of id items ≡ items
items_of-all id [] h = refl
items_of-all id (i ∷ items) h = ground (arith, h.0, items_of-all id items h.1)

items_of-append :
    (id : ℕ) (items more : List Item)
    → items_of id (items ++ more) ≡ items_of id items ++ items_of id more
items_of-append id [] more = refl
items_of-append id (i ∷ items) more = ground (arith, items_of-append id items more)

-- A request that is not there has no items.
items_of-none :
    (id : ℕ) (rows : List Row) (items : List Item)
    → All (λ i. any (λ r. r.id == i.payment_request_id) rows ≡ true) items
    → any (λ r. r.id == id) rows ≡ false
    → items_of id items ≡ []
items_of-none id rows [] h free = refl
items_of-none id rows (i ∷ items) h free = elim (Bool-cases (i.payment_request_id == id)) [
  | inl e ↦
      let same : i.payment_request_id ≡ id = ground (arith, e) in
      absurd (ground (arith, subst (λ n. any (λ r. r.id == n) rows ≡ true) same h.0, free))
  | inr e ↦ ground (arith, e, items_of-none id rows items h.1 free)
]

insert_items-append :
    (new items all : List Item) → insert_items new items ≡ some all → all ≡ items ++ new
unfolding insert_items
insert_items-append [] items all h =
    let e : items ≡ all = ground (arith, h) in sym e ∙ sym (append-nil items)
insert_items-append (i ∷ new) items all h = elim (Bool-cases (any (same_item i) items)) [
  | inl e ↦ absurd (ground (arith, e, h))
  | inr e ↦
      let rest : insert_items new (items ++ i ∷ []) ≡ some all = ground (arith, e, h) in
      insert_items-append new (items ++ i ∷ []) all rest ∙ append_assoc items (i ∷ []) new
]

joined-items :
    (r : Row) (items : List Item)
    → is_empty items ≡ false
    → joined r items ≡ ok (record { row = without_schema r; payments = items })
joined-items r [] h = ground (arith, h)
joined-items r (i ∷ items) h = refl

get-found :
    (issuer : String) (id : ℕ) (db : Db) (r : Row) (items : List Item)
    → find (is_request issuer id) db.requests ≡ some r
    → items_of r.id db.items ≡ items
    → is_empty items ≡ false
    → get_payment_request_by_id none issuer id db
      ≡ ok (record { row = without_schema r; payments = items })
unfolding get_payment_request_by_id
get-found issuer id db r items found own some_item =
    ap (λ o. joined_row o db) found ∙ (ap (joined r) own ∙ joined-items r items some_item)

-- What a creation that succeeds has written.
created :
    (settings : Settings) (c : CreateCalls) (q : CreateReq) (db : Db) (request : Request)
    → (create_payment_request settings c q db).0 ≡ ok request
    → (items : List Item) × (prepare_request settings c q db ≡ ok request)
      × (any (λ r. r.id == request.row.id) db.requests ≡ false)
      × (insert_items request.payments db.items ≡ some items)
      × ((create_payment_request settings c q db).1
          ≡ record db { requests = db.requests ++ request.row ∷ []; items = items })
unfolding create_payment_request save_payment_request
created settings c q db request h = elim (Result-cases (prepare_request settings c q db)) [
  | inl (e, f) ↦ absurd (ground (arith, f, h))
  | inr (made, f) ↦ elim (Option-cases c.save_fault) [
    | inr (e, g) ↦ absurd (ground (arith, f, g, h))
    | inl g ↦ elim (Bool-cases (any (λ r. r.id == made.row.id) db.requests)) [
      | inl k ↦ absurd (ground (arith, f, g, k, h))
      | inr k ↦ elim (Option-cases (insert_items made.payments db.items)) [
        | inl i ↦ absurd (ground (arith, f, g, k, i, h))
        | inr (items, i) ↦
            let same : made ≡ request = ground (arith, f, g, k, i, h) in
            let after : (create_payment_request settings c q db).1
                ≡ record db { requests = db.requests ++ made.row ∷ []; items = items } =
              ground (arith, f, g, k, i) in
            (
              items,
              f ∙ ap ok same,
              subst (λ m. any (λ r. r.id == m.row.id) db.requests ≡ false) same k,
              subst (λ m. insert_items m.payments db.items ≡ some items) same i,
              after
                  ∙ ap (λ m. record db { requests = db.requests ++ m.row ∷ []; items = items })
                      same,
            )
      ]
    ]
  ]
]

-- A request that was created with at least one payment is read back with all its payments, and with
-- its row but for the schema's id, which is not read. The items of the tables before must be items of requests that
-- are there.
pub get-create :
    (settings : Settings) (c : CreateCalls) (q : CreateReq) (db : Db) (request : Request)
    → Held db
    → is_empty request.payments ≡ false
    → (create_payment_request settings c q db).0 ≡ ok request
    → get_payment_request_by_id none q.issuer_did c.new_id
        (create_payment_request settings c q db).1
      ≡ ok (record request { row = without_schema request.row })
unfolding new_row
get-create settings c q db request held some_payment h =
    let (items, ready, free, inserted, after) = created settings c q db request h in
    let (schema, config, row, made) = prepare_request-row settings c q db request ready in
    let free' : any (λ r. r.id == c.new_id) db.requests ≡ false =
      sym (ap (λ r. any (λ s. s.id == r.id) db.requests) row) ∙ free in
    let own : items_of c.new_id items ≡ request.payments =
      ap (items_of c.new_id) (insert_items-append request.payments db.items items inserted)
      ∙ items_of-append c.new_id db.items request.payments
      ∙ ap (λ l. l ++ items_of c.new_id request.payments)
          (items_of-none c.new_id db.requests db.items held free')
      ∙ items_of-all c.new_id request.payments
          (new_items-OfRequest settings c 0 config request.payments made) in
    let at : find (is_request q.issuer_did c.new_id) (db.requests ++ request.row ∷ [])
        ≡ some request.row =
      subst (λ r. find (is_request q.issuer_did c.new_id) (db.requests ++ r ∷ []) ≡ some r)
        (sym row)
        (ground (
          arith,
          find-append (is_request q.issuer_did c.new_id) db.requests (new_row c q schema),
          find-none q.issuer_did c.new_id db.requests free',
          eq_refl q.issuer_did,
        )) in
    ap (get_payment_request_by_id none q.issuer_did c.new_id) after
    ∙ get-found q.issuer_did c.new_id _ request.row request.payments at
        (ap (λ r. items_of r.id items) row ∙ own) some_payment

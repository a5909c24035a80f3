-- ===== src/Payment/Rows.antt =====
-- What the operations on payments do to the rows of the requests.
use e_native_issuer.Common.{
  ℕ, ◌≡◌, refl, sym, ap, ◌∙◌, String, false, not, ◌&&◌, Option, none, some, List, [], ◌∷◌, ◌++◌,
  map, any, keep, find, ◌==◌, ok, arith, Bool-cases, Option-cases, Result-cases, ◌⊎◌, inl, inr,
}
use e_native_issuer.Payment.{Status, ChainStatus, ConfigItem, Row, Request, Db, Error}
use e_native_issuer.Payment.Repository.{
  is_request, with_status, insert_items, save_payment_request, update_payment_request_status,
  delete_payment_request,
}
use e_native_issuer.Payment.Options.{get_payment_option_by_id}
use e_native_issuer.Payment.Service.{
  Settings, CreateReq, CreateCalls, prepare_request, new_items, create_payment_request, VerifyCalls,
  checked, request_status, paid_nonce_of, record_status, verify_payment, status_eq, new_row,
}

-- The requests after a call of the status update: as before, or with one request's status set.
pub update_status-requests :
    (fault : Option Error) (now : ℕ) (issuer : String) (id : ℕ) (s : Status) (paid : Option ℕ)
    (db : Db)
    → ((update_payment_request_status fault now issuer id s paid db).1 ≡ db)
      ⊎ ((update_payment_request_status fault now issuer id s paid db).1
          ≡ record db { requests = map (with_status now issuer id s paid) db.requests })
unfolding update_payment_request_status
update_status-requests (some e) now issuer id s paid db = inl refl
update_status-requests none now issuer id s paid db =
    elim (Bool-cases (any (is_request issuer id) db.requests)) [
      | inl e ↦ inr (ground (arith, e))
      | inr e ↦ inl (ground (arith, e))
    ]

-- A request that is ready to be written has a row of its own, and an item for each of the option's.
pub prepare_request-row :
    (settings : Settings) (c : CreateCalls) (q : CreateReq) (db : Db) (request : Request)
    → prepare_request settings c q db ≡ ok request
    → (schema : ℕ) × (config : List ConfigItem) × (request.row ≡ new_row c q schema)
      × (new_items settings c 0 config ≡ ok request.payments)
unfolding prepare_request
prepare_request-row settings c q db request h =
    elim (Result-cases
      (get_payment_option_by_id c.option_fault (some q.issuer_did) q.option_id db)) [
        | inl (e, f) ↦ absurd (ground (arith, f, h))
        | inr (option, f) ↦ elim (Result-cases (c.schema_by_id q.issuer_did q.schema_id)) [
          | inl (e, g) ↦ absurd (ground (arith, f, g, h))
          | inr (schema, g) ↦ elim (Result-cases (new_items settings c 0 option.config)) [
            | inl (e, i) ↦ absurd (ground (arith, f, g, i, h))
            | inr (items, i) ↦ (
              schema,
              option.config,
              ground (arith, f, g, i, h),
              i ∙ ap ok (ground (arith, f, g, i, h)),
            )
          ]
        ]
      ]

-- The requests after a creation: as before, or with the new row at the end, under an id that no
-- row had.
pub create-requests :
    (settings : Settings) (c : CreateCalls) (q : CreateReq) (db : Db)
    → ((create_payment_request settings c q db).1.requests ≡ db.requests)
      ⊎ ((schema : ℕ) × (any (λ r. r.id == c.new_id) db.requests ≡ false)
          × ((create_payment_request settings c q db).1.requests
              ≡ db.requests ++ new_row c q schema ∷ []))
unfolding create_payment_request save_payment_request new_row
create-requests settings c q db = elim (Result-cases (prepare_request settings c q db)) [
  | inl (e, f) ↦ inl (ground (arith, f))
  | inr (request, f) ↦ elim (Option-cases c.save_fault) [
    | inr (e, g) ↦ inl (ground (arith, f, g))
    | inl g ↦ elim (Bool-cases (any (λ r. r.id == request.row.id) db.requests)) [
      | inl h ↦ inl (ground (arith, f, g, h))
      | inr h ↦ elim (Option-cases (insert_items request.payments db.items)) [
        | inl i ↦ inl (ground (arith, f, g, h, i))
        | inr (items, i) ↦
            let (schema, config, row, made) = prepare_request-row settings c q db request f in
            inr (
              schema,
              sym (ap (λ r. any (λ s. s.id == r.id) db.requests) row) ∙ h,
              ground (arith, f, g, h, i, row),
            )
      ]
    ]
  ]
]

-- The requests after a deletion: as before, or without the request.
pub delete-requests :
    (f g : Option Error) (issuer : String) (id : ℕ) (db : Db)
    → ((delete_payment_request f g issuer id db).1.requests ≡ db.requests)
      ⊎ ((delete_payment_request f g issuer id db).1.requests
          ≡ keep (λ r. not (is_request issuer id r)) db.requests)
unfolding delete_payment_request
delete-requests (some e) g issuer id db = inl refl
delete-requests none (some e) issuer id db = inl refl
delete-requests none none issuer id db =
    elim (Bool-cases (any (is_request issuer id) db.requests)) [
      | inl e ↦ inr (ground (arith, e))
      | inr e ↦ inl (ground (arith, e))
    ]

-- A verification changes nothing, or it sets the status of the request that it read, which was not
-- paid, to what the chain answered.
pub verify-requests :
    (settings : Settings) (c : VerifyCalls) (issuer : String) (nonce : ℕ) (tx user : Option String)
    (db : Db)
    → ((verify_payment settings c issuer nonce tx user db).1 ≡ db)
      ⊎ ((request : Request) × (status : ChainStatus) × (checked settings c issuer nonce tx user db
            ≡ ok (request, status))
          × (status_eq request.row.status Status.success ≡ false)
          × ((verify_payment settings c issuer nonce tx user db).1 ≡ record db {
            requests =
                map
                  (with_status c.now issuer request.row.id
                    (request_status status)
                    (paid_nonce_of (request_status status) nonce))
                  db.requests;
          }))
unfolding verify_payment record_status
verify-requests settings c issuer nonce tx user db =
    elim (Result-cases (checked settings c issuer nonce tx user db)) [
      | inl (e, f) ↦ inl (ground (arith, f))
      | inr ((request, status), f) ↦
          let new = request_status status in
          let paid = paid_nonce_of new nonce in
          let updated =
            update_payment_request_status c.update_fault c.now issuer request.row.id new paid db in
          elim (Bool-cases (
            not (status_eq new request.row.status)
            && not (status_eq request.row.status Status.success))) [
              | inr h ↦ inl (ground (arith, f, h))
              | inl h ↦
                  let wrote : (verify_payment settings c issuer nonce tx user db).1 ≡ updated.1 =
                    elim (Result-cases updated.0) [
                      | inl (e, g) ↦ ground (arith, f, h, g)
                      | inr (u, g) ↦ ground (arith, f, h, g)
                    ] in
                  elim (update_status-requests c.update_fault c.now issuer request.row.id new paid
                    db) [
                      | inl g ↦ inl (wrote ∙ g)
                      | inr g ↦ inr (request, status, f, ground (arith, h), wrote ∙ g)
                    ]
            ]
    ]

module _ (now : ℕ) (issuer : String) (id : ℕ) (s : Status) (paid : Option ℕ) where
  pub find-with_status :
      (i : String) (j : ℕ) (rows : List Row)
      → find (is_request i j) (map (with_status now issuer id s paid) rows)
        ≡ elim (find (is_request i j) rows) [
          | none ↦ none
          | some r ↦ some (with_status now issuer id s paid r)
        ]
  find-with_status i j [] = refl
  find-with_status i j (r ∷ rows) = ground (arith, find-with_status i j rows)

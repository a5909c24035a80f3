-- ===== src/Payment/Found.antt =====
-- Which rows the table of requests shows for an issuer and an id, after each kind of change.
use mathlib.Core.Path.{subst}
use e_native_issuer.Common.{
  ℕ, ◌≡◌, refl, sym, ap, ◌∙◌, String, Bool, true, false, not, ◌&&◌, Option, none, some, List, [],
  ◌∷◌, ◌++◌, map, any, keep, find, str_eq, eq_iff, ◌==◌, if◌then◌else◌, ok, arith, Bool-cases,
  Option-cases, inl, inr, or_err, find-passes, some_and, reject, bind_ok, reject-ok, or_err-ok,
}
use e_native_issuer.Payment.{
  Status, ChainStatus, ChainConfig, Row, Request, Item, Db, Error, not_configured,
  user_does_not_match,
}
use e_native_issuer.Payment.Repository.{
  is_request, with_status, get_payment_request_by_id, joined, without_schema, items_of,
  get_payment_request_item,
}
use e_native_issuer.Payment.Service.{Settings, VerifyCalls, checked, chain_status}
use e_native_issuer.Payment.Rows.{find-with_status}

pub find-none :
    (issuer : String) (id : ℕ) (rows : List Row)
    → any (λ r. r.id == id) rows ≡ false
    → find (is_request issuer id) rows ≡ none
find-none issuer id [] h = refl
find-none issuer id (r ∷ rows) h = ground (arith, find-none issuer id rows)

-- A row at the end of the table is found where none was found before.
pub find-append :
    (p : Row → Bool) (rows : List Row) (r : Row)
    → find p (rows ++ r ∷ [])
      ≡ elim (find p rows) [ none ↦ (if p r then some r else none) | some s ↦ some s ]
find-append p [] r = ground arith
find-append p (s ∷ rows) r = ground (arith, find-append p rows r)

pub find-removed :
    (issuer : String) (id : ℕ) (rows : List Row)
    → find (is_request issuer id) (keep (λ r. not (is_request issuer id r)) rows) ≡ none
find-removed issuer id [] = refl
find-removed issuer id (r ∷ rows) = ground (arith, find-removed issuer id rows)

-- One row is one request's.
other-row :
    (issuer i : String) (id j : ℕ) (r : Row)
    → is_request issuer id r ≡ true
    → is_request i j r ≡ true
    → (str_eq issuer i && (id == j)) ≡ false
    → ⊥
other-row issuer i id j r e f h =
    let a : str_eq r.issuer_did issuer ≡ true = ground (arith, e) in
    let b : str_eq r.issuer_did i ≡ true = ground (arith, f) in
    let same = sym ((eq_iff r.issuer_did issuer).0 a) ∙ (eq_iff r.issuer_did i).0 b in
    let c = (eq_iff issuer i).1 same in ground (arith, e, f, h, c)

pub find-kept :
    (issuer i : String) (id j : ℕ) (rows : List Row)
    → (str_eq issuer i && (id == j)) ≡ false
    → find (is_request i j) (keep (λ r. not (is_request issuer id r)) rows)
      ≡ find (is_request i j) rows
find-kept issuer i id j [] h = refl
find-kept issuer i id j (r ∷ rows) h = elim (Bool-cases (is_request issuer id r)) [
  | inl e ↦ elim (Bool-cases (is_request i j r)) [
    | inl f ↦ absurd (other-row issuer i id j r e f h)
    | inr f ↦ ground (arith, find-kept issuer i id j rows h, e, f)
  ]
  | inr e ↦ ground (arith, find-kept issuer i id j rows h, e)
]

joined-row :
    (r : Row) (items : List Item) (request : Request)
    → joined r items ≡ ok request
    → without_schema r ≡ request.row
joined-row r [] request h = ground (arith, h)
joined-row r (i ∷ items) request h = ground (arith, h)

-- The request that was read is a row of the table, without its schema.
pub read-find :
    (f : Option Error) (issuer : String) (id : ℕ) (db : Db) (request : Request)
    → get_payment_request_by_id f issuer id db ≡ ok request
    → (r : Row) × (find (is_request issuer id) db.requests ≡ some r)
      × (without_schema r ≡ request.row)
unfolding get_payment_request_by_id
read-find (some e) issuer id db request h = ground (arith, h)
read-find none issuer id db request h =
    elim (Option-cases (find (is_request issuer id) db.requests)) [
      | inl e ↦ absurd (ground (arith, e, h))
      | inr (r, e) ↦
          let h' : joined r (items_of r.id db.items) ≡ ok request = ground (arith, e, h) in
          (r, e, joined-row r _ request h')
    ]

-- What a verification has read and heard when it is ready to write.
pub checked-parts :
    (settings : Settings) (c : VerifyCalls) (issuer : String) (nonce : ℕ) (tx user : Option String)
    (db : Db) (request : Request) (status : ChainStatus)
    → checked settings c issuer nonce tx user db ≡ ok (request, status)
    → (item : Item) × (setting : ChainConfig) × (get_payment_request_item c.item_fault issuer nonce
          db
        ≡ ok item)
      × (get_payment_request_by_id c.request_fault issuer item.payment_request_id db ≡ ok request)
      × (some_and user (λ u. not (str_eq u request.row.user_did)) ≡ false)
      × (settings item.payment_option_id ≡ some setting)
      × (chain_status c setting item.signing_key_id nonce tx ≡ ok status)
unfolding checked
checked-parts settings c issuer nonce tx user db request status h =
    let (item, f, h1) = bind_ok (get_payment_request_item c.item_fault issuer nonce db) _ _ h in
    let (q, g, h2) =
      bind_ok (get_payment_request_by_id c.request_fault issuer item.payment_request_id db) _ _
        h1 in
    let other = some_and user (λ u. not (str_eq u q.row.user_did)) in
    let (unit, same_user, h3) = bind_ok (reject other user_does_not_match) _ _ h2 in
    let (setting, known, h4) =
      bind_ok (or_err (settings item.payment_option_id) not_configured) _ _ h3 in
    let (answer, asked, h5) =
      bind_ok (chain_status c setting item.signing_key_id nonce tx) _ _ h4 in
    let same : q ≡ request = ground (arith, h5) in
    (
      item,
      setting,
      f,
      g ∙ ap ok same,
      subst (λ q. some_and user (λ u. not (str_eq u q.row.user_did)) ≡ false) same
          (reject-ok other _ _ same_user),
      or_err-ok (settings item.payment_option_id) _ _ known,
      asked ∙ ground (arith, h5),
    )

-- The request that was read is the row of that id.
pub read-row :
    (f : Option Error) (issuer : String) (id : ℕ) (db : Db) (request : Request)
    → get_payment_request_by_id f issuer id db ≡ ok request
    → (r : Row) × (find (is_request issuer request.row.id) db.requests ≡ some r)
      × (without_schema r ≡ request.row)
      × (id ≡ request.row.id)
read-row f issuer id db request h =
    let (r, found, row) = read-find f issuer id db request h in
    let same : id ≡ request.row.id =
      ground (arith, find-passes (is_request issuer id) db.requests r found, ap (λ r. r.id) row) in
    (r, subst (λ n. find (is_request issuer n) db.requests ≡ some r) same found, row, same)

-- A request that a verification does not name keeps its row.
pub map-elsewhere :
    (now : ℕ) (issuer : String) (id : ℕ) (s : Status) (payer : Option ℕ) (rows : List Row)
    (i : String) (j : ℕ)
    → (str_eq issuer i && (id == j)) ≡ false
    → find (is_request i j) (map (with_status now issuer id s payer) rows)
      ≡ find (is_request i j) rows
map-elsewhere now issuer id s payer [] i j h = refl
map-elsewhere now issuer id s payer (r ∷ rows) i j h = elim (Bool-cases (is_request issuer id r)) [
  | inl e ↦ elim (Bool-cases (is_request i j r)) [
    | inl f ↦ absurd (other-row issuer i id j r e f h)
    | inr f ↦ ground (arith, map-elsewhere now issuer id s payer rows i j h, e, f)
  ]
  | inr e ↦ ground (arith, map-elsewhere now issuer id s payer rows i j h, e)
]

-- The request that a verification names gets the status.
pub map-here :
    (now : ℕ) (issuer : String) (id : ℕ) (s : Status) (payer : Option ℕ) (rows : List Row) (r : Row)
    → find (is_request issuer id) rows ≡ some r
    → find (is_request issuer id) (map (with_status now issuer id s payer) rows)
      ≡ some (record r { status = s; paid_nonce = payer; modified_at = now })
map-here now issuer id s payer rows r h = ground (
  arith,
  find-with_status now issuer id s payer issuer id rows,
  h,
  find-passes (is_request issuer id) rows r h,
)

-- ===== src/Payment/Verified.antt =====
-- What it takes for a request to become paid: the user, the option's setting and the chain.
use mathlib.Core.Path.{subst}
use e_native_issuer.Common.{
  List, ℕ, ◌≡◌, refl, sym, ap, ◌∙◌, String, Bool, true, false, not, ◌&&◌, Option, none, some,
  str_eq, eq_iff, ◌==◌, find, map, Result, ok, err, arith, Bool-cases, Option-cases, Result-cases,
  inl, inr, some_and, Mem, find-Mem, find-passes,
}
use e_native_issuer.Payment.{Status, ChainStatus, ChainConfig, Row, Item, Db, Error}
use e_native_issuer.Payment.Repository.{
  is_request, with_status, issued_by, get_payment_request_item,
}
use e_native_issuer.Payment.Chain.{
  EthClient, provided, is_success, contract_status, handle_payment_transaction,
  verify_payment_on_blockchain,
}
use e_native_issuer.Payment.Service.{
  Settings, VerifyCalls, request_status, paid_nonce_of, verify_payment, status_eq, chain_status,
  is_solana,
}
use e_native_issuer.Payment.Found.{checked-parts, read-row, map-elsewhere, map-here}
use e_native_issuer.Payment.Rows.{verify-requests}
use e_native_issuer.Payment.Ledger.{waiting, paid, stage_of, ledger}

contract_status-success :
    (r : Result Error Bool) → contract_status r ≡ ChainStatus.success → r ≡ ok true
contract_status-success (err e) h = ground (arith, h)
contract_status-success (ok true) h = refl
contract_status-success (ok false) h = ground (arith, h)

is_success_sound : (s : ChainStatus) → is_success s ≡ true → s ≡ ChainStatus.success
is_success_sound ChainStatus.pending h = ground (arith, h)
is_success_sound ChainStatus.cancelled h = ground (arith, h)
is_success_sound ChainStatus.success h = refl
is_success_sound ChainStatus.failed h = ground (arith, h)
is_success_sound ChainStatus.unknown h = ground (arith, h)

-- A transaction that the client reports as a success is on the chain with the status 1.
transaction-success :
    (c : EthClient) (tx : String)
    → handle_payment_transaction c tx ≡ ok ChainStatus.success
    → (c.transaction tx ≡ ok (some false)) × (c.receipt tx ≡ ok 1)
unfolding handle_payment_transaction
transaction-success c tx h = elim (Result-cases (c.transaction tx)) [
  | inl (e, f) ↦ absurd (ground (arith, f, h))
  | inr (none, f) ↦ absurd (ground (arith, f, h))
  | inr (some true, f) ↦ absurd (ground (arith, f, h))
  | inr (some false, f) ↦ elim (Result-cases (c.receipt tx)) [
    | inl (e, g) ↦ absurd (ground (arith, f, g, h))
    | inr (status, g) ↦ elim (Bool-cases (status == 1)) [
      | inl k ↦ (f, g ∙ ap ok (ground (arith, k)))
      | inr k ↦ absurd (ground (arith, f, g, h, k))
    ]
  ]
]

blockchain-success :
    (client : EthClient) (signer : String) (nonce : ℕ) (tx : Option String)
    → verify_payment_on_blockchain client signer nonce tx ≡ ok ChainStatus.success
    → (client.is_payment_done signer nonce ≡ ok true)
      × ((t : String)
          → provided tx ≡ some t
          → (client.transaction t ≡ ok (some false)) × (client.receipt t ≡ ok 1))
unfolding verify_payment_on_blockchain
blockchain-success client signer nonce tx h = elim (Option-cases (provided tx)) [
  | inl e ↦ (contract_status-success _ (ground (arith, e, h)), λ t f. absurd (ground (arith, e, f)))
  | inr (t, e) ↦ elim (Result-cases (handle_payment_transaction client t)) [
    | inl (x, f) ↦ absurd (ground (arith, e, f, h))
    | inr (status, f) ↦ elim (Bool-cases (is_success status)) [
      | inl g ↦
          let sound = transaction-success client t (f ∙ ap ok (is_success_sound status g)) in
          (
            contract_status-success _ (ground (arith, e, f, g, h)),
            λ u k.
                subst (λ u. (client.transaction u ≡ ok (some false)) × (client.receipt u ≡ ok 1))
                  (ground (arith, e, k)) sound,
          )
      | inr g ↦ absurd (ground (arith, e, f, g, h))
    ]
  ]
]

-- The contract of the chain says that the signer's payment of the nonce is done and, where a
-- transaction is given, it is on the chain with the status 1.
abbrev pub Done : VerifyCalls → ChainConfig → String → ℕ → Option String → Type 0
Done c setting key nonce tx =
    (client : EthClient) × (signer : String) × (c.eth_client setting ≡ ok client)
    × (c.get_eth_signer_address key ≡ ok signer)
    × (client.is_payment_done signer nonce ≡ ok true)
    × ((t : String)
        → provided tx ≡ some t
        → (client.transaction t ≡ ok (some false)) × (client.receipt t ≡ ok 1))

-- A payment counts as made on an Ethereum chain only when the contract says so for the signer and
-- the nonce and, where a transaction is given, it is not pending and its receipt has the status 1.
pub chain_status-eth :
    (c : VerifyCalls) (setting : ChainConfig) (key : String) (nonce : ℕ) (tx : Option String)
    → is_solana setting.kind ≡ false
    → chain_status c setting key nonce tx ≡ ok ChainStatus.success
    → Done c setting key nonce tx
unfolding chain_status
chain_status-eth c setting key nonce tx kind h = elim (Result-cases (c.eth_client setting)) [
  | inl (e, f) ↦ absurd (ground (arith, kind, f, h))
  | inr (client, f) ↦ elim (Result-cases (c.get_eth_signer_address key)) [
    | inl (e, g) ↦ absurd (ground (arith, kind, f, g, h))
    | inr (signer, g) ↦
        let (done, receipt) =
          blockchain-success client signer nonce tx (ground (arith, kind, f, g, h)) in
        (client, signer, f, g, done, receipt)
  ]
]

request_status-success :
    (s : ChainStatus) → status_eq (request_status s) Status.success ≡ true → s ≡ ChainStatus.success
unfolding request_status
request_status-success ChainStatus.pending h = ground (arith, h)
request_status-success ChainStatus.cancelled h = ground (arith, h)
request_status-success ChainStatus.success h = refl
request_status-success ChainStatus.failed h = ground (arith, h)
request_status-success ChainStatus.unknown h = ground (arith, h)

the_user :
    (u : String) (user : Option String) (owner : String)
    → user ≡ some u
    → some_and user (λ u. not (str_eq u owner)) ≡ false
    → u ≡ owner
the_user u user owner e h = (eq_iff u owner).0 (ground (arith, e, h))

-- An update after which a request that waited is paid was an update of this request to success.
update-settles :
    (now : ℕ) (issuer : String) (id at : ℕ) (s : Status) (payer : Option ℕ) (rows : List Row)
    (r : Row) (n : Option ℕ)
    → find (is_request issuer at) rows ≡ some r
    → stage_of (find (is_request issuer id) rows) ≡ some waiting
    → stage_of (find (is_request issuer id) (map (with_status now issuer at s payer) rows))
      ≡ some (paid n)
    → (at ≡ id) × (status_eq s Status.success ≡ true) × (n ≡ payer)
update-settles now issuer id at s payer rows r n found before after = elim (Bool-cases (at == id)) [
  | inl e ↦
      let same : at ≡ id = ground (arith, e) in
      let here =
        map-here now issuer id s payer rows r
          (subst (λ m. find (is_request issuer m) rows ≡ some r) same found) in
      let there =
        ap
          (λ m.
            stage_of (find (is_request issuer id) (map (with_status now issuer m s payer) rows)))
          same in
      let both = sym (ap stage_of here) ∙ (sym there ∙ after) in
      elim (Bool-cases (status_eq s Status.success)) [
        | inl f ↦ (same, f, ground (arith, both, f))
        | inr f ↦ absurd (ground (arith, both, f))
      ]
  | inr e ↦
      let kept =
        ap stage_of (map-elsewhere now issuer at s payer rows issuer id (ground (arith, e))) in
      absurd (ground (arith, sym before ∙ (sym kept ∙ after)))
]

-- The item that is read by its nonce is a row of the table with that nonce.
item-found :
    (f : Option Error) (issuer : String) (nonce : ℕ) (db : Db) (item : Item)
    → get_payment_request_item f issuer nonce db ≡ ok item
    → Mem item db.items × (item.nonce ≡ nonce)
unfolding get_payment_request_item
item-found (some e) issuer nonce db item h = absurd (ground (arith, h))
item-found none issuer nonce db item h =
    let test = λ (i : Item). issued_by issuer db.requests i && (i.nonce == nonce) in
    elim (Option-cases (find test db.items)) [
      | inl e ↦ absurd (ground (arith, e, h))
      | inr (i, e) ↦
          let same : i ≡ item = ground (arith, e, h) in
          let found = e ∙ ap some same in
          (find-Mem test db.items item found, ground (arith, find-passes test db.items item found))
    ]

-- A request that waits becomes paid by a verification only with the nonce that was verified: an
-- item of the table that has that nonce is the request's, the request is the user's where one is
-- named, and the chain of the item's option answered that the payment succeeded. On a chain other than
-- Solana the contract says so for the item's signer and the nonce, and a transaction that is given is
-- on the chain with the status 1.
pub verify-settles :
    (settings : Settings) (c : VerifyCalls) (issuer : String) (nonce : ℕ) (tx user : Option String)
    (db : Db) (id : ℕ) (n : Option ℕ)
    → ledger db issuer id ≡ some waiting
    → ledger (verify_payment settings c issuer nonce tx user db).1 issuer id ≡ some (paid n)
    → (n ≡ some nonce)
      × (item : Item) × (setting : ChainConfig) × Mem item db.items
      × (item.nonce ≡ nonce)
      × (item.payment_request_id ≡ id)
      × (settings item.payment_option_id ≡ some setting)
      × (chain_status c setting item.signing_key_id nonce tx ≡ ok ChainStatus.success)
      × (is_solana setting.kind ≡ false → Done c setting item.signing_key_id nonce tx)
      × (r : Row) × (find (is_request issuer id) db.requests ≡ some r)
      × ((u : String) → user ≡ some u → u ≡ r.user_did)
unfolding paid_nonce_of
verify-settles settings c issuer nonce tx user db id n before after =
    elim (verify-requests settings c issuer nonce tx user db) [
      | inl e ↦ absurd (ground (arith, sym before ∙ (ap (λ d. ledger d issuer id) (sym e) ∙ after)))
      | inr (request, status, read, unpaid, e) ↦
          let (item, setting, f, g, own, known, asked) =
            checked-parts settings c issuer nonce tx user db request status read in
          let (listed, numbered) = item-found c.item_fault issuer nonce db item f in
          let (r, found, row, same) =
            read-row c.request_fault issuer item.payment_request_id db request g in
          let (at, success, nonce_paid) =
            update-settles c.now issuer id request.row.id (request_status status)
              (paid_nonce_of (request_status status) nonce) db.requests r n found before
              (ap (λ d. ledger d issuer id) (sym e) ∙ after) in
          let answered = asked ∙ ap ok (request_status-success status success) in
          (
            nonce_paid ∙ ground (arith, success),
            item,
            setting,
            listed,
            numbered,
            same ∙ at,
            known,
            answered,
            λ kind. chain_status-eth c setting item.signing_key_id nonce tx kind answered,
            r,
            subst (λ m. find (is_request issuer m) db.requests ≡ some r) at found,
            λ u k. the_user u user request.row.user_did k own ∙ sym (ap (λ r. r.user_did) row),
          )
    ]

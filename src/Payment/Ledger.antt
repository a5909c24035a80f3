-- ===== src/Payment/Ledger.antt =====
-- The contract of the payment requests: a ledger that says of each request of an issuer whether it
-- waits for its payment or which nonce has paid it. Every call is a step of the ledger.
use mathlib.Core.Path.{subst}
use e_native_issuer.Common.{
  ℕ, ◌≡◌, sym, ap, ◌∙◌, String, Bool, true, false, ◌&&◌, Option, none, some, List, [], ◌∷◌, ◌++◌,
  map, any, find, str_eq, eq_iff, eq_refl, ◌==◌, if◌then◌else◌, arith, Bool-cases, inl, inr, All,
}
use e_native_issuer.Payment.{Status, Row, Db, Error}
use e_native_issuer.Payment.Repository.{is_request, with_status}
use e_native_issuer.Payment.Service.{
  Settings, CreateReq, CreateCalls, VerifyCalls, request_status, paid_nonce_of, status_eq, new_row,
}
use e_native_issuer.Payment.Rows.{create-requests, delete-requests, verify-requests}
use e_native_issuer.Payment.Found.{
  find-none, find-append, find-removed, find-kept, checked-parts, read-row, map-elsewhere, map-here,
}
use e_native_issuer.Payment.Settled.{Call, create, verify, remove, perform, run}

pub data Stage : Type 0 where
  waiting : Stage
  paid : Option ℕ → Stage

abbrev pub Ledger : Type 0
Ledger = String → ℕ → Option Stage

abbrev pub stage : Row → Stage
stage r = if status_eq r.status Status.success then paid r.paid_nonce else waiting

abbrev pub stage_of : Option Row → Option Stage
stage_of none = none
stage_of (some r) = some (stage r)

-- The ledger that a table stands for
abbrev pub ledger : Db → Ledger
ledger db issuer id = stage_of (find (is_request issuer id) db.requests)

-- Two ledgers agree but for one request.
abbrev pub Elsewhere : String → ℕ → Ledger → Ledger → Type 0
Elsewhere issuer id v w =
    (i : String) (j : ℕ) → (str_eq issuer i && (id == j)) ≡ false → w i j ≡ v i j

-- What a call may do to the ledger, under the issuer, the id and the nonce that it has.
pub data Step (v w : Ledger) : Call → Type 0 where
  stay : {x : Call} → ((i : String) (j : ℕ) → w i j ≡ v i j) → Step v w x
  begin :
      {settings : Settings} {c : CreateCalls} {q : CreateReq}
      → v q.issuer_did c.new_id ≡ none
      → w q.issuer_did c.new_id ≡ some waiting
      → Elsewhere q.issuer_did c.new_id v w
      → Step v w (create settings c q)
  settle :
      {settings : Settings} {c : VerifyCalls} {issuer : String} {nonce : ℕ}
      {tx user : Option String} (id : ℕ)
      → v issuer id ≡ some waiting
      → w issuer id ≡ some (paid (some nonce))
      → Elsewhere issuer id v w
      → Step v w (verify settings c issuer nonce tx user)
  forget :
      {f g : Option Error} {issuer : String} {id : ℕ}
      → w issuer id ≡ none
      → Elsewhere issuer id v w
      → Step v w (remove f g issuer id)

same_entry :
    (v : Ledger) (issuer i : String) (id j : ℕ)
    → (str_eq issuer i && (id == j)) ≡ true
    → v issuer id ≡ v i j
same_entry v issuer i id j e =
    ap (λ k. v k id) ((eq_iff issuer i).0 (ground (arith, e))) ∙ ap (v i) (ground (arith, e))

-- Two ledgers that agree on one request and elsewhere agree.
agree :
    (issuer : String) (id : ℕ) (v w : Ledger)
    → w issuer id ≡ v issuer id
    → Elsewhere issuer id v w
    → (i : String) (j : ℕ) → w i j ≡ v i j
agree issuer id v w here away i j = elim (Bool-cases (str_eq issuer i && (id == j))) [
  | inl e ↦ sym (same_entry w issuer i id j e) ∙ (here ∙ same_entry v issuer i id j e)
  | inr e ↦ away i j e
]

-- A new row at the end of the table is a request that waits.
entered :
    (settings : Settings) (c : CreateCalls) (q : CreateReq) (schema : ℕ) (db : Db) (rows : List Row)
    → rows ≡ db.requests ++ new_row c q schema ∷ []
    → any (λ s. s.id == c.new_id) db.requests ≡ false
    → Step (ledger db) (λ i j. stage_of (find (is_request i j) rows)) (create settings c q)
unfolding new_row
entered settings c q schema db rows e free =
    let r = new_row c q schema in
    let absent = find-none q.issuer_did c.new_id db.requests free in
    let at : (i : String) (j : ℕ)
        → stage_of (find (is_request i j) rows)
          ≡ stage_of (find (is_request i j) (db.requests ++ r ∷ [])) =
      λ i j. ap (λ rows. stage_of (find (is_request i j) rows)) e in
    begin (ap stage_of absent)
      (at q.issuer_did c.new_id
        ∙ ground (
          arith,
          find-append (is_request q.issuer_did c.new_id) db.requests r,
          absent,
          eq_refl q.issuer_did,
        ))
      (λ i j h. at i j ∙ ground (arith, find-append (is_request i j) db.requests r, h))

-- An update of a request that waits settles it, when the new status is success.
updated :
    (settings : Settings) (c : VerifyCalls) (issuer : String) (id : ℕ) (s : Status) (nonce : ℕ)
    (tx user : Option String) (db : Db) (r : Row)
    → find (is_request issuer id) db.requests ≡ some r
    → status_eq r.status Status.success ≡ false
    → Step
        (ledger db)
        (λ i j. stage_of (
          find
            (is_request i j)
            (map (with_status c.now issuer id s (paid_nonce_of s nonce)) db.requests)))
        (verify settings c issuer nonce tx user)
unfolding paid_nonce_of
updated settings c issuer id s nonce tx user db r found unpaid =
    let away : Elsewhere issuer id (ledger db) _ = λ i j h.
      ap stage_of (map-elsewhere c.now issuer id s (paid_nonce_of s nonce) db.requests i j h) in
    let here = map-here c.now issuer id s (paid_nonce_of s nonce) db.requests r found in
    let before : ledger db issuer id ≡ some waiting = ground (arith, found, unpaid) in
    elim (Bool-cases (status_eq s Status.success)) [
      | inl e ↦ settle id before (ap stage_of here ∙ ground (arith, e)) away
      | inr e ↦
          stay (agree issuer id _ _ (ap stage_of here ∙ (ground (arith, e) ∙ sym before)) away)
    ]

-- Every call of the service is a step of the ledger, or leaves it as it is: a creation enters the
-- request with the new id, which was not there, as waiting; a verification settles one waiting
-- request of the issuer with its nonce; a deletion forgets the request that it names. All other requests stay as they were.
pub perform-Step : (x : Call) (db : Db) → Step (ledger db) (ledger (perform x db)) x
unfolding perform new_row
perform-Step (create settings c q) db = elim (create-requests settings c q db) [
  | inl e ↦ stay (λ i j. ap (λ rows. stage_of (find (is_request i j) rows)) e)
  | inr (schema, free, e) ↦ entered settings c q schema db _ e free
]
perform-Step (verify settings c issuer nonce tx user) db =
    elim (verify-requests settings c issuer nonce tx user db) [
      | inl e ↦ stay (λ i j. ap (λ d. ledger d i j) e)
      | inr (request, status, read, unpaid, e) ↦
          let (item, setting, f, g, own, known, asked) =
            checked-parts settings c issuer nonce tx user db request status read in
          let (r, found, row, same) =
            read-row c.request_fault issuer item.payment_request_id db request g in
          subst (λ d. Step (ledger db) (ledger d) (verify settings c issuer nonce tx user)) (sym e)
            (updated settings c issuer request.row.id (request_status status) nonce tx user db r
              found (ap (λ r. status_eq r.status Status.success) row ∙ unpaid))
    ]
perform-Step (remove f g issuer id) db = elim (delete-requests f g issuer id db) [
  | inl e ↦ stay (λ i j. ap (λ rows. stage_of (find (is_request i j) rows)) e)
  | inr e ↦
      forget
        (ap (λ rows. stage_of (find (is_request issuer id) rows)) e
          ∙ ap stage_of (find-removed issuer id db.requests))
        (λ i j h.
          ap (λ rows. stage_of (find (is_request i j) rows)) e
          ∙ ap stage_of (find-kept issuer i id j db.requests h))
]

-- Whether a call deletes a request
abbrev pub removes : String → ℕ → Call → Bool
removes issuer id (remove f g i j) = str_eq i issuer && (j == id)
removes issuer id _ = false

step-paid :
    (v w : Ledger) (x : Call) (i : String) (j : ℕ) (n : Option ℕ)
    → Step v w x
    → removes i j x ≡ false
    → v i j ≡ some (paid n)
    → w i j ≡ some (paid n)
step-paid v w x i j n (stay same) kept h = same i j ∙ h
step-paid v w _ i j n (begin {c = c} {q = q} before after away) kept h =
    elim (Bool-cases (str_eq q.issuer_did i && (c.new_id == j))) [
      | inl e ↦ absurd (ground (arith, same_entry v q.issuer_did i c.new_id j e, before, h))
      | inr e ↦ away i j e ∙ h
    ]
step-paid v w _ i j n (settle {issuer = issuer} id before after away) kept h =
    elim (Bool-cases (str_eq issuer i && (id == j))) [
      | inl e ↦ absurd (ground (arith, same_entry v issuer i id j e, before, h))
      | inr e ↦ away i j e ∙ h
    ]
step-paid v w _ i j n (forget {issuer = issuer} {id = id} after away) kept h = away i j kept ∙ h

-- A paid request stays paid with the same nonce, whatever else is called, as long as it is not deleted.
pub run-paid :
    (xs : List Call) (db : Db) (issuer : String) (id : ℕ) (n : Option ℕ)
    → All (λ x. removes issuer id x ≡ false) xs
    → ledger db issuer id ≡ some (paid n)
    → ledger (run xs db) issuer id ≡ some (paid n)
unfolding run
run-paid [] db issuer id n kept h = h
run-paid (x ∷ xs) db issuer id n kept h =
    run-paid xs (perform x db) issuer id n kept.1
      (step-paid (ledger db) _ x issuer id n (perform-Step x db) kept.0 h)

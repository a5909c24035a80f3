-- ===== src/Payment/Settled.antt =====
-- What any use of the payment requests keeps: which requests carry a paid nonce, and that a paid
-- request is settled for good.
use mathlib.Core.Path.{subst}
use e_native_issuer.Common.{
  ℕ, ◌≡◌, refl, sym, String, Bool, Option, List, [], ◌∷◌, map, keep, All, All-append, arith, inl,
  inr, is_some,
}
use e_native_issuer.Payment.{Status, Row, Db, Error}
use e_native_issuer.Payment.Repository.{with_status, delete_payment_request}
use e_native_issuer.Payment.Service.{
  Settings, CreateReq, CreateCalls, create_payment_request, VerifyCalls, request_status,
  paid_nonce_of, verify_payment, status_eq, new_row,
}
use e_native_issuer.Payment.Rows.{create-requests, delete-requests, verify-requests}

-- One call of the service, with the answers that it gets.
pub data Call : Type 0 where
  create : Settings → CreateCalls → CreateReq → Call
  verify : Settings → VerifyCalls → String → ℕ → Option String → Option String → Call
  remove : Option Error → Option Error → String → ℕ → Call

unfoldable pub perform : Call → Db → Db
perform (create settings c q) db = (create_payment_request settings c q db).1
perform (verify settings c issuer nonce tx user) db =
    (verify_payment settings c issuer nonce tx user db).1
perform (remove f g issuer id) db = (delete_payment_request f g issuer id db).1

unfoldable pub run : List Call → Db → Db
run [] db = db
run (x ∷ xs) db = run xs (perform x db)

-- A row has a paid nonce exactly when its status is success.
abbrev pub IsSettled : Row → Type 0
IsSettled r = is_some r.paid_nonce ≡ status_eq r.status Status.success

abbrev pub WellPaid : Db → Type 0
WellPaid db = All IsSettled db.requests

All-keep : (p : Row → Bool) (rows : List Row) → All IsSettled rows → All IsSettled (keep p rows)
All-keep p [] h = tt
All-keep p (r ∷ rows) h = ground (arith, All-keep p rows h.1)

paid_nonce_of_settled :
    (s : Status) (nonce : ℕ) → is_some (paid_nonce_of s nonce) ≡ status_eq s Status.success
unfolding paid_nonce_of
paid_nonce_of_settled s nonce = ground arith

map-IsSettled :
    (now : ℕ) (issuer : String) (id : ℕ) (s : Status) (nonce : ℕ) (rows : List Row)
    → All IsSettled rows
    → All IsSettled (map (with_status now issuer id s (paid_nonce_of s nonce)) rows)
map-IsSettled now issuer id s nonce [] h = tt
map-IsSettled now issuer id s nonce (r ∷ rows) h =
    ground (arith, paid_nonce_of_settled s nonce, map-IsSettled now issuer id s nonce rows h.1)

perform-WellPaid : (x : Call) (db : Db) → WellPaid db → WellPaid (perform x db)
unfolding perform new_row
perform-WellPaid (create settings c q) db h = elim (create-requests settings c q db) [
  | inl e ↦ subst (All IsSettled) (sym e) h
  | inr (schema, free, e) ↦
      subst (All IsSettled) (sym e) (All-append IsSettled db.requests _ h (refl, tt))
]
perform-WellPaid (verify settings c issuer nonce tx user) db h =
    elim (verify-requests settings c issuer nonce tx user db) [
      | inl e ↦ subst WellPaid (sym e) h
      | inr (request, status, read, unpaid, e) ↦
          subst WellPaid (sym e)
            (map-IsSettled c.now issuer request.row.id (request_status status) nonce db.requests h)
    ]
perform-WellPaid (remove f g issuer id) db h = elim (delete-requests f g issuer id db) [
  | inl e ↦ subst (All IsSettled) (sym e) h
  | inr e ↦ subst (All IsSettled) (sym e) (All-keep _ db.requests h)
]

-- Any sequence of creations, verifications and deletions, with any answers of the chains and any
-- faults, keeps that a request has a paid nonce exactly when its status is success.
pub run-WellPaid : (xs : List Call) (db : Db) → WellPaid db → WellPaid (run xs db)
unfolding run
run-WellPaid [] db h = h
run-WellPaid (x ∷ xs) db h = run-WellPaid xs (perform x db) (perform-WellPaid x db h)

-- ===== src/Connection/Repository.antt =====
-- The statements of issuer-node/internal/repositories/connection.go, but for the listing. A
-- statement that the database refuses for a reason of its own is an argument `fault`.
use e_native_issuer.Common.{
  ℕ, String, Bool, not, ◌&&◌, Option, none, some, List, [], ◌∷◌, any, keep, find, str_eq, ◌==◌,
  if◌then◌else◌, Result, ok, err, or_err,
}
use e_native_issuer.Connection.{
  Connection, Authentication, Claim, Db, Error, connection_does_not_exist, refused,
}

-- connections_issuer_user_key
abbrev pub is_of : String → String → Connection → Bool
is_of issuer user c = str_eq c.issuer_did issuer && str_eq c.user_did user

-- DO UPDATE SET: the id and the time of creation stay.
abbrev pub updated : Connection → Connection → Connection
updated new old = record new { id = old.id; created_at = old.created_at }

-- The row of the issuer and the user is updated, or a new one is added.
unfoldable pub upsert : Connection → List Connection → List Connection
upsert new [] = new ∷ []
upsert new (c ∷ rows) =
    let rest = upsert new rows in
    if is_of new.issuer_did new.user_did c then updated new c ∷ rows else c ∷ rest

-- Save. A new row whose id is taken is refused.
unfoldable pub save : Option Error → Connection → Db → Result Error ℕ × Db
save (some e) new db = (err e, db)
save none new db =
    let found = find (is_of new.issuer_did new.user_did) db.connections in
    let taken = any (λ c. c.id == new.id) db.connections in
    let done = record db { connections = upsert new db.connections } in
    elim found [
      | some c ↦ (ok c.id, done)
      | none ↦ if taken then (err refused, db) else (ok new.id, done)
    ]

-- ON CONFLICT ON CONSTRAINT user_authentications_session_connection_key
unfoldable pub upsert_authentication : ℕ → ℕ → ℕ → List Authentication → List Authentication
upsert_authentication connection session now [] =
    record { connection_id = connection; session_id = session; created_at = now; updated_at = none }
    ∷ []
upsert_authentication connection session now (a ∷ rows) =
    let rest = upsert_authentication connection session now rows in
    if (a.connection_id == connection) && (a.session_id == session)
    then record a { updated_at = some now } ∷ rows
    else a ∷ rest

-- SaveUserAuthentication
unfoldable pub save_user_authentication :
    Option Error → ℕ → ℕ → ℕ → Db → Result Error (Unit {0}) × Db
save_user_authentication (some e) connection session now db = (err e, db)
save_user_authentication none connection session now db = (
  ok tt,
  record db { authentications = upsert_authentication connection session now db.authentications },
)

abbrev pub is_connection : ℕ → String → Connection → Bool
is_connection id issuer c = (c.id == id) && str_eq c.issuer_did issuer

-- Delete: two statements, each with a fault of its own.
abbrev pub without_authentications : ℕ → Db → Db
without_authentications id db = record db {
  authentications = keep (λ a. not (a.connection_id == id)) db.authentications;
}

unfoldable pub delete : Option Error → Option Error → ℕ → String → Db → Result Error Db
delete (some e) second id issuer db = err e
delete none (some e) id issuer db = err e
delete none none id issuer db =
    if any (is_connection id issuer) db.connections
    then ok (record (without_authentications id db) {
      connections = keep (λ c. not (is_connection id issuer c)) db.connections;
    })
    else err connection_does_not_exist

-- The claims that DeleteCredentials joins with the connection
abbrev pub is_between : ℕ → String → List Connection → Claim → Bool
is_between id issuer rows r =
    any
      (λ c.
        str_eq r.issuer c.issuer_did
        && str_eq r.other_identifier c.user_did
        && is_connection id issuer c)
      rows

-- DeleteCredentials
unfoldable pub delete_credentials : Option Error → ℕ → String → Db → Result Error Db
delete_credentials (some e) id issuer db = err e
delete_credentials none id issuer db =
    ok (record db { claims = keep (λ r. not (is_between id issuer db.connections r)) db.claims })

-- GetByIDAndIssuerID
unfoldable pub get_by_id_and_issuer_id : Option Error → ℕ → String → Db → Result Error Connection
get_by_id_and_issuer_id (some e) id issuer db = err e
get_by_id_and_issuer_id none id issuer db =
    or_err (find (is_connection id issuer) db.connections) connection_does_not_exist

-- GetByUserID
unfoldable pub get_by_user_id : Option Error → String → String → Db → Result Error Connection
get_by_user_id (some e) issuer user db = err e
get_by_user_id none issuer user db =
    or_err (find (is_of issuer user) db.connections) connection_does_not_exist

-- GetByUserSessionID: a row of the join
unfoldable pub get_by_user_session_id : Option Error → ℕ → Db → Result Error Connection
get_by_user_session_id (some e) session db = err e
get_by_user_session_id none session db =
    or_err
      (find
        (λ c. any (λ a. (a.connection_id == c.id) && (a.session_id == session)) db.authentications)
        db.connections)
      connection_does_not_exist

-- ===== src/Connection/Service.antt =====
-- Create, Delete and DeleteCredentials of issuer-node/internal/core/services/connections.go.
use e_native_issuer.Common.{ℕ, String, Bool, true, false, Option, Result, ok, err, ◌>>=◌}
use e_native_issuer.Connection.{Connection, Db, Error}
use e_native_issuer.Connection.Repository.{save, delete, delete_credentials}

-- Create
unfoldable pub create : Option Error → Connection → Db → Result Error (Unit {0}) × Db
create fault new db =
    let (answer, after) = save fault new db in
    elim answer [ err e ↦ (err e, after) | ok id ↦ (ok tt, after) ]

-- A transaction that an error rolls back
abbrev pub committed : Db → Result Error Db → Result Error (Unit {0}) × Db
committed db (err e) = (err e, db)
committed db (ok after) = (ok tt, after)

-- The body of Delete
abbrev pub removed :
    Option Error → Option Error → Option Error → ℕ → Bool → String → Db → Result Error Db
removed credentials_fault first second id true issuer db =
    delete_credentials credentials_fault id issuer db >>= λ after.
    delete first second id issuer after
removed credentials_fault first second id false issuer db = delete first second id issuer db

-- Delete
unfoldable pub delete_connection :
    Option Error
    → Option Error
    → Option Error
    → ℕ
    → Bool
    → String
    → Db
    → Result Error (Unit {0}) × Db
delete_connection credentials_fault first second id with_credentials issuer db =
    committed db (removed credentials_fault first second id with_credentials issuer db)

-- DeleteCredentials
unfoldable pub delete_connection_credentials :
    Option Error → ℕ → String → Db → Result Error (Unit {0}) × Db
delete_connection_credentials fault id issuer db =
    committed db (delete_credentials fault id issuer db)

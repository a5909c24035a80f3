-- ===== src/Connection/Removed.antt =====
-- What a deletion of a connection removes.
use e_native_issuer.Common.{
  ℕ, ◌≡◌, refl, String, Bool, true, false, not, ◌||◌, is_some, Option, none, some, List, [], ◌∷◌,
  any, keep, find, ◌==◌, ok, err, arith, Bool-cases, inl, inr, ◌⊎◌,
}
use e_native_issuer.Connection.{Connection, Db, Error, connection_does_not_exist}
use e_native_issuer.Connection.Repository.{
  is_connection, is_between, delete, delete_credentials, get_by_id_and_issuer_id,
}
use e_native_issuer.Connection.Service.{delete_connection}

find-removed :
    (id : ℕ) (issuer : String) (rows : List Connection)
    → find (is_connection id issuer) (keep (λ c. not (is_connection id issuer c)) rows) ≡ none
find-removed id issuer [] = refl
find-removed id issuer (c ∷ rows) = ground (arith, find-removed id issuer rows)

any-removed {ℓ} :
    {A : Type ℓ} (p : A → Bool) (rows : List A) → any p (keep (λ r. not (p r)) rows) ≡ false
any-removed p [] = refl
any-removed p (r ∷ rows) = elim (Bool-cases (p r)) [
  | inl e ↦ ground (arith, e, any-removed p rows)
  | inr e ↦ ground (arith, e, any-removed p rows)
]

-- A deletion of a connection with its credentials changes nothing at all where a statement fails or
-- the issuer has no such connection. Otherwise it succeeds, the connection is found no more, none
-- of the issuer's credentials for its user is left, and neither is an authentication of the
-- connection.
pub delete_connection-removes :
    (credentials_fault first second : Option Error) (id : ℕ) (issuer : String) (db : Db)
    → ((e : Error) × (delete_connection credentials_fault first second id true issuer db
          ≡ (err e, db))
        × ((is_some credentials_fault
              || is_some first
              || is_some second
              || not (any (is_connection id issuer) db.connections))
            ≡ true))
      ⊎ (((delete_connection credentials_fault first second id true issuer db).0 ≡ ok tt)
          × (get_by_id_and_issuer_id none id issuer
                (delete_connection credentials_fault first second id true issuer db).1
              ≡ err connection_does_not_exist)
          × (any
                (is_between id issuer db.connections)
                (delete_connection credentials_fault first second id true issuer db).1.claims
              ≡ false)
          × (any
                (λ a. a.connection_id == id)
                (delete_connection credentials_fault first second id true issuer
                  db).1.authentications
              ≡ false))
unfolding delete_connection delete_credentials delete get_by_id_and_issuer_id
delete_connection-removes (some e) first second id issuer db = inl (e, refl, refl)
delete_connection-removes none (some e) second id issuer db = inl (e, refl, refl)
delete_connection-removes none none (some e) id issuer db = inl (e, refl, refl)
delete_connection-removes none none none id issuer db =
    elim (Bool-cases (any (is_connection id issuer) db.connections)) [
      | inr e ↦ inl (connection_does_not_exist, ground (arith, e), ground (arith, e))
      | inl e ↦
          let gone = find-removed id issuer db.connections in
          let claims = any-removed (is_between id issuer db.connections) db.claims in
          let sessions = any-removed (λ a. a.connection_id == id) db.authentications in
          inr (
            ground (arith, e),
            ground (arith, e, gone),
            ground (arith, e, claims),
            ground (arith, e, sessions),
          )
    ]

-- ===== src/Connection/Kept.antt =====
-- A connection is read back as it was saved.
use e_native_issuer.Common.{
  ◌≡◌, Option, none, some, List, [], ◌∷◌, any, find, ◌==◌, eq_refl, ok, arith, Bool-cases,
  Option-cases, inl, inr,
}
use e_native_issuer.Connection.{Connection, Db}
use e_native_issuer.Connection.Repository.{is_of, updated, upsert, save, get_by_user_id}
use e_native_issuer.Connection.Service.{create}

-- What the table holds for an issuer and a user after a save
abbrev pub kept : Connection → Option Connection → Connection
kept new none = new
kept new (some old) = updated new old

find-upsert :
    (new : Connection) (rows : List Connection)
    → find (is_of new.issuer_did new.user_did) (upsert new rows)
      ≡ some (kept new (find (is_of new.issuer_did new.user_did) rows))
unfolding upsert
find-upsert new [] = ground (arith, eq_refl new.issuer_did, eq_refl new.user_did)
find-upsert new (c ∷ rows) = elim (Bool-cases (is_of new.issuer_did new.user_did c)) [
  | inl e ↦ ground (arith, e, eq_refl new.issuer_did, eq_refl new.user_did)
  | inr e ↦ ground (arith, e, find-upsert new rows)
]

-- A connection that was created is read back under its issuer and its user, with the documents of
-- the call; where there was one before, its id and its time of creation have stayed.
pub get_by_user_id-create :
    (new : Connection) (db : Db)
    → (create none new db).0 ≡ ok tt
    → get_by_user_id none new.issuer_did new.user_did (create none new db).1
      ≡ ok (kept new (find (is_of new.issuer_did new.user_did) db.connections))
unfolding create save get_by_user_id
get_by_user_id-create new db h =
    let found = find-upsert new db.connections in
    elim (Option-cases (find (is_of new.issuer_did new.user_did) db.connections)) [
      | inr (c, e) ↦ ground (arith, e, found)
      | inl e ↦ elim (Bool-cases (any (λ c. c.id == new.id) db.connections)) [
        | inl f ↦ absurd (ground (arith, e, f, h))
        | inr f ↦ ground (arith, e, f, found)
      ]
    ]

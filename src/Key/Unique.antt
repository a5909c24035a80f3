-- ===== src/Key/Unique.antt =====
-- The table `keys` under any sequence of Create, Update and Delete of
-- issuer-node/internal/core/services/key.go.
mod Rows
pub use Rows.*
use e_native_issuer.Common.{
  ◌≡◌, Bytes, ℕ, Option, none, some, List, [], ◌∷◌, Result, ok, err, arith, Result-cases,
  Bool-cases, inl, inr,
}
use e_native_issuer.Key.{KeyType, bjj, eth, ed25519, untyped, KeyId, Key, Error}
use e_native_issuer.Key.Kms
use e_native_issuer.Key.Kms.{Kms}
use e_native_issuer.Key.Repository
use e_native_issuer.Key.Service.{
  Library, ClaimService, Keys, public_text, is_row_not_found, new_key, row_of, save_new,
  create_named, create, checked_update, update, checked_delete, delete,
}

-- A call of the service, with the errors of its statements, and the id of a new row
pub data Call : Type 0 where
  creating : Option Error → Option Error → Bytes → KeyType → Bytes → ℕ → Call
  updating : Option Error → Option Error → Bytes → Bytes → Bytes → ℕ → Call
  deleting : Option Error → Bytes → Bytes → Call

module _ {S : Type 0} (lib : Library) (claims : ClaimService) (kms : Kms S) where
  unfoldable pub after : Call → Keys S → Keys S
  after (creating lookup fault did ty name fresh) s =
      (create lib claims kms lookup fault did ty name fresh s).1
  after (updating lookup fault did id name fresh) s =
      (update lib claims kms lookup fault did id name fresh s).1
  after (deleting fault did id) s = (delete lib claims kms fault did id s).1

  unfoldable pub run : List Call → Keys S → Keys S
  run [] s = s
  run (c ∷ cs) s = run cs (after c s)

  save_new-UniqueKeys :
      (fault : Option Error) (did : Bytes) (ty : KeyType) (name : Bytes) (fresh : ℕ) (k : KeyId)
      (s : Keys S)
      → UniqueKeys s.rows
      → UniqueKeys (save_new lib claims kms fault did ty name fresh k s).1.rows
  unfolding save_new
  save_new-UniqueKeys fault did ty name fresh k s h =
      elim (Result-cases (Kms.public_key k kms s.store)) [
        | inl (e, f) ↦ ground (arith, f, h)
        | inr (pk, f) ↦
            ground (
              arith,
              f,
              save-UniqueKeys fault (row_of lib claims kms did ty name fresh pk) s.rows h,
            )
      ]

  create_named-UniqueKeys :
      (fault : Option Error) (did : Bytes) (ty : KeyType) (name : Bytes) (fresh : ℕ) (s : Keys S)
      → UniqueKeys s.rows
      → UniqueKeys (create_named lib claims kms fault did ty name fresh s).1.rows
  unfolding create_named
  create_named-UniqueKeys fault did ty name fresh s h =
      let made = new_key lib claims kms did ty s.store in
      elim (Result-cases made.0) [
        | inl (e, f) ↦ ground (arith, f, h)
        | inr (k, f) ↦
            let next : Keys S = record s { store = made.1 } in
            ground (arith, f, save_new-UniqueKeys fault did ty name fresh k next h)
      ]

  after-UniqueKeys : (c : Call) (s : Keys S) → UniqueKeys s.rows → UniqueKeys (after c s).rows
  unfolding after create update delete
  after-UniqueKeys (creating lookup fault did ty name fresh) s h =
      elim (Result-cases (Repository.get_by_name lookup did name s.rows)) [
        | inr (k, f) ↦ ground (arith, f, h)
        | inl (e, f) ↦ elim (Bool-cases (is_row_not_found e)) [
          | inl t ↦ ground (arith, f, t, create_named-UniqueKeys fault did ty name fresh s h)
          | inr t ↦ ground (arith, f, t, h)
        ]
      ]
  after-UniqueKeys (updating lookup fault did id name fresh) s h =
      elim (Result-cases (checked_update lib claims kms lookup did id name fresh s)) [
        | inl (e, f) ↦ ground (arith, f, h)
        | inr (k, f) ↦ ground (arith, f, save-UniqueKeys fault k s.rows h)
      ]
  after-UniqueKeys (deleting fault did id) s h =
      elim (Result-cases (checked_delete lib claims kms did id s)) [
        | inl (e, f) ↦ ground (arith, f, h)
        | inr ((k, pk), f) ↦
            let text = public_text lib k.key_type pk in
            elim (Result-cases (Repository.delete fault did text s.rows).0) [
              | inl (e, g) ↦ ground (arith, f, g, h)
              | inr (u, g) ↦ ground (arith, f, g, delete-UniqueKeys fault did text s.rows h)
            ]
      ]

  -- Whatever calls are made, in whatever order and whichever of them fail, no two keys of an issuer
  -- come to have one name, and no two rows one id.
  pub run-UniqueKeys :
      (cs : List Call) (s : Keys S) → UniqueKeys s.rows → UniqueKeys (run cs s).rows
  unfolding run
  run-UniqueKeys [] s h = h
  run-UniqueKeys (c ∷ cs) s h = run-UniqueKeys cs (after c s) (after-UniqueKeys c s h)

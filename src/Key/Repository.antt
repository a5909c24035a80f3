-- ===== src/Key/Repository.antt =====
-- The statements of issuer-node/internal/repositories/key.go on the table `keys`, which has a key on
-- `id` and one on the issuer and the name. An error of the database's own is an argument `fault`.
use e_native_issuer.Common.{
  ℕ, Bytes, bytes_eq, Bool, not, ◌&&◌, Option, none, some, List, [], ◌∷◌, ◌++◌, map, any, keep,
  find, ◌==◌, if◌then◌else◌, Result, ok, err, or_err,
}
use e_native_issuer.Key.{Key, Error, row_not_found, name_already_exists}

-- keys_unique_name
abbrev pub is_named : Bytes → Bytes → Key → Bool
is_named issuer name k = bytes_eq k.issuer_did issuer && bytes_eq k.name name

abbrev pub has_public_key : Bytes → Bytes → Key → Bool
has_public_key issuer public_key k =
    bytes_eq k.issuer_did issuer && bytes_eq k.public_key public_key

-- DO UPDATE SET name
abbrev pub renamed : ℕ → Bytes → Key → Key
renamed id name k = if k.id == id then record k { name = name } else k

-- Another row of the issuer has the name.
abbrev pub is_taken : Key → Bytes → List Key → Bool
is_taken old name = any (λ k. is_named old.issuer_did name k && not (k.id == old.id))

-- Save: a row of the id is renamed, or a new row is added; a name that is taken is refused.
unfoldable pub save : Option Error → Key → List Key → Result Error ℕ × List Key
save (some e) new rows = (err e, rows)
save none new rows = elim (find (λ k. k.id == new.id) rows) [
  | some old ↦
      if is_taken old new.name rows
      then (err name_already_exists, rows)
      else (ok new.id, map (renamed new.id new.name) rows)
  | none ↦
      if any (is_named new.issuer_did new.name) rows
      then (err name_already_exists, rows)
      else (ok new.id, rows ++ new ∷ [])
]

-- GetByPublicKey
unfoldable pub get_by_public_key : Option Error → Bytes → Bytes → List Key → Result Error Key
get_by_public_key (some e) issuer public_key rows = err e
get_by_public_key none issuer public_key rows =
    or_err (find (has_public_key issuer public_key) rows) row_not_found

-- Delete
unfoldable pub delete : Option Error → Bytes → Bytes → List Key → Result Error (Unit {0}) × List Key
delete (some e) issuer public_key rows = (err e, rows)
delete none issuer public_key rows =
    (ok tt, keep (λ k. not (has_public_key issuer public_key k)) rows)

-- GetByName
unfoldable pub get_by_name : Option Error → Bytes → Bytes → List Key → Result Error Key
get_by_name (some e) issuer name rows = err e
get_by_name none issuer name rows = or_err (find (is_named issuer name) rows) row_not_found

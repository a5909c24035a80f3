-- ===== src/ApiKey/Repository.antt =====
-- issuer-node/internal/repositories/api_key.go. The table's keys on the id, the prefix and the hash
-- refuse a row that is there already; any other refusal of the database is an argument `fault`.
use e_native_issuer.Common.{
  ℕ, Bytes, bytes_eq, String, Bool, ◌||◌, Option, none, some, List, [], ◌∷◌, ◌++◌, map, any, find,
  ◌==◌, if◌then◌else◌, sort_desc, Result, ok, err, or_err,
}
use e_native_issuer.ApiKey.{Key, Event, Db, revoked, Error, row_not_found, duplicate}

abbrev pub clashes : Key → Key → Bool
clashes new k =
    (k.id == new.id) || bytes_eq k.key_prefix new.key_prefix || bytes_eq k.key_hash new.key_hash

-- Save
unfoldable pub save : Option Error → Key → Db → Result Error (Unit {0}) × Db
save (some e) key db = (err e, db)
save none key db =
    if any (clashes key) db.keys
    then (err duplicate, db)
    else (ok tt, record db { keys = db.keys ++ key ∷ [] })

-- GetByID
unfoldable pub get_by_id : Option Error → ℕ → Db → Result Error Key
get_by_id (some e) id db = err e
get_by_id none id db = or_err (find (λ k. k.id == id) db.keys) row_not_found

-- GetByPrefix
unfoldable pub get_by_prefix : Option Error → Bytes → Db → Result Error Key
get_by_prefix (some e) prefix db = err e
get_by_prefix none prefix db =
    or_err (find (λ k. bytes_eq k.key_prefix prefix) db.keys) row_not_found

-- GetAll, newest first
unfoldable pub get_all : Option Error → Db → Result Error (List Key)
get_all (some e) db = err e
get_all none db = ok (sort_desc (λ k. k.created_at) db.keys)

abbrev pub revoked_key : ℕ → ℕ → Option String → Key → Key
revoked_key id at reason k =
    if k.id == id
    then record k { status = revoked; revoked_at = some at; revoked_reason = reason }
    else k

-- Revoke
unfoldable pub revoke : Option Error → ℕ → ℕ → Option String → Db → Result Error (Unit {0}) × Db
revoke (some e) id at reason db = (err e, db)
revoke none id at reason db =
    if any (λ k. k.id == id) db.keys
    then (ok tt, record db { keys = map (revoked_key id at reason) db.keys })
    else (err row_not_found, db)

-- UpdateLastUsedAt
unfoldable pub update_last_used_at : Option Error → ℕ → ℕ → Db → Result Error (Unit {0}) × Db
update_last_used_at (some e) id at db = (err e, db)
update_last_used_at none id at db =
    if any (λ k. k.id == id) db.keys
    then (
      ok tt,
      record db {
        keys = map (λ k. if k.id == id then record k { last_used_at = some at } else k) db.keys;
      },
    )
    else (err row_not_found, db)

-- SaveEvent
unfoldable pub save_event : Option Error → Event → Db → Result Error (Unit {0}) × Db
save_event (some e) event db = (err e, db)
save_event none event db = (ok tt, record db { events = db.events ++ event ∷ [] })

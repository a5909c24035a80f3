-- ===== src/ApiKey/Service.antt =====
-- The service of issuer-node/internal/core/apikey/api_key.go. `hash` is HMAC-SHA256 under the
-- pepper.
use e_native_issuer.Common.{
  ℕ, Bytes, bytes_eq, String, Bool, true, false, ◌||◌, not, Option, none, some, List, [], ◌∷◌,
  is_some, some_and, ltb, Result, ok, err, ◌>>=◌, ◌>>◌, reject, or_err, map_err,
}
use e_native_issuer.ApiKey.{
  Key, Event, Db, Status, active, revoked, Error, not_found, invalid, is_revoked, is_expired,
  missing_scope, invalid_request, pepper_missing, row_not_found,
}
use e_native_issuer.ApiKey.Token.{prefix_of, secret_of, parse_prefix}
use e_native_issuer.ApiKey.Scopes.{trim_space, normalize_scopes, has_required_scopes}
use e_native_issuer.ApiKey.Repository

pub record Config : Type 0 where
  pub pepper : Bytes
  pub hash : Bytes → Bytes

-- CreateAPIKeyRequest
pub record CreateRequest : Type 0 where
  pub partner_name : Bytes
  pub scopes : List Bytes
  pub expires_at : Option ℕ

-- The answers of the clock, of the random source and of the database in Create.
pub record CreateCalls : Type 0 where
  pub now : ℕ
  pub new_id : ℕ
  pub prefix_raw : Result Error Bytes
  pub secret_raw : Result Error Bytes
  pub save_fault : Option Error
  pub event_fault : Option Error

-- CreatedAPIKey
pub record CreatedKey : Type 0 where
  pub key : Key
  pub secret : Bytes

abbrev pub is_empty {ℓ} : {A : Type ℓ} → List A → Bool
is_empty [] = true
is_empty (x ∷ xs) = false

abbrev pub new_key : Config → CreateCalls → CreateRequest → List Bytes → Bytes → Bytes → CreatedKey
new_key cfg c q scopes prefix_raw secret_raw = record {
  key = record {
    id = c.new_id;
    partner_name = trim_space q.partner_name;
    key_prefix = prefix_of prefix_raw;
    key_hash = cfg.hash (secret_of prefix_raw secret_raw);
    scopes = scopes;
    status = active;
    created_at = c.now;
    last_used_at = none;
    expires_at = q.expires_at;
    revoked_at = none;
    revoked_reason = none;
  };
  secret = secret_of prefix_raw secret_raw;
}

-- Create up to the write
unfoldable pub prepare : Config → CreateCalls → CreateRequest → Result Error CreatedKey
prepare cfg c q = do
  reject (is_empty cfg.pepper) pepper_missing
  scopes ← normalize_scopes q.scopes
  prefix_raw ← c.prefix_raw
  secret_raw ← c.secret_raw
  let created = new_key cfg c q scopes prefix_raw secret_raw
  reject (is_empty (trim_space q.partner_name)) invalid_request
  ok created

abbrev pub event_of : ℕ → String → ℕ → Event
event_of id kind at = record { api_key_id = id; event_type = kind; created_at = at }

unfoldable pub save_created : CreateCalls → CreatedKey → Db → Result Error CreatedKey × Db
save_created c created db =
    let (r, after) = Repository.save c.save_fault created.key db in
    elim r [
      | err e ↦ (err e, after)
      | ok _ ↦ (
        ok created,
        (Repository.save_event c.event_fault (event_of created.key.id "created" c.now) after).1,
      )
    ]

-- Create
unfoldable pub create : Config → CreateCalls → CreateRequest → Db → Result Error CreatedKey × Db
create cfg c q db = elim (prepare cfg c q) [
  | err e ↦ (err e, db)
  | ok created ↦ save_created c created db
]

-- apiKeyError
abbrev pub api_key_error : Error → Error
api_key_error row_not_found = not_found
api_key_error e = e

-- Get
unfoldable pub get : Option Error → ℕ → Db → Result Error Key
get fault id db = map_err api_key_error (Repository.get_by_id fault id db)

-- Revoke; the faults are those of the update and of the event.
unfoldable pub revoke :
    Option Error → Option Error → ℕ → ℕ → Option String → Db → Result Error (Unit {0}) × Db
revoke fault event_fault now id reason db =
    let (r, after) = Repository.revoke fault id now reason db in
    elim r [
      | err e ↦ (err (api_key_error e), after)
      | ok _ ↦ (ok tt, (Repository.save_event event_fault (event_of id "revoked" now) after).1)
    ]

pub record RotateCalls : Type 0 where
  pub now : ℕ
  pub read_fault : Option Error
  pub revoke_fault : Option Error
  pub create_calls : CreateCalls
  pub event_fault : Option Error

-- Rotate from the key that was read on
unfoldable pub rotate_key : Config → RotateCalls → ℕ → Key → Db → Result Error CreatedKey × Db
rotate_key cfg c id existing db =
    let (r, revoked_db) = Repository.revoke c.revoke_fault id c.now (some "rotated") db in
    let (s, after) =
      create cfg c.create_calls
        (record {
          partner_name = existing.partner_name;
          scopes = existing.scopes;
          expires_at = existing.expires_at;
        })
        revoked_db in
    elim r [
      | err e ↦ (err (api_key_error e), revoked_db)
      | ok _ ↦ elim s [
        | err e ↦ (err e, after)
        | ok created ↦ (
          ok created,
          (Repository.save_event c.event_fault (event_of id "rotated" c.now) after).1,
        )
      ]
    ]

-- Rotate
unfoldable pub rotate : Config → RotateCalls → ℕ → Db → Result Error CreatedKey × Db
rotate cfg c id db = elim (get c.read_fault id db) [
  | err e ↦ (err e, db)
  | ok existing ↦ rotate_key cfg c id existing db
]

pub record AuthCalls : Type 0 where
  pub now : ℕ
  pub used_at : ℕ
  pub read_fault : Option Error
  pub update_fault : Option Error

abbrev has_status_revoked : Status → Bool
has_status_revoked active = false
has_status_revoked revoked = true

-- Authenticate up to the note of the use
unfoldable pub check_secret : Config → AuthCalls → Bytes → List Bytes → Db → Result Error Key
check_secret cfg c secret required db = do
  reject (is_empty cfg.pepper) pepper_missing
  prefix ← or_err (parse_prefix secret) invalid
  key ← map_err api_key_error (Repository.get_by_prefix c.read_fault prefix db)
  reject (not (bytes_eq (cfg.hash secret) key.key_hash)) invalid
  reject (has_status_revoked key.status || is_some key.revoked_at) is_revoked
  reject (some_and key.expires_at (λ t. ltb t c.now)) is_expired
  reject (not (has_required_scopes key.scopes required)) missing_scope
  ok key

-- Authenticate
unfoldable pub authenticate : Config → AuthCalls → Bytes → List Bytes → Db → Result Error Key × Db
authenticate cfg c secret required db = elim (check_secret cfg c secret required db) [
  | err e ↦ (err e, db)
  | ok key ↦ (
    ok (record key { last_used_at = some c.used_at }),
    (Repository.update_last_used_at c.update_fault key.id c.used_at db).1,
  )
]

-- ===== src/ApiKey/Tests.antt =====
-- Runs of the API keys and the theorems at concrete inputs. The hash of the tests keeps the text.
use e_native_issuer.Common.{
  any, bytes_eq, true, ℕ, ◌≡◌, ◌≢◌, refl, arith, Bytes, codes, none, some, [], ◌∷◌, ok, err,
}
use e_native_issuer.ApiKey.{Key, Db, Error, active}
use e_native_issuer.ApiKey.Token.{prefix_of, secret_of, split_last, parse_prefix}
use e_native_issuer.ApiKey.Scopes.{
  trim_space, sort_strings, insert_text, normalize_from, normalize_scopes, has_required_scopes,
}
use e_native_issuer.ApiKey.Repository
use e_native_issuer.ApiKey.Service.{
  Config, CreateRequest, CreateCalls, CreatedKey, prepare, save_created, create, get, revoke,
  RotateCalls, rotate_key, rotate, AuthCalls, check_secret, authenticate,
}
use e_native_issuer.ApiKey.Access.{Opens, authenticate-Opens}
use e_native_issuer.ApiKey.Lifecycle.{Dead, revoke-authenticate, rotate-Dead}
use e_native_issuer.ApiKey.RoundTrip.{create-authenticate}

abbrev cfg : Config
cfg = record { pepper = codes "p"; hash = λ s. s }

abbrev none_yet : Db
none_yet = record { keys = []; events = [] }

abbrev request : CreateRequest
request = record {
  partner_name = codes "acme";
  scopes = codes " b" ∷ codes "a" ∷ codes "b" ∷ [];
  expires_at = some 500;
}

abbrev drawn : ℕ → CreateCalls
drawn n = record {
  now = 100;
  new_id = n;
  prefix_raw = ok (n ∷ []);
  secret_raw = ok (200 ∷ []);
  save_fault = none;
  event_fault = none;
}

abbrev used : AuthCalls
used = record { now = 300; used_at = 301; read_fault = none; update_fault = none }

abbrev key : ℕ → Key
unfolding prefix_of secret_of
key n = record {
  id = n;
  partner_name = codes "acme";
  key_prefix = prefix_of (n ∷ []);
  key_hash = secret_of (n ∷ []) (200 ∷ []);
  scopes = codes "a" ∷ codes "b" ∷ [];
  status = active;
  created_at = 100;
  last_used_at = none;
  expires_at = some 500;
  revoked_at = none;
  revoked_reason = none;
}

abbrev created : ℕ → CreatedKey
unfolding secret_of prefix_of
created n = record { key = key n; secret = secret_of (n ∷ []) (200 ∷ []) }

one_key : (create cfg (drawn 3) request none_yet).0 ≡ ok (created 3)
unfolding create prepare normalize_scopes normalize_from trim_space sort_strings insert_text
    save_created Repository.save Repository.save_event prefix_of secret_of
one_key = refl

-- A key under the same prefix is refused.
clash :
    (create cfg (drawn 3) request (create cfg (drawn 3) request none_yet).1).0 ≡ err Error.duplicate
unfolding create prepare normalize_scopes normalize_from trim_space sort_strings insert_text
    save_created Repository.save Repository.save_event prefix_of secret_of
clash = refl

abbrev random : Bytes
random = 200 ∷ []

a_byte : random ≢ []
a_byte = λ e. ground (arith, e)

create-authenticate_example :
    (authenticate cfg used
      (created 3).secret
      (codes "a" ∷ [])
      (create cfg (drawn 3) request none_yet).1).0
    ≡ ok (record (key 3) { last_used_at = some 301 })
unfolding has_required_scopes created
create-authenticate_example =
    create-authenticate cfg (drawn 3) request none_yet (created 3) used (codes "a" ∷ []) (200 ∷ [])
      one_key refl a_byte refl refl refl

abbrev one : Db
one = record { keys = key 3 ∷ []; events = [] }

accepted :
    (authenticate cfg used (created 3).secret (codes "b" ∷ []) one).0
    ≡ ok (record (key 3) { last_used_at = some 301 })
unfolding authenticate check_secret parse_prefix split_last Repository.get_by_prefix
    has_required_scopes Repository.update_last_used_at prefix_of secret_of
accepted = refl

authenticate-Opens_example :
    Opens cfg 300 (created 3).secret (codes "b" ∷ []) (record (key 3) { last_used_at = some 301 })
    × ((x : Bytes)
        → any (bytes_eq x) (codes "b" ∷ []) ≡ true
        → any (bytes_eq x) (Key.scopes (record (key 3) { last_used_at = some 301 })) ≡ true)
    × (Key.last_used_at (record (key 3) { last_used_at = some 301 }) ≡ some 301)
authenticate-Opens_example =
    authenticate-Opens cfg used (created 3).secret (codes "b" ∷ []) one
      (record (key 3) { last_used_at = some 301 }) accepted

some_pepper : codes "p" ≢ []
some_pepper = λ e. ground (arith, e)

abbrev two : Db
two = record { keys = key 3 ∷ key 4 ∷ []; events = [] }

revoke-authenticate_example : (key 4).id ≢ 3
unfolding authenticate check_secret parse_prefix split_last Repository.get_by_prefix
    has_required_scopes Repository.update_last_used_at prefix_of secret_of revoke Repository.revoke
    Repository.save_event
revoke-authenticate_example =
    revoke-authenticate none none 200 3 (some "lost") two cfg used (created 4).secret
      (codes "b" ∷ []) (record (key 4) { last_used_at = some 301 }) refl refl

-- The random source fails, and the key is revoked all the same.
abbrev rotation : RotateCalls
rotation = record {
  now = 200;
  read_fault = none;
  revoke_fault = none;
  create_calls = record (drawn 5) { secret_raw = err (Error.callee 1) };
  event_fault = none;
}

rotation_fails : (rotate cfg rotation 3 two).0 ≡ err (Error.callee 1)
unfolding rotate rotate_key get Repository.get_by_id Repository.revoke create prepare
    normalize_scopes normalize_from trim_space sort_strings insert_text key
rotation_fails = refl

rotate-Dead_example : Dead 3 (rotate cfg rotation 3 two).1.keys
unfolding get Repository.get_by_id Repository.revoke key
rotate-Dead_example = rotate-Dead cfg rotation 3 two (key 3) refl refl

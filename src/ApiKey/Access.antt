-- ===== src/ApiKey/Access.antt =====
-- What Authenticate of issuer-node/internal/core/apikey/api_key.go demands of a key.
use mathlib.Core.Path.{subst}
use e_native_issuer.Common.{
  ℕ, ◌≡◌, refl, Bytes, bytes_eq, bytes_eq_sound, Bool, true, false, Option, none, some, List, [],
  ◌∷◌, ok-same, find, find-passes, ◌≢◌, bytes_eq_refl, ok, arith, Option-cases, Bool-cases,
  Result-cases, inl, inr, some_and, ltb, any,
}
use e_native_issuer.ApiKey.{Key, Db, active, Error}
use e_native_issuer.ApiKey.Token.{parse_prefix}
use e_native_issuer.ApiKey.Scopes.{has_required_scopes}
use e_native_issuer.ApiKey.Repository
use e_native_issuer.ApiKey.Service.{is_empty, Config, AuthCalls, check_secret, authenticate}

-- What an accepted key has.
abbrev pub Opens : Config → ℕ → Bytes → List Bytes → Key → Type 0
Opens cfg now secret required k =
    (parse_prefix secret ≡ some k.key_prefix)
    × (cfg.hash secret ≡ k.key_hash)
    × (k.status ≡ active)
    × (k.revoked_at ≡ none)
    × (some_and k.expires_at (λ t. ltb t now) ≡ false)
    × (has_required_scopes k.scopes required ≡ true)

-- What the check of the scopes means, scope by scope
has_required_scopes_sound :
    (actual required : List Bytes) (x : Bytes)
    → has_required_scopes actual required ≡ true
    → any (bytes_eq x) required ≡ true
    → any (bytes_eq x) actual ≡ true
unfolding has_required_scopes
has_required_scopes_sound actual [] x h m = absurd (ground (arith, m))
has_required_scopes_sound actual (r ∷ rs) x h m = elim (Bool-cases (bytes_eq x r)) [
  | inl e ↦ rw (bytes_eq_sound x r e) (ground (arith, h))
  | inr e ↦ has_required_scopes_sound actual rs x (ground (arith, h)) (ground (arith, m, e))
]

get_by_prefix-key_prefix :
    (f : Option Error) (p : Bytes) (db : Db) (k : Key)
    → Repository.get_by_prefix f p db ≡ ok k
    → p ≡ k.key_prefix
unfolding Repository.get_by_prefix
get_by_prefix-key_prefix (some e) p db k h = ground arith
get_by_prefix-key_prefix none p db k h =
    elim (Option-cases (find (λ j. bytes_eq j.key_prefix p) db.keys)) [
      | inl e ↦ ground (arith, e, h)
      | inr (j, e) ↦ ground (
        arith,
        e,
        h,
        find-passes (λ j. bytes_eq j.key_prefix p) db.keys j e,
        bytes_eq_sound j.key_prefix p,
      )
    ]

get_by_prefix-find :
    (f : Option Error) (p : Bytes) (db : Db) (k : Key)
    → Repository.get_by_prefix f p db ≡ ok k
    → find (λ j. bytes_eq j.key_prefix p) db.keys ≡ some k
unfolding Repository.get_by_prefix
get_by_prefix-find (some e) p db k h = ground arith
get_by_prefix-find none p db k h =
    elim (Option-cases (find (λ j. bytes_eq j.key_prefix p) db.keys)) [
      | inl e ↦ ground (arith, e, h)
      | inr (j, e) ↦ ground (arith, e, h)
    ]

check_secret-Opens :
    (cfg : Config) (c : AuthCalls) (secret : Bytes) (required : List Bytes) (db : Db) (k : Key)
    → check_secret cfg c secret required db ≡ ok k
    → Opens cfg c.now secret required k
unfolding check_secret
check_secret-Opens cfg c secret required db k h = elim (Option-cases (parse_prefix secret)) [
  | inl e ↦ ground (arith, e, h)
  | inr (p, e) ↦ elim (Result-cases (Repository.get_by_prefix c.read_fault p db)) [
    | inl (f, g) ↦ ground (arith, e, g, h)
    | inr (j, g) ↦ ground (
      arith,
      e,
      g,
      h,
      get_by_prefix-key_prefix c.read_fault p db j g,
      bytes_eq_sound (cfg.hash secret) j.key_hash,
    )
  ]
]

-- The key that authenticate gives has the prefix and the hash of the secret, is active with no
-- date of revocation, has not expired at the time of the call and passes the check of the scopes:
-- each scope that the route requires is one of the key's. Its last use is the time that the call
-- took.
pub authenticate-Opens :
    (cfg : Config) (c : AuthCalls) (secret : Bytes) (required : List Bytes) (db : Db) (k : Key)
    → (authenticate cfg c secret required db).0 ≡ ok k
    → Opens cfg c.now secret required k
      × ((x : Bytes) → any (bytes_eq x) required ≡ true → any (bytes_eq x) k.scopes ≡ true)
      × (k.last_used_at ≡ some c.used_at)
unfolding authenticate
authenticate-Opens cfg c secret required db k h =
    elim (Result-cases (check_secret cfg c secret required db)) [
      | inl (f, e) ↦ ground (arith, e, h)
      | inr (j, e) ↦
          let opens = check_secret-Opens cfg c secret required db j e in
          let same : record j { last_used_at = some c.used_at } ≡ k =
            ok-same {E = Error} _ k (ground (arith, e, h)) in
          let scopes = has_required_scopes_sound j.scopes required in
          subst
            (λ (k : Key).
              Opens cfg c.now secret required k
              × ((x : Bytes) → any (bytes_eq x) required ≡ true → any (bytes_eq x) k.scopes ≡ true)
              × (k.last_used_at ≡ some c.used_at))
            same (opens, λ x. scopes x opens.5, refl)
    ]

is_empty_sound : (xs : Bytes) → is_empty xs ≡ true → xs ≡ []
is_empty_sound [] h = refl
is_empty_sound (x ∷ xs) h = ground arith

check_secret-accepts :
    (cfg : Config) (c : AuthCalls) (secret : Bytes) (required : List Bytes) (db : Db) (k : Key)
    → is_empty cfg.pepper ≡ false
    → Repository.get_by_prefix c.read_fault k.key_prefix db ≡ ok k
    → Opens cfg c.now secret required k
    → check_secret cfg c secret required db ≡ ok k
unfolding check_secret
check_secret-accepts cfg c secret required db k pepper read (e1, e2, e3, e4, e5, e6) =
    ground (arith, pepper, e1, read, e2, bytes_eq_refl k.key_hash, e3, e4, e5, e6)

-- With a pepper set, a row that the read by its prefix gives, that has the prefix and the hash of
-- the secret, is active with no date of revocation, has not expired and has every required scope is
-- accepted, and the call gives the row with the new last use.
pub authenticate-accepts :
    (cfg : Config) (c : AuthCalls) (secret : Bytes) (required : List Bytes) (db : Db) (k : Key)
    → cfg.pepper ≢ []
    → Repository.get_by_prefix c.read_fault k.key_prefix db ≡ ok k
    → Opens cfg c.now secret required k
    → (authenticate cfg c secret required db).0 ≡ ok (record k { last_used_at = some c.used_at })
unfolding authenticate
authenticate-accepts cfg c secret required db k pepper read opens =
    elim (Bool-cases (is_empty cfg.pepper)) [
      | inl e ↦ elim (pepper (is_empty_sound cfg.pepper e)) [ ]
      | inr e ↦ ground (arith, check_secret-accepts cfg c secret required db k e read opens)
    ]

check_secret-read :
    (cfg : Config) (c : AuthCalls) (secret : Bytes) (required : List Bytes) (db : Db) (k : Key)
    → check_secret cfg c secret required db ≡ ok k
    → (p : Bytes) × (Repository.get_by_prefix c.read_fault p db ≡ ok k)
unfolding check_secret
check_secret-read cfg c secret required db k h = elim (Option-cases (parse_prefix secret)) [
  | inl e ↦ absurd (ground (arith, e, h))
  | inr (p, e) ↦ elim (Result-cases (Repository.get_by_prefix c.read_fault p db)) [
    | inl (f, g) ↦ absurd (ground (arith, e, g, h))
    | inr (j, g) ↦ (p, ground (arith, e, g, h))
  ]
]

-- The row that an accepted secret has was found by a search of the table.
pub authenticate-found :
    (cfg : Config) (c : AuthCalls) (secret : Bytes) (required : List Bytes) (db : Db) (k : Key)
    → (authenticate cfg c secret required db).0 ≡ ok k
    → (p : Key → Bool) × (row : Key) × (find p db.keys ≡ some row)
      × (row.id ≡ k.id)
      × (row.status ≡ active)
unfolding authenticate
authenticate-found cfg c secret required db k h =
    elim (Result-cases (check_secret cfg c secret required db)) [
      | inl (f, e) ↦ absurd (ground (arith, e, h))
      | inr (j, e) ↦
          let (p, g) = check_secret-read cfg c secret required db j e in
          let opens = check_secret-Opens cfg c secret required db j e in
          (
            λ i. bytes_eq i.key_prefix p,
            j,
            get_by_prefix-find c.read_fault p db j g,
            ground (arith, e, h),
            opens.2,
          )
    ]

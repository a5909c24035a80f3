-- ===== src/ApiKey/RoundTrip.antt =====
-- The secret that Create of issuer-node/internal/core/apikey/api_key.go gives opens the key.
use e_native_issuer.Common.{
  ℕ, ◌≡◌, ◌≢◌, ◌∙◌, Bytes, bytes_eq, bytes_eq_refl, Bool, true, false, Option, none, some, List, [],
  ◌∷◌, ◌++◌, any, find, ok, arith, Bool-cases, Result-cases, inl, inr, some_and, ltb,
}
use e_native_issuer.ApiKey.{Key, Db, Error}
use e_native_issuer.ApiKey.Scopes.{normalize_scopes, has_required_scopes}
use e_native_issuer.ApiKey.Repository.{clashes}
use e_native_issuer.ApiKey.Repository
use e_native_issuer.ApiKey.Secret.{parse_prefix-secret_of}
use e_native_issuer.ApiKey.Access.{Opens, authenticate-accepts}
use e_native_issuer.ApiKey.Lifecycle.{any-clashes, save_event-keys}
use e_native_issuer.ApiKey.Service.{
  Config, CreateRequest, CreateCalls, CreatedKey, is_empty, new_key, event_of, prepare,
  save_created, create, AuthCalls, authenticate,
}

-- What the new key is made of.
Made : Config → CreateCalls → CreateRequest → CreatedKey → Type 0
Made cfg c q created =
    (cfg.pepper ≢ [])
    × (scopes : List Bytes) × (p : Bytes) × (raw : Bytes) × (c.secret_raw ≡ ok raw)
    × (created ≡ new_key cfg c q scopes p raw)

is_empty-nonempty : (xs : Bytes) → is_empty xs ≡ false → xs ≢ []
is_empty-nonempty [] h = absurd (ground (arith, h))
is_empty-nonempty (x ∷ xs) h = λ e. ground (arith, e)

prepare-Made :
    (cfg : Config) (c : CreateCalls) (q : CreateRequest) (created : CreatedKey)
    → prepare cfg c q ≡ ok created
    → Made cfg c q created
unfolding prepare Made
prepare-Made cfg c q created h = elim (Bool-cases (is_empty cfg.pepper)) [
  | inl e ↦ absurd (ground (arith, e, h))
  | inr e ↦ elim (Result-cases (normalize_scopes q.scopes)) [
    | inl (f, g) ↦ absurd (ground (arith, e, g, h))
    | inr (ss, g) ↦ elim (Result-cases c.prefix_raw) [
      | inl (f, i) ↦ absurd (ground (arith, e, g, i, h))
      | inr (p, i) ↦ elim (Result-cases c.secret_raw) [
        | inl (f, j) ↦ absurd (ground (arith, e, g, i, j, h))
        | inr (raw, j) ↦
            (is_empty-nonempty cfg.pepper e, ss, p, raw, j, ground (arith, e, g, i, j, h))
      ]
    ]
  ]
]

find-append :
    (p : Key → Bool) (xs : List Key) (k : Key)
    → any p xs ≡ false
    → p k ≡ true
    → find p (xs ++ k ∷ []) ≡ some k
find-append p [] k h e = ground (arith, e)
find-append p (x ∷ xs) k h e = ground (arith, h, e, find-append p xs k)

-- A row that was saved is the one that its prefix finds.
save-get_by_prefix :
    (fault : Option Error) (k : Key) (db : Db)
    → (Repository.save fault k db).0 ≡ ok tt
    → find (λ j. bytes_eq j.key_prefix k.key_prefix) (Repository.save fault k db).1.keys ≡ some k
unfolding Repository.save
save-get_by_prefix (some e) k db h = ground arith
save-get_by_prefix none k db h = elim (Bool-cases (any (clashes k) db.keys)) [
  | inl e ↦ ground (arith, e, h)
  | inr e ↦ rw e (
      find-append (λ j. bytes_eq j.key_prefix k.key_prefix) db.keys k (any-clashes k db.keys e).1
        (bytes_eq_refl k.key_prefix))
]

create-find :
    (cfg : Config) (c : CreateCalls) (q : CreateRequest) (db : Db) (created : CreatedKey)
    → (create cfg c q db).0 ≡ ok created
    → (prepare cfg c q ≡ ok created)
      × (find (λ j. bytes_eq j.key_prefix created.key.key_prefix) (create cfg c q db).1.keys
          ≡ some created.key)
unfolding create save_created
create-find cfg c q db created h = elim (Result-cases (prepare cfg c q)) [
  | inl (f, g) ↦ absurd (ground (arith, g, h))
  | inr (d, g) ↦ elim (Result-cases (Repository.save c.save_fault d.key db).0) [
    | inl (f, r) ↦ absurd (ground (arith, g, r, h))
    | inr (u, r) ↦ ground (
      arith,
      g,
      r,
      h,
      save-get_by_prefix c.save_fault d.key db,
      save_event-keys c.event_fault (event_of d.key.id "created" c.now)
          (Repository.save c.save_fault d.key db).1,
    )
  ]
]

read-found :
    (fault : Option Error) (k : Key) (db : Db)
    → fault ≡ none
    → find (λ j. bytes_eq j.key_prefix k.key_prefix) db.keys ≡ some k
    → Repository.get_by_prefix fault k.key_prefix db ≡ ok k
unfolding Repository.get_by_prefix
read-found none k db h found = ground (arith, found)
read-found (some e) k db h found = ground (arith, h)

made-Opens :
    (cfg : Config) (c : CreateCalls) (q : CreateRequest) (created : CreatedKey) (now : ℕ)
    (required ss : List Bytes) (p raw : Bytes)
    → created ≡ new_key cfg c q ss p raw
    → raw ≢ []
    → some_and q.expires_at (λ t. ltb t now) ≡ false
    → has_required_scopes created.key.scopes required ≡ true
    → Opens cfg now created.secret required created.key
made-Opens cfg c q created now required ss p raw made some_byte in_time in_scope =
    ground (arith, made, parse_prefix-secret_of p raw some_byte, in_time, in_scope)

-- The secret of a key that was created, from at least one random byte, is accepted by the next
-- call of authenticate that reads the table, for any scopes that the key has and at any time up to
-- its expiry; what it gives is the new key with the time of the use.
pub create-authenticate :
    (cfg : Config) (c : CreateCalls) (q : CreateRequest) (db : Db) (created : CreatedKey)
    (a : AuthCalls) (required : List Bytes) (raw : Bytes)
    → (create cfg c q db).0 ≡ ok created
    → c.secret_raw ≡ ok raw
    → raw ≢ []
    → a.read_fault ≡ none
    → some_and q.expires_at (λ t. ltb t a.now) ≡ false
    → has_required_scopes created.key.scopes required ≡ true
    → (authenticate cfg a created.secret required (create cfg c q db).1).0
      ≡ ok (record created.key { last_used_at = some a.used_at })
unfolding Made
create-authenticate cfg c q db created a required raw h random some_byte no_fault in_time in_scope =
    let (prepared, found) = create-find cfg c q db created h in
    let (pepper, ss, p, drawn_raw, drawn, made) = prepare-Made cfg c q created prepared in
    let same : raw ≡ drawn_raw = ground (arith, drawn, random) in
    authenticate-accepts cfg a created.secret required (create cfg c q db).1 created.key pepper
      (read-found a.read_fault created.key (create cfg c q db).1 no_fault found)
      (made-Opens cfg c q created a.now required ss p drawn_raw made (λ e. some_byte (same ∙ e))
        in_time in_scope)

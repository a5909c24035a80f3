-- ===== src/ApiKey/Lifecycle.antt =====
-- Create, Revoke and Rotate of issuer-node/internal/core/apikey/api_key.go, and what Authenticate
-- says afterwards.
use e_native_issuer.Common.{
  ℕ, ◌≡◌, ◌≢◌, refl, ◌∙◌, Bytes, bytes_eq, Bool, true, false, Option, none, some, List, [], ◌∷◌,
  map, any, find, ◌⊎◌, ◌==◌, ok, err, arith, Bool-cases, Result-cases, inl, inr, String, All,
  All-append, any-append,
}
use e_native_issuer.ApiKey.{Key, Event, Db, revoked, Error}
use e_native_issuer.ApiKey.Repository.{clashes, revoked_key}
use e_native_issuer.ApiKey.Repository
use e_native_issuer.ApiKey.Access.{authenticate-found}
use e_native_issuer.ApiKey.Service.{
  Config, CreateRequest, CreateCalls, prepare, event_of, save_created, create, get, revoke,
  RotateCalls, rotate_key, rotate, AuthCalls, authenticate,
}

-- Every row with the id is revoked.
abbrev pub Revoked : ℕ → List Key → Type 0
Revoked id = All (λ k. (k.id ≢ id) ⊎ (k.status ≡ revoked))

map-Revoked :
    (id at : ℕ) (reason : Option String) (keys : List Key)
    → Revoked id (map (revoked_key id at reason) keys)
map-Revoked id at reason [] = tt
map-Revoked id at reason (k ∷ keys) = elim (Bool-cases (k.id == id)) [
  | inl e ↦ rw e (inr refl, map-Revoked id at reason keys)
  | inr e ↦ rw e (inl (λ f. ground (arith, e, f)), map-Revoked id at reason keys)
]

-- A row under the id that a search finds is revoked.
find-Revoked :
    (p : Key → Bool) (id : ℕ) (keys : List Key) (k : Key)
    → Revoked id keys
    → find p keys ≡ some k
    → (k.id ≢ id) ⊎ (k.status ≡ revoked)
find-Revoked p id [] k all h = ground arith
find-Revoked p id (j ∷ keys) k all h = ground (arith, find-Revoked p id keys k all.1)

-- There is a row with the id, and every such row is revoked.
abbrev pub Dead : ℕ → List Key → Type 0
Dead id keys = (any (λ k. k.id == id) keys ≡ true) × Revoked id keys

map-any :
    (id at : ℕ) (reason : Option String) (keys : List Key)
    → any (λ k. k.id == id) (map (revoked_key id at reason) keys) ≡ any (λ k. k.id == id) keys
map-any id at reason [] = refl
map-any id at reason (k ∷ keys) = ground (arith, map-any id at reason keys)

revoke_row-Dead :
    (fault : Option Error) (id at : ℕ) (reason : Option String) (db : Db)
    → (Repository.revoke fault id at reason db).0 ≡ ok tt
    → Dead id (Repository.revoke fault id at reason db).1.keys
unfolding Repository.revoke
revoke_row-Dead (some e) id at reason db h = ground arith
revoke_row-Dead none id at reason db h =
    ground (arith, map-Revoked id at reason db.keys, map-any id at reason db.keys)

pub save_event-keys :
    (fault : Option Error) (event : Event) (db : Db)
    → (Repository.save_event fault event db).1.keys ≡ db.keys
unfolding Repository.save_event
save_event-keys none event db = refl
save_event-keys (some e) event db = refl

revoke-Dead :
    (fault event_fault : Option Error) (now id : ℕ) (reason : Option String) (db : Db)
    → (revoke fault event_fault now id reason db).0 ≡ ok tt
    → Dead id (revoke fault event_fault now id reason db).1.keys
unfolding revoke
revoke-Dead fault event_fault now id reason db h =
    elim (Result-cases (Repository.revoke fault id now reason db).0) [
      | inl (e, g) ↦ ground (arith, g, h)
      | inr (u, g) ↦ ground (
        arith,
        g,
        revoke_row-Dead fault id now reason db g,
        save_event-keys event_fault (event_of id "revoked" now)
            (Repository.revoke fault id now reason db).1,
      )
    ]

-- A secret is refused whenever the rows under the id are all revoked and it is that row's.
pub Revoked-authenticate :
    (id : ℕ) (cfg : Config) (c : AuthCalls) (secret : Bytes) (required : List Bytes) (db : Db)
    (k : Key)
    → Revoked id db.keys
    → (authenticate cfg c secret required db).0 ≡ ok k
    → k.id ≢ id
Revoked-authenticate id cfg c secret required db k all h =
    let (p, row, found, same, is_active) = authenticate-found cfg c secret required db k h in
    elim (find-Revoked p id db.keys row all found) [
      | inl ne ↦ λ e. ne (same ∙ e)
      | inr e ↦ ground (arith, e, is_active)
    ]

-- When create reports an error, the tables are as they were.
pub create-err :
    (cfg : Config) (c : CreateCalls) (q : CreateRequest) (db : Db) (e : Error)
    → (create cfg c q db).0 ≡ err e
    → (create cfg c q db).1 ≡ db
unfolding create save_created Repository.save
create-err cfg c q db e h = elim (Result-cases (prepare cfg c q)) [
  | inl (f, g) ↦ ground (arith, g)
  | inr (created, g) ↦ ground (arith, g, h)
]

-- A row that clashes with none has an id and a prefix of its own.
pub any-clashes :
    (new : Key) (keys : List Key)
    → any (clashes new) keys ≡ false
    → (any (λ j. j.id == new.id) keys ≡ false)
      × (any (λ j. bytes_eq j.key_prefix new.key_prefix) keys ≡ false)
any-clashes new [] h = (refl, refl)
any-clashes new (k ∷ keys) h = ground (arith, h, any-clashes new keys)

-- A new key is under another id than any row's, so what is revoked stays so.
save-Dead :
    (fault : Option Error) (k : Key) (id : ℕ) (db : Db)
    → Dead id db.keys
    → Dead id (Repository.save fault k db).1.keys
unfolding Repository.save
save-Dead (some e) k id db dead = dead
save-Dead none k id db (h, all) = elim (Bool-cases (any (clashes k) db.keys)) [
  | inl e ↦ rw e (h, all)
  | inr e ↦
      let other : k.id ≢ id = λ same. absurd (ground (arith, h, same, any-clashes k db.keys e)) in
      rw e (
        ground (arith, h, any-append (λ j. j.id == id) db.keys (k ∷ [])),
        All-append (λ j. (j.id ≢ id) ⊎ (j.status ≡ revoked)) db.keys (k ∷ []) all (inl other, tt),
      )
]

create-Dead :
    (cfg : Config) (c : CreateCalls) (q : CreateRequest) (id : ℕ) (db : Db)
    → Dead id db.keys
    → Dead id (create cfg c q db).1.keys
unfolding create save_created
create-Dead cfg c q id db dead = elim (Result-cases (prepare cfg c q)) [
  | inl (f, g) ↦ ground (arith, g, dead)
  | inr (created, g) ↦ elim (Result-cases (Repository.save c.save_fault created.key db).0) [
    | inl (f, r) ↦ ground (arith, g, r, save-Dead c.save_fault created.key id db dead)
    | inr (u, r) ↦ ground (
      arith,
      g,
      r,
      save-Dead c.save_fault created.key id db dead,
      save_event-keys c.event_fault (event_of created.key.id "created" c.now)
          (Repository.save c.save_fault created.key db).1,
    )
  ]
]

-- After a revocation that reports success, no call accepts a secret for a row with the key's id:
-- not on any clock, with any scopes or any faults.
pub revoke-authenticate :
    (fault event_fault : Option Error) (now id : ℕ) (reason : Option String) (db : Db)
    (cfg : Config) (c : AuthCalls) (secret : Bytes) (required : List Bytes) (k : Key)
    → (revoke fault event_fault now id reason db).0 ≡ ok tt
    → (authenticate cfg c secret required (revoke fault event_fault now id reason db).1).0 ≡ ok k
    → k.id ≢ id
revoke-authenticate fault event_fault now id reason db cfg c secret required k h =
    Revoked-authenticate id cfg c secret required (revoke fault event_fault now id reason db).1 k
      (revoke-Dead fault event_fault now id reason db h).1

-- A rotation whose read and whose revocation succeed leaves a row with the old key's id and every
-- such row revoked, whether a new key was made or the call reports an error.
pub rotate-Dead :
    (cfg : Config) (c : RotateCalls) (id : ℕ) (db : Db) (existing : Key)
    → get c.read_fault id db ≡ ok existing
    → (Repository.revoke c.revoke_fault id c.now (some "rotated") db).0 ≡ ok tt
    → Dead id (rotate cfg c id db).1.keys
unfolding rotate rotate_key
rotate-Dead cfg c id db existing read done =
    let q : CreateRequest = record {
      partner_name = existing.partner_name;
      scopes = existing.scopes;
      expires_at = existing.expires_at;
    } in
    let mid = (Repository.revoke c.revoke_fault id c.now (some "rotated") db).1 in
    let kept =
      create-Dead cfg c.create_calls q id mid
        (revoke_row-Dead c.revoke_fault id c.now (some "rotated") db done) in
    elim (Result-cases (create cfg c.create_calls q mid).0) [
      | inl (e, g) ↦ ground (arith, read, done, g, kept)
      | inr (u, g) ↦ ground (
        arith,
        read,
        done,
        g,
        kept,
        save_event-keys c.event_fault (event_of id "rotated" c.now)
            (create cfg c.create_calls q mid).1,
      )
    ]

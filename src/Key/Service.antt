-- ===== src/Key/Service.antt =====
-- issuer-node/internal/core/services/key.go over any key management system.
mod Bound
mod Window
unfoldable pub use Bound.*
unfoldable pub use Window.*
use e_native_issuer.Common.{
  ℕ, Bytes, Bool, true, false, Option, none, some, List, [], ◌∷◌, length, keep, if◌then◌else◌,
  Result, ok, err, ◌>>=◌, ◌>>◌, reject, map_err, not,
}
use e_native_issuer.Key.{
  KeyType, bjj, eth, ed25519, untyped, KeyId, Key, KmsKey, KeyFilter, Error, row_not_found,
  key_not_found, invalid_key_type, duplicate_key_name,
}
use e_native_issuer.Key.Names.{type_eq, get_key_type}
use e_native_issuer.Key.Kms
use e_native_issuer.Key.Kms.{Kms}
use e_native_issuer.Key.Repository

-- The table and the state of the providers
pub record Keys (S : Type 0) : Type 0 where
  pub rows : List Key
  pub store : S

-- errors.Is(err, repositories.ErrKeyNotFound)
abbrev pub is_row_not_found : Error → Bool
is_row_not_found row_not_found = true
is_row_not_found e = false

-- The key ids of the filter's type
abbrev pub of_type : Option KeyType → List KeyId → List KeyId
of_type none ks = ks
of_type (some ty) ks = keep (λ k. type_eq k.key_type ty) ks

module _ {S : Type 0} (lib : Library) (claims : ClaimService) (kms : Kms S) where
  -- The key of Create: a key that is not of BabyJubJub is made without an identity and linked.
  unfoldable pub new_key : Bytes → KeyType → S → Result Error KeyId × S
  new_key did untyped s = (ok (record { key_type = untyped; id = [] }), s)
  new_key did bjj s = Kms.create_key bjj (some did) kms s
  new_key did eth s =
      let (made, after) = Kms.create_key eth none kms s in
      elim made [ err e ↦ (err e, after) | ok k ↦ Kms.link_to_identity k did kms after ]
  new_key did ed25519 s =
      let (made, after) = Kms.create_key ed25519 none kms s in
      elim made [ err e ↦ (err e, after) | ok k ↦ Kms.link_to_identity k did kms after ]

  -- The row that Create saves: `fresh` is its id.
  abbrev pub row_of : Bytes → KeyType → Bytes → ℕ → Bytes → Key
  row_of did ty name fresh pk = record {
    id = fresh;
    issuer_did = did;
    public_key = public_text lib ty pk;
    name = name;
  }

  -- Create, after the key is made
  unfoldable pub save_new :
      Option Error → Bytes → KeyType → Bytes → ℕ → KeyId → Keys S → Result Error KeyId × Keys S
  save_new fault did ty name fresh k s = elim (Kms.public_key k kms s.store) [
    | err e ↦ (err e, s)
    | ok pk ↦
        let (saved, rows) = Repository.save fault (row_of did ty name fresh pk) s.rows in
        (saved >>= λ id. ok (record k { id = lib.base64 k.id }), record s { rows = rows })
  ]

  -- Create, for a name that is free
  unfoldable pub create_named :
      Option Error → Bytes → KeyType → Bytes → ℕ → Keys S → Result Error KeyId × Keys S
  create_named fault did ty name fresh s =
      let (made, store) = new_key did ty s.store in
      let after = record s { store = store } in
      elim made [ err e ↦ (err e, after) | ok k ↦ save_new fault did ty name fresh k after ]

  -- Create
  unfoldable pub create :
      Option Error
      → Option Error
      → Bytes
      → KeyType
      → Bytes
      → ℕ
      → Keys S
      → Result Error KeyId × Keys S
  create lookup fault did ty name fresh s = elim (Repository.get_by_name lookup did name s.rows) [
    | ok k ↦ (err duplicate_key_name, s)
    | err e ↦ if is_row_not_found e then create_named fault did ty name fresh s else (err e, s)
  ]

  -- getPublicKey
  unfoldable pub get_public_key : Bytes → S → Result Error Bytes
  get_public_key id s = do
    ty ← get_key_type id
    Kms.public_key (record { key_type = ty; id = id }) kms s

  -- The first steps of Update, Get and Delete: the type of the key, which exists.
  unfoldable pub located : Bytes → S → Result Error KeyId
  located id s = do
    ty ← get_key_type id
    there ← Kms.exists (record { key_type = ty; id = id }) kms s
    reject (not there) key_not_found >> ok (record { key_type = ty; id = id })

  -- The row that Update saves: the one of the public key, or a new one.
  unfoldable pub row_to_rename :
      Option Error → Bytes → Bytes → Bytes → ℕ → List Key → Result Error Key
  row_to_rename fault did text name fresh rows =
      elim (Repository.get_by_public_key fault did text rows) [
        | ok k ↦ ok (record k { name = name })
        | err e ↦
            if is_row_not_found e
            then ok (record { id = fresh; issuer_did = did; public_key = text; name = name })
            else err e
      ]

  -- Update, before it saves
  unfoldable pub checked_update :
      Option Error → Bytes → Bytes → Bytes → ℕ → Keys S → Result Error Key
  checked_update lookup did id name fresh s = do
    k ← located id s.store
    pk ← map_err (λ _. key_not_found) (get_public_key id s.store)
    row_to_rename lookup did (public_text lib k.key_type pk) name fresh s.rows

  -- Update
  unfoldable pub update :
      Option Error
      → Option Error
      → Bytes
      → Bytes
      → Bytes
      → ℕ
      → Keys S
      → Result Error (Unit {0}) × Keys S
  update lookup fault did id name fresh s = elim (checked_update lookup did id name fresh s) [
    | err e ↦ (err e, s)
    | ok k ↦
        let (saved, rows) = Repository.save fault k s.rows in
        (saved >>= λ _. ok tt, record s { rows = rows })
  ]

  -- The name of Get: the public key's text where the table has no row.
  unfoldable pub name_of : Option Error → Bytes → Bytes → List Key → Result Error Bytes
  name_of fault did text rows = elim (Repository.get_by_public_key fault did text rows) [
    | ok k ↦ ok k.name
    | err e ↦ if is_row_not_found e then ok text else err e
  ]

  -- Get
  unfoldable pub get : Option Error → Bytes → Bytes → Keys S → Result Error KmsKey
  get fault did id s = do
    k ← located id s.store
    pk ← map_err (λ _. key_not_found) (get_public_key id s.store)
    bound ← associated lib claims did k.key_type pk
    name ← name_of fault did (public_text lib k.key_type pk) s.rows
    ok (record {
      key_id = id;
      key_type = k.key_type;
      public_key = public_text lib k.key_type pk;
      has_associated_auth_credential = bound;
      name = name;
    })

  -- The loop of GetAll
  unfoldable pub get_each : Option Error → Bytes → List KeyId → Keys S → Result Error (List KmsKey)
  get_each fault did [] s = ok []
  get_each fault did (k ∷ ks) s = do
    key ← get fault did k.id s
    rest ← get_each fault did ks s
    ok (key ∷ rest)

  -- GetAll, for the key ids of the filter
  unfoldable pub get_listed :
      Option Error → Bytes → KeyFilter → List KeyId → Keys S → Result Error (List KmsKey × ℕ)
  get_listed fault did filter ks s = elim (is_past (length ks) filter) [
    | true ↦ ok ([], 0)
    | false ↦ do
      keys ← get_each fault did ks s
      shown ← sliced filter (sort_by_name keys)
      ok (shown, length ks)
  ]

  -- GetAll
  unfoldable pub get_all :
      Option Error → Bytes → KeyFilter → Keys S → Result Error (List KmsKey × ℕ)
  get_all fault did filter s = do
    ks ← Kms.keys_by_identity did kms s.store
    get_listed fault did filter (of_type filter.key_type ks) s

  -- Delete, up to its statements: the key and its public key
  unfoldable pub checked_delete : Bytes → Bytes → Keys S → Result Error (KeyId × Bytes)
  checked_delete did id s = do
    k ← located id s.store
    pk ← get_public_key id s.store
    deletable lib claims did k.key_type pk >> ok (k, pk)

  -- Delete
  unfoldable pub delete : Option Error → Bytes → Bytes → Keys S → Result Error (Unit {0}) × Keys S
  delete fault did id s = elim (checked_delete did id s) [
    | err e ↦ (err e, s)
    | ok (k, pk) ↦
        let (gone, rows) = Repository.delete fault did (public_text lib k.key_type pk) s.rows in
        elim gone [
          | err e ↦ (err e, s)
          | ok u ↦
              let (answer, store) = Kms.delete k kms s.store in
              (answer, record { rows = rows; store = store })
        ]
  ]

-- ===== src/Key/Stored.antt =====
-- A key that Create of issuer-node/internal/core/services/key.go makes is there for Get.
use e_native_issuer.Common.{
  ℕ, ◌≡◌, Bytes, bytes_eq_refl, Bool, true, false, none, some, List, [], ◌∷◌, ◌++◌, any, find,
  find-absent, ◌==◌, ok, arith,
}
use e_native_issuer.Key.{KeyType, Key}
use e_native_issuer.Key.Names.{get_key_type}
use e_native_issuer.Key.Kms
use e_native_issuer.Key.Kms.{Kms}
use e_native_issuer.Key.Repository
use e_native_issuer.Key.Repository.{has_public_key, is_named}
use e_native_issuer.Key.Service.{
  Library, ClaimService, Keys, associated, public_text, new_key, save_new, create_named, create,
  located, get_public_key, name_of, get,
}

find-append {ℓ} :
    {A : Type ℓ} (p : A → Bool) (xs : List A) (x : A)
    → any p xs ≡ false
    → p x ≡ true
    → find p (xs ++ x ∷ []) ≡ some x
find-append p [] x h e = ground (arith, e)
find-append p (y ∷ ys) x h e = ground (arith, h, e, find-append p ys x)

module _ {S : Type 0} (lib : Library) (claims : ClaimService) (kms : Kms S) where
  -- The table and the store after Create
  abbrev pub stored : Bytes → KeyType → Bytes → Bytes → ℕ → S → Keys S → Keys S
  stored did ty name pk fresh store s = record {
    rows =
        s.rows
        ++ record { id = fresh; issuer_did = did; public_key = public_text lib ty pk; name = name }
          ∷ [];
    store = store;
  }

  -- Create under a name that the issuer has not used, of a key that no row of the issuer has, answers
  -- the encoded id of the new key; Get then finds it under its id, with the name, when the text of the
  -- id says its type and the key management system has it.
  pub create-get :
      (did name pk : Bytes) (ty : KeyType) (fresh : ℕ) (s : Keys S) (i : Bytes) (store : S)
      (bound : Bool)
      → any (is_named did name) s.rows ≡ false
      → any (λ k. k.id == fresh) s.rows ≡ false
      → any (has_public_key did (public_text lib ty pk)) s.rows ≡ false
      → new_key lib claims kms did ty s.store ≡ (ok (record { key_type = ty; id = i }), store)
      → Kms.public_key (record { key_type = ty; id = i }) kms store ≡ ok pk
      → get_key_type i ≡ ok ty
      → Kms.exists (record { key_type = ty; id = i }) kms store ≡ ok true
      → associated lib claims did ty pk ≡ ok bound
      → (create lib claims kms none none did ty name fresh s
          ≡ (ok (record { key_type = ty; id = lib.base64 i }), stored did ty name pk fresh store s))
        × (get lib claims kms none did i (stored did ty name pk fresh store s)
            ≡ ok (record {
              key_id = i;
              key_type = ty;
              public_key = public_text lib ty pk;
              has_associated_auth_credential = bound;
              name = name;
            }))
  unfolding create create_named save_new get located get_public_key name_of Repository.get_by_name
      Repository.save Repository.get_by_public_key
  create-get did name pk ty fresh s i store bound named ids keys made public typed there auth =
      let text = public_text lib ty pk in
      let row : Key = record { id = fresh; issuer_did = did; public_key = text; name = name } in
      let free = find-absent (is_named did name) s.rows named in
      let unused = find-absent (λ k. k.id == fresh) s.rows ids in
      let here : has_public_key did text row ≡ true =
        ground (arith, bytes_eq_refl did, bytes_eq_refl text) in
      let found = find-append (has_public_key did text) s.rows row keys here in
      (
        ground (arith, free, unused, named, made, public),
        ground (arith, typed, there, public, auth, found),
      )

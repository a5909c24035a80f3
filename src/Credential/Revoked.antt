-- ===== src/Credential/Revoked.antt =====
-- What a revocation does to the claims, to the revocations and to the tree.
use mathlib.Core.Path.{subst}
use e_native_issuer.Common.{
  ℕ, ◌≡◌, sym, ap, ◌∙◌, String, true, Option, none, some, List, [], ◌∷◌, ◌++◌, map, any, str_eq, ok,
  err, arith, Bool-cases, Result-cases, inl, inr, ◌⊎◌, bind_ok,
}
use e_native_issuer.Credential.{Error, MerkleTree, Trees, Store}
use e_native_issuer.Credential.Repository.{has_nonce}
use e_native_issuer.Credential.Revoke.{
  RevokeCalls, allowed, trees_of, with_revocations, revoke_claim, record_revocation, revocation,
  revoke,
}
use e_native_issuer.Credential.Rows.{HasIds, revoked_where, record_revocation-ok}

-- What the tree's package says of adding: a key that was added is found with its value.
abbrev pub FindsAdded : {T : Type 0} → MerkleTree T → Type 0
FindsAdded {T} mt = (k v : ℕ) (t new : T) → mt.add k v t ≡ ok new → mt.get k new ≡ ok (some v)

abbrev marked_in : {T : Type 0} → String → ℕ → String → Store T → Store T
marked_in did nonce description db = record db {
  claims = revoked_where (has_nonce did nonce) db.claims;
  revocations = db.revocations ++ revocation did nonce description ∷ [];
}

module _ {T : Type 0} (mt : MerkleTree T) where
  -- A revocation is refused, or the nonce goes to the tree and the second half follows.
  pub revoke-steps :
      (c : RevokeCalls) (did : String) (nonce : ℕ) (description : String) (db : Store T)
      → ((e : Error) × (revoke mt c did nonce description db ≡ (err e, db)))
        ⊎ ((after : Store T) × (allowed c did nonce db ≡ ok tt)
            × (revoke_claim mt c.trees_fault did nonce db ≡ ok after)
            × (((e : Error) × (record_revocation c did nonce description after ≡ err e)
                  × (revoke mt c did nonce description db ≡ (err e, after)))
                ⊎ ((done : Store T) × (record_revocation c did nonce description after ≡ ok done)
                    × (revoke mt c did nonce description db ≡ (ok tt, done)))))
  unfolding revoke
  revoke-steps c did nonce description db = elim (Result-cases (allowed c did nonce db)) [
    | inl (e, f) ↦ inl (e, ground (arith, f))
    | inr (u, f) ↦ elim (Result-cases (revoke_claim mt c.trees_fault did nonce db)) [
      | inl (e, g) ↦ inl (e, ground (arith, f, g))
      | inr (after, g) ↦ elim (Result-cases (record_revocation c did nonce description after)) [
        | inl (e, h) ↦ inr (after, f, g, inl (e, h, ground (arith, f, g, h)))
        | inr (done, h) ↦ inr (after, f, g, inr (done, h, ground (arith, f, g, h)))
      ]
    ]
  ]

  -- The nonce goes to the tree of revocations, and only there.
  pub revoke_claim-ok :
      (fault : Option Error) (did : String) (nonce : ℕ) (db after : Store T)
      → revoke_claim mt fault did nonce db ≡ ok after
      → (trees : Trees T) × (added : T) × (trees_of did db.trees ≡ ok trees)
        × (mt.add nonce 0 trees.revocations ≡ ok added)
        × (after ≡ record db { trees = map (with_revocations did added) db.trees })
  unfolding revoke_claim
  revoke_claim-ok (some e) did nonce db after h = ground (arith, h)
  revoke_claim-ok none did nonce db after h =
      let (trees, f, h1) = bind_ok (trees_of did db.trees) _ _ h in
      let (added, g, h2) = bind_ok (mt.add nonce 0 trees.revocations) _ _ h1 in
      (trees, added, f, g, sym (ground (arith, h2)))

  pub trees_of-with :
      (did : String) (trees : List (Trees T)) (t : Trees T) (added : T)
      → trees_of did trees ≡ ok t
      → trees_of did (map (with_revocations did added) trees)
        ≡ ok (record t { revocations = added })
  trees_of-with did [] t added h = ground (arith, h)
  trees_of-with did (s ∷ trees) t added h = elim (Bool-cases (str_eq s.identifier did)) [
    | inl e ↦ let same : s ≡ t = ground (arith, e, h) in ground (arith, e, same)
    | inr e ↦ ground (arith, e, trees_of-with did trees t added (ground (arith, e, h)))
  ]

  -- The store after a revocation that succeeds
  pub revoke-done :
      (c : RevokeCalls) (did : String) (nonce : ℕ) (description : String) (db : Store T)
      → HasIds db.claims
      → (revoke mt c did nonce description db).0 ≡ ok tt
      → (trees : Trees T) × (added : T) × (trees_of did db.trees ≡ ok trees)
        × (mt.add nonce 0 trees.revocations ≡ ok added)
        × (any (has_nonce did nonce) db.claims ≡ true)
        × ((revoke mt c did nonce description db).1 ≡ record db {
          claims = revoked_where (has_nonce did nonce) db.claims;
          revocations = db.revocations ++ revocation did nonce description ∷ [];
          trees = map (with_revocations did added) db.trees;
        })
  revoke-done c did nonce description db ids h = elim (revoke-steps c did nonce description db) [
    | inl (e, f) ↦ absurd (ground (arith, ap (λ x. x.0) f, h))
    | inr (after, may, tree, inl (e, f, g)) ↦ absurd (ground (arith, ap (λ x. x.0) g, h))
    | inr (after, may, tree, inr (done, f, g)) ↦
        let (trees, added, at, put, into) = revoke_claim-ok c.trees_fault did nonce db after tree in
        let ids' = subst (λ s. HasIds s.claims) (sym into) ids in
        let (some_claim, wrote) = record_revocation-ok c did nonce description after done ids' f in
        (
          trees,
          added,
          at,
          put,
          ap (λ s. any (has_nonce did nonce) s.claims) (sym into) ∙ some_claim,
          ap (λ x. x.1) g ∙ (wrote ∙ ap (marked_in did nonce description) into),
        )
  ]

  -- A revocation that succeeds has marked every claim of the identity with the nonce as revoked and
  -- no other, which was at least one, has entered one revocation that waits to be published, and
  -- the nonce is found in the tree of revocations. The claims that it marked have lost their link
  -- and their time of creation. The ids of the claims must be a key, and the tree must find what
  -- was added to it.
  pub revoke-marks :
      (c : RevokeCalls) (did : String) (nonce : ℕ) (description : String) (db : Store T)
      → FindsAdded mt
      → HasIds db.claims
      → (revoke mt c did nonce description db).0 ≡ ok tt
      → ((revoke mt c did nonce description db).1.claims
          ≡ revoked_where (has_nonce did nonce) db.claims)
        × (any (has_nonce did nonce) db.claims ≡ true)
        × ((revoke mt c did nonce description db).1.revocations
            ≡ db.revocations ++ revocation did nonce description ∷ [])
        × (trees : Trees T) × (trees_of did (revoke mt c did nonce description db).1.trees
            ≡ ok trees)
        × (mt.get nonce trees.revocations ≡ ok (some 0))
  revoke-marks c did nonce description db finds ids h =
      let (trees, added, at, put, some_claim, result) =
        revoke-done c did nonce description db ids h in
      (
        ap (λ s. s.claims) result,
        some_claim,
        ap (λ s. s.revocations) result,
        record trees { revocations = added },
        ap (λ s. trees_of did s.trees) result ∙ trees_of-with did db.trees trees added at,
        finds nonce 0 trees.revocations added put,
      )

  -- A revocation leaves the claims as they are or marks those of the nonce.
  pub revoke-claims :
      (c : RevokeCalls) (did : String) (nonce : ℕ) (description : String) (db : Store T)
      → HasIds db.claims
      → ((revoke mt c did nonce description db).1.claims ≡ db.claims)
        ⊎ ((revoke mt c did nonce description db).1.claims
            ≡ revoked_where (has_nonce did nonce) db.claims)
  revoke-claims c did nonce description db ids = elim (revoke-steps c did nonce description db) [
    | inl (e, f) ↦ inl (ap (λ x. x.1.claims) f)
    | inr (after, may, tree, second) ↦
        let (trees, added, at, put, into) = revoke_claim-ok c.trees_fault did nonce db after tree in
        elim second [
          | inl (e, f, g) ↦ inl (ap (λ x. x.1.claims) g ∙ ap (λ s. s.claims) into)
          | inr (done, f, g) ↦
              let ids' = subst (λ s. HasIds s.claims) (sym into) ids in
              let (some_claim, wrote) =
                record_revocation-ok c did nonce description after done ids' f in
              inr (
                ap (λ x. x.1.claims) g
                ∙ (ap (λ s. s.claims) wrote
                    ∙ ap (λ s. revoked_where (has_nonce did nonce) s.claims) into))
        ]
  ]

-- ===== src/Credential/Partial.antt =====
-- What stays of revocations that fail.
use mathlib.Core.Path.{subst}
use e_native_issuer.Common.{
  ℕ, suc, ◌≡◌, refl, sym, ap, ◌∙◌, String, Bool, true, false, not, ◌||◌, none, some, List, [], ◌∷◌,
  map, any, all, keep, ok, err, arith, Result-cases, inl, inr,
}
use e_native_issuer.Credential.{Claim, Error, claim_does_not_exist, MerkleTree, Trees, Store}
use e_native_issuer.Credential.Repository.{
  has_nonce, as_read, get_by_revocation_nonce, get_non_revoked_by_connection_and_issuer_id,
}
use e_native_issuer.Credential.Revoke.{
  RevokeCalls, can_revoke_nonce, allowed, trees_of, revoke_claim, record_revocation, revoke,
  revoke_each, revoke_all_from_connection,
}
use e_native_issuer.Credential.Rows.{HasIds, revoked_where, revoked_where-HasIds}
use e_native_issuer.Credential.Revoked.{
  FindsAdded, revoke_claim-ok, trees_of-with, revoke-claims, revoke-done,
}

none-kept :
    (p : Claim → Bool) (rows : List Claim) → any p rows ≡ false → map as_read (keep p rows) ≡ []
none-kept p [] h = refl
none-kept p (r ∷ rows) h = ground (arith, h, none-kept p rows)

-- All claims of a nonce are marked as revoked, and there is one.
abbrev pub Marked : String → ℕ → List Claim → Type 0
Marked did nonce rows =
    (any (has_nonce did nonce) rows ≡ true)
    × (all (λ r. not (has_nonce did nonce r) || r.revoked) rows ≡ true)

any-marked :
    (did : String) (nonce : ℕ) (p : Claim → Bool) (rows : List Claim)
    → any (has_nonce did nonce) (revoked_where p rows) ≡ any (has_nonce did nonce) rows
any-marked did nonce p [] = refl
any-marked did nonce p (r ∷ rows) = ground (arith, any-marked did nonce p rows)

stays-marked :
    (did : String) (nonce : ℕ) (p : Claim → Bool) (rows : List Claim)
    → all (λ r. not (has_nonce did nonce r) || r.revoked) rows ≡ true
    → all (λ r. not (has_nonce did nonce r) || r.revoked) (revoked_where p rows) ≡ true
stays-marked did nonce p [] h = refl
stays-marked did nonce p (r ∷ rows) h =
    ground (arith, h, stays-marked did nonce p rows (ground (arith, h)))

all-marked :
    (did : String) (nonce : ℕ) (rows : List Claim)
    → all (λ r. not (has_nonce did nonce r) || r.revoked) (revoked_where (has_nonce did nonce) rows)
      ≡ true
all-marked did nonce [] = refl
all-marked did nonce (r ∷ rows) = ground (arith, all-marked did nonce rows)

module _ {T : Type 0} (mt : MerkleTree T) where
  revoke-unknown_steps :
      (c : RevokeCalls) (did auth : String) (nonce : ℕ) (description : String) (db after : Store T)
      → c.auth_hash ≡ ok auth
      → c.first_fault ≡ none
      → c.second_fault ≡ none
      → any (has_nonce did nonce) db.claims ≡ false
      → revoke_claim mt c.trees_fault did nonce db ≡ ok after
      → after.claims ≡ db.claims
      → revoke mt c did nonce description db ≡ (err claim_does_not_exist, after)
  unfolding revoke allowed can_revoke_nonce get_by_revocation_nonce record_revocation
  revoke-unknown_steps c did auth nonce description db after hash first second unknown tree same =
      let nothing = none-kept (has_nonce did nonce) db.claims unknown in
      let nothing' = ap (λ l. map as_read (keep (has_nonce did nonce) l)) same ∙ nothing in
      ground (arith, hash, first, second, tree, nothing, nothing')

  -- A revocation of a nonce that no claim has gives the error that there is no such claim, but the
  -- nonce has gone to the tree of revocations. The reads must not fail, the tree must take the
  -- nonce, and it must find what was added to it.
  pub revoke-unknown :
      (c : RevokeCalls) (did auth : String) (nonce : ℕ) (description : String) (db after : Store T)
      → FindsAdded mt
      → c.auth_hash ≡ ok auth
      → c.first_fault ≡ none
      → c.second_fault ≡ none
      → any (has_nonce did nonce) db.claims ≡ false
      → revoke_claim mt c.trees_fault did nonce db ≡ ok after
      → ((revoke mt c did nonce description db).0 ≡ err claim_does_not_exist)
        × (trees : Trees T) × (trees_of did (revoke mt c did nonce description db).1.trees
            ≡ ok trees)
        × (mt.get nonce trees.revocations ≡ ok (some 0))
  revoke-unknown c did auth nonce description db after finds hash first second unknown tree =
      let (trees, added, at, put, into) =
        revoke_claim-ok mt c.trees_fault did nonce db after tree in
      let ended =
        revoke-unknown_steps c did auth nonce description db after hash first second unknown tree
          (ap (λ s. s.claims) into) in
      (
        ap (λ x. x.0) ended,
        record trees { revocations = added },
        ap (λ x. trees_of did x.1.trees) ended
            ∙ (ap (λ s. trees_of did s.trees) into ∙ trees_of-with mt did db.trees trees added at),
        finds nonce 0 trees.revocations added put,
      )

  -- A revocation keeps what an earlier one has marked, and the ids.
  revoke-keeps :
      (c : RevokeCalls) (did other : String) (nonce n : ℕ) (description : String) (db : Store T)
      → HasIds db.claims
      → Marked other n db.claims
      → HasIds (revoke mt c did nonce description db).1.claims
        × Marked other n (revoke mt c did nonce description db).1.claims
  revoke-keeps c did other nonce n description db ids marked =
      elim (revoke-claims mt c did nonce description db ids) [
        | inl e ↦ (subst HasIds (sym e) ids, subst (Marked other n) (sym e) marked)
        | inr e ↦ (
          subst HasIds (sym e) (revoked_where-HasIds (has_nonce did nonce) db.claims ids),
          subst (Marked other n) (sym e) (
            any-marked other n (has_nonce did nonce) db.claims ∙ marked.0,
            stays-marked other n (has_nonce did nonce) db.claims marked.1,
          ),
        )
      ]

  -- The loop stops at an error, and goes on otherwise.
  each-stops :
      (c : ℕ → RevokeCalls) (k : ℕ) (did : String) (r : Claim) (rows : List Claim) (db : Store T)
      (e : Error)
      → (revoke mt (c k) did r.rev_nonce "" db).0 ≡ err e
      → (revoke_each mt c k did (r ∷ rows) db).1 ≡ (revoke mt (c k) did r.rev_nonce "" db).1
  unfolding revoke_each
  each-stops c k did r rows db e h = ground (arith, h)

  each-continues :
      (c : ℕ → RevokeCalls) (k : ℕ) (did : String) (r : Claim) (rows : List Claim) (db : Store T)
      → (revoke mt (c k) did r.rev_nonce "" db).0 ≡ ok tt
      → revoke_each mt c k did (r ∷ rows) db
        ≡ revoke_each mt c (suc k) did rows (revoke mt (c k) did r.rev_nonce "" db).1
  unfolding revoke_each
  each-continues c k did r rows db h = ground (arith, h)

  revoke_each-keeps :
      (c : ℕ → RevokeCalls) (k : ℕ) (did other : String) (n : ℕ) (rows : List Claim) (db : Store T)
      → HasIds db.claims
      → Marked other n db.claims
      → Marked other n (revoke_each mt c k did rows db).1.claims
  unfolding revoke_each
  revoke_each-keeps c k did other n [] db ids marked = marked
  revoke_each-keeps c k did other n (r ∷ rows) db ids marked =
      let (ids', marked') = revoke-keeps (c k) did other r.rev_nonce n "" db ids marked in
      let (answer, after) = revoke mt (c k) did r.rev_nonce "" db in
      let rest = revoke_each-keeps c (suc k) did other n rows after ids' marked' in
      elim (Result-cases answer) [
        | inl (e, f) ↦
            subst (λ s. Marked other n s.claims) (sym (each-stops c k did r rows db e f)) marked'
        | inr (u, f) ↦
            subst (λ s. Marked other n s.claims)
              (sym (ap (λ x. x.1) (each-continues c k did r rows db f))) rest
      ]

  -- When the revocation of all credentials of a connection fails after the first one has
  -- succeeded, the trees are as before the call, but all claims with the first one's nonce are
  -- marked as revoked. The ids of the claims must be a key.
  pub revoke_all-partial :
      (c : ℕ → RevokeCalls) (connection : ℕ) (issuer : String) (db : Store T) (r : Claim)
      (rows : List Claim) (e : Error)
      → HasIds db.claims
      → get_non_revoked_by_connection_and_issuer_id none connection issuer db ≡ ok (r ∷ rows)
      → (revoke mt (c 0) issuer r.rev_nonce "" db).0 ≡ ok tt
      → (revoke_all_from_connection mt none c connection issuer db).0 ≡ err e
      → ((revoke_all_from_connection mt none c connection issuer db).1.trees ≡ db.trees)
        × Marked issuer r.rev_nonce
            (revoke_all_from_connection mt none c connection issuer db).1.claims
  unfolding revoke_all_from_connection
  revoke_all-partial c connection issuer db r rows e ids read first failed =
      let each = revoke_each mt c 0 issuer (r ∷ rows) db in
      let (trees, added, at, put, some_claim, result) =
        revoke-done mt (c 0) issuer r.rev_nonce "" db ids first in
      let after = (revoke mt (c 0) issuer r.rev_nonce "" db).1 in
      let ids' : HasIds after.claims =
        subst (λ s. HasIds s.claims) (sym result)
          (revoked_where-HasIds (has_nonce issuer r.rev_nonce) db.claims ids) in
      let marked : Marked issuer r.rev_nonce after.claims =
        subst (λ s. Marked issuer r.rev_nonce s.claims) (sym result)
          (
            any-marked issuer r.rev_nonce (has_nonce issuer r.rev_nonce) db.claims ∙ some_claim,
            all-marked issuer r.rev_nonce db.claims,
          ) in
      let marked' : Marked issuer r.rev_nonce each.1.claims =
        subst (λ x. Marked issuer r.rev_nonce x.1.claims)
          (sym (each-continues c 0 issuer r rows db first))
          (revoke_each-keeps c 1 issuer issuer r.rev_nonce rows after ids' marked) in
      elim (Result-cases each.0) [
        | inl (x, f) ↦
            let ended : revoke_all_from_connection mt none c connection issuer db
                ≡ (err x, record each.1 { trees = db.trees }) =
              ground (arith, read, f) in
            (
              ap (λ x. x.1.trees) ended,
              subst (λ x. Marked issuer r.rev_nonce x.1.claims) (sym ended) marked',
            )
        | inr (u, f) ↦ absurd (ground (arith, read, f, failed))
      ]

-- ===== src/Credential/Auth.antt =====
-- An identity keeps a published credential to authenticate with.
use mathlib.Core.Path.{subst}
use e_native_issuer.Common.{
  ℕ, ◌≡◌, refl, sym, ap, ◌∙◌, String, Bool, true, false, not, ◌&&◌, Option, none, some, List, [],
  ◌∷◌, map, any, keep, ◌==◌, str_eq, length, ok, reject-ok, arith, Bool-cases, inl, inr, bind_ok,
}
use e_native_issuer.Credential.{Claim, Error, MerkleTree, Store}
use e_native_issuer.Credential.Repository.{
  has_nonce, as_read, without_link, is_published, get_by_revocation_nonce, found_claims,
  find_claims_by_schema_hash,
}
use e_native_issuer.Credential.Revoke.{
  RevokeCalls, or_no_claims, leaves_another, can_revoke_nonce, allowed, revoke,
}
use e_native_issuer.Credential.Rows.{HasIds, revoked_where, record_revocation-ok}
use e_native_issuer.Credential.Revoked.{revoke-steps, revoke_claim-ok}

any-kept :
    (nonce : ℕ) (p : Claim → Bool) (rows : List Claim)
    → any (λ r. not (r.rev_nonce == nonce)) (map without_link (keep p rows))
      ≡ any (λ r. p r && not (r.rev_nonce == nonce)) rows
any-kept nonce p [] = refl
any-kept nonce p (r ∷ rows) = ground (arith, any-kept nonce p rows)

-- The check leaves a published credential of another nonce.
leaves-any :
    (did auth : String) (nonce : ℕ) (rows : List Claim)
    → leaves_another nonce (map without_link (keep (is_published did auth) rows)) ≡ true
    → any (λ r. is_published did auth r && not (r.rev_nonce == nonce)) rows ≡ true
leaves-any did auth nonce rows h =
    let kept = map without_link (keep (is_published did auth) rows) in
    elim (Bool-cases (length kept == 1)) [
      | inl e ↦ absurd (ground (arith, e, h))
      | inr e ↦ sym (any-kept nonce (is_published did auth) rows) ∙ ground (arith, e, h)
    ]

-- Claims that are not to be revoked stay published.
published-other :
    (did auth : String) (nonce : ℕ) (rows : List Claim)
    → any (λ r. is_published did auth r && not (r.rev_nonce == nonce)) rows ≡ true
    → any (is_published did auth) (revoked_where (has_nonce did nonce) rows) ≡ true
published-other did auth nonce [] h = ground (arith, h)
published-other did auth nonce (r ∷ rows) h =
    let rest = published-other did auth nonce rows in
    elim (Bool-cases (has_nonce did nonce r)) [
      | inl e ↦
          let same : (r.rev_nonce == nonce) ≡ true = ground (arith, e) in
          ground (arith, e, rest (ground (arith, same, h)))
      | inr e ↦ elim (Bool-cases (is_published did auth r)) [
        | inl f ↦ ground (arith, e, f)
        | inr f ↦ ground (arith, e, f, rest (ground (arith, f, h)))
      ]
    ]

-- A nonce that no auth credential has takes none away.
published-plain :
    (did auth : String) (nonce : ℕ) (rows : List Claim)
    → any (λ r. str_eq r.schema_hash auth) (map as_read (keep (has_nonce did nonce) rows)) ≡ false
    → any (is_published did auth) (revoked_where (has_nonce did nonce) rows)
      ≡ any (is_published did auth) rows
published-plain did auth nonce [] h = refl
published-plain did auth nonce (r ∷ rows) h =
    let rest = published-plain did auth nonce rows in
    elim (Bool-cases (has_nonce did nonce r)) [
      | inl e ↦
          let other : str_eq r.schema_hash auth ≡ false = ground (arith, e, h) in
          let rest' = rest (ground (arith, e, h)) in ground (arith, e, other, rest')
      | inr e ↦ ground (arith, e, rest (ground (arith, e, h)))
    ]

-- With an auth credential among the claims, the check has found another.
pub can_revoke-cases :
    {T : Type 0} (fault : Option Error) (did : String) (claims : List Claim) (nonce : ℕ)
    (auth : String) (db : Store T)
    → can_revoke_nonce fault did claims nonce auth db ≡ ok true
    → any (λ r. str_eq r.schema_hash auth) claims ≡ true
    → any (λ r. is_published did auth r && not (r.rev_nonce == nonce)) db.claims ≡ true
unfolding can_revoke_nonce find_claims_by_schema_hash
can_revoke-cases (some e) did claims nonce auth db h check = absurd (ground (arith, h, check))
can_revoke-cases none did claims nonce auth db h check =
    leaves-any did auth nonce db.claims (ground (arith, h, check))

found-or_none : (rows : List Claim) → or_no_claims (found_claims rows) ≡ rows
found-or_none [] = refl
found-or_none (r ∷ rows) = refl

claims-read :
    {T : Type 0} (c : RevokeCalls) (did : String) (nonce : ℕ) (db : Store T)
    → c.first_fault ≡ none
    → or_no_claims (get_by_revocation_nonce c.first_fault did nonce db)
      ≡ map as_read (keep (has_nonce did nonce) db.claims)
unfolding get_by_revocation_nonce
claims-read c did nonce db read =
    ground (arith, read, found-or_none (map as_read (keep (has_nonce did nonce) db.claims)))

-- What the check at the head of a revocation guarantees
allowed-keeps :
    {T : Type 0} (c : RevokeCalls) (did auth : String) (nonce : ℕ) (db : Store T)
    → c.first_fault ≡ none
    → c.auth_hash ≡ ok auth
    → allowed c did nonce db ≡ ok tt
    → any (is_published did auth) db.claims ≡ true
    → any (is_published did auth) (revoked_where (has_nonce did nonce) db.claims) ≡ true
unfolding allowed
allowed-keeps c did auth nonce db read hash may before =
    let claims = or_no_claims (get_by_revocation_nonce c.first_fault did nonce db) in
    let (auth', f, h1) = bind_ok c.auth_hash _ _ may in
    let same : auth' ≡ auth = ground (arith, f, hash) in
    let (can, g, h2) = bind_ok (can_revoke_nonce c.auth_fault did claims nonce auth' db) _ _ h1 in
    let can' : can ≡ true = ground (arith, reject-ok (not can) _ _ h2) in
    let may' =
      subst (λ a. can_revoke_nonce c.auth_fault did claims nonce a db ≡ ok true) same
        (g ∙ ap ok can') in
    let was = claims-read c did nonce db read in
    elim (Bool-cases (any (λ r. str_eq r.schema_hash auth) claims)) [
      | inl e ↦
          published-other did auth nonce db.claims
            (can_revoke-cases c.auth_fault did claims nonce auth db may' e)
      | inr e ↦
          published-plain did auth nonce db.claims
            (ap (any (λ r. str_eq r.schema_hash auth)) (sym was) ∙ e)
          ∙ before
    ]

-- A revocation whose first read does not fail leaves an identity a published auth credential that
-- is not revoked, when there was one before. The ids of the claims must be a key.
pub revoke-keeps_auth :
    {T : Type 0} (mt : MerkleTree T) (c : RevokeCalls) (did auth : String) (nonce : ℕ)
    (description : String) (db : Store T)
    → HasIds db.claims
    → c.first_fault ≡ none
    → c.auth_hash ≡ ok auth
    → any (is_published did auth) db.claims ≡ true
    → any (is_published did auth) (revoke mt c did nonce description db).1.claims ≡ true
revoke-keeps_auth mt c did auth nonce description db ids read hash before =
    elim (revoke-steps mt c did nonce description db) [
      | inl (e, f) ↦ ap (λ x. any (is_published did auth) x.1.claims) f ∙ before
      | inr (after, may, tree, second) ↦
          let (trees, added, at, put, into) =
            revoke_claim-ok mt c.trees_fault did nonce db after tree in
          elim second [
            | inl (e, f, g) ↦
                ap (λ x. any (is_published did auth) x.1.claims) g
                ∙ (ap (λ s. any (is_published did auth) s.claims) into ∙ before)
            | inr (done, f, g) ↦
                let (some_claim, wrote) =
                  record_revocation-ok c did nonce description after done
                    (subst (λ s. HasIds s.claims) (sym into) ids) f in
                ap (λ x. any (is_published did auth) x.1.claims) g
                ∙ (ap (λ s. any (is_published did auth) s.claims) wrote
                    ∙ (ap
                          (λ s.
                            any (is_published did auth)
                              (revoked_where (has_nonce did nonce) s.claims))
                          into
                        ∙ allowed-keeps c did auth nonce db read hash may before))
          ]
    ]

-- ===== src/Credential/Deleted.antt =====
-- A deletion keeps a published credential to authenticate with.
use mathlib.Core.Path.{subst}
use e_native_issuer.Common.{
  ℕ, ◌≡◌, refl, ap, String, Bool, true, false, not, ◌&&◌, Option, none, some, List, [], ◌∷◌, any,
  keep, find, ◌==◌, str_eq, ok, arith, Bool-cases, Option-cases, Result-cases, inl, inr,
}
use e_native_issuer.Credential.{Claim, Error, Store}
use e_native_issuer.Credential.Repository.{owned_by, is_published, get_by_id_and_issuer, delete}
use e_native_issuer.Credential.Revoke.{can_revoke_nonce, checked_claim, delete_credential}
use e_native_issuer.Credential.Rows.{HasIds}
use e_native_issuer.Credential.Auth.{can_revoke-cases}

abbrev is_row : String → ℕ → Claim → Bool
is_row did id r = owned_by did r && (r.id == id)

keep-all :
    (id : ℕ) (rows : List Claim)
    → any (λ s. s.id == id) rows ≡ false
    → keep (λ r. not (r.id == id)) rows ≡ rows
keep-all id [] h = refl
keep-all id (r ∷ rows) h = ground (arith, h, keep-all id rows (ground (arith, h)))

-- When the row that goes fails a test that only rows of the identity pass, a row that passes stays.
remove-any :
    (q : Claim → Bool) (did : String) (id : ℕ) (rows : List Claim) (r : Claim)
    → ((s : Claim) → q s ≡ true → owned_by did s ≡ true)
    → HasIds rows
    → find (is_row did id) rows ≡ some r
    → q r ≡ false
    → any q rows ≡ true
    → any q (keep (λ s. not (s.id == id)) rows) ≡ true
remove-any q did id [] r owned ids found fails h = ground (arith, h)
remove-any q did id (x ∷ rows) r owned ids found fails h = elim (Bool-cases (x.id == id)) [
  | inl e ↦
      let same : x.id ≡ id = ground (arith, e) in
      let kept = keep-all id rows (subst (λ n. any (λ s. s.id == n) rows ≡ false) same ids.1) in
      elim (Bool-cases (q x)) [
        | inl f ↦
            let x_is : x ≡ r = ground (arith, owned x f, e, found) in
            absurd (ground (arith, f, fails, ap q x_is))
        | inr f ↦ ground (arith, e, f, kept, h)
      ]
  | inr e ↦ elim (Bool-cases (q x)) [
    | inl f ↦ ground (arith, e, f)
    | inr f ↦
        let rest =
          remove-any q did id rows r owned ids.2 (ground (arith, e, found)) fails
            (ground (arith, f, h)) in
        ground (arith, e, f, rest)
  ]
]

published-owned :
    (did auth : String) (s : Claim) → is_published did auth s ≡ true → owned_by did s ≡ true
published-owned did auth s h = ground (arith, h)

any-weaker :
    (did auth : String) (nonce : ℕ) (rows : List Claim)
    → any (λ r. is_published did auth r && not (r.rev_nonce == nonce)) rows ≡ true
    → any (is_published did auth) rows ≡ true
any-weaker did auth nonce [] h = ground (arith, h)
any-weaker did auth nonce (r ∷ rows) h = elim (Bool-cases (is_published did auth r)) [
  | inl e ↦ ground (arith, e)
  | inr e ↦ ground (arith, e, any-weaker did auth nonce rows (ground (arith, e, h)))
]

-- What the check of a deletion guarantees of the claim that it has read
deletable :
    {T : Type 0} (fault : Option Error) (did auth : String) (id : ℕ) (db : Store T) (r : Claim)
    → HasIds db.claims
    → find (is_row did id) db.claims ≡ some r
    → can_revoke_nonce fault did (r ∷ []) r.rev_nonce auth db ≡ ok true
    → any (is_published did auth) db.claims ≡ true
    → any (is_published did auth) (keep (λ s. not (s.id == id)) db.claims) ≡ true
deletable fault did auth id db r ids found may before =
    elim (Bool-cases (str_eq r.schema_hash auth)) [
      | inl e ↦
          let others =
            can_revoke-cases fault did (r ∷ []) r.rev_nonce auth db may (ground (arith, e)) in
          any-weaker did auth r.rev_nonce (keep (λ s. not (s.id == id)) db.claims) (
            remove-any (λ s. is_published did auth s && not (s.rev_nonce == r.rev_nonce)) did id
              db.claims r (λ s h. published-owned did auth s (ground (arith, h))) ids found
              (ground arith) others)
      | inr e ↦
          remove-any (is_published did auth) did id db.claims r (published-owned did auth) ids found
            (ground (arith, e)) before
    ]

checked-keeps :
    {T : Type 0} (read_fault auth_fault : Option Error) (did auth : String) (id : ℕ) (db : Store T)
    (r : Claim)
    → HasIds db.claims
    → checked_claim read_fault (ok auth) auth_fault did id db ≡ ok r
    → any (is_published did auth) db.claims ≡ true
    → any (is_published did auth) (keep (λ s. not (s.id == id)) db.claims) ≡ true
unfolding checked_claim get_by_id_and_issuer
checked-keeps (some e) auth_fault did auth id db r ids h before = absurd (ground (arith, h))
checked-keeps none auth_fault did auth id db r ids h before =
    elim (Option-cases (find (is_row did id) db.claims)) [
      | inl e ↦ absurd (ground (arith, e, h))
      | inr (x, e) ↦
          elim (Result-cases (can_revoke_nonce auth_fault did (x ∷ []) x.rev_nonce auth db)) [
            | inl (y, f) ↦ absurd (ground (arith, e, f, h))
            | inr (false, f) ↦ absurd (ground (arith, e, f, h))
            | inr (true, f) ↦ deletable auth_fault did auth id db x ids e f before
          ]
    ]

-- A deletion leaves an identity a published auth credential that is not revoked, when there was one
-- before. The ids of the claims must be a key.
pub delete-keeps_auth :
    {T : Type 0} (read_fault : Option Error) (auth_fault fault : Option Error) (did auth : String)
    (id : ℕ) (db : Store T)
    → HasIds db.claims
    → any (is_published did auth) db.claims ≡ true
    → any
        (is_published did auth)
        (delete_credential read_fault (ok auth) auth_fault fault did id db).1.claims
      ≡ true
unfolding delete_credential delete
delete-keeps_auth read_fault auth_fault fault did auth id db ids before =
    elim (Result-cases (checked_claim read_fault (ok auth) auth_fault did id db)) [
      | inl (e, f) ↦ ground (arith, f, before)
      | inr (r, f) ↦
          let kept = checked-keeps read_fault auth_fault did auth id db r ids f before in
          elim (Option-cases fault) [
            | inr (e, g) ↦ ground (arith, f, g, before)
            | inl g ↦ elim (Bool-cases (any (λ r. r.id == id) db.claims)) [
              | inl k ↦ ground (arith, f, g, k, kept)
              | inr k ↦ ground (arith, f, g, k, before)
            ]
          ]
    ]

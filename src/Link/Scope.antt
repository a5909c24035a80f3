-- ===== src/Link/Scope.antt =====
-- Whose links a listing shows, and what an issuance leaves in the row of the link.
use mathlib.Core.Path.{subst}
use e_native_issuer.Common.{
  ℕ, ◌≡◌, ◌≢◌, ◌≤◌, refl, ap, ◌∙◌, String, Bool, true, ◌&&◌, none, some, ◌==◌, str_eq, eq_refl,
  List, [], ◌∷◌, ◌++◌, map, find, keep, any, All, sort_desc-any, sort_desc-All, Result, ok, err,
  arith, Option-cases, inl, inr,
}
use e_native_issuer.Link.{Row, Link, ClaimRow, Db, Error, CredentialSubject, set_key, get_key}
use e_native_issuer.Link.Repository
use e_native_issuer.Link.Repository.{issued, is_row, upsert}
use e_native_issuer.Link.Listing.{
  LinkStatus, all, active, inactive, exceeded, where_clause, claims_of_link, listed, get_all,
}
use e_native_issuer.Link.Rows.{find-upsert}
use e_native_issuer.Link.Issue.{
  IssueCalls, NewCredential, addressed, claim_of, save_issued, new_credential, save_new, issue,
}

abbrev pub owned_by : String → Row → Bool
owned_by issuer r = str_eq r.issuer_did issuer

where-owned :
    (status : LinkStatus) (now : ℕ) (issuer : String) (words : Row → Bool) (claims : List ClaimRow)
    (r : Row)
    → status ≢ exceeded
    → where_clause status now issuer words claims r ≡ true
    → owned_by issuer r ≡ true
unfolding where_clause
where-owned all now issuer words claims r h e = ground arith
where-owned active now issuer words claims r h e = ground arith
where-owned inactive now issuer words claims r h e = ground arith
where-owned exceeded now issuer words claims r h e = absurd (h refl)

keep-where-owned :
    (status : LinkStatus) (now : ℕ) (issuer : String) (words : Row → Bool) (claims : List ClaimRow)
    (rows : List Row)
    → status ≢ exceeded
    → All (λ r. owned_by issuer r ≡ true) (keep (where_clause status now issuer words claims) rows)
keep-where-owned status now issuer words claims [] h = tt
keep-where-owned status now issuer words claims (r ∷ rows) h = ground (
  arith,
  where-owned status now issuer words claims r h,
  keep-where-owned status now issuer words claims rows h,
)

All-map {ℓ κ} :
    {A : Type ℓ} {B : Type κ} (P : B → Type 0) (f : A → B) (xs : List A)
    → All (λ x. P (f x)) xs
    → All P (map f xs)
All-map P f [] h = tt
All-map P f (x ∷ xs) h = (h.0, All-map P f xs h.1)

any-map {ℓ κ} :
    {A : Type ℓ} {B : Type κ} (p : B → Bool) (f : A → B) (xs : List A)
    → any p (map f xs) ≡ any (λ x. p (f x)) xs
any-map p f [] = refl
any-map p f (x ∷ xs) = ground (arith, any-map p f xs)

any-keep {ℓ} :
    {A : Type ℓ} (p q : A → Bool) (xs ys : List A) (x : A)
    → p x ≡ true
    → q x ≡ true
    → any p (keep q (xs ++ x ∷ ys)) ≡ true
any-keep p q [] ys x hp hq = ground arith
any-keep p q (z ∷ xs) ys x hp hq = ground (arith, any-keep p q xs ys x hp hq)

-- A listing of any status but `exceeded` shows only links of the issuer that asks.
pub get_all-owned :
    (status : LinkStatus) (now : ℕ) (issuer : String) (words : Row → Bool) (db : Db)
    (ls : List Link)
    → status ≢ exceeded
    → get_all none status now issuer words db ≡ ok ls
    → All (λ l. owned_by issuer l.row ≡ true) ls
unfolding get_all
get_all-owned status now issuer words db ls h e =
    let kept = keep-where-owned status now issuer words db.claims db.links h in
    let sorted = sort_desc-All (λ r. r.created_at) (λ r. owned_by issuer r ≡ true) _ kept in
    let same : listed status now issuer words db ≡ ls = cc in
    subst (All (λ l. owned_by issuer l.row ≡ true)) same (All-map _ _ _ sorted)

-- A listing of the exceeded links shows every link whose limit is used up, whoever owns it, if its
-- schema has the words of the query.
pub get_all-shows_others :
    (now : ℕ) (issuer : String) (words : Row → Bool) (db : Db) (xs ys : List Row) (r : Row) (m : ℕ)
    → db.links ≡ xs ++ r ∷ ys
    → r.max_issuance ≡ some m
    → m ≤ claims_of_link r.id db.claims
    → words r ≡ true
    → (ls : List Link) × (get_all none exceeded now issuer words db ≡ ok ls)
      × (any (λ l. l.id == r.id && str_eq l.issuer_did r.issuer_did) ls ≡ true)
unfolding get_all
get_all-shows_others now issuer words db xs ys r m e max full fits =
    (listed exceeded now issuer words db, refl, shown)
  where
    same : Row → Bool
    same s = s.id == r.id && str_eq s.issuer_did r.issuer_did

    passes : where_clause exceeded now issuer words db.claims r ≡ true
    passes = unfold where_clause in ground arith

    shown : any (λ l. same (Link.row l)) (listed exceeded now issuer words db) ≡ true
    shown =
        any-map (λ l. same (Link.row l)) _ _
        ∙ (sort_desc-any (λ s. s.created_at) same _
            ∙ (ap (λ rows. any same (keep (where_clause exceeded now issuer words db.claims) rows))
                  e
                ∙ any-keep same (where_clause exceeded now issuer words db.claims) xs ys r
                    (ground (arith, eq_refl r.issuer_did)) passes))

get_key-set_key : (k v : String) (s : CredentialSubject) → get_key k (set_key k v s) ≡ some v
unfolding set_key
get_key-set_key k v [] = ground (arith, eq_refl k)
get_key-set_key k v ((j, w) ∷ s) = ground (arith, eq_refl k, get_key-set_key k v s)

-- The stored link of an id and an issuer has `user` as the id of its subject.
abbrev pub Names : String → ℕ → String → Db → Type 0
Names user id issuer db =
    (r : Row) × (find (is_row id issuer) db.links ≡ some r)
    × (get_key "id" r.credential_subject ≡ some user)

save_issued-Names :
    (c : IssueCalls) (user issuer : String) (l : Link) (claim saved : ClaimRow) (db : Db)
    → str_eq l.issuer_did issuer ≡ true
    → (save_issued c (addressed user l) claim db).0 ≡ ok saved
    → Names user l.id issuer (save_issued c (addressed user l) claim db).1
unfolding save_issued Repository.save Repository.save_claim
save_issued-Names c user issuer l claim saved db o h =
    let new = (addressed user l).row in
    let (r, found, _, subject) = find-upsert l.id issuer new db.links refl o in
    let named = ap (get_key "id") subject ∙ get_key-set_key "id" user l.credential_subject in
    elim (Option-cases c.save_link_fault) [
      | inr (e, f) ↦ absurd (ground arith)
      | inl f ↦ elim (Option-cases c.save_claim_fault) [
        | inr (e, g) ↦ absurd (ground arith)
        | inl g ↦ rw (f, Repository.save, g, Repository.save_claim) (r, found, named)
      ]
    ]

save_new-Names :
    (c : IssueCalls) (user issuer : String) (l : Link) (new : Result Error NewCredential)
    (saved : ClaimRow) (db : Db)
    → str_eq l.issuer_did issuer ≡ true
    → (save_new c issuer (addressed user l) new db).0 ≡ ok saved
    → Names user l.id issuer (save_new c issuer (addressed user l) new db).1
unfolding save_new
save_new-Names c user issuer l (err e) saved db o h = absurd (ground arith)
save_new-Names c user issuer l (ok n) saved db o h =
    save_issued-Names c user issuer l (claim_of issuer l.id n) saved db o h

-- Issuing a new credential from a link of the issuer, when it succeeds, leaves the user's DID as
-- the id in the subject of the stored link.
pub issue-stores_user :
    (c : IssueCalls) (user issuer : String) (schema : ℕ) (l : Link) (saved : ClaimRow) (db : Db)
    → str_eq l.issuer_did issuer ≡ true
    → (issue c issuer user schema l db).0 ≡ ok saved
    → Names user l.id issuer (issue c issuer user schema l db).1
unfolding issue
issue-stores_user c user issuer schema l saved db o h =
    save_new-Names c user issuer l (new_credential c issuer schema (addressed user l)) saved db o h

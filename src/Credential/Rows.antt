-- ===== src/Credential/Rows.antt =====
-- What the saves of a revocation make of the table of claims.
use mathlib.Core.Path.{subst}
use mathlib.Core.List.{append_assoc}
use e_native_issuer.Common.{
  ℕ, suc, ◌≡◌, refl, sym, ap, ◌∙◌, Bool, true, false, Option, none, some, List, [], ◌∷◌, ◌++◌, map,
  any, keep, All, ◌==◌, if◌then◌else◌, ok, arith, Bool-cases, Option-cases, inl, inr, any-append,
  bind_ok, String,
}
use e_native_issuer.Credential.{Claim, Store, Revocation, Error}
use e_native_issuer.Credential.Repository.{
  as_read, overwritten, upsert, save, has_nonce, found_claims, get_by_revocation_nonce,
  revoke_nonce, same_nonce,
}
use e_native_issuer.Credential.Revoke.{RevokeCalls, save_revoked, record_revocation, revocation}

-- The ids of the table: none is nil, and no two rows share one.
abbrev pub HasIds : List Claim → Type 0
HasIds [] = Unit {0}
HasIds (r ∷ rows) = ((r.id == 0) ≡ false) × (any (λ s. s.id == r.id) rows ≡ false) × HasIds rows

-- The row after a revocation
abbrev pub revoked_row : Claim → Claim
revoked_row r = record r { revoked = true; link_id = none; created_at = 0 }

abbrev pub revoked_where : (Claim → Bool) → List Claim → List Claim
revoked_where p = map (λ r. if p r then revoked_row r else r)

abbrev upsert_all : List Claim → List Claim → List Claim
upsert_all [] rows = rows
upsert_all (x ∷ xs) rows = upsert_all xs (upsert (record x { revoked = true }) rows)

upsert-at :
    (new r : Claim) (before after : List Claim)
    → any (λ s. s.id == new.id) before ≡ false
    → (r.id == new.id) ≡ true
    → upsert new (before ++ r ∷ after) ≡ before ++ overwritten new r ∷ after
unfolding upsert
upsert-at new r [] after h same = ground (arith, same)
upsert-at new r (b ∷ before) after h same =
    ground (arith, upsert-at new r before after (ground (arith, h)) same, h)

apart-snoc :
    (before rows : List Claim) (x : Claim)
    → All (λ r. any (λ s. s.id == r.id) before ≡ false) rows
    → any (λ s. s.id == x.id) rows ≡ false
    → All (λ r. any (λ s. s.id == r.id) (before ++ x ∷ []) ≡ false) rows
apart-snoc before [] x h free = tt
apart-snoc before (r ∷ rows) x h free = (
  ground (arith, any-append (λ s. s.id == r.id) before (x ∷ []), h.0, free),
  apart-snoc before rows x h.1 (ground (arith, free)),
)

-- The rows of a part of the table are saved at their places.
upsert_all-map :
    (p : Claim → Bool) (before rows : List Claim)
    → HasIds rows
    → All (λ r. any (λ s. s.id == r.id) before ≡ false) rows
    → upsert_all (map as_read (keep p rows)) (before ++ rows) ≡ before ++ revoked_where p rows
upsert_all-map p before [] ids apart = refl
upsert_all-map p before (r ∷ rows) ids apart =
    let next : (x : Claim)
        → x.id ≡ r.id
        → upsert_all (map as_read (keep p rows)) (before ++ x ∷ rows)
          ≡ before ++ x ∷ revoked_where p rows =
      λ x same.
        ap (upsert_all (map as_read (keep p rows))) (sym (append_assoc before (x ∷ []) rows))
        ∙ (upsert_all-map p (before ++ x ∷ []) rows ids.2 (
              apart-snoc before rows x apart.1
                (subst (λ n. any (λ s. s.id == n) rows ≡ false) (sym same) ids.1))
            ∙ append_assoc before (x ∷ []) (revoked_where p rows)) in
    elim (Bool-cases (p r)) [
      | inl e ↦
          let saved =
            upsert-at (record (as_read r) { revoked = true }) r before rows apart.0
              (ground arith) in
          ground (arith, e, saved, next (revoked_row r) refl)
      | inr e ↦ ground (arith, e, next r refl)
    ]

save_revoked-upsert :
    {T : Type 0} (c : RevokeCalls) (n : ℕ) (claims : List Claim) (db after : Store T)
    → All (λ r. (r.id == 0) ≡ false) claims
    → save_revoked c n claims db ≡ ok after
    → after ≡ record db { claims = upsert_all claims db.claims }
unfolding save_revoked save
save_revoked-upsert c n [] db after ids h = sym (ground (arith, h))
save_revoked-upsert c n (r ∷ claims) db after ids h = elim (Option-cases (c.save_fault n)) [
  | inr (e, f) ↦ absurd (ground (arith, f, h))
  | inl f ↦
      let saved = record db { claims = upsert (record r { revoked = true }) db.claims } in
      save_revoked-upsert c (suc n) claims saved after ids.1 (ground (arith, f, h, ids.0))
]

-- A revocation keeps the ids.
any-revoked_where :
    (p : Claim → Bool) (id : ℕ) (rows : List Claim)
    → any (λ s. s.id == id) (revoked_where p rows) ≡ any (λ s. s.id == id) rows
any-revoked_where p id [] = refl
any-revoked_where p id (r ∷ rows) = ground (arith, any-revoked_where p id rows)

pub revoked_where-HasIds :
    (p : Claim → Bool) (rows : List Claim) → HasIds rows → HasIds (revoked_where p rows)
revoked_where-HasIds p [] ids = tt
revoked_where-HasIds p (r ∷ rows) ids =
    let same : (if p r then revoked_row r else r).id ≡ r.id = ground arith in
    (
      ap (λ n. n == 0) same ∙ ids.0,
      ap (λ n. any (λ s. s.id == n) (revoked_where p rows)) same
          ∙ (any-revoked_where p r.id rows ∙ ids.1),
      revoked_where-HasIds p rows ids.2,
    )

read-ids :
    (p : Claim → Bool) (rows : List Claim)
    → HasIds rows
    → All (λ r. (r.id == 0) ≡ false) (map as_read (keep p rows))
read-ids p [] ids = tt
read-ids p (r ∷ rows) ids = elim (Bool-cases (p r)) [
  | inl e ↦
      let kept : map as_read (keep p (r ∷ rows)) ≡ as_read r ∷ map as_read (keep p rows) =
        ground (arith, e) in
      subst (All (λ r. (r.id == 0) ≡ false)) (sym kept) (ids.0, read-ids p rows ids.2)
  | inr e ↦
      let kept : map as_read (keep p (r ∷ rows)) ≡ map as_read (keep p rows) = ground (arith, e) in
      subst (All (λ r. (r.id == 0) ≡ false)) (sym kept) (read-ids p rows ids.2)
]

found_claims-ok : (rows claims : List Claim) → found_claims rows ≡ ok claims → rows ≡ claims
found_claims-ok [] claims h = ground (arith, h)
found_claims-ok (r ∷ rows) claims h = ground (arith, h)

pub any-found :
    (p : Claim → Bool) (rows claims : List Claim)
    → found_claims (map as_read (keep p rows)) ≡ ok claims
    → any p rows ≡ true
any-found p [] claims h = ground (arith, h)
any-found p (r ∷ rows) claims h = elim (Bool-cases (p r)) [
  | inl e ↦ ground (arith, e)
  | inr e ↦ ground (arith, e, any-found p rows claims (ground (arith, e, h)))
]

apart-nil : (rows : List Claim) → All (λ r. any (λ (s : Claim). s.id == r.id) [] ≡ false) rows
apart-nil [] = tt
apart-nil (r ∷ rows) = (refl, apart-nil rows)

abbrev with_claims : {T : Type 0} → Store T → List Claim → Store T
with_claims db rows = record db { claims = rows }

abbrev with_revocation : {T : Type 0} → Revocation → Store T → Store T
with_revocation new db = record db { revocations = db.revocations ++ new ∷ [] }

revoke_nonce-ok :
    {T : Type 0} (fault : Option Error) (new : Revocation) (db after : Store T)
    → revoke_nonce fault new db ≡ ok after
    → after ≡ record db { revocations = db.revocations ++ new ∷ [] }
unfolding revoke_nonce
revoke_nonce-ok (some e) new db after h = ground (arith, h)
revoke_nonce-ok none new db after h = elim (Bool-cases (any (same_nonce new) db.revocations)) [
  | inl e ↦ absurd (ground (arith, e, h))
  | inr e ↦ sym (ground (arith, e, h))
]

-- What the second half of a revocation writes: the claims of the nonce are revoked, without their
-- links and their times, and the revocation waits to be published.
pub record_revocation-ok :
    {T : Type 0} (c : RevokeCalls) (did : String) (nonce : ℕ) (description : String)
    (db after : Store T)
    → HasIds db.claims
    → record_revocation c did nonce description db ≡ ok after
    → (any (has_nonce did nonce) db.claims ≡ true)
      × (after ≡ record db {
        claims = revoked_where (has_nonce did nonce) db.claims;
        revocations = db.revocations ++ revocation did nonce description ∷ [];
      })
unfolding record_revocation get_by_revocation_nonce
record_revocation-ok c did nonce description db after ids h = elim (Option-cases c.second_fault) [
  | inr (e, f) ↦ absurd (ground (arith, f, h))
  | inl f ↦
      let has = has_nonce did nonce in
      let rows = map as_read (keep has db.claims) in
      let (claims, g, h1) = bind_ok (get_by_revocation_nonce c.second_fault did nonce db) _ _ h in
      let read : found_claims rows ≡ ok claims = ground (arith, f, g) in
      let same = found_claims-ok rows claims read in
      let (saved, k, h2) = bind_ok (save_revoked c 0 claims db) _ _ h1 in
      let saved' =
        save_revoked-upsert c 0 claims db saved
          (subst (All (λ r. (r.id == 0) ≡ false)) same (read-ids has db.claims ids)) k in
      let placed : upsert_all claims db.claims ≡ revoked_where has db.claims =
        ap (λ l. upsert_all l db.claims) (sym same)
        ∙ upsert_all-map has [] db.claims ids (apart-nil db.claims) in
      let saved'' = saved' ∙ ap (with_claims db) placed in
      (
        any-found has db.claims claims read,
        revoke_nonce-ok c.nonce_fault (revocation did nonce description) saved after h2
            ∙ ap (with_revocation (revocation did nonce description)) saved'',
      )
]

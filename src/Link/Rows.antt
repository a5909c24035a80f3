-- ===== src/Link/Rows.antt =====
-- What the reads and the writes of links and claims do to the rows of a link.
use e_native_issuer.Common.{
  ℕ, ◌+◌, ◌≡◌, ◌≤◌, refl, String, Bool, true, Option, none, some, ◌==◌, str_eq, List, [], ◌∷◌, find,
  some_and, if◌then◌else◌, ok, arith, Bool-cases, inl, inr, find-passes, ◌≢◌, Option-cases,
}
use e_native_issuer.Link.{Row, Link, ClaimRow, Db, Error}
use e_native_issuer.Link.Repository
use e_native_issuer.Link.Repository.{
  issued, issued_by, is_row, overwritten, upsert, upsert_claim, get_claims_issued_for_user,
}
use e_native_issuer.Link.Service.{validate}
use e_native_issuer.Link.Issue.{IssueCalls, Ready, ready}

abbrev pub names_link : ℕ → ClaimRow → Bool
names_link id c = some_and c.link_id (λ l. l == id)

-- A claim that is saved adds at most one to the claims of its link, and none to those of another.
pub issued-upsert_claim :
    (id : ℕ) (issuer : String) (new : ClaimRow) (claims : List ClaimRow)
    → issued id issuer (upsert_claim new claims)
      ≤ issued id issuer claims + (if names_link id new then 1 else 0)
unfolding upsert_claim
issued-upsert_claim id issuer new [] = ground arith
issued-upsert_claim id issuer new (c ∷ cs) = ground (arith, issued-upsert_claim id issuer new cs)

pub find-upsert :
    (id : ℕ) (issuer : String) (new : Row) (rows : List Row)
    → new.id ≡ id
    → str_eq new.issuer_did issuer ≡ true
    → (r : Row) × (find (is_row id issuer) (upsert new rows) ≡ some r)
      × (r.max_issuance ≡ new.max_issuance)
      × (r.credential_subject ≡ new.credential_subject)
unfolding upsert
find-upsert id issuer new [] e o = (new, ground arith, refl, refl)
find-upsert id issuer new (s ∷ rows) e o = elim (Bool-cases (s.id == new.id)) [
  | inl h ↦ (overwritten new s, ground arith, refl, refl)
  | inr h ↦
      let (r, found, max, subject) = find-upsert id issuer new rows e o in
      (r, ground arith, max, subject)
]

pub find-upsert_ne :
    (id : ℕ) (issuer : String) (new : Row) (rows : List Row)
    → new.id ≢ id
    → find (is_row id issuer) (upsert new rows) ≡ find (is_row id issuer) rows
unfolding upsert
find-upsert_ne id issuer new [] h = ground arith
find-upsert_ne id issuer new (s ∷ rows) h = ground (arith, find-upsert_ne id issuer new rows h)

pub find-is_row :
    (id : ℕ) (issuer : String) (rows : List Row) (r : Row)
    → find (is_row id issuer) rows ≡ some r
    → (r.id ≡ id) × (str_eq r.issuer_did issuer ≡ true)
find-is_row id issuer rows r h =
    let p = find-passes (is_row id issuer) rows r h in (ground arith, ground arith)

pub ready-read :
    (c : IssueCalls) (owner user : String) (link : ℕ) (db : Db) (q : Ready)
    → ready c owner user link db ≡ ok q
    → (Repository.get_by_id c.link_fault owner link db ≡ ok q.link)
      × (validate c.now q.link ≡ ok tt)
unfolding ready
ready-read c owner user link db q h = (ground arith, ground arith)

pub get_by_id-row :
    (fault : Option Error) (owner : String) (link : ℕ) (db : Db) (l : Link)
    → Repository.get_by_id fault owner link db ≡ ok l
    → (r : Row) × (find (is_row link owner) db.links ≡ some r)
      × (l ≡ record { row = r; issued_claims = issued r.id r.issuer_did db.claims })
unfolding Repository.get_by_id
get_by_id-row (some e) owner link db l h = cc
get_by_id-row none owner link db l h = elim (Option-cases (find (is_row link owner) db.links)) [
  | inl f ↦ absurd (ground arith)
  | inr (r, f) ↦ (r, f, ground arith)
]

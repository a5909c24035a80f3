-- ===== src/Link/Limit.antt =====
-- The limit of a link: however it is issued from, its claims do not pass it.
use mathlib.Core.Path.{ap₂}
use native.Mathlib.Decide.{ℕ_discrete}
use e_native_issuer.Common.{
  ℕ, ◌≡◌, ◌≤◌, ◌<◌, refl, ap, String, true, some, str_eq, eq_iff, List, [], ◌∷◌, find, All, Result,
  ok, err, arith, inl, inr, Option-cases, Result-cases, ◌∙◌, sym,
}
use e_native_issuer.Link.{Row, Link, ClaimRow, Db, Error}
use e_native_issuer.Link.Repository
use e_native_issuer.Link.Repository.{
  issued, issued_by, is_row, overwritten, upsert, upsert_claim, get_claims_issued_for_user,
}
use e_native_issuer.Link.Service.{validate}
use e_native_issuer.Link.Issue.{
  IssueCalls, NewCredential, Ready, addressed, claim_of, save_issued, new_credential, save_new,
  issue, issue_or_fetch, ready, issue_or_fetch_claim,
}
use e_native_issuer.Link.Rows.{
  issued-upsert_claim, find-upsert, find-upsert_ne, find-is_row, ready-read, get_by_id-row,
}

-- The link is there with the limit `m`, and its claims are within it.
abbrev pub Limited : ℕ → ℕ → String → Db → Type 0
Limited m id issuer db =
    (r : Row) × (find (is_row id issuer) db.links ≡ some r)
    × (r.max_issuance ≡ some m)
    × (issued id issuer db.claims ≤ m)

-- What is known of a link that is issued from: it is another one, or it has room.
abbrev HasRoom : ℕ → ℕ → String → Link → Db → Type 0
HasRoom m id issuer l db =
    l.id ≡ id
    → (str_eq l.issuer_did issuer ≡ true)
      × (l.max_issuance ≡ some m)
      × (issued id issuer db.claims < m)

room_of_valid :
    (m now : ℕ) (l : Link) (n : ℕ)
    → validate now l ≡ ok tt
    → l.max_issuance ≡ some m
    → l.issued_claims ≡ n
    → n < m
unfolding validate
room_of_valid m now l n valid max count = ground arith

module _ (m id : ℕ) (issuer : String) where
  upsert-Limited :
      (l : Link) (db : Db)
      → HasRoom m id issuer l db
      → Limited m id issuer db
      → Limited m id issuer (record db { links = upsert l.row db.links })
  upsert-Limited l db room (r, found, max, within) = elim (ℕ_discrete l.id id) [
    | yes e ↦
        let (x, there, same, _) = find-upsert id issuer l.row db.links e (room e).0 in
        (x, there, same ∙ (room e).1, within)
    | no h ↦ (r, find-upsert_ne id issuer l.row db.links h ∙ found, max, within)
  ]

  upsert_claim-Limited :
      (l : Link) (claim : ClaimRow) (db : Db)
      → HasRoom m id issuer l db
      → claim.link_id ≡ some l.id
      → Limited m id issuer db
      → Limited m id issuer (record db { claims = upsert_claim claim db.claims })
  upsert_claim-Limited l claim db room linked (r, found, max, within) =
      let bound = issued-upsert_claim id issuer claim db.claims in
      (
        r,
        found,
        max,
        elim (ℕ_discrete l.id id) [
          | yes e ↦ let k = (room e).2 in ground arith
          | no h ↦ ground arith
        ],
      )

  save_issued-Limited :
      (c : IssueCalls) (l : Link) (claim : ClaimRow) (db : Db)
      → HasRoom m id issuer l db
      → claim.link_id ≡ some l.id
      → Limited m id issuer db
      → Limited m id issuer (save_issued c l claim db).1
  unfolding save_issued Repository.save Repository.save_claim
  save_issued-Limited c l claim db room linked h = elim (Option-cases c.save_link_fault) [
    | inr (e, f) ↦ rw (f, Repository.save) h
    | inl f ↦
        let once = upsert-Limited l db room h in
        elim (Option-cases c.save_claim_fault) [
          | inr (e, g) ↦ rw (f, Repository.save, g, Repository.save_claim) once
          | inl g ↦
              rw (f, Repository.save, g, Repository.save_claim)
                (upsert_claim-Limited l claim (record db { links = upsert l.row db.links }) room
                  linked once)
        ]
  ]

  save_new-Limited :
      (c : IssueCalls) (owner : String) (l : Link) (new : Result Error NewCredential) (db : Db)
      → HasRoom m id issuer l db
      → Limited m id issuer db
      → Limited m id issuer (save_new c owner l new db).1
  unfolding save_new
  save_new-Limited c owner l (err e) db room h = h
  save_new-Limited c owner l (ok n) db room h =
      save_issued-Limited c l (claim_of owner l.id n) db room refl h

  issue_or_fetch-Limited :
      (c : IssueCalls) (user owner : String) (schema : ℕ) (l : Link) (held : List ClaimRow)
      (db : Db)
      → HasRoom m id issuer l db
      → Limited m id issuer db
      → Limited m id issuer (issue_or_fetch c owner user schema l held db).1
  unfolding issue_or_fetch issue
  issue_or_fetch-Limited c user owner schema l [] db room h =
      save_new-Limited c owner (addressed user l) (new_credential c owner schema (addressed user l))
        db room h
  issue_or_fetch-Limited c user owner schema l (x ∷ held) db room h = h

  -- A link that passed the checks has room for one more claim.
  ready-HasRoom :
      (c : IssueCalls) (owner user : String) (link : ℕ) (db : Db) (q : Ready)
      → (link ≡ id → str_eq owner issuer ≡ true)
      → Limited m id issuer db
      → ready c owner user link db ≡ ok q
      → HasRoom m id issuer q.link db
  ready-HasRoom c owner user link db q key (r, found, max, within) h e =
      let (read, valid) = ready-read c owner user link db q h in
      let (r', found', same) = get_by_id-row c.link_fault owner link db q.link read in
      let at = find-is_row link owner db.links r' found' in
      let link-id : link ≡ id = sym at.0 ∙ (sym (ap (λ l. l.id) same) ∙ e) in
      let owner-issuer : owner ≡ issuer = (eq_iff owner issuer).0 (key link-id) in
      let found'' : find (is_row id issuer) db.links ≡ some r' =
        ap₂ (λ a b. find (is_row a b) db.links) (sym link-id) (sym owner-issuer) ∙ found' in
      let r-r' : r' ≡ r = cc (found, found'') in
      let count : q.link.issued_claims ≡ issued id issuer db.claims =
        ap (λ l. l.issued_claims) same
        ∙ ap₂ (λ a b. issued a b db.claims) (at.0 ∙ link-id)
            ((eq_iff r'.issuer_did owner).0 at.1 ∙ owner-issuer) in
      let limit : q.link.max_issuance ≡ some m =
        ap (λ l. l.max_issuance) same ∙ (ap (λ x. x.max_issuance) r-r' ∙ max) in
      let owned : str_eq q.link.issuer_did issuer ≡ true =
        (eq_iff q.link.issuer_did issuer).1
          (ap (λ l. l.issuer_did) same ∙ ((eq_iff r'.issuer_did owner).0 at.1 ∙ owner-issuer)) in
      (owned, limit, room_of_valid m c.now q.link (issued id issuer db.claims) valid limit count)

  -- A call of the issuance keeps a link within its limit, whoever calls it for whatever link.
  pub issue_or_fetch_claim-Limited :
      (c : IssueCalls) (owner user : String) (link : ℕ) (db : Db)
      → (link ≡ id → str_eq owner issuer ≡ true)
      → Limited m id issuer db
      → Limited m id issuer (issue_or_fetch_claim c owner user link db).1
  unfolding issue_or_fetch_claim
  issue_or_fetch_claim-Limited c owner user link db key h =
      elim (Result-cases (ready c owner user link db)) [
        | inl (e, f) ↦ rw (f, issue_or_fetch_claim) h
        | inr (q, f) ↦
            rw (f, issue_or_fetch_claim)
              (issue_or_fetch-Limited c user owner q.schema q.link q.held db
                (ready-HasRoom c owner user link db q key h f) h)
      ]

-- One call of the issuance: who owns the link, who asks, and the answers that the call gets.
pub record Call : Type 0 where
  pub calls : IssueCalls
  pub owner : String
  pub user : String
  pub link : ℕ

unfoldable pub run : List Call → Db → Db
run [] db = db
run (x ∷ xs) db = run xs (issue_or_fetch_claim x.calls x.owner x.user x.link db).1

-- After any sequence of calls, for any links and with any faults of the database, a link that was
-- within its limit still is. A link's id is a key: the calls that name it name its issuer.
pub run-Limited :
    (m id : ℕ) (issuer : String) (xs : List Call) (db : Db)
    → All (λ x. x.link ≡ id → str_eq x.owner issuer ≡ true) xs
    → Limited m id issuer db
    → Limited m id issuer (run xs db)
unfolding run
run-Limited m id issuer [] db keys h = h
run-Limited m id issuer (x ∷ xs) db keys h =
    run-Limited m id issuer xs (issue_or_fetch_claim x.calls x.owner x.user x.link db).1 keys.1
      (issue_or_fetch_claim-Limited m id issuer x.calls x.owner x.user x.link db keys.0 h)

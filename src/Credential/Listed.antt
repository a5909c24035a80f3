-- ===== src/Credential/Listed.antt =====
-- What GetAllByIssuerID of issuer-node/internal/repositories/claim.go lists.
use mathlib.Core.Path.{subst}
use e_native_issuer.Common.{
  ℕ, ◌≤◌, ◌<◌, ◌≡◌, ◌≢◌, refl, sym, ap, ◌∙◌, Bytes, bytes_eq, bytes_eq_iff, bytes_eq_sound, Option,
  ◌⊎◌, ◌++◌, codes, all, some_and, Bool, true, false, not, ◌&&◌, none, some, List, [], ◌∷◌, map,
  Mem, All, keep, take, drop, length, length-take, if◌then◌else◌, is_some, ok, ok-pair, arith,
  Bool-cases, Option-cases, inl, inr, bind_ok,
}
use e_native_issuer.Credential.Listing.{
  Row, Schema, Joined, ClaimsFilter, Sql, Error, auth_type, from_tables, matches, check_terms,
  offset, is_bigint, paged, get_all_by_issuer_id, ProofType, bjj_signature, sparse_merkle_tree,
  any_proof, another, has_proof,
}
use e_native_issuer.Credential.Joins.{
  All-keep, All-drop, All-take, All-implies, All-Mem, from_tables-OfClaim, claims-All,
  claims-length,
}

-- ORDER BY keeps the rows.
abbrev pub KeepsRows : (List Joined → List Joined) → Type 1
KeepsRows order =
    ((P : Joined → Type 0) (rows : List Joined) → All P rows → All P (order rows))
    × ((rows : List Joined) → length (order rows) ≡ length rows)

-- The credential has a proof of the type.
abbrev pub Proves : Row → ProofType → Type 0
Proves r bjj_signature = r.has_signature_proof ≡ true
Proves r sparse_merkle_tree = r.has_mtp_proof ≡ true
Proves r any_proof = (r.has_signature_proof ≡ true) ⊎ ((r.mtp ≡ true) × (r.has_mtp_proof ≡ true))
Proves r another = Unit {0}

-- What the listing shows of a credential: it is a row of the table and of the issuer, no auth
-- credential, and has the holder, the revocation, the expiration, the schema, the field of its
-- subject and the proofs that the filter asks for.
abbrev pub Shown : Sql → Bytes → ClaimsFilter → List Row → Row → Type 0
Shown sql issuer filter rows r =
    Mem r rows
    × (r.identifier ≡ issuer)
    × (r.schema_type ≢ auth_type)
    × (filter.self ≡ some true → r.other_identifier ≡ [])
    × (filter.subject ≢ [] → r.other_identifier ≡ filter.subject)
    × ((b : Bool) → filter.revoked ≡ some b → r.revoked ≡ b)
    × ((t : ℕ) → filter.expired_on ≡ some t → (0 < r.expiration) × (r.expiration < t))
    × (filter.schema_hash ≢ [] → sql.like r.schema_hash (filter.schema_hash ++ codes "%") ≡ true)
    × (filter.schema_type ≢ []
        → sql.like r.schema_type (codes "%" ++ filter.schema_type ++ codes "%") ≡ true)
    × (filter.schema_url ≢ [] → sql.like r.schema_url (filter.schema_url ++ codes "%") ≡ true)
    × (filter.query_field ≢ []
        → sql.subject_field r.data_ filter.query_field ≡ some filter.query_field_value)
    × All (Proves r) filter.proofs

field_is : (o : Option Bytes) (v : Bytes) → some_and o (λ x. bytes_eq x v) ≡ true → o ≡ some v
field_is none v h = absurd (ground (arith, h))
field_is (some x) v h = ap some (bytes_eq_sound x v h)

revoked_as : (b x : Bool) → (if b then x else not x) ≡ true → x ≡ b
revoked_as true x h = h
revoked_as false true h = absurd (ground (arith, h))
revoked_as false false h = refl

not_equal : (xs ys : Bytes) → bytes_eq xs ys ≡ false → xs ≢ ys
not_equal xs ys h e = absurd (ground (arith, h, (bytes_eq_iff xs ys).1 e))

other_than : (xs ys : Bytes) → xs ≢ ys → bytes_eq xs ys ≡ false
other_than xs ys n = elim (Bool-cases (bytes_eq xs ys)) [
  | inl e ↦ absurd (n (bytes_eq_sound xs ys e))
  | inr e ↦ e
]

module _ (sql : Sql) (issuer : Bytes) (filter : ClaimsFilter) where
  has_proof-Proves : (r : Row) (p : ProofType) → has_proof sql issuer filter r p ≡ true → Proves r p
  unfolding has_proof
  has_proof-Proves r bjj_signature h = h
  has_proof-Proves r sparse_merkle_tree h = h
  has_proof-Proves r any_proof h = elim (Bool-cases r.has_signature_proof) [
    | inl e ↦ inl e
    | inr e ↦ inr (ground (arith, e, h), ground (arith, e, h))
  ]
  has_proof-Proves r another h = tt

  all-Proves :
      (r : Row) (proofs : List ProofType)
      → all (has_proof sql issuer filter r) proofs ≡ true
      → All (Proves r) proofs
  all-Proves r [] h = tt
  all-Proves r (p ∷ proofs) h =
      (has_proof-Proves r p (ground (arith, h)), all-Proves r proofs (ground (arith, h)))

  matches-Shown :
      (rows : List Row) (j : Joined)
      → Mem j.claim rows
      → matches sql issuer filter j ≡ true
      → Shown sql issuer filter rows j.claim
  unfolding matches
  matches-Shown rows j listed h =
      let r = j.claim in
      let own : bytes_eq r.identifier issuer ≡ true = ground (arith, h) in
      let other : bytes_eq r.schema_type auth_type ≡ false = ground (arith, h) in
      (
        listed,
        bytes_eq_sound r.identifier issuer own,
        not_equal r.schema_type auth_type other,
        λ e. bytes_eq_sound r.other_identifier [] (ground (arith, h, e)),
        λ n.
            let given = other_than filter.subject [] n in
            bytes_eq_sound r.other_identifier filter.subject (ground (arith, h, given)),
        λ b e. revoked_as b r.revoked (ground (arith, h, e)),
        λ t e. ground (arith, h, e),
        λ n. let given = other_than filter.schema_hash [] n in ground (arith, h, given),
        λ n. let given = other_than filter.schema_type [] n in ground (arith, h, given),
        λ n. let given = other_than filter.schema_url [] n in ground (arith, h, given),
        λ n.
            let given = other_than filter.query_field [] n in
            field_is (sql.subject_field r.data_ filter.query_field) filter.query_field_value
              (ground (arith, h, given)),
        all-Proves r filter.proofs (ground (arith, h)),
      )

  -- The rows that the database gives, before their columns are read
  paged-Shown :
      (rows : List Row) (joins page : List Joined) (count : ℕ)
      → KeepsRows sql.order
      → All (λ j. Mem j.claim rows) joins
      → paged sql issuer filter (keep (matches sql issuer filter) joins) ≡ ok (page, count)
      → All (λ j. Shown sql issuer filter rows j.claim) page
        × (count ≡ length (keep (matches sql issuer filter) joins))
        × (is_some filter.page ≡ false → count ≡ length page)
        × (is_some filter.page ≡ true → length page ≤ filter.max_results)
  unfolding paged
  paged-Shown rows joins page count keeps listed h =
      let found = keep (matches sql issuer filter) joins in
      let P = λ (j : Joined). Shown sql issuer filter rows j.claim in
      let all_shown = keeps.0 P found (
        All-implies _ P found (λ j m. matches-Shown rows j m.0 m.1)
          (All-keep (λ j. Mem j.claim rows) (matches sql issuer filter) joins listed)) in
      elim (Option-cases filter.page) [
        | inl g ↦
            let out =
              ok-pair {E = Error} (sql.order found, length (sql.order found)) (page, count)
                (ground (arith, g, h)) in
            (
              subst (All P) out.0 all_shown,
              sym out.1 ∙ keeps.1 found,
              λ k. sym out.1 ∙ ap length out.0,
              λ k. absurd (ground (arith, g, k)),
            )
        | inr (n, g) ↦
            elim (Bool-cases (
              is_bigint sql issuer filter (offset sql issuer filter n)
              && is_bigint sql issuer filter filter.max_results)) [
                | inr t ↦ absurd (ground (arith, g, t, h))
                | inl t ↦
                    let from = offset sql issuer filter n in
                    let cut = take filter.max_results (drop from (sql.order found)) in
                    let out =
                      ok-pair {E = Error} (cut, length found) (page, count)
                        (ground (arith, g, t, h)) in
                    (
                      subst (All P) out.0 (
                          All-take P filter.max_results (drop from (sql.order found))
                            (All-drop P from (sql.order found) all_shown)),
                      sym out.1,
                      λ k. absurd (ground (arith, g, k)),
                      λ k.
                          subst (λ (l : List Joined). length l ≤ filter.max_results) out.0
                            (omega (
                              arith,
                              length-take filter.max_results (drop from (sql.order found)),
                            )),
                    )
              ]
      ]

  -- The listing, or a page of it, holds rows of the table only, each of the issuer, no auth
  -- credential, and with the holder, the revocation, the expiration, the schema, the field of the subject
  -- and the proofs that the filter asks for. A
  -- page is no longer than was asked for. The count is that of all the joined rows that match, and
  -- without pages the length of the listing.
  pub listed-Shown :
      (schemas : List Schema) (rows shown : List Row) (count : ℕ)
      → KeepsRows sql.order
      → get_all_by_issuer_id sql issuer filter none schemas rows ≡ ok (shown, count)
      → All (Shown sql issuer filter rows) shown
        × (count ≡ length (keep (matches sql issuer filter) (from_tables filter schemas rows)))
        × (is_some filter.page ≡ false → count ≡ length shown)
        × (is_some filter.page ≡ true → length shown ≤ filter.max_results)
  unfolding get_all_by_issuer_id
  listed-Shown schemas rows shown count keeps h =
      let joins = from_tables filter schemas rows in
      let (u, f, h1) = bind_ok (check_terms sql issuer filter) _ _ h in
      let (page, g, h2) =
        bind_ok (paged sql issuer filter (keep (matches sql issuer filter) joins)) _ _ h1 in
      let listed = from_tables-OfClaim (λ r. Mem r rows) filter schemas rows (All-Mem rows) in
      let (fine, all_matches, counted, few) = paged-Shown rows joins page.0 page.1 keeps listed g in
      let out =
        ok-pair {E = Error} (map (λ (j : Joined). j.claim) page.0, page.1) (shown, count) h2 in
      (
        subst (All (Shown sql issuer filter rows)) out.0
            (claims-All (Shown sql issuer filter rows) page.0 fine),
        sym out.1 ∙ all_matches,
        λ k. sym out.1 ∙ (counted k ∙ (sym (claims-length page.0) ∙ ap length out.0)),
        λ k.
            subst (λ (l : List Row). length l ≤ filter.max_results) out.0
              (omega (arith, claims-length page.0, few k)),
      )

-- ===== src/Credential/Created.antt =====
-- What CreateCredential and Save of issuer-node/internal/core/services/claims.go make.
use e_native_issuer.Common.{
  ℕ, String, ◌≡◌, refl, sym, ap, Bool, true, false, not, ◌&&◌, Option, none, some, is_some, ◌∷◌,
  Result, ok, err, map_err, map_err-ok, bind_ok, ok-same, or_err, ◌∙◌, if◌then◌else◌, arith,
  Result-cases, inl, inr, ◌⊎◌,
}
use e_native_issuer.Credential.Guard.{Request, guard_create_claim_request}
use e_native_issuer.Credential.Acceptable.{is_acceptable, guard-is_acceptable}
use e_native_issuer.Credential.Document.{
  CreateError, guarded, loading_schema, process_schema, json_ld_context, CreateCalls, Vc, NewClaim,
}
use e_native_issuer.Credential.Create.{
  Issued, or_call, normal_subject, new_verifiable_credential, prepare_vc, process_error, signature,
  encrypted, unless_encrypted, claim_of, create_credential, with_event, save_credential,
}

-- What a credential that was made has of its request.
abbrev pub Made : CreateCalls → Request → NewClaim → Type 0
Made c req claim =
    (is_acceptable c.formats req ≡ true)
    × (claim.identifier ≡ req.did)
    × (claim.issuer ≡ req.did)
    × (is_some claim.signature_proof ≡ req.signature_proof)
    × (is_some claim.encrypted_data ≡ is_some req.encryption_key)
    × (is_some claim.data_ ≡ not (is_some req.encryption_key))
    × ((id : ℕ) → req.claim_id ≡ some id → claim.id ≡ id)
    × ((vc : Vc) → claim.data_ ≡ some vc → (vc.issuer ≡ req.did) × (vc.id ≡ claim.id))

prepare_vc-guarded :
    (c : CreateCalls) (req : Request) (out : Vc × ℕ × ℕ × String)
    → prepare_vc c req ≡ ok out
    → is_acceptable c.formats req ≡ true
unfolding prepare_vc
prepare_vc-guarded c req out h =
    let (u, g, rest) = bind_ok (map_err guarded (guard_create_claim_request c.formats req)) _ _ h in
    let passed = map_err-ok guarded (guard_create_claim_request c.formats req) u g in
    ground (arith, passed, guard-is_acceptable c.formats req)

vc-names :
    (c : CreateCalls) (req : Request) (id : ℕ) (json_ld : String) (n : ℕ) (vc : Vc)
    → new_verifiable_credential c req id json_ld n ≡ ok vc
    → (vc.issuer ≡ req.did) × (vc.id ≡ id)
unfolding new_verifiable_credential
vc-names c req id json_ld n vc h =
    let (subject, e1, h1) = bind_ok (normal_subject c.formats req.subject_id) _ _ h in
    let (state, e2, h2) = bind_ok c.latest_state _ _ h1 in
    let (status, e3, h3) = bind_ok (c.revocation_status n state req.status_type) _ _ h2 in
    let made = ok-same {E = CreateError} _ vc h3 in
    (sym (ap (λ (x : Vc). x.issuer) made), sym (ap (λ (x : Vc). x.id) made))

given_call :
    (o : Option ℕ) (r : Result CreateError ℕ) (i n : ℕ) → o ≡ some i → or_call o r ≡ ok n → n ≡ i
given_call none r i n e h = absurd (ground (arith, e))
given_call (some j) r i n e h = ground (arith, e, h)

-- The document names the issuer, the id of the claim, and the id that the request gives.
prepare_vc-names :
    (c : CreateCalls) (req : Request) (vc : Vc) (id n : ℕ) (json_ld : String)
    → prepare_vc c req ≡ ok (vc, id, n, json_ld)
    → (vc.issuer ≡ req.did) × (vc.id ≡ id) × ((i : ℕ) → req.claim_id ≡ some i → id ≡ i)
unfolding prepare_vc
prepare_vc-names c req vc id n json_ld h =
    let (u, e1, h1) = bind_ok (map_err guarded (guard_create_claim_request c.formats req)) _ _ h in
    let (m, e2, h2) = bind_ok (or_call req.rev_nonce c.random_nonce) _ _ h1 in
    let (schema, e3, h3) =
      bind_ok (map_err (λ (x : CreateError). loading_schema) c.load_schema) _ _ h2 in
    let (metadata, e4, h4) = bind_ok (or_err schema process_schema) _ _ h3 in
    let (url, e5, h5) = bind_ok (or_err metadata json_ld_context) _ _ h4 in
    let (drawn, e6, h6) = bind_ok (or_call req.claim_id c.new_uuid) _ _ h5 in
    let (v, e7, h7) = bind_ok (c.load_type url req.schema_type) _ _ h6 in
    let (made, e8, h8) = bind_ok (new_verifiable_credential c req drawn url m) _ _ h7 in
    let same = ok-same {E = CreateError} (made, drawn, m, url) (vc, id, n, json_ld) h8 in
    let (issuer, named) = vc-names c req drawn url m made e8 in
    let kept : drawn ≡ id = ap (λ (x : Vc × ℕ × ℕ × String). x.1) same in
    (
      sym (ap (λ (x : Vc × ℕ × ℕ × String). x.0.issuer) same) ∙ issuer,
      sym (ap (λ (x : Vc × ℕ × ℕ × String). x.0.id) same) ∙ (named ∙ kept),
      λ i given. sym kept ∙ given_call req.claim_id c.new_uuid i drawn given e6,
    )

signature-some :
    (c : CreateCalls) (asked : Bool) (core : ℕ) (proof : Option ℕ)
    → signature c asked core ≡ ok proof
    → is_some proof ≡ asked
signature-some c true core proof h =
    let (p, e, h1) = bind_ok (c.sign core) _ _ h in
    ground (arith, ok-same {E = CreateError} (some p) proof h1)
signature-some c false core proof h = ground (arith, h)

encrypted-some :
    (c : CreateCalls) (key : Option ℕ) (vc : Vc) (secret : Option ℕ)
    → encrypted c key vc ≡ ok secret
    → is_some secret ≡ is_some key
unfolding encrypted
encrypted-some c none vc secret h = ground (arith, h)
encrypted-some c (some key) vc secret h =
    let (p, e, h1) = bind_ok (c.encrypt key vc) _ _ h in
    ground (arith, ok-same {E = CreateError} (some p) secret h1)

unless_encrypted-some :
    (key : Option ℕ) (vc : Vc) → is_some (unless_encrypted key vc) ≡ not (is_some key)
unless_encrypted-some none vc = refl
unless_encrypted-some (some key) vc = refl

unless_encrypted-same :
    (key : Option ℕ) (vc got : Vc) → unless_encrypted key vc ≡ some got → got ≡ vc
unless_encrypted-same none vc got h = ground (arith, h)
unless_encrypted-same (some key) vc got h = absurd (ground (arith, h))

-- A credential that CreateCredential makes answers a request that passes the guards, is the issuer's, has a
-- signature if one was asked for, and holds either the document or, with an encryption key, the
-- encrypted data; the credential has the id that the request gives, if it gives one, and the
-- document names the same issuer and the same id.
pub create_credential-Made :
    (c : CreateCalls) (req : Request) (claim : NewClaim)
    → create_credential c req ≡ ok claim
    → Made c req claim
unfolding create_credential claim_of
create_credential-Made c req claim h =
    let ((vc, id, n, json_ld), e1, h1) = bind_ok (prepare_vc c req) _ _ h in
    let (core, e2, h2) = bind_ok (map_err process_error (c.process vc _)) _ _ h1 in
    let (claimed, e3, h3) = bind_ok (c.from_claimer core) _ _ h2 in
    let (proof, e4, h4) = bind_ok (signature c req.signature_proof core) _ _ h3 in
    let (secret, e5, h5) = bind_ok (encrypted c req.encryption_key vc) _ _ h4 in
    let (status, e6, h6) = bind_ok (c.set_status vc.status) _ _ h5 in
    let made = ok-same {E = CreateError} _ claim h6 in
    let (issuer, named, given) = prepare_vc-names c req vc id n json_ld e1 in
    let numbered = ap (λ (x : NewClaim). x.id) made in
    (
      prepare_vc-guarded c req (vc, id, n, json_ld) e1,
      sym (ap (λ (x : NewClaim). x.identifier) made),
      sym (ap (λ (x : NewClaim). x.issuer) made),
      sym (ap (λ (x : NewClaim). is_some x.signature_proof) made)
          ∙ signature-some c req.signature_proof core proof e4,
      sym (ap (λ (x : NewClaim). is_some x.encrypted_data) made)
          ∙ encrypted-some c req.encryption_key vc secret e5,
      sym (ap (λ (x : NewClaim). is_some x.data_) made)
          ∙ unless_encrypted-some req.encryption_key vc,
      λ i asked. sym numbered ∙ given i asked,
      λ got there.
          let same =
            unless_encrypted-same req.encryption_key vc got
              (ap (λ (x : NewClaim). x.data_) made ∙ there) in
          (
            ap (λ (x : Vc). x.issuer) same ∙ issuer,
            ap (λ (x : Vc). x.id) same ∙ (named ∙ numbered),
          ),
    )

with_event-claims :
    (signed is_sent : Bool) (claim : NewClaim) (db : Issued)
    → (with_event signed is_sent claim db).claims ≡ db.claims
with_event-claims true true claim db = refl
with_event-claims true false claim db = refl
with_event-claims false is_sent claim db = refl

with_event-events :
    (signed is_sent : Bool) (claim : NewClaim) (db : Issued)
    → (with_event signed is_sent claim db).events
      ≡ (if signed && is_sent then (claim.id, claim.issuer) ∷ db.events else db.events)
with_event-events true true claim db = refl
with_event-events true false claim db = refl
with_event-events false is_sent claim db = refl

-- Save adds the credential with the id that the database gave, and an event for it where it is signed
-- and the event can be sent; a credential that cannot be made or saved leaves everything as it was.
pub save_credential-Issued :
    (c : CreateCalls) (saved : NewClaim → Result CreateError ℕ) (is_sent : Bool) (req : Request)
    (db : Issued)
    → ((e : CreateError) × (save_credential c saved is_sent req db ≡ (err e, db)))
      ⊎ ((claim : NewClaim) × ((save_credential c saved is_sent req db).0 ≡ ok claim)
          × ((save_credential c saved is_sent req db).1.claims ≡ claim ∷ db.claims)
          × ((save_credential c saved is_sent req db).1.events ≡ (
              if is_some claim.signature_proof && is_sent
              then (claim.id, claim.issuer) ∷ db.events
              else db.events)))
unfolding save_credential
save_credential-Issued c saved is_sent req db = elim (Result-cases (create_credential c req)) [
  | inl (e, f) ↦ inl (e, ground (arith, f))
  | inr (claim, f) ↦ elim (Result-cases (saved claim)) [
    | inl (e, g) ↦ inl (e, ground (arith, f, g))
    | inr (id, g) ↦
        let stored : NewClaim = record claim { id = id } in
        let (fine, i, j, signed, k, l, m, n) = create_credential-Made c req claim f in
        inr (
          stored,
          ground (arith, f, g),
          ground (
            arith,
            f,
            g,
            with_event-claims req.signature_proof is_sent stored
                (record db { claims = stored ∷ db.claims }),
          ),
          ground (
            arith,
            f,
            g,
            signed,
            with_event-events req.signature_proof is_sent stored
                (record db { claims = stored ∷ db.claims }),
          ),
        )
  ]
]

-- ===== src/Credential/Holder.antt =====
-- To whom Agent of issuer-node/internal/core/services/claims.go gives a credential.
use e_native_issuer.Common.{
  ℕ, String, str_eq, ◌≡◌, sym, ap, true, not, ◌∙◌, ◌&&◌, ◌==◌, Option, none, some, ok, Mem, find,
  find-Mem, find-passes, eq_iff, Option-cases, inl, inr, or_err, map_err, reject, bind_ok, ok-same,
  reject-ok, or_err-ok, map_err-ok, arith,
}
use e_native_issuer.Credential.{Claim, Error, claim_does_not_exist, Store}
use e_native_issuer.Credential.Repository.{owned_by, get_by_id_and_issuer}
use e_native_issuer.Credential.Agent.{
  credential_fetch_request, AgentError, no_sender, no_receiver, unsupported_media_type,
  identity_not_found, invalid_body, not_of_sender, claim_error, AgentRequest, Message,
  MediaTypeManager, allow_media_type, AgentCalls, requested_id, issuance, get_agent_credential,
  answer_by, agent,
}

-- A row that is of an issuer names it.
owned_by_sound : (did : String) (r : Claim) → owned_by did r ≡ true → r.identifier ≡ some did
owned_by_sound did r h = elim (Option-cases r.identifier) [
  | inl e ↦ absurd (ground (arith, e, h))
  | inr (i, e) ↦ e ∙ ap some ((eq_iff i did).0 (ground (arith, e, h)))
]

-- The credential that is read is a row of the table, of the issuer, with the id.
read-owned :
    {T : Type 0} (f : Option Error) (did : String) (id : ℕ) (db : Store T) (claim : Claim)
    → get_by_id_and_issuer f did id db ≡ ok claim
    → Mem claim db.claims × (claim.identifier ≡ some did) × (claim.id ≡ id)
unfolding get_by_id_and_issuer
read-owned (some e) did id db claim h = absurd (ground (arith, h))
read-owned none did id db claim h =
    let test = λ (r : Claim). owned_by did r && (r.id == id) in
    let found = or_err-ok (find test db.claims) claim_does_not_exist claim h in
    let passes = find-passes test db.claims claim found in
    (
      find-Mem test db.claims claim found,
      owned_by_sound did claim (ground (arith, passes)),
      ground (arith, passes),
    )

module _ {T : Type 0} (c : AgentCalls) where
  -- The claim that a message gives to its receiver.
  abbrev pub Given : Message → AgentRequest → String → String → Store T → Type 0
  Given m req issuer user db =
      (id : ℕ) × (claim : Claim) × (requested_id c req.body ≡ ok id)
      × Mem claim db.claims
      × (claim.identifier ≡ some issuer)
      × (claim.id ≡ id)
      × (claim.other_identifier ≡ user)
      × (issuance c claim ≡ ok (m.kind, m.body))
      × (m.from ≡ issuer)
      × (m.to ≡ user)

  get_agent_credential-Given :
      (req : AgentRequest) (issuer user : String) (db : Store T) (m : Message)
      → get_agent_credential c req issuer user db ≡ ok m
      → Given m req issuer user db
  unfolding get_agent_credential
  get_agent_credential-Given req issuer user db m h =
      let (u, e1, h1) = bind_ok (reject (not (c.is_fetch_body req.body)) invalid_body) _ _ h in
      let (id, e2, h2) = bind_ok (requested_id c req.body) _ _ h1 in
      let (claim, e3, h3) =
        bind_ok (map_err claim_error (get_by_id_and_issuer c.claim_fault issuer id db)) _ _ h2 in
      let (v, e4, h4) =
        bind_ok (reject (not (str_eq claim.other_identifier user)) not_of_sender) _ _ h3 in
      let (answer, e5, h5) = bind_ok (issuance c claim) _ _ h4 in
      let found =
        map_err-ok claim_error (get_by_id_and_issuer c.claim_fault issuer id db) claim e3 in
      let (listed, owned, numbered) = read-owned c.claim_fault issuer id db claim found in
      let made = ok-same {E = AgentError} _ m h5 in
      let theirs = reject-ok (not (str_eq claim.other_identifier user)) not_of_sender v e4 in
      (
        id,
        claim,
        e2,
        listed,
        owned,
        numbered,
        (eq_iff claim.other_identifier user).0 (ground (arith, theirs)),
        e5 ∙ ap (λ (x : Message). ok (x.kind, x.body)) made,
        sym (ap (λ (x : Message). x.from) made),
        sym (ap (λ (x : Message). x.to) made),
      )

  -- A request for a credential that Agent answers with a message names a row of the table that is a
  -- credential of the issuer that was asked and belongs to the sender; the message is the answer for
  -- that credential, from the issuer to the sender.
  pub agent-Given :
      (manager : MediaTypeManager) (req : AgentRequest) (media issuer user : String) (db : Store T)
      (m : Message)
      → req.kind ≡ credential_fetch_request
      → req.issuer_did ≡ some issuer
      → req.user_did ≡ some user
      → agent c manager req media db ≡ ok m
      → Given m req issuer user db
  unfolding agent answer_by
  agent-Given manager req media issuer user db m kind from to h =
      let (u, e1, h1) = bind_ok (or_err req.user_did no_sender) _ _ h in
      let (i, e2, h2) = bind_ok (or_err req.issuer_did no_receiver) _ _ h1 in
      let (v, e3, h3) =
        bind_ok (reject (not (allow_media_type manager req.kind media)) unsupported_media_type) _ _
          h2 in
      let (there, e4, h4) = bind_ok (c.exists i) _ _ h3 in
      let (w, e5, h5) = bind_ok (reject (not there) identity_not_found) _ _ h4 in
      let sender = or_err-ok req.user_did no_sender u e1 in
      let receiver = or_err-ok req.issuer_did no_receiver i e2 in
      let asked : get_agent_credential c req issuer user db ≡ ok m =
        ground (arith, kind, from, to, sender, receiver, h5) in
      get_agent_credential-Given req issuer user db m asked

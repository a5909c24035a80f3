-- ===== src/Credential/Published.antt =====
-- What a new state of an identity has taken in.
use mathlib.Core.Path.{subst}
use e_native_issuer.Common.{
  ℕ, ◌≡◌, refl, sym, ap, ◌∙◌, String, true, false, none, some, List, [], ◌∷◌, any, keep, All,
  str_eq, ok, err, arith, Result-cases, inl, inr, bind_ok,
}
use e_native_issuer.IdentityStates.{IdentityState, get_latest_state_by_identifier}
use e_native_issuer.Credential.{Claim, Error, MerkleTree, Trees, Store}
use e_native_issuer.Credential.Revoke.{trees_of}
use e_native_issuer.Credential.Revoked.{FindsAdded}
use e_native_issuer.Credential.Waiting.{map-marked, covered, none-waits, none-pending}
use e_native_issuer.Credential.Steps.{
  gathered-parts, write_state-parts, trees_of-with, trees_of-own, populated-ok,
}
use e_native_issuer.Credential.Taken.{KeepsAdded, IsIn, add_claims-IsIn, All-keep}
use e_native_issuer.Credential.State.{
  add_claims, written, waits, is_claim, update_claims, is_pending, UpdateCalls, no_fault, gathered,
  next_state, update_state,
}

-- A state that has taken in everything that waited, with the trees that it is made of: no claim and
-- no revocation of the identity waits any more, it follows the latest state, it is the hash of the
-- roots of the three trees, and the tree of roots has the root of the claims.
abbrev Follows :
    {T : Type 0} → MerkleTree T → String → Store T → IdentityState → Store T → Trees T → Type 0
Follows {T} mt did db state after trees =
    (any (waits did) after.claims ≡ false)
    × (any (is_pending did) after.revocations ≡ false)
    × (previous : IdentityState) × (hash v : ℕ) × (get_latest_state_by_identifier none did db.states
        ≡ ok previous)
    × (state.previous_state ≡ some previous.state)
    × (trees_of did after.trees ≡ ok trees)
    × (mt.hash_elems (mt.root trees.claims) (mt.root trees.revocations) (mt.root trees.roots)
        ≡ ok hash)
    × (state.state ≡ mt.hex hash)
    × (mt.get (mt.root trees.claims) trees.roots ≡ ok (some v))

-- The trees of the identity after that have also the index and the value of each claim that waited.
abbrev pub TakesIn :
    {T : Type 0} → MerkleTree T → String → Store T → IdentityState → Store T → Type 0
TakesIn {T} mt did db state after =
    (trees : Trees T) × Follows mt did db state after trees
    × All (λ r. waits did r ≡ true → IsIn mt trees.claims r) db.claims

-- Every claim that waits gets the state.
no_claim-waits :
    (did state : String) (claims rows after : List Claim)
    → claims ≡ keep (waits did) rows
    → update_claims state claims rows ≡ ok after
    → any (waits did) after ≡ false
no_claim-waits did state claims rows after read set =
    ap (any (waits did)) (map-marked state claims rows after set)
    ∙ none-waits did state claims rows (
        subst (λ l. All (λ r. waits did r ≡ true → any (λ c. is_claim c r) l ≡ true) rows)
          (sym read) (covered did [] rows))

next_state-Follows :
    {T : Type 0} (mt : MerkleTree T) (c : UpdateCalls) (did : String) (db : Store T)
    (state : IdentityState) (after : Store T)
    → FindsAdded mt
    → next_state mt c did db ≡ ok (state, after)
    → (before trees : Trees T) × Follows mt did db state after trees
      × (add_claims mt (keep (waits did) db.claims) before.claims ≡ ok trees.claims)
unfolding next_state
next_state-Follows mt c did db state after finds h =
    let (u0, f0, h0) = bind_ok (no_fault c.prefix_fault) _ _ h in
    let (found, f1, h1) = bind_ok (gathered mt c did db) _ _ h0 in
    let (trees, at, latest, read, put, own, busy) = gathered-parts mt c did db found f1 in
    let (roots, rows, made, set, result) =
      write_state-parts mt c did db found.0 found.1 found.2 state after h1 in
    let (hash, v, same, same_claims, in_roots, hashed, value, prior) =
      populated-ok mt did found.0 roots found.2 state finds made in
    let own' : str_eq roots.identifier did ≡ true =
      ap (λ i. str_eq i did) same
      ∙ (ap (λ t. str_eq t.identifier did) own ∙ trees_of-own did db.trees trees at) in
    let entered =
      ap (λ l. add_claims mt l trees.claims) (sym read) ∙ (put ∙ ap ok (sym same_claims)) in
    let waited : Follows mt did db state (written c did db rows roots state) roots = (
      no_claim-waits did state.state found.1 db.claims rows read set,
      none-pending did db.revocations,
      found.2,
      hash,
      v,
      latest,
      prior,
      trees_of-with did db.trees trees roots own' at,
      hashed,
      value,
      in_roots,
    ) in
    (trees, roots, subst (λ l. Follows mt did db state l roots) (sym result) waited, entered)

update_state-Follows :
    {T : Type 0} (mt : MerkleTree T) (c : UpdateCalls) (did : String) (db : Store T)
    (state : IdentityState)
    → FindsAdded mt
    → (update_state mt c did db).0 ≡ ok state
    → (before trees : Trees T) × Follows mt did db state (update_state mt c did db).1 trees
      × (add_claims mt (keep (waits did) db.claims) before.claims ≡ ok trees.claims)
unfolding update_state
update_state-Follows mt c did db state finds h = elim (Result-cases (next_state mt c did db)) [
  | inl (e, f) ↦ absurd (ground (arith, f, h))
  | inr ((made, after), f) ↦
      let same : made ≡ state = ground (arith, f, h) in
      let ended : (update_state mt c did db).1 ≡ after = ground (arith, f) in
      let (before, trees, took, entered) = next_state-Follows mt c did db made after finds f in
      (
        before,
        trees,
        subst (λ l. Follows mt did db state l trees) (sym ended)
            (subst (λ s. Follows mt did db s after trees) same took),
        entered,
      )
]

-- A new state takes in everything that waits: no claim and no revocation of the identity waits any
-- more, the tree of claims has the index and the value of each claim that waited, the state follows
-- the latest one and is the hash of the roots of the three trees, and the tree of roots has the root
-- of the claims. The tree must find what was added to it, and still find it when more is added.
pub update_state-TakesIn :
    {T : Type 0} (mt : MerkleTree T) (c : UpdateCalls) (did : String) (db : Store T)
    (state : IdentityState)
    → FindsAdded mt
    → KeepsAdded mt
    → (update_state mt c did db).0 ≡ ok state
    → TakesIn mt did db state (update_state mt c did db).1
update_state-TakesIn mt c did db state finds keeps h =
    let (before, trees, took, entered) = update_state-Follows mt c did db state finds h in
    let all_in =
      add_claims-IsIn mt (keep (waits did) db.claims) before.claims trees.claims finds keeps
        entered in
    (trees, took, All-keep (IsIn mt trees.claims) (waits did) db.claims all_in)

kept-none :
    (did : String) (rows : List Claim) → any (waits did) rows ≡ false → keep (waits did) rows ≡ []
kept-none did [] h = refl
kept-none did (r ∷ rows) h = ground (arith, h, kept-none did rows (ground (arith, h)))

idle-refused :
    {T : Type 0} (mt : MerkleTree T) (c : UpdateCalls) (did : String) (db : Store T)
    (state : IdentityState) (after : Store T)
    → any (waits did) db.claims ≡ false
    → any (is_pending did) db.revocations ≡ false
    → next_state mt c did db ≡ ok (state, after)
    → ⊥
unfolding next_state
idle-refused mt c did db state after no_claim no_revocation h =
    let (u0, f0, h0) = bind_ok (no_fault c.prefix_fault) _ _ h in
    let (found, f1, h1) = bind_ok (gathered mt c did db) _ _ h0 in
    let (trees, at, latest, read, put, own, busy) = gathered-parts mt c did db found f1 in
    let nothing = read ∙ kept-none did db.claims no_claim in
    absurd (ground (arith, busy, nothing, no_revocation))

-- Nothing to publish: with no claim and no revocation that waits, the next state is refused.
pub update_state-idle :
    {T : Type 0} (mt : MerkleTree T) (c : UpdateCalls) (did : String) (db : Store T)
    → any (waits did) db.claims ≡ false
    → any (is_pending did) db.revocations ≡ false
    → (e : Error) × (update_state mt c did db ≡ (err e, db))
unfolding update_state
update_state-idle mt c did db no_claim no_revocation =
    elim (Result-cases (next_state mt c did db)) [
      | inl (e, f) ↦ (e, ground (arith, f))
      | inr ((state, after), f) ↦
          absurd (idle-refused mt c did db state after no_claim no_revocation f)
    ]

-- Two new states in a row: once a state was made, another is refused and changes nothing, until a
-- claim or a revocation waits again. The tree must find what was added to it.
pub update_state-again :
    {T : Type 0} (mt : MerkleTree T) (c next : UpdateCalls) (did : String) (db : Store T)
    (state : IdentityState)
    → FindsAdded mt
    → (update_state mt c did db).0 ≡ ok state
    → (e : Error) × (update_state mt next did (update_state mt c did db).1
        ≡ (err e, (update_state mt c did db).1))
update_state-again mt c next did db state finds h =
    let (before, trees, took, entered) = update_state-Follows mt c did db state finds h in
    update_state-idle mt next did (update_state mt c did db).1 took.0 took.1

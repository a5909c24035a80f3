-- ===== src/Publisher/Outcome.antt =====
-- What a publication leaves in the table, on every way that it can end.
use e_native_issuer.Common.{
  ℕ, ◌≡◌, String, true, Option, none, some, [], ◌∷◌, map, head?, str_eq, any, Result, ok, err,
  arith, Bool-cases, ◌⊎◌, inl, inr,
}
use e_native_issuer.IdentityStates.{
  Status, IdentityState, Table, Error, transacted, failed, update_identity_state,
}
use e_native_issuer.IdentityStates.Rows.{row_after, names_state, update_identity_state_lem}
use e_native_issuer.Publisher.Node.{Node, Identity, ProofCalls, Watcher}
use e_native_issuer.Publisher.Proof.{
  Prepared, prepare, transacted_state, record_transaction, publish_proof,
}
use e_native_issuer.Publisher.Entry.{
  Calls, PublishedState, published, save_failure, publish_updated, publish_state_unguarded, guarded,
  publish_state,
}

-- The gateway's answer to a prepared proof.
abbrev pub sends : ProofCalls → Prepared → Result Error String
sends c q =
    c.publish_state q.did q.latest_state_hash q.new_state_hash q.is_latest_state_genesis q.zk_proof
      q.identity

abbrev pub watcher : String → IdentityState → Identity → String → Watcher
watcher identifier s identity tx = record {
  identifier = identifier;
  identity = identity;
  state = transacted_state tx s;
  tx_id = tx;
}

module _ (c : ProofCalls) (identifier : String) (s : IdentityState) (node : Node) where
  -- Where the proof is prepared, the gateway accepts it as a transaction, the database has no fault
  -- and some row names the state, publishProof returns the transaction, saves it in every row that
  -- names the state, and starts one goroutine that waits for it.
  pub publish_proof-sent :
      (q : Prepared) (tx : String)
      → prepare c s node.states ≡ ok q
      → sends c q ≡ ok tx
      → c.save_fault ≡ none
      → any (names_state s) node.states ≡ true
      → publish_proof c identifier s node ≡ (
        ok tx,
        record node {
          sent = tx ∷ node.sent;
          states = map (row_after c.now (transacted_state tx s)) node.states;
          watchers = watcher identifier s q.identity tx ∷ node.watchers;
        },
      )
  unfolding publish_proof record_transaction
  publish_proof-sent q tx hq hs hf ha =
      ground (arith, update_identity_state_lem c.now (transacted_state tx s) node.states)

  -- Where the proof cannot be prepared or the gateway refuses it, nothing changes.
  pub publish_proof-refused :
      (e : Error)
      → ((prepare c s node.states ≡ err e)
          ⊎ ((q : Prepared) × (prepare c s node.states ≡ ok q) × (sends c q ≡ err e)))
      → publish_proof c identifier s node ≡ (err e, node)
  unfolding publish_proof
  publish_proof-refused e (inl h) = ground arith
  publish_proof-refused e (inr (q, hq, hs)) = ground arith

module _ (c : Calls) (identifier : String) (updated : IdentityState) (node : Node) where
  -- Where the proof cannot be prepared or the gateway refuses it, and the database takes the failure
  -- in some row that names the new state, every such row is marked as failed, the error is reported
  -- and nothing else changes.
  pub publish_updated-failed :
      (e : Error)
      → ((prepare c.proof updated node.states ≡ err e)
          ⊎ ((q : Prepared) × (prepare c.proof updated node.states ≡ ok q)
              × (sends c.proof q ≡ err e)))
      → c.failure_fault ≡ none
      → any (names_state updated) node.states ≡ true
      → publish_updated c identifier updated node ≡ (
        err e,
        record node {
          states = map (row_after c.proof.now (record updated { status = failed })) node.states;
        },
      )
  unfolding publish_updated save_failure
  publish_updated-failed e h hf ha = ground (
    arith,
    publish_proof-refused c.proof identifier updated node e h,
    update_identity_state_lem c.proof.now (record updated { status = failed }) node.states,
  )

  -- If the gateway accepts a transaction, the database refuses to save it, and then takes the
  -- failure in some row that names the state, the call is the error of the save and every such row
  -- is marked as failed, with the transaction id that the new state came with: the call writes the
  -- accepted transaction to no row and starts no goroutine for it.
  pub publish_updated-lost :
      (q : Prepared) (tx : String) (e : Error)
      → prepare c.proof updated node.states ≡ ok q
      → sends c.proof q ≡ ok tx
      → c.proof.save_fault ≡ some e
      → c.failure_fault ≡ none
      → any (names_state updated) node.states ≡ true
      → publish_updated c identifier updated node ≡ (
        err e,
        record node {
          sent = tx ∷ node.sent;
          states = map (row_after c.proof.now (record updated { status = failed })) node.states;
        },
      )
  unfolding publish_updated save_failure publish_proof record_transaction update_identity_state
  publish_updated-lost q tx e hq hs hf hg ha = ground (
    arith,
    update_identity_state_lem c.proof.now (record updated { status = failed }) node.states,
  )

-- The rows that name a state have the given status and transaction.
abbrev pub Saved : String → Status → Option String → Table → Type 0
Saved state status tx [] = Unit
Saved state status tx (r ∷ rows) =
    (str_eq r.state state ≡ true → (r.status ≡ status) × (r.tx_id ≡ tx))
    × Saved state status tx rows

Saved-map :
    (now : ℕ) (s : IdentityState) (rows : Table)
    → Saved s.state s.status s.tx_id (map (row_after now s) rows)
Saved-map now s [] = tt
Saved-map now s (r ∷ rows) = ground (arith, Saved-map now s rows)

-- An update that succeeds has saved the state in the rows that name it.
update_identity_state-Saved :
    (fault : Option Error) (now : ℕ) (s : IdentityState) (rows : Table)
    → (update_identity_state fault now s rows).0 ≡ ok tt
    → Saved s.state s.status s.tx_id (update_identity_state fault now s rows).1
update_identity_state-Saved (some e) now s rows h = unfold update_identity_state in cc h
update_identity_state-Saved none now s rows h = elim (Bool-cases (any (names_state s) rows)) [
  | inl e ↦ rw (update_identity_state_lem now s rows, e) (Saved-map now s rows)
  | inr e ↦ cc (rw (update_identity_state_lem now s rows, e) at h)
]

publish_proof-Saved :
    (c : ProofCalls) (identifier : String) (s : IdentityState) (node : Node) (tx : String)
    → (publish_proof c identifier s node).0 ≡ ok tx
    → Saved s.state transacted (some tx) (publish_proof c identifier s node).1.states
unfolding publish_proof record_transaction
publish_proof-Saved c identifier s node tx h = grind (arith, update_identity_state-Saved)

-- What a published state has left behind: its rows are transacted with the transaction that was
-- returned, and that transaction is the last one sent.
abbrev pub IsPublished : PublishedState → Node → Type 0
IsPublished p n = Saved p.state transacted (some p.tx_id) n.states × (head? n.sent ≡ some p.tx_id)

publish_proof-IsPublished :
    (c : ProofCalls) (identifier : String) (s : IdentityState) (node : Node) (tx : String)
    → (publish_proof c identifier s node).0 ≡ ok tx
    → IsPublished (published tx s) (publish_proof c identifier s node).1
publish_proof-IsPublished c identifier s node tx h = (
  publish_proof-Saved c identifier s node tx h,
  unfold publish_proof record_transaction in ground arith,
)

publish_updated-IsPublished :
    (c : Calls) (identifier : String) (s : IdentityState) (node : Node) (p : PublishedState)
    → (publish_updated c identifier s node).0 ≡ ok p
    → IsPublished p (publish_updated c identifier s node).1
unfolding publish_updated save_failure
publish_updated-IsPublished c identifier s node p h =
    grind (arith, publish_proof-IsPublished c.proof identifier s node)

unguarded-IsPublished :
    (c : Calls) (identifier : String) (node : Node) (p : PublishedState)
    → (publish_state_unguarded c identifier node).0 ≡ ok p
    → IsPublished p (publish_state_unguarded c identifier node).1
unfolding publish_state_unguarded
unguarded-IsPublished c identifier node p h = grind (arith, publish_updated-IsPublished)

-- Whenever PublishState succeeds, every row that names the returned state is transacted with the
-- returned transaction, and that transaction is the last one that the gateway accepted.
pub publish_state-IsPublished :
    (c : Calls) (identifier : String) (node : Node) (p : PublishedState)
    → (publish_state c identifier node).0 ≡ ok p
    → IsPublished p (publish_state c identifier node).1
unfolding publish_state guarded
publish_state-IsPublished c identifier node p h = grind (arith, unguarded-IsPublished)

-- ===== src/Publisher/Guard.antt =====
-- The guard of PublishState and RetryPublishState: when it refuses, and what it leaves behind.
use e_native_issuer.Common.{
  ℕ, ◌+◌, ◌≤◌, ◌≡◌, String, Bool, true, Option, none, some, str_eq, eq_refl, ltb, if◌then◌else◌,
  Result, ok, err, is_ok, arith,
}
use e_native_issuer.TtlMap
use e_native_issuer.TtlMap.{TtlMap}
use e_native_issuer.TtlMap.Expiry.{load-store, load-delete}
use e_native_issuer.IdentityStates.{IdentityState, Error, state_is_being_processed}
use e_native_issuer.Publisher.Node.{Node, ProofCalls}
use e_native_issuer.Publisher.Proof.{record_transaction, publish_proof}
use e_native_issuer.Publisher.Entry.{
  Calls, PublishedState, save_failure, publish_updated, publish_state_unguarded,
  retry_publish_failed_state, guarded, publish_state, retry_publish_state,
}

abbrev Work : Type 0
Work = Calls → String → Node → Result Error PublishedState × Node

-- While an entry of the identifier is alive, both entry points refuse and change nothing.
pub publish_state-refused :
    (c : Calls) (identifier : String) (node : Node) (b : Bool)
    → TtlMap.load c.at_load identifier node.pending ≡ some b
    → (publish_state c identifier node ≡ (err state_is_being_processed, node))
      × (retry_publish_state c identifier node ≡ (err state_is_being_processed, node))
unfolding publish_state retry_publish_state guarded
publish_state-refused c identifier node b h = (ground arith, ground arith)

publish_proof-pending :
    (c : ProofCalls) (identifier : String) (s : IdentityState) (node : Node)
    → (publish_proof c identifier s node).1.pending ≡ node.pending
unfolding publish_proof record_transaction
publish_proof-pending c identifier s node = ground arith

publish_updated-pending :
    (c : Calls) (identifier : String) (s : IdentityState) (node : Node)
    → (publish_updated c identifier s node).1.pending ≡ node.pending
unfolding publish_updated save_failure
publish_updated-pending c identifier s node =
    ground (arith, publish_proof-pending c.proof identifier s node)

unguarded-pending :
    (c : Calls) (identifier : String) (node : Node)
    → (publish_state_unguarded c identifier node).1.pending ≡ node.pending
unfolding publish_state_unguarded
unguarded-pending c identifier node = grind (arith, publish_updated-pending)

retry-pending :
    (c : Calls) (identifier : String) (node : Node)
    → (retry_publish_failed_state c identifier node).1.pending ≡ node.pending
unfolding retry_publish_failed_state
retry-pending c identifier node = grind (arith, publish_proof-pending)

-- What a read of the guard finds after a call of an entry point.
abbrev pub guard_after :
    Calls → String → Node → Result Error PublishedState × Node → ℕ → String → Option Bool
guard_after c identifier node result later j =
    if str_eq identifier j
    then (if is_ok result.0
        then (if ltb (c.at_store + node.pending.ttl) later then none else some true)
        else none)
    else TtlMap.load later j node.pending

guarded-guard :
    (work : Work) (c : Calls) (identifier : String) (node : Node)
    → ((n : Node) → (work c identifier n).1.pending ≡ n.pending)
    → TtlMap.load c.at_load identifier node.pending ≡ none
    → (later : ℕ) (j : String)
    → TtlMap.load later j (guarded work c identifier node).1.pending
      ≡ guard_after c identifier node (guarded work c identifier node) later j
unfolding guarded
guarded-guard work c identifier node keeps free later j =
    let locked : Node = record node {
      pending = TtlMap.store c.at_store identifier true node.pending;
    } in
    ground (
      arith,
      keeps locked,
      load-store node.pending c.at_store later identifier j true,
      load-delete (work c identifier locked).1.pending later identifier j,
      load-delete (TtlMap.store c.at_store identifier true node.pending) later identifier j,
    )

-- Where the identifier is free, PublishState leaves the guard of it set for the time to live if it
-- succeeds and free if it fails, and leaves the guard of every other identifier as it was.
pub publish_state-guard :
    (c : Calls) (identifier : String) (node : Node)
    → TtlMap.load c.at_load identifier node.pending ≡ none
    → (later : ℕ) (j : String)
    → TtlMap.load later j (publish_state c identifier node).1.pending
      ≡ guard_after c identifier node (publish_state c identifier node) later j
unfolding publish_state
publish_state-guard c identifier node =
    guarded-guard publish_state_unguarded c identifier node (unguarded-pending c identifier)

-- The same of RetryPublishState.
pub retry_publish_state-guard :
    (c : Calls) (identifier : String) (node : Node)
    → TtlMap.load c.at_load identifier node.pending ≡ none
    → (later : ℕ) (j : String)
    → TtlMap.load later j (retry_publish_state c identifier node).1.pending
      ≡ guard_after c identifier node (retry_publish_state c identifier node) later j
unfolding retry_publish_state
retry_publish_state-guard c identifier node =
    guarded-guard retry_publish_failed_state c identifier node (retry-pending c identifier)

-- After a PublishState that succeeded, another one is refused until the time to live has passed,
-- unless something releases the guard in between.
pub publish_state_twice :
    (c later : Calls) (identifier : String) (node : Node) (p : PublishedState)
    → TtlMap.load c.at_load identifier node.pending ≡ none
    → (publish_state c identifier node).0 ≡ ok p
    → later.at_load ≤ c.at_store + node.pending.ttl
    → publish_state later identifier (publish_state c identifier node).1
      ≡ (err state_is_being_processed, (publish_state c identifier node).1)
publish_state_twice c later identifier node p free done soon =
    (publish_state-refused later identifier (publish_state c identifier node).1 true (
      ground (
        arith,
        publish_state-guard c identifier node free later.at_load identifier,
        eq_refl identifier,
      ))).0

-- ===== src/Publisher/Entry.antt =====
-- The entry points of issuer-node/internal/gateways/publisher.go: PublishState and
-- RetryPublishState, with the guard on states that are being processed.
use e_native_issuer.Common.{
  ℕ, ◌*◌, ◌^◌, String, Bool, true, false, Option, none, some, Result, ok, err,
}
use e_native_issuer.TtlMap
use e_native_issuer.TtlMap.{TtlMap}
use e_native_issuer.IdentityStates.{
  IdentityState, Table, Error, no_states_to_process, state_is_being_processed,
  no_failed_states_to_process, failed, update_identity_state, get_failed_state,
}
use e_native_issuer.Publisher.Node.{Node, ProofCalls}
use e_native_issuer.Publisher.Proof.{publish_proof}

-- The constant `ttl`, 60 seconds in nanoseconds.
abbrev pub ttl : ℕ
ttl = 60 * 10 ^ 9

-- The calls of one publication. `update_state` is UpdateState of the identity service, which
-- computes the new state and saves its row: the rows that it leaves come with its answer.
-- `failure_fault` is a fault of the database while the failure is saved.
pub record Calls : Type 0 where
  pub at_load : ℕ
  pub at_store : ℕ
  pub has_unprocessed_states : Result Error Bool
  pub update_state : Table → Result Error (IdentityState × Table)
  pub failed_fault : Option Error
  pub proof : ProofCalls
  pub failure_fault : Option Error

-- PublishedState
pub record PublishedState : Type 0 where
  pub tx_id : String
  pub claims_tree_root : Option String
  pub state : String
  pub revocation_tree_root : Option String
  pub root_of_roots : Option String

abbrev pub published : String → IdentityState → PublishedState
published tx s = record {
  tx_id = tx;
  claims_tree_root = s.claims_tree_root;
  state = s.state;
  revocation_tree_root = s.revocation_tree_root;
  root_of_roots = s.root_of_roots;
}

-- publishState after a failure of publishProof: the state is saved as failed, and the error of the
-- save hides the first one.
unfoldable pub save_failure :
    Calls → IdentityState → Error → Node → Result Error PublishedState × Node
save_failure c updated e node =
    let (r, rows) =
      update_identity_state c.failure_fault c.proof.now (record updated { status = failed })
        node.states in
    elim r [ err updating ↦ (err updating, node) | ok _ ↦ (err e, record node { states = rows }) ]

-- publishState from the new state on
unfoldable pub publish_updated :
    Calls → String → IdentityState → Node → Result Error PublishedState × Node
publish_updated c identifier updated node =
    let (r, after) = publish_proof c.proof identifier updated node in
    elim r [ err e ↦ save_failure c updated e after | ok tx ↦ (ok (published tx updated), after) ]

-- publishState
unfoldable pub publish_state_unguarded : Calls → String → Node → Result Error PublishedState × Node
publish_state_unguarded c identifier node = elim c.has_unprocessed_states [
  | err e ↦ (err e, node)
  | ok false ↦ (err no_states_to_process, node)
  | ok true ↦ elim (c.update_state node.states) [
    | err e ↦ (err e, node)
    | ok (updated, rows) ↦ publish_updated c identifier updated (record node { states = rows })
  ]
]

-- retryPublishFailedState
unfoldable pub retry_publish_failed_state :
    Calls → String → Node → Result Error PublishedState × Node
retry_publish_failed_state c identifier node =
    elim (get_failed_state c.failed_fault identifier node.states) [
      | err e ↦ (err e, node)
      | ok none ↦ (err no_failed_states_to_process, node)
      | ok (some failed_state) ↦
          let (r, after) = publish_proof c.proof identifier failed_state node in
          elim r [ err e ↦ (err e, after) | ok tx ↦ (ok (published tx failed_state), after) ]
    ]

-- The guard that PublishState and RetryPublishState share.
unfoldable pub guarded :
    (Calls → String → Node → Result Error PublishedState × Node)
    → Calls
    → String
    → Node
    → Result Error PublishedState × Node
guarded work c identifier node = elim (TtlMap.load c.at_load identifier node.pending) [
  | some _ ↦ (err state_is_being_processed, node)
  | none ↦
      let (r, after) =
        work c identifier
          (record node { pending = TtlMap.store c.at_store identifier true node.pending }) in
      elim r [
        | err e ↦ (err e, record after { pending = TtlMap.delete identifier after.pending })
        | ok s ↦ (ok s, after)
      ]
]

unfoldable pub publish_state : Calls → String → Node → Result Error PublishedState × Node
publish_state = guarded publish_state_unguarded

unfoldable pub retry_publish_state : Calls → String → Node → Result Error PublishedState × Node
retry_publish_state = guarded retry_publish_failed_state

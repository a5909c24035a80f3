-- ===== src/Publisher/Proof.antt =====
-- publishProof of issuer-node/internal/gateways/publisher.go.
use e_native_issuer.Common.{
  ℕ, String, Bool, Option, none, some, ◌∷◌, is_some, not, Result, ok, err, ◌>>=◌,
}
use e_native_issuer.IdentityStates.{
  IdentityState, Table, Error, transacted, update_identity_state, get_latest_state_by_identifier,
}
use e_native_issuer.Publisher.Node.{KeyType, bjj, eth, Identity, Node, TreeState, ProofCalls}

-- ToTreeState, by BuildTreeState
unfoldable pub to_tree_state : ProofCalls → IdentityState → TreeState
to_tree_state c s = record {
  state = c.str_mt_hex (some s.state);
  claims_root = c.str_mt_hex s.claims_tree_root;
  revocation_root = c.str_mt_hex s.revocation_tree_root;
  root_of_roots = c.str_mt_hex s.root_of_roots;
}

-- The branch of publishProof on the type of the identity's key.
unfoldable pub zk_proof_data :
    ProofCalls
    → KeyType
    → String
    → IdentityState
    → IdentityState
    → ℕ
    → Bool
    → Result Error (Option ℕ)
zk_proof_data c eth did latest new_state hash is_genesis = ok none
zk_proof_data c bjj did latest new_state hash is_genesis = do
  id ← c.id_from_did did
  auth_claim ← c.get_auth_claim_for_publishing did new_state.state
  claim_data ← c.fill_auth_claim_data did auth_claim new_state
  claim_key_id ← c.get_key_id_from_auth_claim auth_claim
  sig_bytes ← c.sign claim_key_id (c.bjj_digest hash)
  signature ← c.decode_bjj_signature sig_bytes
  json_inputs ← c.inputs_marshal (record {
    id = id;
    old_tree_state = to_tree_state c latest;
    new_tree_state = to_tree_state c new_state;
    is_old_state_genesis = is_genesis;
    auth_claim = claim_data;
    signature = signature;
  })
  proof ← c.generate json_inputs
  ok (some proof)

-- What publishProof has in hand when it calls the gateway.
pub record Prepared : Type 0 where
  pub did : String
  pub identity : Identity
  pub latest_state_hash : ℕ
  pub new_state_hash : ℕ
  pub is_latest_state_genesis : Bool
  pub zk_proof : Option ℕ

-- publishProof up to the call of the gateway: it only reads.
unfoldable pub prepare : ProofCalls → IdentityState → Table → Result Error Prepared
prepare c new_state rows = do
  did ← c.parse_did new_state.identifier
  identity ← c.get_by_did did
  latest ← get_latest_state_by_identifier c.latest_fault did rows
  latest_hash ← c.hash_from_hex latest.state
  new_hash ← c.hash_from_hex new_state.state
  hash ← c.poseidon_hash (to_tree_state c latest).state new_hash
  let is_genesis = not (is_some latest.previous_state)
  proof ← zk_proof_data c identity.key_type did latest new_state hash is_genesis
  ok (record {
    did = did;
    identity = identity;
    latest_state_hash = latest_hash;
    new_state_hash = new_hash;
    is_latest_state_genesis = is_genesis;
    zk_proof = proof;
  })

-- The state that publishProof saves once the gateway has given the transaction `tx`.
abbrev pub transacted_state : String → IdentityState → IdentityState
transacted_state tx s = record s { status = transacted; tx_id = some tx }

-- publishProof from the answer of the gateway on. The goroutine that it starts is a new watcher.
unfoldable pub record_transaction :
    ProofCalls → String → IdentityState → Identity → String → Node → Result Error String × Node
record_transaction c identifier new_state identity tx node =
    let sent : Node = record node { sent = tx ∷ node.sent } in
    let saved = transacted_state tx new_state in
    let (r, rows) = update_identity_state c.save_fault c.now saved node.states in
    elim r [
      | err e ↦ (err e, sent)
      | ok _ ↦ (
        ok tx,
        record sent {
          states = rows;
          watchers =
              record { identifier = identifier; identity = identity; state = saved; tx_id = tx }
              ∷ node.watchers;
        },
      )
    ]

unfoldable pub publish_proof :
    ProofCalls → String → IdentityState → Node → Result Error String × Node
publish_proof c identifier new_state node = elim (prepare c new_state node.states) [
  | err e ↦ (err e, node)
  | ok q ↦
      elim (c.publish_state q.did q.latest_state_hash q.new_state_hash q.is_latest_state_genesis
        q.zk_proof q.identity) [
          | err e ↦ (err e, node)
          | ok tx ↦ record_transaction c identifier new_state q.identity tx node
        ]
]

-- ===== src/Publisher/Node.antt =====
-- What the publisher of issuer-node/internal/gateways/publisher.go holds and touches, and the
-- components that it calls. DIDs, keys, claims, proofs and hashes are opaque here.
use e_native_issuer.Common.{ℕ, String, Bool, Bytes, Option, List, Result}
use e_native_issuer.TtlMap.{TtlMap}
use e_native_issuer.IdentityStates.{IdentityState, Table, Error}

pub data KeyType : Type 0 where
  bjj eth : KeyType

-- The part of an identity that the publication reads.
pub record Identity : Type 0 where
  pub identifier : String
  pub key_type : KeyType

-- The messages of issuer-node/internal/core/event.
pub data Event : Type 0 where
  create_credential : List String → String → Event
  create_state : String → Event

-- The arguments that the goroutine started by publishProof closes over.
pub record Watcher : Type 0 where
  pub identifier : String
  pub identity : Identity
  pub state : IdentityState
  pub tx_id : String

-- `sent` are the transactions that the gateway has accepted, latest first; `watchers` are the
-- goroutines that wait for a transaction.
pub record Node : Type 0 where
  pub pending : TtlMap Bool
  pub states : Table
  pub sent : List String
  pub watchers : List Watcher
  pub events : List Event

-- circuits.TreeState
pub record TreeState : Type 0 where
  pub state : ℕ
  pub claims_root : ℕ
  pub revocation_root : ℕ
  pub root_of_roots : ℕ

-- What fillAuthClaimData returns: the claim with its proofs, and its proof in the new state.
pub record AuthClaimData : Type 0 where
  pub claim : ℕ
  pub inc_mtp : ℕ
  pub non_rev_mtp : ℕ
  pub new_state_inc_mtp : ℕ

-- circuits.StateTransitionInputs
pub record StateTransitionInputs : Type 0 where
  pub id : ℕ
  pub old_tree_state : TreeState
  pub new_tree_state : TreeState
  pub is_old_state_genesis : Bool
  pub auth_claim : AuthClaimData
  pub signature : ℕ

-- The calls that publishProof makes; `save_fault` and `latest_fault` are faults of the database.
pub record ProofCalls : Type 0 where
  pub now : ℕ
  pub parse_did : String → Result Error String
  pub get_by_did : String → Result Error Identity
  pub latest_fault : Option Error
  pub hash_from_hex : String → Result Error ℕ
  pub str_mt_hex : Option String → ℕ
  pub poseidon_hash : ℕ → ℕ → Result Error ℕ
  pub id_from_did : String → Result Error ℕ
  pub get_auth_claim_for_publishing : String → String → Result Error ℕ
  pub fill_auth_claim_data : String → ℕ → IdentityState → Result Error AuthClaimData
  pub get_key_id_from_auth_claim : ℕ → Result Error String
  pub bjj_digest : ℕ → Bytes
  pub sign : String → Bytes → Result Error Bytes
  pub decode_bjj_signature : Bytes → Result Error ℕ
  pub inputs_marshal : StateTransitionInputs → Result Error Bytes
  pub generate : Bytes → Result Error ℕ
  pub publish_state : String → ℕ → ℕ → Bool → Option ℕ → Identity → Result Error String
  pub save_fault : Option Error

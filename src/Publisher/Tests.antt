-- ===== src/Publisher/Tests.antt =====
-- A run of the publisher with every call answered, and the theorems at it.
use e_native_issuer.Common.{
  ◌≡◌, refl, String, true, false, Option, none, some, [], ◌∷◌, map, Result, ok, err,
}
use e_native_issuer.TtlMap
use e_native_issuer.IdentityStates.{
  IdentityState, created, failed, Error, callee, get_latest_state_by_identifier, update_state,
  update_identity_state,
}
use e_native_issuer.IdentityStates.Tests.{row, rows}
use e_native_issuer.IdentityStates.Rows.{row_after}
use e_native_issuer.Publisher.Node.{Node, Identity, bjj, ProofCalls}
use e_native_issuer.Publisher.Proof.{
  Prepared, prepare, zk_proof_data, to_tree_state, record_transaction, publish_proof,
}
use e_native_issuer.Publisher.Entry.{
  Calls, published, ttl, publish_state, guarded, publish_state_unguarded, publish_updated,
}
use e_native_issuer.Publisher.Guard.{guard_after, publish_state-guard}
use e_native_issuer.Publisher.Outcome.{IsPublished, publish_updated-lost, publish_state-IsPublished}

abbrev pub did : String
did = "did:x:c:n:a"

abbrev pub issuer : Identity
issuer = record { identifier = did; key_type = bjj }

abbrev pub new_row : IdentityState
new_row = row 5 did "s5" (some "s2") created

abbrev pub node : Node
node = record {
  pending = record { ttl = ttl; entries = λ k. none };
  states = new_row ∷ rows;
  sent = [];
  watchers = [];
  events = [];
}

-- Each call succeeds, but for the faults given.
abbrev pub proof_calls : Result Error String → Option Error → ProofCalls
proof_calls answer fault = record {
  now = 50;
  parse_did = λ d. ok d;
  get_by_did = λ d. ok issuer;
  latest_fault = none;
  hash_from_hex = λ s. ok 1;
  str_mt_hex = λ s. 2;
  poseidon_hash = λ a b. ok 3;
  id_from_did = λ d. ok 4;
  get_auth_claim_for_publishing = λ d s. ok 5;
  fill_auth_claim_data =
      λ d a s. ok (record { claim = 1; inc_mtp = 2; non_rev_mtp = 3; new_state_inc_mtp = 4 });
  get_key_id_from_auth_claim = λ a. ok "key";
  bjj_digest = λ n. n ∷ [];
  sign = λ k d. ok d;
  decode_bjj_signature = λ d. ok 6;
  inputs_marshal = λ i. ok [];
  generate = λ b. ok 7;
  publish_state = λ d a b g p i. answer;
  save_fault = fault;
}

abbrev pub calls : Result Error String → Option Error → Calls
calls answer fault = record {
  at_load = 10;
  at_store = 20;
  has_unprocessed_states = ok true;
  update_state = λ rows. ok (new_row, rows);
  failed_fault = none;
  proof = proof_calls answer fault;
  failure_fault = none;
}

abbrev pub good : Calls
good = calls (ok "0x1") none

abbrev pub later : Calls
later = record good { at_load = 30 }

abbrev pub prepared : Prepared
prepared = record {
  did = did;
  identity = issuer;
  latest_state_hash = 1;
  new_state_hash = 1;
  is_latest_state_genesis = false;
  zk_proof = some 7;
}

is_prepared :
    (answer : Result Error String) (fault : Option Error)
    → prepare (proof_calls answer fault) new_row node.states ≡ ok prepared
unfolding prepare get_latest_state_by_identifier zk_proof_data to_tree_state
is_prepared answer fault = refl

pub free_at_10 : TtlMap.load 10 did node.pending ≡ none
unfolding TtlMap.load
free_at_10 = refl

run_ok : (publish_state good did node).0 ≡ ok (published "0x1" new_row)
unfolding publish_state guarded publish_state_unguarded publish_updated publish_proof
    record_transaction prepare get_latest_state_by_identifier zk_proof_data to_tree_state
    update_identity_state update_state TtlMap.load
run_ok = refl

pub held_node : Node
unfolding TtlMap.store
held_node = record node { pending = TtlMap.store 5 did true node.pending }

pub held_at_10 : TtlMap.load 10 did held_node.pending ≡ some true
unfolding held_node TtlMap.load TtlMap.store
held_at_10 = refl

publish_state-guard_example :
    TtlMap.load 99 did (publish_state good did node).1.pending
    ≡ guard_after good did node (publish_state good did node) 99 did
publish_state-guard_example = publish_state-guard good did node free_at_10 99 did

publish_state-IsPublished_example :
    IsPublished (published "0x1" new_row) (publish_state good did node).1
publish_state-IsPublished_example =
    publish_state-IsPublished good did node (published "0x1" new_row) run_ok

publish_updated-lost_example :
    publish_updated (calls (ok "0x1") (some (callee 2))) did new_row node ≡ (
      err (callee 2),
      record node {
        sent = "0x1" ∷ [];
        states = map (row_after 50 (record new_row { status = failed })) node.states;
      },
    )
publish_updated-lost_example =
    publish_updated-lost (calls (ok "0x1") (some (callee 2))) did new_row node prepared "0x1"
      (callee 2) (is_prepared (ok "0x1") (some (callee 2))) refl refl refl refl

-- ===== src/Credential/Tests.antt =====
-- Revocations and new states at concrete values, with an association list for the merkle tree.
use e_native_issuer.Common.{
  ℕ, zero, ◌≡◌, refl, sym, ◌∙◌, true, false, Option, none, some, [], ◌∷◌, any, ok, err, arith, suc,
  ap, Bool-cases, inl, inr, ◌==◌,
}
use e_native_issuer.IdentityStates.{
  IdentityState, created, confirmed, get_latest_state_by_identifier,
}
use e_native_issuer.Credential.{
  Claim, Error, claim_does_not_exist, auth_credential_cannot_be_revoked, Trees, Store, callee,
}
use e_native_issuer.Credential.Repository.{
  has_nonce, is_published, get_by_revocation_nonce, find_claims_by_schema_hash, upsert, save,
  revoke_nonce, get_non_revoked_by_connection_and_issuer_id,
}
use e_native_issuer.Credential.Revoke.{
  RevokeCalls, can_revoke_nonce, allowed, trees_of, revoke_claim, save_revoked, revocation,
  record_revocation, revoke, revoke_each, revoke_all_from_connection, delete_credential,
}
use e_native_issuer.Credential.Rows.{revoked_where}
use e_native_issuer.Credential.Revoked.{FindsAdded, revoke-marks}
use e_native_issuer.Credential.Auth.{revoke-keeps_auth}
use e_native_issuer.Credential.Deleted.{delete-keeps_auth}
use e_native_issuer.Credential.Partial.{Marked, revoke-unknown, revoke_all-partial}
use e_native_issuer.Credential.State.{
  get_all_by_state, update_claims, add_claims, UpdateCalls, with_root, populate_identity_state,
  save_state, push_hashes, gathered, write_state, next_state, update_state,
}
use e_native_issuer.Credential.Published.{TakesIn, update_state-TakesIn, update_state-again}
use e_native_issuer.Credential.Taken.{KeepsAdded}
use e_native_issuer.Credential.Example.{Tree, get_in, add_in, lists}

add_in-get :
    (o : Option ℕ) (k v : ℕ) (t new : Tree) → add_in o k v t ≡ ok new → get_in k new ≡ some v
add_in-get none k v t new h =
    let e : (k, v) ∷ t ≡ new = ground (arith, h) in ap (get_in k) (sym e) ∙ ground arith
add_in-get (some w) k v t new h = ground (arith, h)

add_in-keeps :
    (o : Option ℕ) (k v j w : ℕ) (t new : Tree)
    → get_in k t ≡ o
    → add_in o k v t ≡ ok new
    → get_in j t ≡ some w
    → get_in j new ≡ some w
add_in-keeps none k v j w t new e h there =
    let added : (k, v) ∷ t ≡ new = ground (arith, h) in
    let other : (k == j) ≡ false = elim (Bool-cases (k == j)) [
      | inl f ↦
          let same : k ≡ j = ground (arith, f) in
          absurd (ground (arith, ap (λ i. get_in i t) same, e, there))
      | inr f ↦ f
    ] in
    ap (get_in j) (sym added) ∙ ground (arith, other, there)
add_in-keeps (some x) k v j w t new e h there = absurd (ground (arith, h))

lists-KeepsAdded : KeepsAdded lists
lists-KeepsAdded k v j w t new h there =
    ap ok (add_in-keeps (get_in k t) k v j w t new refl h (ground (arith, there)))

lists-FindsAdded : FindsAdded lists
lists-FindsAdded k v t new h = ap ok (add_in-get (get_in k t) k v t new h)

abbrev auth_claim : Claim
auth_claim = record {
  id = 1;
  identifier = some "i";
  issuer = "i";
  other_identifier = "";
  schema_hash = "auth";
  rev_nonce = 0;
  revoked = false;
  mtp_proof = some 1;
  core_claim = 11;
  identity_state = some "genesis";
  mtp = true;
  link_id = none;
  created_at = 5;
  columns = 0;
}

abbrev kyc_claim : Claim
kyc_claim = record auth_claim {
  id = 2;
  other_identifier = "u";
  schema_hash = "kyc";
  rev_nonce = 7;
  mtp_proof = none;
  core_claim = 12;
  identity_state = none;
  link_id = some 3;
}

abbrev second_claim : Claim
second_claim = record kyc_claim { id = 3; rev_nonce = 8; core_claim = 13 }

abbrev genesis : IdentityState
genesis = record {
  state_id = 1;
  identifier = "i";
  state = "genesis";
  root_of_roots = none;
  claims_tree_root = none;
  revocation_tree_root = none;
  block_timestamp = none;
  block_number = none;
  tx_id = none;
  previous_state = none;
  status = confirmed;
  modified_at = 0;
  created_at = 0;
}

abbrev db : Store Tree
db = record {
  claims = auth_claim ∷ kyc_claim ∷ second_claim ∷ [];
  revocations = [];
  connections = record { id = 9; issuer_id = "i"; user_id = "u" } ∷ [];
  states = genesis ∷ [];
  trees = record { identifier = "i"; claims = (11, 11) ∷ []; revocations = []; roots = [] } ∷ [];
}

abbrev quiet : RevokeCalls
quiet = record {
  auth_hash = ok "auth";
  first_fault = none;
  auth_fault = none;
  trees_fault = none;
  second_fault = none;
  save_fault = λ n. none;
  nonce_fault = none;
  fresh = 100;
}

revoke-marks_example :
    ((revoke lists quiet "i" 7 "lost" db).1.claims ≡ revoked_where (has_nonce "i" 7) db.claims)
    × (any (has_nonce "i" 7) db.claims ≡ true)
    × ((revoke lists quiet "i" 7 "lost" db).1.revocations ≡ revocation "i" 7 "lost" ∷ [])
    × (trees : Trees Tree) × (trees_of "i" (revoke lists quiet "i" 7 "lost" db).1.trees ≡ ok trees)
    × (lists.get 7 trees.revocations ≡ ok (some 0))
unfolding revoke allowed can_revoke_nonce get_by_revocation_nonce revoke_claim record_revocation
    save_revoked save upsert revoke_nonce revocation
revoke-marks_example =
    revoke-marks lists quiet "i" 7 "lost" db lists-FindsAdded
      (refl, refl, (refl, refl, (refl, refl, tt))) refl

-- The only auth credential cannot be revoked.
revoke_test : revoke lists quiet "i" 0 "" db ≡ (err auth_credential_cannot_be_revoked, db)
unfolding revoke allowed can_revoke_nonce get_by_revocation_nonce find_claims_by_schema_hash
revoke_test = refl

revoke-keeps_auth_example :
    any (is_published "i" "auth") (revoke lists quiet "i" 0 "" db).1.claims ≡ true
revoke-keeps_auth_example =
    revoke-keeps_auth lists quiet "i" "auth" 0 "" db (refl, refl, (refl, refl, (refl, refl, tt)))
      refl refl refl

delete-keeps_auth_example :
    any (is_published "i" "auth") (delete_credential none (ok "auth") none none "i" 1 db).1.claims
    ≡ true
delete-keeps_auth_example =
    delete-keeps_auth none none none "i" "auth" 1 db (refl, refl, (refl, refl, (refl, refl, tt)))
      refl

abbrev with_nonce : Store Tree
with_nonce = record db {
  trees =
      record { identifier = "i"; claims = (11, 11) ∷ []; revocations = (55, 0) ∷ []; roots = [] }
      ∷ [];
}

revoke-unknown_example :
    ((revoke lists quiet "i" 55 "" db).0 ≡ err claim_does_not_exist)
    × (trees : Trees Tree) × (trees_of "i" (revoke lists quiet "i" 55 "" db).1.trees ≡ ok trees)
    × (lists.get 55 trees.revocations ≡ ok (some 0))
unfolding revoke_claim
revoke-unknown_example =
    revoke-unknown lists quiet "i" "auth" 55 "" db with_nonce lists-FindsAdded refl refl refl refl
      refl

-- The second credential of the connection meets a fault of the database.
abbrev second_fails : ℕ → RevokeCalls
second_fails zero = quiet
second_fails (suc n) = record quiet { nonce_fault = some (callee 2) }

revoke_all-partial_example :
    ((revoke_all_from_connection lists none second_fails 9 "i" db).1.trees ≡ db.trees)
    × Marked "i" 7 (revoke_all_from_connection lists none second_fails 9 "i" db).1.claims
unfolding revoke_all_from_connection revoke_each get_non_revoked_by_connection_and_issuer_id revoke
    allowed can_revoke_nonce get_by_revocation_nonce revoke_claim record_revocation save_revoked
    save upsert revoke_nonce revocation
revoke_all-partial_example =
    revoke_all-partial lists second_fails 9 "i" db (record kyc_claim { link_id = none })
      (record second_claim { link_id = none } ∷ []) (callee 2)
      (refl, refl, (refl, refl, (refl, refl, tt))) refl refl refl

abbrev update_calls : UpdateCalls
update_calls = record {
  now = 50;
  state_id = 2;
  prefix_fault = none;
  trees_fault = none;
  latest_fault = false;
  claims_fault = none;
  status_fault = none;
  update_fault = none;
  save_fault = none;
  publishers = ok [];
  ignore_rhs_errors = false;
}

-- A claim of the identity that waits.
abbrev waiting : Store Tree
waiting = record db { claims = auth_claim ∷ kyc_claim ∷ [] }

abbrev next : IdentityState
next = record genesis {
  state_id = 0;
  state = "state";
  root_of_roots = some "state";
  claims_tree_root = some "state";
  revocation_tree_root = some "state";
  previous_state = some "genesis";
  status = created;
}

update_state-TakesIn_example :
    TakesIn lists "i" waiting next (update_state lists update_calls "i" waiting).1
unfolding update_state next_state gathered write_state get_latest_state_by_identifier
    get_all_by_state add_claims populate_identity_state with_root update_claims save_state
    push_hashes
update_state-TakesIn_example =
    update_state-TakesIn lists update_calls "i" waiting next lists-FindsAdded lists-KeepsAdded refl

update_state-again_example :
    (e : Error) × (update_state lists update_calls "i"
        (update_state lists update_calls "i" waiting).1
      ≡ (err e, (update_state lists update_calls "i" waiting).1))
unfolding update_state next_state gathered write_state get_latest_state_by_identifier
    get_all_by_state add_claims populate_identity_state with_root update_claims save_state
    push_hashes
update_state-again_example =
    update_state-again lists update_calls update_calls "i" waiting next lists-FindsAdded refl

-- ===== src/IdentityStates/Tests.antt =====
-- Rows for the runs, and the theorems about the table at them.
use e_native_issuer.Common.{ℕ, ◌≡◌, refl, String, Option, none, some, [], ◌∷◌, ok, err}
use e_native_issuer.IdentityStates.{
  IdentityState, Status, transacted, confirmed, failed, Table, not_updated, update_state,
  update_identity_state, get_latest_state_by_identifier, get_failed_state,
  get_states_by_status_and_issuer_id,
}

abbrev pub row : ℕ → String → String → Option String → Status → IdentityState
row id identifier state previous status = record {
  state_id = id;
  identifier = identifier;
  state = state;
  root_of_roots = none;
  claims_tree_root = none;
  revocation_tree_root = none;
  block_timestamp = none;
  block_number = none;
  tx_id = none;
  previous_state = previous;
  status = status;
  modified_at = id;
  created_at = id;
}

abbrev pub rows : Table
rows =
    row 1 "did:x:c:n:a" "s1" none confirmed
    ∷ row 2 "did:x:c:n:a" "s2" (some "s1") confirmed
    ∷ row 3 "did:x:c:n:a" "s3" (some "s2") failed
    ∷ row 4 "did:x:c:n:a" "s4" (some "s2") failed
    ∷ []

latest_row :
    get_latest_state_by_identifier none "did:x:c:n:a" rows
    ≡ ok (row 2 "did:x:c:n:a" "s2" (some "s1") confirmed)
unfolding get_latest_state_by_identifier
latest_row = refl

failed_row :
    get_failed_state none "did:x:c:n:a" rows
    ≡ ok (some (row 4 "did:x:c:n:a" "s4" (some "s2") failed))
unfolding get_failed_state get_states_by_status_and_issuer_id
failed_row = refl

missing_row :
    update_identity_state none 9 (row 7 "did:x:c:n:a" "s7" none failed) rows
    ≡ (err not_updated, rows)
unfolding update_identity_state update_state
missing_row = refl

abbrev third : IdentityState
third = row 3 "did:x:c:n:a" "s3" (some "s2") transacted

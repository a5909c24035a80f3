-- ===== src/IdentityStates.antt =====
-- The identity states and their table: issuer-node/internal/core/domain/identity_state.go,
-- issuer-node/internal/repositories/identity_state.go and the calls of
-- issuer-node/internal/core/services/identity.go that read and update one state.
-- The table is a list of rows. A statement that the database refuses is an argument `fault`.
pub mod Rows
pub mod Tests
use e_native_issuer.Common.{
  ℕ, suc, String, Bool, true, false, Option, none, some, List, [], ◌∷◌, str_eq, ltb, leb, ◌==◌,
  ◌&&◌, if◌then◌else◌, is_some, head?, keep, sort_desc, Result, ok, err,
}

-- IdentityStatus
pub data Status : Type 0 where
  created transacted confirmed failed : Status

abbrev pub status_eq : Status → Status → Bool
status_eq created created = true
status_eq transacted transacted = true
status_eq confirmed confirmed = true
status_eq failed failed = true
status_eq _ _ = false

-- IdentityState. The column `state` is not nullable, so `state` is not a pointer here.
pub record IdentityState : Type 0 where
  pub state_id : ℕ
  pub identifier : String
  pub state : String
  pub root_of_roots : Option String
  pub claims_tree_root : Option String
  pub revocation_tree_root : Option String
  pub block_timestamp : Option ℕ
  pub block_number : Option ℕ
  pub tx_id : Option String
  pub previous_state : Option String
  pub status : Status
  pub modified_at : ℕ
  pub created_at : ℕ

-- The errors of the publication of states. `callee` is an error that a called component returned.
pub data Error : Type 0 where
  no_states_to_process state_is_being_processed no_failed_states_to_process : Error
  no_rows not_updated not_confirmed dereference invalid_identifier : Error
  callee : ℕ → Error

abbrev pub Table : Type 0
Table = List IdentityState

-- The columns that UPDATE sets; the trigger of the table sets the time of modification.
abbrev pub updated_row : ℕ → IdentityState → IdentityState → IdentityState
updated_row now new row = record row {
  block_timestamp = new.block_timestamp;
  block_number = new.block_number;
  tx_id = new.tx_id;
  status = new.status;
  modified_at = now;
}

-- UpdateState: the new table and the number of rows affected.
unfoldable pub update_state : ℕ → IdentityState → Table → Table × ℕ
update_state now new [] = ([], 0)
update_state now new (row ∷ rows) =
    let (rest, affected) = update_state now new rows in
    if str_eq row.state new.state
    then (updated_row now new row ∷ rest, suc affected)
    else (row ∷ rest, affected)

-- UpdateIdentityState of the identity service, in a transaction that an error rolls back.
unfoldable pub update_identity_state :
    Option Error → ℕ → IdentityState → Table → Result Error (Unit {0}) × Table
update_identity_state (some e) now new rows = (err e, rows)
update_identity_state none now new rows =
    let (rows', affected) = update_state now new rows in
    if affected == 0 then (err not_updated, rows) else (ok tt, rows')

-- GetLatestStateByIdentifier
unfoldable pub get_latest_state_by_identifier :
    Option Error → String → Table → Result Error IdentityState
get_latest_state_by_identifier (some e) identifier rows = err e
get_latest_state_by_identifier none identifier rows =
    elim (head? (
      sort_desc (λ r. r.state_id)
        (keep (λ r. str_eq r.identifier identifier && status_eq r.status confirmed) rows))) [
          | none ↦ err no_rows
          | some r ↦ ok r
        ]

-- GetStatesByStatus
unfoldable pub get_states_by_status : Option Error → Status → Table → Result Error Table
get_states_by_status (some e) status rows = err e
get_states_by_status none status rows =
    ok (keep (λ r. status_eq r.status status && is_some r.previous_state) rows)

-- GetStatesByStatusAndIssuerID, newest first
unfoldable pub get_states_by_status_and_issuer_id :
    Option Error → Status → String → Table → Result Error Table
get_states_by_status_and_issuer_id (some e) status issuer rows = err e
get_states_by_status_and_issuer_id none status issuer rows = ok (
    sort_desc (λ r. r.created_at)
      (keep
        (λ r. str_eq r.identifier issuer && status_eq r.status status && is_some r.previous_state)
        rows))

-- GetFailedState of the identity service
unfoldable pub get_failed_state :
    Option Error → String → Table → Result Error (Option IdentityState)
get_failed_state fault identifier rows =
    elim (get_states_by_status_and_issuer_id fault failed identifier rows) [
      | err e ↦ err e
      | ok states ↦ ok (head? states)
    ]

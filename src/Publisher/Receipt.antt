-- ===== src/Publisher/Receipt.antt =====
-- What happens once a transaction has a receipt: updateTransactionStatus,
-- updateIdentityStateTxStatus and groupByUserId of issuer-node/internal/gateways/publisher.go, and
-- the end of UpdateClaimsMTPAndState of issuer-node/internal/core/services/claims.go.
use e_native_issuer.Common.{
  ℕ, String, Bool, true, false, Option, none, some, List, [], ◌∷◌, ◌++◌, map, keep, str_eq,
  if◌then◌else◌, Result, ok, err,
}
use e_native_issuer.TtlMap
use e_native_issuer.IdentityStates.{
  IdentityState, Table, Error, confirmed, failed, not_confirmed, update_state,
  update_identity_state,
}
use e_native_issuer.Publisher.Node.{Node, Identity, Watcher, Event, create_credential, create_state}

-- types.Receipt, and whether its status is ReceiptStatusSuccessful
pub record Receipt : Type 0 where
  pub successful : Bool
  pub block_number : ℕ

-- A credential, by its holder and its id.
pub record Credential : Type 0 where
  pub other_identifier : String
  pub id : String

-- The calls of updateIdentityStateTxStatus. `claims_fault` is an error of the part of
-- UpdateClaimsMTPAndState that computes and saves the proofs of the claims; `delivered` says
-- whether the message broker takes an event.
pub record ReceiptCalls : Type 0 where
  pub now : ℕ
  pub get_header_by_number : ℕ → Result Error ℕ
  pub claims_fault : Option Error
  pub update_fault : Option Error
  pub parse_did : String → Result Error String
  pub get_by_state_id_with_mtp_proof : String → String → Result Error (List Credential)
  pub delivered : Event → Bool

-- grouped[user] = append(grouped[user], id). The groups stand in the order of first appearance;
-- the source leaves the order open.
unfoldable pub add_to_group :
    String → String → List (String × List String) → List (String × List String)
add_to_group user id [] = (user, id ∷ []) ∷ []
add_to_group user id ((u, ids) ∷ groups) =
    if str_eq u user then (u, ids ++ id ∷ []) ∷ groups else (u, ids) ∷ add_to_group user id groups

unfoldable pub group_onto :
    List (String × List String) → List Credential → List (String × List String)
group_onto groups [] = groups
group_onto groups (c ∷ cs) = group_onto (add_to_group c.other_identifier c.id groups) cs

unfoldable pub group_by_user_id : List Credential → List (String × List String)
group_by_user_id = group_onto []

-- The events that a confirmed state gives, one for each holder and one for the state.
unfoldable pub notifications : IdentityState → List Credential → List Event
notifications s claims =
    map (λ g. create_credential g.1 s.identifier) (group_by_user_id claims)
    ++ create_state s.state ∷ []

-- UpdateClaimsMTPAndState: the number of rows that the last statement affects is not looked at.
unfoldable pub update_claims_mtp_and_state :
    ReceiptCalls → IdentityState → Table → Result Error (Unit {0}) × Table
update_claims_mtp_and_state c s rows = elim c.claims_fault [
  | some e ↦ (err e, rows)
  | none ↦ elim c.update_fault [
    | some e ↦ (err e, rows)
    | none ↦ (ok tt, (update_state c.now s rows).0)
  ]
]

-- The branch of a successful receipt. A failed update of the state does not stop the
-- notifications, and is returned at the end.
unfoldable pub confirm : ReceiptCalls → IdentityState → Node → Result Error (Unit {0}) × Node
confirm c s node =
    let (r, rows) = update_claims_mtp_and_state c s node.states in
    let after : Node = record node { states = rows } in
    elim (c.parse_did s.identifier) [
      | err e ↦ (err e, after)
      | ok did ↦ elim (c.get_by_state_id_with_mtp_proof did s.state) [
        | err e ↦ (err e, after)
        | ok claims ↦
            (r, record after { events = after.events ++ keep c.delivered (notifications s claims) })
      ]
    ]

unfoldable pub reject_transaction :
    ReceiptCalls → IdentityState → Node → Result Error (Unit {0}) × Node
reject_transaction c s node =
    let (r, rows) = update_identity_state c.update_fault c.now s node.states in
    (r, record node { states = rows })

-- The state with the block of the receipt
abbrev pub mined : Receipt → ℕ → IdentityState → IdentityState
mined receipt time s = record s {
  block_number = some receipt.block_number;
  block_timestamp = some time;
}

-- updateIdentityStateTxStatus
unfoldable pub update_identity_state_tx_status :
    ReceiptCalls → IdentityState → Receipt → Node → Result Error (Unit {0}) × Node
update_identity_state_tx_status c s receipt node =
    elim (c.get_header_by_number receipt.block_number) [
      | err e ↦ (err e, node)
      | ok time ↦
          if receipt.successful
          then confirm c (record (mined receipt time s) { status = confirmed }) node
          else reject_transaction c (record (mined receipt time s) { status = failed }) node
    ]

-- The calls of the goroutine that waits for a transaction.
pub record WaitCalls : Type 0 where
  pub wait_for_transaction_receipt : Identity → String → Result Error Receipt
  pub wait_for_confirmation : Identity → Receipt → Result Error Bool
  pub receipt_calls : ReceiptCalls

-- updateTransactionStatus
unfoldable pub update_transaction_status :
    WaitCalls → Watcher → Node → Result Error (Unit {0}) × Node
update_transaction_status c w node = elim (c.wait_for_transaction_receipt w.identity w.tx_id) [
  | err e ↦ (err e, node)
  | ok receipt ↦
      let update = update_identity_state_tx_status c.receipt_calls w.state receipt node in
      if receipt.successful
      then (elim (c.wait_for_confirmation w.identity receipt) [
        | err e ↦ (err not_confirmed, node)
        | ok false ↦ (err not_confirmed, node)
        | ok true ↦ update
      ])
      else update
]

-- The goroutine of publishProof: its error is only logged, and the guard is released.
unfoldable pub finish : WaitCalls → Watcher → Node → Node
finish c w node =
    let after = (update_transaction_status c w node).1 in
    record after { pending = TtlMap.delete w.identifier after.pending }

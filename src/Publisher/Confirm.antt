-- ===== src/Publisher/Confirm.antt =====
-- What the end of a transaction leaves behind: the guard, the rows and the notifications.
use mathlib.Core.List.{append_assoc, append-nil}
use e_native_issuer.Common.{
  ℕ, ◌≡◌, sym, ◌∙◌, String, Bool, true, false, none, some, List, [], ◌∷◌, ◌++◌, map, keep, any,
  str_eq, eq_iff, if◌then◌else◌, ok, err, arith, Bool-cases, inl, inr,
}
use e_native_issuer.TtlMap
use e_native_issuer.TtlMap.Expiry.{load-delete}
use e_native_issuer.IdentityStates.{IdentityState, Error, confirmed, failed}
use e_native_issuer.IdentityStates.Rows.{
  row_after, names_state, update_state-map, update_identity_state_lem,
}
use e_native_issuer.Publisher.Node.{Node, Watcher}
use e_native_issuer.Publisher.Receipt.{
  Receipt, ReceiptCalls, Credential, WaitCalls, add_to_group, group_onto, group_by_user_id,
  notifications, update_claims_mtp_and_state, confirm, reject_transaction, mined,
  update_identity_state_tx_status, update_transaction_status, finish,
}

tx_status-pending :
    (c : ReceiptCalls) (s : IdentityState) (r : Receipt) (node : Node)
    → (update_identity_state_tx_status c s r node).1.pending ≡ node.pending
unfolding update_identity_state_tx_status confirm reject_transaction
tx_status-pending c s r node = ground arith

transaction_status-pending :
    (c : WaitCalls) (w : Watcher) (node : Node)
    → (update_transaction_status c w node).1.pending ≡ node.pending
unfolding update_transaction_status
transaction_status-pending c w node = grind (arith, tx_status-pending)

-- However the wait for a transaction ends, the guard of its identifier is free afterwards, and the
-- guard of every other identifier is as it was.
pub finish-releases :
    (c : WaitCalls) (w : Watcher) (node : Node) (later : ℕ) (j : String)
    → TtlMap.load later j (finish c w node).pending
      ≡ (if str_eq w.identifier j then none else TtlMap.load later j node.pending)
unfolding finish
finish-releases c w node later j =
    rw (load-delete (update_transaction_status c w node).1.pending later w.identifier j)
      (rw (transaction_status-pending c w node))

module _ (c : ReceiptCalls) (s : IdentityState) (r : Receipt) (node : Node) (time : ℕ) where
  -- The receipt of a failed transaction, where its block is found, the database has no fault and
  -- some row names the state, marks every row of the state as failed, with the block of the
  -- receipt, and sends no event.
  pub tx_status-failed :
      c.get_header_by_number r.block_number ≡ ok time
      → r.successful ≡ false
      → c.update_fault ≡ none
      → any (names_state s) node.states ≡ true
      → update_identity_state_tx_status c s r node ≡ (
        ok tt,
        record node {
          states = map (row_after c.now (record (mined r time s) { status = failed })) node.states;
        },
      )
  unfolding update_identity_state_tx_status reject_transaction
  tx_status-failed hh hr hf ha = ground (
    arith,
    update_identity_state_lem c.now (record (mined r time s) { status = failed }) node.states,
  )

  -- The receipt of a successful transaction, with no fault on the way, marks every row of the state
  -- as confirmed, with the block of the receipt, and sends those events for the credentials with a
  -- proof and for the state that the broker takes.
  pub tx_status-confirmed :
      (did : String) (claims : List Credential)
      → c.get_header_by_number r.block_number ≡ ok time
      → r.successful ≡ true
      → c.claims_fault ≡ none
      → c.update_fault ≡ none
      → c.parse_did s.identifier ≡ ok did
      → c.get_by_state_id_with_mtp_proof did s.state ≡ ok claims
      → update_identity_state_tx_status c s r node ≡ (
        ok tt,
        record node {
          states =
              map (row_after c.now (record (mined r time s) { status = confirmed })) node.states;
          events = node.events ++ keep c.delivered (notifications s claims);
        },
      )
  unfolding update_identity_state_tx_status confirm update_claims_mtp_and_state notifications
  tx_status-confirmed did claims hh hr hc hf hp hg =
      ground
        (arith, update_state-map c.now (record (mined r time s) { status = confirmed }) node.states)

  -- For a successful transaction where the update of the claims fails and nothing else does, the
  -- rows stay as they are and the error is returned, and yet the events for the credentials with a
  -- proof and for the state that the broker takes are sent.
  pub tx_status-notifies_unconfirmed :
      (did : String) (claims : List Credential) (e : Error)
      → c.get_header_by_number r.block_number ≡ ok time
      → r.successful ≡ true
      → c.claims_fault ≡ some e
      → c.parse_did s.identifier ≡ ok did
      → c.get_by_state_id_with_mtp_proof did s.state ≡ ok claims
      → update_identity_state_tx_status c s r node
        ≡ (err e, record node { events = node.events ++ keep c.delivered (notifications s claims) })
  unfolding update_identity_state_tx_status confirm update_claims_mtp_and_state notifications
  tx_status-notifies_unconfirmed did claims e hh hr hc hp hg = ground arith

-- The ids that the groups give to a user, and the users that the groups name.
abbrev pub ids_of : String → List (String × List String) → List String
ids_of user [] = []
ids_of user ((u, ids) ∷ groups) = if str_eq u user then ids else ids_of user groups

abbrev pub held_by : String → Credential → Bool
held_by user c = str_eq c.other_identifier user

abbrev pub ids : List Credential → List String
ids = map (λ c. c.id)

ids_of-add :
    (user u id : String) (groups : List (String × List String))
    → ids_of user (add_to_group u id groups)
      ≡ (if str_eq u user then ids_of user groups ++ id ∷ [] else ids_of user groups)
unfolding add_to_group
ids_of-add user u id [] = ground arith
ids_of-add user u id ((v, vs) ∷ groups) =
    ground (arith, ids_of-add user u id groups, eq_iff v u, eq_iff u user, eq_iff v user)

ids_of-group_onto :
    (user : String) (groups : List (String × List String)) (cs : List Credential)
    → ids_of user (group_onto groups cs) ≡ ids_of user groups ++ ids (keep (held_by user) cs)
unfolding group_onto
ids_of-group_onto user groups [] = sym (append-nil (ids_of user groups))
ids_of-group_onto user groups (c ∷ cs) =
    let rest = ids_of-group_onto user (add_to_group c.other_identifier c.id groups) cs in
    let added = ids_of-add user c.other_identifier c.id groups in
    elim (Bool-cases (held_by user c)) [
      | inl e ↦ rw e (rest ∙ (rw (added, e) (append_assoc (ids_of user groups) (c.id ∷ []) _)))
      | inr e ↦ rw e (rest ∙ (rw (added, e)))
    ]

-- Each user's group holds exactly the ids of the credentials that the user holds, in their order.
pub group_by_user_id_lem :
    (user : String) (cs : List Credential)
    → ids_of user (group_by_user_id cs) ≡ ids (keep (held_by user) cs)
unfolding group_by_user_id
group_by_user_id_lem user cs = ids_of-group_onto user [] cs

-- ===== src/Publisher/Job.antt =====
-- What a run of CheckTransactionStatus can change.
use mathlib.Core.Path.{◌≡◌, refl, ap, ◌∙◌}
use e_native_issuer.Common.{
  ℕ, String, Bool, true, false, Option, none, some, List, [], ◌∷◌, map, keep, any, All, str_eq,
  eq_iff, eq_refl, ◌&&◌, is_some, arith, Bool-cases, inl, inr,
}
use e_native_issuer.IdentityStates.{
  IdentityState, Table, Error, status_eq, transacted, update_state, update_identity_state,
  get_states_by_status,
}
use e_native_issuer.IdentityStates.Rows.{
  row_after, names_state, update_state-map, update_identity_state_lem,
}
use e_native_issuer.Publisher.Node.{Node, Identity}
use e_native_issuer.Publisher.Receipt.{
  Receipt, ReceiptCalls, update_claims_mtp_and_state, confirm, reject_transaction,
  update_identity_state_tx_status,
}
use e_native_issuer.Publisher.Check.{
  CheckCalls, JobCalls, check_status, is_due, to_check, check_all, check_transaction_status,
}

-- The second table has the rows of the first, and only rows whose state passes `p` may differ.
abbrev pub OnlyAt : (String → Bool) → Table → Table → Type 0
OnlyAt p [] [] = Unit
OnlyAt p [] (r' ∷ rs') = ⊥
OnlyAt p (r ∷ rs) [] = ⊥
OnlyAt p (r ∷ rs) (r' ∷ rs') = (r'.state ≡ r.state) × (p r.state ≡ false → r' ≡ r) × OnlyAt p rs rs'

module _ (p : String → Bool) where
  OnlyAt-refl : (rs : Table) → OnlyAt p rs rs
  OnlyAt-refl [] = tt
  OnlyAt-refl (r ∷ rs) = (refl, λ _. refl, OnlyAt-refl rs)

  OnlyAt-trans : (rs ss ts : Table) → OnlyAt p rs ss → OnlyAt p ss ts → OnlyAt p rs ts
  OnlyAt-trans [] [] [] h k = tt
  OnlyAt-trans [] [] (t ∷ ts) h k = k
  OnlyAt-trans [] (s ∷ ss) ts h k = absurd h
  OnlyAt-trans (r ∷ rs) [] ts h k = absurd h
  OnlyAt-trans (r ∷ rs) (s ∷ ss) [] h k = absurd k
  OnlyAt-trans (r ∷ rs) (s ∷ ss) (t ∷ ts) h k =
      (k.0 ∙ h.0, (λ f. k.1 (ap p h.0 ∙ f) ∙ h.1 f), OnlyAt-trans rs ss ts h.2 k.2)

  module _ (now : ℕ) (s : IdentityState) (named : p s.state ≡ true) where
    row-unchanged : (r : IdentityState) → p r.state ≡ false → row_after now s r ≡ r
    row-unchanged r f = elim (Bool-cases (str_eq r.state s.state)) [
      | inl e ↦ cc (named, f, ap p ((eq_iff r.state s.state).0 e))
      | inr e ↦ rw e
    ]

    OnlyAt-map : (rs : Table) → OnlyAt p rs (map (row_after now s) rs)
    OnlyAt-map [] = tt
    OnlyAt-map (r ∷ rs) = (ground arith, row-unchanged r, OnlyAt-map rs)

    OnlyAt-update_state : (rs : Table) → OnlyAt p rs (update_state now s rs).0
    OnlyAt-update_state rs = rw (update_state-map now s rs) (OnlyAt-map rs)

    OnlyAt-update_identity_state :
        (fault : Option Error) (rs : Table) → OnlyAt p rs (update_identity_state fault now s rs).1
    OnlyAt-update_identity_state (some e) rs = unfold update_identity_state in OnlyAt-refl rs
    OnlyAt-update_identity_state none rs = elim (Bool-cases (any (names_state s) rs)) [
      | inl e ↦ rw (update_identity_state_lem now s rs, e) (OnlyAt-map rs)
      | inr e ↦ rw (update_identity_state_lem now s rs, e) (OnlyAt-refl rs)
    ]

  -- What the job keeps of the node, but for the events that it sends.
  abbrev pub Kept : Node → Node → Type 0
  Kept n m =
      OnlyAt p n.states m.states
      × (m.pending ≡ n.pending)
      × (m.sent ≡ n.sent)
      × (m.watchers ≡ n.watchers)

  Kept-refl : (n : Node) → Kept n n
  Kept-refl n = (OnlyAt-refl n.states, refl, refl, refl)

  Kept-trans : (n m o : Node) → Kept n m → Kept m o → Kept n o
  Kept-trans n m o h k =
      (OnlyAt-trans n.states m.states o.states h.0 k.0, k.1 ∙ h.1, k.2 ∙ h.2, k.3 ∙ h.3)

  confirm-Kept :
      (c : ReceiptCalls) (s : IdentityState) (n : Node)
      → p s.state ≡ true
      → Kept n (confirm c s n).1
  unfolding confirm update_claims_mtp_and_state
  confirm-Kept c s n h =
      ground (arith, OnlyAt-refl n.states, OnlyAt-update_state c.now s h n.states)

  reject-Kept :
      (c : ReceiptCalls) (s : IdentityState) (n : Node)
      → p s.state ≡ true
      → Kept n (reject_transaction c s n).1
  unfolding reject_transaction
  reject-Kept c s n h =
      ground (arith, OnlyAt-update_identity_state c.now s h c.update_fault n.states)

  tx_status-Kept :
      (c : ReceiptCalls) (s : IdentityState) (r : Receipt) (n : Node)
      → p s.state ≡ true
      → Kept n (update_identity_state_tx_status c s r n).1
  unfolding update_identity_state_tx_status
  tx_status-Kept c s r n h = grind (arith, confirm-Kept, reject-Kept, Kept-refl n)

  check_status-Kept :
      (c : CheckCalls) (given : Option Identity) (s : IdentityState) (n : Node)
      → p s.state ≡ true
      → Kept n (check_status c given s n).1
  unfolding check_status
  check_status-Kept c given s n h = grind (arith, tx_status-Kept, Kept-refl n)

  check_all-Kept :
      (c : JobCalls) (given : Option Identity) (due : List IdentityState) (n : Node)
      → All (λ s. p s.state ≡ true) due
      → Kept n (check_all c given due n)
  unfolding check_all
  check_all-Kept c given [] n h = Kept-refl n
  check_all-Kept c given (s ∷ rest) n h =
      let after = (check_status (c.check_calls s) given s n).1 in
      ground (
        arith,
        check_status-Kept (c.check_calls s) given s n h.0,
        check_all-Kept c given rest after h.1,
        Kept-trans n after (check_all c given rest after),
      )

abbrev pub names : List IdentityState → String → Bool
names l state = any (λ d. str_eq d.state state) l

names-weaken :
    (x : IdentityState) (l m : List IdentityState)
    → All (λ s. names l s.state ≡ true) m
    → All (λ s. names (x ∷ l) s.state ≡ true) m
names-weaken x l [] h = tt
names-weaken x l (s ∷ m) h = (ground arith, names-weaken x l m h.1)

names_self : (l : List IdentityState) → All (λ s. names l s.state ≡ true) l
names_self [] = tt
names_self (x ∷ l) = (ground (arith, eq_refl x.state), names-weaken x l l (names_self l))

-- The states that a run takes up: transacted ones that are not genesis states and have waited for
-- longer than the timeout of their network.
abbrev pub due_states : JobCalls → Table → List IdentityState
due_states c = keep (λ r. (status_eq r.status transacted && is_some r.previous_state) && is_due c r)

to_check-keep :
    (c : JobCalls) (p : IdentityState → Bool) (rows : Table)
    → to_check c (keep p rows) ≡ keep (λ r. p r && is_due c r) rows
unfolding to_check
to_check-keep c p [] = refl
to_check-keep c p (r ∷ rows) = ground (arith, to_check-keep c p rows)

-- A run of the job changes no row but those that share the name of a due state, and leaves the
-- guard, the transactions sent and the waiting goroutines as they are.
pub check_transaction_status-Kept :
    (c : JobCalls) (given : Option Identity) (node : Node)
    → Kept (names (due_states c node.states)) node (check_transaction_status c given node)
unfolding check_transaction_status get_states_by_status
check_transaction_status-Kept c given node =
    let due = due_states c node.states in
    ground (
      arith,
      Kept-refl (names due) node,
      to_check-keep c (λ r. status_eq r.status transacted && is_some r.previous_state) node.states,
      check_all-Kept (names due) c given due node (names_self due),
    )

-- ===== src/Credential/State.antt =====
-- UpdateState of issuer-node/internal/core/services/identity.go: the claims that wait go to the
-- tree of claims, the revocations that wait count as published, and the roots of the trees make the
-- next state. All of it is one transaction.
use e_native_issuer.Common.{
  ℕ, String, Bool, true, false, not, ◌&&◌, Option, none, some, List, [], ◌∷◌, ◌++◌, map, any, keep,
  str_eq, ◌==◌, if◌then◌else◌, Result, ok, err, ◌>>=◌, ◌>>◌, reject, map_err, some_and, is_some,
}
use e_native_issuer.IdentityStates.{IdentityState, created, get_latest_state_by_identifier}
use e_native_issuer.Credential.{
  Claim, rev_pending, rev_published, Revocation, Error, no_claims_found_to_process,
  claim_not_updated, no_previous_state, MerkleTree, Trees, Store,
}
use e_native_issuer.Credential.Repository.{owned_by}
use e_native_issuer.Credential.Revoke.{trees_of}

-- GetAllByState without a state: the claims of the identity about to be published
abbrev pub waits : String → Claim → Bool
waits did r = str_eq r.issuer did && not (is_some r.identity_state) && owned_by r.issuer r && r.mtp

unfoldable pub get_all_by_state :
    {T : Type 0} → Option Error → String → Store T → Result Error (List Claim)
get_all_by_state (some e) did db = err e
get_all_by_state none did db = ok (keep (waits did) db.claims)

-- UpdateState of the claims' repository: the rows, and whether one was affected
abbrev pub is_claim : Claim → Claim → Bool
is_claim new r =
    (r.id == new.id) && some_and r.identifier (λ i. some_and new.identifier (λ j. str_eq i j))

abbrev pub with_state : String → Claim → Claim → Claim
with_state state new r = if is_claim new r then record r { identity_state = some state } else r

-- The loop of update, over the claims that wait
unfoldable pub update_claims : String → List Claim → List Claim → Result Error (List Claim)
update_claims state [] rows = ok rows
update_claims state (r ∷ claims) rows =
    let rest = update_claims state claims (map (with_state state r) rows) in
    if any (is_claim r) rows then rest else err claim_not_updated

-- The loop of processClaims: AddClaim
unfoldable pub add_claims : {T : Type 0} → MerkleTree T → List Claim → T → Result Error T
add_claims mt [] tree = ok tree
add_claims mt (r ∷ claims) tree = do
  hashes ← mt.hi_hv r.core_claim
  added ← mt.add hashes.0 hashes.1 tree
  add_claims mt claims added

-- UpdateStatus of the revocations' repository
abbrev pub is_pending : String → Revocation → Bool
is_pending did r =
    str_eq r.identifier did && elim r.status [ rev_pending ↦ true | rev_published ↦ false ]

abbrev pub published : String → Revocation → Revocation
published did r = if is_pending did r then record r { status = rev_published } else r

-- The calls of UpdateState. `publishers` answers for GetRhsSettings and BuildPublishers, and each
-- publisher for PushHashesToRHS.
pub record UpdateCalls : Type 0 where
  pub now : ℕ
  pub state_id : ℕ
  pub prefix_fault : Option Error
  pub trees_fault : Option Error
  pub latest_fault : Bool
  pub claims_fault : Option Error
  pub status_fault : Option Error
  pub update_fault : Option Error
  pub save_fault : Option Error
  pub publishers : Result Error (List (IdentityState → Option Error))
  pub ignore_rhs_errors : Bool

abbrev pub no_fault : Option Error → Result Error (Unit {0})
no_fault none = ok tt
no_fault (some e) = err e

-- The root of the claims goes to the tree of roots, unless it is there.
unfoldable pub with_root : {T : Type 0} → MerkleTree T → T → T → Result Error T
with_root mt claims roots = do
  found ← mt.get (mt.root claims) roots
  elim found [ none ↦ mt.add (mt.root claims) 0 roots | some v ↦ ok roots ]

-- populateIdentityState, with the trees after it
unfoldable pub populate_identity_state :
    {T : Type 0}
    → MerkleTree T
    → String
    → Trees T
    → IdentityState
    → Result Error (Trees T × IdentityState)
populate_identity_state mt did trees previous = do
  roots ← with_root mt trees.claims trees.roots
  hash ← mt.hash_elems (mt.root trees.claims) (mt.root trees.revocations) (mt.root roots)
  ok (
    record trees { roots = roots },
    record {
      state_id = 0;
      identifier = did;
      state = mt.hex hash;
      root_of_roots = some (mt.hex (mt.root roots));
      claims_tree_root = some (mt.hex (mt.root trees.claims));
      revocation_tree_root = some (mt.hex (mt.root trees.revocations));
      block_timestamp = none;
      block_number = none;
      tx_id = none;
      previous_state = some previous.state;
      status = created;
      modified_at = 0;
      created_at = 0;
    },
  )

-- Save of the states' repository: the table gives the id and the times, and a state of the
-- identity that is there stays.
abbrev pub new_state : UpdateCalls → IdentityState → IdentityState
new_state c new = record new { state_id = c.state_id; modified_at = c.now; created_at = c.now }

abbrev pub same_state : IdentityState → IdentityState → Bool
same_state new r = str_eq r.identifier new.identifier && str_eq r.state new.state

unfoldable pub save_state : UpdateCalls → IdentityState → List IdentityState → List IdentityState
save_state c new rows = if any (same_state new) rows then rows else rows ++ new_state c new ∷ []

-- The loop over the publishers: the first error that is not ignored ends it.
unfoldable pub push_hashes :
    Bool → IdentityState → List (IdentityState → Option Error) → Result Error (Unit {0})
push_hashes ignored state [] = ok tt
push_hashes ignored state (push ∷ publishers) =
    let rest = push_hashes ignored state publishers in
    elim (push state) [ none ↦ rest | some e ↦ if ignored then rest else err e ]

abbrev pub with_trees : {T : Type 0} → String → Trees T → Trees T → Trees T
with_trees did new t = if str_eq t.identifier did then new else t

abbrev pub is_empty {ℓ} : {A : Type ℓ} → List A → Bool
is_empty [] = true
is_empty (x ∷ xs) = false

-- The transaction up to the new state: the trees with the claims that wait, those claims, and the
-- state before
unfoldable pub gathered :
    {T : Type 0}
    → MerkleTree T
    → UpdateCalls
    → String
    → Store T
    → Result Error (Trees T × List Claim × IdentityState)
gathered mt c did db = do
  no_fault c.trees_fault
  trees ← trees_of did db.trees
  reject c.latest_fault no_previous_state
  previous ← map_err (λ e. no_previous_state) (get_latest_state_by_identifier none did db.states)
  claims ← get_all_by_state c.claims_fault did db
  added ← add_claims mt claims trees.claims
  no_fault c.status_fault
  reject (is_empty claims && not (any (is_pending did) db.revocations)) no_claims_found_to_process
  ok (record trees { claims = added }, claims, previous)

abbrev pub written :
    {T : Type 0} → UpdateCalls → String → Store T → List Claim → Trees T → IdentityState → Store T
written c did db rows trees state = record db {
  claims = rows;
  revocations = map (published did) db.revocations;
  states = save_state c state db.states;
  trees = map (with_trees did trees) db.trees;
}

-- The rest of the transaction: the state, the writes and the publishers
unfoldable pub write_state :
    {T : Type 0}
    → MerkleTree T
    → UpdateCalls
    → String
    → Store T
    → Trees T
    → List Claim
    → IdentityState
    → Result Error (IdentityState × Store T)
write_state mt c did db trees claims previous = do
  populated ← populate_identity_state mt did trees previous
  no_fault c.update_fault
  rows ← update_claims populated.1.state claims db.claims
  no_fault c.save_fault
  publishers ← c.publishers
  push_hashes c.ignore_rhs_errors populated.1 publishers
  ok (populated.1, written c did db rows populated.0 populated.1)

-- The prefix of the resolver, and the transaction
unfoldable pub next_state :
    {T : Type 0}
    → MerkleTree T
    → UpdateCalls
    → String
    → Store T
    → Result Error (IdentityState × Store T)
next_state mt c did db = do
  no_fault c.prefix_fault
  found ← gathered mt c did db
  write_state mt c did db found.0 found.1 found.2

-- UpdateState
unfoldable pub update_state :
    {T : Type 0}
    → MerkleTree T
    → UpdateCalls
    → String
    → Store T
    → Result Error IdentityState × Store T
update_state mt c did db = elim (next_state mt c did db) [
  | err e ↦ (err e, db)
  | ok (state, after) ↦ (ok state, after)
]

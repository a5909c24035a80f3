-- ===== src/Credential/Steps.antt =====
-- What the two halves of the calculation of a new state read and write.
use mathlib.Core.Path.{subst}
use e_native_issuer.Common.{
  ℕ, ◌≡◌, refl, sym, ap, ◌∙◌, String, true, false, not, ◌&&◌, Option, none, some, List, [], ◌∷◌,
  map, any, keep, str_eq, ok, reject, reject-ok, map_err, map_err-ok, ok-pair, ok-same, arith,
  Bool-cases, inl, inr, bind_ok,
}
use e_native_issuer.IdentityStates.{IdentityState, get_latest_state_by_identifier}
use e_native_issuer.Credential.{
  Claim, Error, no_claims_found_to_process, no_previous_state, MerkleTree, Trees, Store,
}
use e_native_issuer.Credential.Revoke.{trees_of}
use e_native_issuer.Credential.Revoked.{FindsAdded}
use e_native_issuer.Credential.Waiting.{with_root-finds}
use e_native_issuer.Credential.State.{
  waits, get_all_by_state, update_claims, add_claims, is_pending, UpdateCalls, no_fault, with_root,
  populate_identity_state, push_hashes, with_trees, is_empty, gathered, written, write_state,
}

get_all-ok :
    {T : Type 0} (fault : Option Error) (did : String) (db : Store T) (claims : List Claim)
    → get_all_by_state fault did db ≡ ok claims
    → claims ≡ keep (waits did) db.claims
unfolding get_all_by_state
get_all-ok (some e) did db claims h = ground (arith, h)
get_all-ok none did db claims h = sym (ground (arith, h))

module _ {T : Type 0} (mt : MerkleTree T) (c : UpdateCalls) (did : String) (db : Store T) where
  -- What the transaction reads: the claims that wait are in the tree of claims.
  pub gathered-parts :
      (found : Trees T × List Claim × IdentityState)
      → gathered mt c did db ≡ ok found
      → (trees : Trees T) × (trees_of did db.trees ≡ ok trees)
        × (get_latest_state_by_identifier none did db.states ≡ ok found.2)
        × (found.1 ≡ keep (waits did) db.claims)
        × (add_claims mt found.1 trees.claims ≡ ok found.0.claims)
        × (found.0 ≡ record trees { claims = found.0.claims })
        × ((is_empty found.1 && not (any (is_pending did) db.revocations)) ≡ false)
  unfolding gathered
  gathered-parts found h =
      let (u1, f1, h1) = bind_ok (no_fault c.trees_fault) _ _ h in
      let (trees, at, h2) = bind_ok (trees_of did db.trees) _ _ h1 in
      let (u3, f3, h3) = bind_ok (reject c.latest_fault no_previous_state) _ _ h2 in
      let latest = get_latest_state_by_identifier none did db.states in
      let (previous, f4, h4) = bind_ok (map_err (λ e. no_previous_state) latest) _ _ h3 in
      let (claims, f5, h5) = bind_ok (get_all_by_state c.claims_fault did db) _ _ h4 in
      let (added, f6, h6) = bind_ok (add_claims mt claims trees.claims) _ _ h5 in
      let (u7, f7, h7) = bind_ok (no_fault c.status_fault) _ _ h6 in
      let idle = is_empty claims && not (any (is_pending did) db.revocations) in
      let (u8, f8, h8) = bind_ok (reject idle no_claims_found_to_process) _ _ h7 in
      subst
        (λ f.
          (trees : Trees T) × (trees_of did db.trees ≡ ok trees)
          × (get_latest_state_by_identifier none did db.states ≡ ok f.2)
          × (f.1 ≡ keep (waits did) db.claims)
          × (add_claims mt f.1 trees.claims ≡ ok f.0.claims)
          × (f.0 ≡ record trees { claims = f.0.claims })
          × ((is_empty f.1 && not (any (is_pending did) db.revocations)) ≡ false))
        (ok-same _ _ h8)
        (
          trees,
          at,
          map_err-ok (λ e. no_previous_state) latest previous f4,
          get_all-ok c.claims_fault did db claims f5,
          f6,
          refl,
          reject-ok idle _ _ f8,
        )

  -- What the transaction writes.
  pub write_state-parts :
      (trees : Trees T) (claims : List Claim) (previous state : IdentityState) (after : Store T)
      → write_state mt c did db trees claims previous ≡ ok (state, after)
      → (roots : Trees T) × (rows : List Claim) × (populate_identity_state mt did trees previous
          ≡ ok (roots, state))
        × (update_claims state.state claims db.claims ≡ ok rows)
        × (after ≡ written c did db rows roots state)
  unfolding write_state
  write_state-parts trees claims previous state after h =
      let (populated, f9, h9) = bind_ok (populate_identity_state mt did trees previous) _ _ h in
      let (u10, f10, h10) = bind_ok (no_fault c.update_fault) _ _ h9 in
      let (rows, f11, h11) = bind_ok (update_claims populated.1.state claims db.claims) _ _ h10 in
      let (u12, f12, h12) = bind_ok (no_fault c.save_fault) _ _ h11 in
      let (publishers, f13, h13) = bind_ok c.publishers _ _ h12 in
      let (u14, f14, h14) =
        bind_ok (push_hashes c.ignore_rhs_errors populated.1 publishers) _ _ h13 in
      let (same, result) = ok-pair _ _ h14 in
      (
        populated.0,
        rows,
        subst (λ s. populate_identity_state mt did trees previous ≡ ok (populated.0, s)) same f9,
        ap (λ s. update_claims s.state claims db.claims) (sym same) ∙ f11,
        sym result ∙ ap (written c did db rows populated.0) same,
      )

pub trees_of-with :
    {T : Type 0} (did : String) (all : List (Trees T)) (t new : Trees T)
    → str_eq new.identifier did ≡ true
    → trees_of did all ≡ ok t
    → trees_of did (map (with_trees did new) all) ≡ ok new
trees_of-with did [] t new own h = ground (arith, h)
trees_of-with did (s ∷ all) t new own h = elim (Bool-cases (str_eq s.identifier did)) [
  | inl e ↦ ground (arith, e, own)
  | inr e ↦ ground (arith, e, trees_of-with did all t new own (ground (arith, e, h)))
]

pub trees_of-own :
    {T : Type 0} (did : String) (all : List (Trees T)) (t : Trees T)
    → trees_of did all ≡ ok t
    → str_eq t.identifier did ≡ true
trees_of-own did [] t h = ground (arith, h)
trees_of-own did (s ∷ all) t h = elim (Bool-cases (str_eq s.identifier did)) [
  | inl e ↦
      let same : s ≡ t = ground (arith, e, h) in ap (λ t. str_eq t.identifier did) (sym same) ∙ e
  | inr e ↦ trees_of-own did all t (ground (arith, e, h))
]

-- The new state and its trees
pub populated-ok :
    {T : Type 0} (mt : MerkleTree T) (did : String) (trees roots : Trees T)
    (previous state : IdentityState)
    → FindsAdded mt
    → populate_identity_state mt did trees previous ≡ ok (roots, state)
    → (hash v : ℕ) × (roots.identifier ≡ trees.identifier)
      × (roots.claims ≡ trees.claims)
      × (mt.get (mt.root roots.claims) roots.roots ≡ ok (some v))
      × (mt.hash_elems (mt.root roots.claims) (mt.root roots.revocations) (mt.root roots.roots)
          ≡ ok hash)
      × (state.state ≡ mt.hex hash)
      × (state.previous_state ≡ some previous.state)
unfolding populate_identity_state
populated-ok mt did trees roots previous state finds h =
    let (tree, f, h1) = bind_ok (with_root mt trees.claims trees.roots) _ _ h in
    let (hash, g, h2) =
      bind_ok (mt.hash_elems (mt.root trees.claims) (mt.root trees.revocations) (mt.root tree)) _ _
        h1 in
    let same : record trees { roots = tree } ≡ roots = ground (arith, h2) in
    let (v, found) = with_root-finds mt trees.claims trees.roots tree finds f in
    (
      hash,
      v,
      ap (λ t. t.identifier) (sym same),
      ap (λ t. t.claims) (sym same),
      subst (λ t. mt.get (mt.root t.claims) t.roots ≡ ok (some v)) same found,
      subst
          (λ t.
            mt.hash_elems (mt.root t.claims) (mt.root t.revocations) (mt.root t.roots) ≡ ok hash)
          same g,
      ground (arith, h2),
      ground (arith, h2),
    )

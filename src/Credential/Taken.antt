-- ===== src/Credential/Taken.antt =====
-- What the tree of claims of issuer-node/internal/core/services/identity.go has after processClaims.
use e_native_issuer.Common.{
  ℕ, ◌≡◌, true, Bool, some, List, [], ◌∷◌, keep, All, ok, ok-same, bind_ok, arith, Bool-cases, inl,
  inr, if◌then◌else◌,
}
use mathlib.Core.Path.{subst}
use e_native_issuer.Credential.{Claim, Error, MerkleTree}
use e_native_issuer.Credential.Revoked.{FindsAdded}
use e_native_issuer.Credential.State.{add_claims}

-- What the tree's package says of adding: what is found in a tree is found after another key is added.
abbrev pub KeepsAdded : {T : Type 0} → MerkleTree T → Type 0
KeepsAdded {T} mt =
    (k v j w : ℕ) (t new : T)
    → mt.add k v t ≡ ok new
    → mt.get j t ≡ ok (some w)
    → mt.get j new ≡ ok (some w)

module _ {T : Type 0} (mt : MerkleTree T) where
  -- The index and the value of the core claim are in the tree.
  abbrev pub IsIn : T → Claim → Type 0
  IsIn tree r =
      (hi hv : ℕ) × (mt.hi_hv r.core_claim ≡ ok (hi, hv)) × (mt.get hi tree ≡ ok (some hv))

  add_claims-keeps :
      (claims : List Claim) (tree after : T) (j w : ℕ)
      → KeepsAdded mt
      → add_claims mt claims tree ≡ ok after
      → mt.get j tree ≡ ok (some w)
      → mt.get j after ≡ ok (some w)
  unfolding add_claims
  add_claims-keeps [] tree after j w keeps h there =
      subst (λ t. mt.get j t ≡ ok (some w)) (ok-same {E = Error} tree after h) there
  add_claims-keeps (r ∷ claims) tree after j w keeps h there =
      let (hashes, f, h1) = bind_ok (mt.hi_hv r.core_claim) _ _ h in
      let (added, g, h2) = bind_ok (mt.add hashes.0 hashes.1 tree) _ _ h1 in
      add_claims-keeps claims added after j w keeps h2
        (keeps hashes.0 hashes.1 j w tree added g there)

  -- Each claim that is added is in the tree at the end.
  pub add_claims-IsIn :
      (claims : List Claim) (tree after : T)
      → FindsAdded mt
      → KeepsAdded mt
      → add_claims mt claims tree ≡ ok after
      → All (IsIn after) claims
  unfolding add_claims
  add_claims-IsIn [] tree after finds keeps h = tt
  add_claims-IsIn (r ∷ claims) tree after finds keeps h =
      let (hashes, f, h1) = bind_ok (mt.hi_hv r.core_claim) _ _ h in
      let (added, g, h2) = bind_ok (mt.add hashes.0 hashes.1 tree) _ _ h1 in
      let there = finds hashes.0 hashes.1 tree added g in
      (
        (
          hashes.0,
          hashes.1,
          f,
          add_claims-keeps claims added after hashes.0 hashes.1 keeps h2 there,
        ),
        add_claims-IsIn claims added after finds keeps h2,
      )

-- What all the rows that were kept have, each row has that passes the test.
pub All-keep :
    (P : Claim → Type 0) (p : Claim → Bool) (rows : List Claim)
    → All P (keep p rows)
    → All (λ r. p r ≡ true → P r) rows
All-keep P p [] h = tt
All-keep P p (r ∷ rows) h = elim (Bool-cases (p r)) [
  | inl e ↦
      let split = subst (λ b. All P (if b then r ∷ keep p rows else keep p rows)) e h in
      (λ q. split.0, All-keep P p rows split.1)
  | inr e ↦
      let rest = subst (λ b. All P (if b then r ∷ keep p rows else keep p rows)) e h in
      (λ q. absurd (ground (arith, e, q)), All-keep P p rows rest)
]

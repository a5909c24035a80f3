-- ===== src/Credential/Waiting.antt =====
-- Which claims and revocations wait to be published, before and after a new state.
use mathlib.Core.Path.{subst}
use mathlib.Core.List.{append_assoc}
use e_native_issuer.Common.{
  ℕ, ◌≡◌, refl, sym, ap, ◌∙◌, String, true, false, ◌||◌, none, some, List, [], ◌∷◌, ◌++◌, map, any,
  keep, All, eq_refl, ok, is_some, arith, Bool-cases, Option-cases, Result-cases, inl, inr,
  any-append,
}
use e_native_issuer.Credential.{Claim, Revocation, MerkleTree}
use e_native_issuer.Credential.Revoked.{FindsAdded}
use e_native_issuer.Credential.State.{
  waits, is_claim, with_state, update_claims, is_pending, published, with_root,
}

-- A row after the updates of a list of claims
abbrev pub marked : String → List Claim → Claim → Claim
marked state [] r = r
marked state (c ∷ claims) r = marked state claims (with_state state c r)

map-none : (state : String) (rows : List Claim) → rows ≡ map (marked state []) rows
map-none state [] = refl
map-none state (r ∷ rows) = ap (λ l. r ∷ l) (map-none state rows)

map-marks :
    (state : String) (c : Claim) (claims rows : List Claim)
    → map (marked state claims) (map (with_state state c) rows)
      ≡ map (marked state (c ∷ claims)) rows
map-marks state c claims [] = refl
map-marks state c claims (r ∷ rows) =
    ap (λ l. marked state claims (with_state state c r) ∷ l) (map-marks state c claims rows)

pub map-marked :
    (state : String) (claims rows after : List Claim)
    → update_claims state claims rows ≡ ok after
    → after ≡ map (marked state claims) rows
unfolding update_claims
map-marked state [] rows after h =
    let same : rows ≡ after = ground (arith, h) in sym same ∙ map-none state rows
map-marked state (c ∷ claims) rows after h = elim (Bool-cases (any (is_claim c) rows)) [
  | inl e ↦
      map-marked state claims (map (with_state state c) rows) after (ground (arith, e, h))
      ∙ map-marks state c claims rows
  | inr e ↦ absurd (ground (arith, e, h))
]

marked-stays :
    (state : String) (claims : List Claim) (r : Claim)
    → is_some r.identity_state ≡ true
    → is_some (marked state claims r).identity_state ≡ true
marked-stays state [] r h = h
marked-stays state (c ∷ claims) r h =
    marked-stays state claims (with_state state c r) (ground (arith, h))

marked-waits :
    (did state : String) (claims : List Claim) (r : Claim)
    → waits did r ≡ false
    → waits did (marked state claims r) ≡ false
marked-waits did state [] r h = h
marked-waits did state (c ∷ claims) r h =
    marked-waits did state claims (with_state state c r) (elim (Bool-cases (is_claim c r)) [
      | inl e ↦ ground (arith, e)
      | inr e ↦ ground (arith, e, h)
    ])

-- A row that one of the claims names does not wait any more.
marked-done :
    (did state : String) (claims : List Claim) (r : Claim)
    → any (λ c. is_claim c r) claims ≡ true
    → is_some (marked state claims r).identity_state ≡ true
marked-done did state [] r h = ground (arith, h)
marked-done did state (c ∷ claims) r h = elim (Bool-cases (is_claim c r)) [
  | inl e ↦ marked-stays state claims (with_state state c r) (ground (arith, e))
  | inr e ↦
      let same : r ≡ with_state state c r = ground (arith, e) in
      ap (λ x. is_some (marked state claims x).identity_state) (sym same)
      ∙ marked-done did state claims r (ground (arith, e, h))
]

-- A row that waits names itself.
named :
    (did : String) (before : List Claim) (r : Claim)
    → waits did r ≡ true
    → any (λ c. is_claim c r) (before ++ r ∷ []) ≡ true
named did [] r w = elim (Option-cases r.identifier) [
  | inl e ↦ absurd (ground (arith, e, w))
  | inr (i, e) ↦ ground (arith, e, eq_refl i)
]
named did (b ∷ before) r w = ground (arith, named did before r w)

-- The claims that were read name every row that waits.
pub covered :
    (did : String) (before rows : List Claim)
    → All
        (λ r. waits did r ≡ true → any (λ c. is_claim c r) (before ++ keep (waits did) rows) ≡ true)
        rows
covered did before [] = tt
covered did before (r ∷ rows) = elim (Bool-cases (waits did r)) [
  | inl e ↦
      let rest = covered did (before ++ r ∷ []) rows in
      let kept : before ++ keep (waits did) (r ∷ rows)
          ≡ (before ++ r ∷ []) ++ keep (waits did) rows =
        ap (λ l. before ++ l) (ground (arith, e))
        ∙ sym (append_assoc before (r ∷ []) (keep (waits did) rows)) in
      (
        λ w.
            ap (any (λ c. is_claim c r)) kept
            ∙ (any-append (λ c. is_claim c r) (before ++ r ∷ []) (keep (waits did) rows)
                ∙ ap (λ b. b || any (λ c. is_claim c r) (keep (waits did) rows))
                    (named did before r w)),
        subst (λ l. All (λ r. waits did r ≡ true → any (λ c. is_claim c r) l ≡ true) rows)
            (sym kept) rest,
      )
  | inr e ↦
      let kept : before ++ keep (waits did) (r ∷ rows) ≡ before ++ keep (waits did) rows =
        ap (λ l. before ++ l) (ground (arith, e)) in
      (
        λ w. absurd (ground (arith, e, w)),
        subst (λ l. All (λ r. waits did r ≡ true → any (λ c. is_claim c r) l ≡ true) rows)
            (sym kept) (covered did before rows),
      )
]

pub none-waits :
    (did state : String) (claims rows : List Claim)
    → All (λ r. waits did r ≡ true → any (λ c. is_claim c r) claims ≡ true) rows
    → any (waits did) (map (marked state claims) rows) ≡ false
none-waits did state claims [] h = refl
none-waits did state claims (r ∷ rows) h =
    let head : waits did (marked state claims r) ≡ false = elim (Bool-cases (waits did r)) [
      | inl e ↦ let done = marked-done did state claims r (h.0 e) in ground (arith, done)
      | inr e ↦ marked-waits did state claims r e
    ] in
    ground (arith, head, none-waits did state claims rows h.1)

pub none-pending :
    (did : String) (rows : List Revocation)
    → any (is_pending did) (map (published did) rows) ≡ false
none-pending did [] = refl
none-pending did (r ∷ rows) = ground (arith, none-pending did rows)

-- The root of the claims is in the tree of roots.
pub with_root-finds :
    {T : Type 0} (mt : MerkleTree T) (claims roots after : T)
    → FindsAdded mt
    → with_root mt claims roots ≡ ok after
    → (v : ℕ) × (mt.get (mt.root claims) after ≡ ok (some v))
unfolding with_root
with_root-finds mt claims roots after finds h =
    elim (Result-cases (mt.get (mt.root claims) roots)) [
      | inl (e, f) ↦ absurd (ground (arith, f, h))
      | inr (none, f) ↦ (0, finds (mt.root claims) 0 roots after (ground (arith, f, h)))
      | inr (some v, f) ↦
          let same : roots ≡ after = ground (arith, f, h) in
          (v, subst (λ t. mt.get (mt.root claims) t ≡ ok (some v)) same f)
    ]

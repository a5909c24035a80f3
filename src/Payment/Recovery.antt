-- ===== src/Payment/Recovery.antt =====
-- The recovery id of an Ethereum signature of a payment.
use e_native_issuer.Common.{
  ℕ, ◌+◌, ◌≤◌, ◌≡◌, refl, ap, ◌⊎◌, List, [], ◌∷◌, ◌++◌, arith, length, inl, inr,
}
use e_native_issuer.Payment.Build.{fix_recovery_id}

-- A recovery id of 0 or 1 at its place becomes 27 or 28, one of 27 or 28 stays, and so do the other
-- bytes of the signature.
pub fix_recovery_id-bounds :
    (before after : List ℕ) (v : ℕ)
    → (v ≤ 1) ⊎ ((27 ≤ v) × (v ≤ 28))
    → (w : ℕ) × (fix_recovery_id (length before) (before ++ v ∷ after) ≡ before ++ w ∷ after)
      × (27 ≤ w)
      × (w ≤ 28)
      × ((w ≡ v) ⊎ (w ≡ v + 27))
unfolding fix_recovery_id
fix_recovery_id-bounds [] after v (inl h) =
    (v + 27, ground (arith, h), ground arith, ground (arith, h), inr refl)
fix_recovery_id-bounds [] after v (inr (low, high)) = (v, ground (arith, low), low, high, inl refl)
fix_recovery_id-bounds (b ∷ before) after v h =
    let (w, e, low, high, same) = fix_recovery_id-bounds before after v h in
    (w, ap (λ l. b ∷ l) e, low, high, same)

-- ===== src/Chain/Priced.antt =====
-- What a transaction of issuer-node/internal/eth/client.go pays.
use e_native_issuer.Common.{
  ℕ, ◌+◌, ◌*◌, ◌/◌, ◌≤◌, ◌<◌, ◌≡◌, refl, Bool, true, false, Option, none, some, [], ◌∷◌, ◌==◌,
  Result, ok, ok-same, arith, Bool-cases, Option-cases, Result-cases, if◌then◌else◌, inl, inr, ◌⊎◌,
}
use e_native_issuer.Chain.{ClientConfig, Error}
use e_native_issuer.Chain.Fees.{
  bound, forced, raised, lowered, get_gas_price, is_underpriced, Send, call_auth,
}

-- The price is at most a maximum above zero, and at least the minimum, unless a maximum above zero is
-- below that.
abbrev pub InRange : ClientConfig → ℕ → Type 0
InRange config price =
    ((high : ℕ) → config.max_gas_price ≡ some high → 0 < high → price ≤ high)
    × ((low high : ℕ)
        → config.min_gas_price ≡ some low
        → config.max_gas_price ≡ some high
        → low ≤ high
        → low ≤ price)
    × ((low : ℕ)
        → config.min_gas_price ≡ some low
        → (config.max_gas_price ≡ none) ⊎ (config.max_gas_price ≡ some 0)
        → low ≤ price)

lowered_le :
    (max : Option ℕ) (p high : ℕ) → max ≡ some high → 0 < high → lowered (bound max) p ≤ high
lowered_le none p high e h = ground (arith, e)
lowered_le (some m) p high e h = ground (arith, e, h)

raised_le :
    (min max : Option ℕ) (p low high : ℕ)
    → min ≡ some low
    → max ≡ some high
    → low ≤ high
    → low ≤ lowered (bound max) (raised (bound min) p)
raised_le none max p low high e f h = ground (arith, e)
raised_le (some l) none p low high e f h = ground (arith, f)
raised_le (some l) (some m) p low high e f h = ground (arith, e, f, h)

-- Without a maximum nothing lowers a price under the minimum.
raised_le_unbounded :
    (min max : Option ℕ) (p low : ℕ)
    → min ≡ some low
    → (max ≡ none) ⊎ (max ≡ some 0)
    → low ≤ lowered (bound max) (raised (bound min) p)
raised_le_unbounded none max p low e f = ground (arith, e)
raised_le_unbounded (some l) none p low e f = ground (arith, e)
raised_le_unbounded (some l) (some m) p low e (inl f) = ground (arith, f)
raised_le_unbounded (some l) (some m) p low e (inr f) = ground (arith, e, f)

forced-InRange :
    (min max : Option ℕ) (price : ℕ)
    → forced min max ≡ some price
    → (max ≡ some price) × (min ≡ some price)
forced-InRange none none price h = ground (arith, h)
forced-InRange (some l) none price h = ground (arith, h)
forced-InRange none (some m) price h = ground (arith, h)
forced-InRange (some l) (some m) price h = ground (arith, h)

-- A gas price is never above a configured maximum that is above zero. It is not below the configured
-- minimum where a maximum is set that is not below it, or where none is set or it is zero.
pub get_gas_price-InRange :
    (config : ClientConfig) (suggested : Result Error ℕ) (price : ℕ)
    → get_gas_price config suggested ≡ ok price
    → InRange config price
unfolding get_gas_price
get_gas_price-InRange config suggested price h =
    elim (Option-cases (forced config.min_gas_price config.max_gas_price)) [
      | inr (p, e) ↦
          let (top, bottom) = forced-InRange config.min_gas_price config.max_gas_price p e in
          let same : p ≡ price = ground (arith, e, h) in
          (
            λ high f k. ground (arith, f, top, same),
            λ low high f g k. ground (arith, f, bottom, same),
            λ low f g. ground (arith, f, bottom, same),
          )
      | inl e ↦ elim (Result-cases suggested) [
        | inl (x, f) ↦ absurd (ground (arith, e, f, h))
        | inr (q, f) ↦
            let asked = raised (bound config.min_gas_price) (q + q / 10) in
            let same : lowered (bound config.max_gas_price) asked ≡ price =
              ok-same {E = Error} (lowered (bound config.max_gas_price) asked) price
                (ground (arith, e, f, h)) in
            (
              λ high g k. rw (← same) (lowered_le config.max_gas_price asked high g k),
              λ low high g g2 k. rw (← same) (
                  raised_le config.min_gas_price config.max_gas_price (q + q / 10) low high g g2 k),
              λ low g k. rw (← same) (
                  raised_le_unbounded config.min_gas_price config.max_gas_price (q + q / 10) low g
                    k),
            )
      ]
    ]

-- CallAuth calls back at no price, at the price of the configured range, or, where the node refuses
-- that one as too low, a second time at thirty times the price.
pub call_auth-InRange :
    {T : Type 0} (config : ClientConfig) (has_key : Bool) (suggested : Result Error ℕ)
    (signer : Result Error (Unit {0})) (gas_limit : ℕ) (send : Send T)
    → ((call_auth config has_key suggested signer gas_limit send).1 ≡ [])
      ⊎ ((price : ℕ) × InRange config price
          × (((call_auth config has_key suggested signer gas_limit send).1 ≡ price ∷ [])
              ⊎ ((call_auth config has_key suggested signer gas_limit send).1
                  ≡ price ∷ price * 30 ∷ [])))
unfolding call_auth
call_auth-InRange config false suggested signer gas_limit send = inl refl
call_auth-InRange config true suggested signer gas_limit send =
    elim (Result-cases (get_gas_price config suggested)) [
      | inl (e, f) ↦ inl (ground (arith, f))
      | inr (price, f) ↦ elim (Result-cases signer) [
        | inl (e, g) ↦ inl (ground (arith, f, g))
        | inr (u, g) ↦
            let limit = if gas_limit == 0 then config.default_gas_limit else gas_limit in
            let within = get_gas_price-InRange config suggested price f in
            elim (Result-cases (send limit price)) [
              | inr (tx, s) ↦ inr (price, within, inl (ground (arith, f, g, s)))
              | inl (e, s) ↦ elim (Bool-cases (is_underpriced e)) [
                | inl low ↦ inr (price, within, inr (ground (arith, f, g, s, low)))
                | inr low ↦ inr (price, within, inl (ground (arith, f, g, s, low)))
              ]
            ]
      ]
    ]

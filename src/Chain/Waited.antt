-- ===== src/Chain/Waited.antt =====
-- The waiting loops of issuer-node/internal/eth/client.go end.
use e_native_issuer.Common.{
  ℕ, zero, suc, ◌+◌, ◌≤◌, ◌<◌, ◌≡◌, refl, true, false, ◌||◌, none, some, is_some, leb, ltb, ◌==◌,
  Result, ok, err, arith, Bool-cases, Result-cases, Option-cases, inl, inr, ◌⊎◌,
}
use e_native_issuer.Chain.{Receipt, Error, block_number_timeout}
use e_native_issuer.Chain.Wait.{
  Answer, received, wait_receipt_from, wait_receipt, wait_block_from, wait_block,
}

-- Round i looks at the clock after at least i nanoseconds: each round before it has slept.
abbrev pub Ticks : (ℕ → ℕ) → Type 0
Ticks elapsed = (i : ℕ) → i ≤ elapsed i

-- How the loop of waitReceipt ends: in a round with a receipt or past the timeout, the first such.
abbrev pub Ended : ℕ → (ℕ → Answer) → (ℕ → ℕ) → ℕ → ℕ → Type 0
Ended timeout answer elapsed from i =
    (from ≤ i)
    × ((is_some (answer i).0 || leb timeout (elapsed i)) ≡ true)
    × ((j : ℕ) → from ≤ j → j < i → (is_some (answer j).0 || leb timeout (elapsed j)) ≡ false)

wait_receipt_from-Ended :
    (timeout fuel : ℕ) (answer : ℕ → Answer) (elapsed : ℕ → ℕ) (from : ℕ)
    → Ticks elapsed
    → from ≤ timeout
    → timeout < from + fuel
    → (i : ℕ) × (wait_receipt_from timeout fuel answer elapsed from ≡ some (answer i))
      × Ended timeout answer elapsed from i
unfolding wait_receipt_from
wait_receipt_from-Ended timeout zero answer elapsed from ticks within enough =
    absurd (omega (arith, within, enough))
wait_receipt_from-Ended timeout (suc fuel) answer elapsed from ticks within enough =
    elim (Bool-cases (is_some (answer from).0 || leb timeout (elapsed from))) [
      | inl e ↦
          (from, ground (arith, e), (omega arith, e, λ j le lt. absurd (omega (arith, le, lt))))
      | inr e ↦
          let more : from + 1 ≤ timeout = ground (arith, e, ticks from) in
          let (i, ends, (le, last, before)) =
            wait_receipt_from-Ended timeout fuel answer elapsed (from + 1) ticks more
              (omega (arith, enough)) in
          (
            i,
            ground (arith, e, ends),
            (
              omega (arith, le),
              last,
              λ j above below. elim (Bool-cases (j == from)) [
                | inl t ↦ ground (arith, t, e)
                | inr t ↦ before j (ground (arith, t, above)) below
              ],
            ),
          )
    ]

-- Each round of the wait for a receipt sleeps: the wait ends, with what the node answered in the
-- first round that has a receipt or is past the timeout.
pub wait_receipt-ends :
    (timeout : ℕ) (answer : ℕ → Answer) (elapsed : ℕ → ℕ)
    → Ticks elapsed
    → (i : ℕ) × (wait_receipt timeout answer elapsed ≡ some (received (answer i)))
      × Ended timeout answer elapsed 0 i
unfolding wait_receipt
wait_receipt-ends timeout answer elapsed ticks =
    let (i, ends, ended) =
      wait_receipt_from-Ended timeout (timeout + 1) answer elapsed 0 ticks (omega arith)
        (omega arith) in
    (i, ground (arith, ends), ended)

received-some : (a : Answer) (got : Receipt) → a.0 ≡ some got → received a ≡ ok (got, a.1)
received-some (some r, e) got h = ground (arith, h)
received-some (none, e) got h = absurd (ground (arith, h))

first_round :
    (answer : ℕ → Answer) (elapsed : ℕ → ℕ) (timeout n : ℕ) (r : Receipt) (i : ℕ)
    → (answer n).0 ≡ some r
    → ((j : ℕ) → 0 ≤ j → j < i → (is_some (answer j).0 || leb timeout (elapsed j)) ≡ false)
    → i ≤ n
first_round answer elapsed timeout n r i there before = elim (Bool-cases (leb i n)) [
  | inl t ↦ ground (arith, t)
  | inr t ↦ absurd (ground (arith, t, there, before n (omega arith)))
]

-- A receipt that the node has before the timeout is received, in the first round that has one.
pub wait_receipt-receives :
    (timeout : ℕ) (answer : ℕ → Answer) (elapsed : ℕ → ℕ) (n : ℕ) (r : Receipt)
    → Ticks elapsed
    → (answer n).0 ≡ some r
    → ((j : ℕ) → j < n → elapsed j < timeout)
    → (i : ℕ) × (got : Receipt) × (i ≤ n)
      × ((answer i).0 ≡ some got)
      × (wait_receipt timeout answer elapsed ≡ some (ok (got, (answer i).1)))
wait_receipt-receives timeout answer elapsed n r ticks there early =
    let (i, ends, (low, last, before)) = wait_receipt-ends timeout answer elapsed ticks in
    let le = first_round answer elapsed timeout n r i there before in
    elim (Option-cases (answer i).0) [
      | inr (got, e) ↦ (i, got, le, e, ground (arith, ends, received-some (answer i) got e))
      | inl e ↦ elim (Bool-cases (i == n)) [
        | inl t ↦ absurd (ground (arith, t, e, there))
        | inr t ↦ absurd (ground (arith, t, e, le, last, early i))
      ]
    ]

-- How a wait for a block ends in round i.
abbrev pub BlockEnd : ℕ → (ℕ → Result Error ℕ) → (ℕ → ℕ) → ℕ → ℕ → Result Error ℕ → Type 0
BlockEnd timeout current elapsed target i result =
    ((e : Error) × (current i ≡ err e) × (result ≡ err e))
    ⊎ ((timeout ≤ elapsed i) × (result ≡ err block_number_timeout))
    ⊎ ((number : ℕ) × (current i ≡ ok number)
        × (elapsed i < timeout)
        × (target < number)
        × (result ≡ ok number))

wait_block_from-BlockEnd :
    (timeout fuel : ℕ) (current : ℕ → Result Error ℕ) (elapsed : ℕ → ℕ) (target from : ℕ)
    → Ticks elapsed
    → from ≤ timeout
    → timeout < from + fuel
    → (i : ℕ) × (result : Result Error ℕ) × (wait_block_from timeout fuel current elapsed target
          from
        ≡ some result)
      × BlockEnd timeout current elapsed target i result
unfolding wait_block_from
wait_block_from-BlockEnd timeout zero current elapsed target from ticks within enough =
    absurd (omega (arith, within, enough))
wait_block_from-BlockEnd timeout (suc fuel) current elapsed target from ticks within enough =
    elim (Result-cases (current from)) [
      | inl (e, f) ↦ (from, err e, ground (arith, f), inl (e, f, refl))
      | inr (number, f) ↦ elim (Bool-cases (leb timeout (elapsed from))) [
        | inl late ↦ (
          from,
          err block_number_timeout,
          ground (arith, f, late),
          inr (inl (ground (arith, late), refl)),
        )
        | inr late ↦ elim (Bool-cases (ltb target number)) [
          | inl past ↦ (
            from,
            ok number,
            ground (arith, f, late, past),
            inr (inr (number, f, ground (arith, late), ground (arith, past), refl)),
          )
          | inr past ↦
              let more : from + 1 ≤ timeout = ground (arith, late, ticks from) in
              let (i, result, ends, how) =
                wait_block_from-BlockEnd timeout fuel current elapsed target (from + 1) ticks more
                  (omega (arith, enough)) in
              (i, result, ground (arith, f, late, past, ends), how)
        ]
      ]
    ]

-- Each round of the wait for a block sleeps: the wait ends, by an error of the node, past the
-- timeout, or in time with a block above the one that is waited for.
pub wait_block-BlockEnd :
    (timeout : ℕ) (current : ℕ → Result Error ℕ) (elapsed : ℕ → ℕ) (target : ℕ)
    → Ticks elapsed
    → (i : ℕ) × (result : Result Error ℕ) × (wait_block timeout current elapsed target
        ≡ some result)
      × BlockEnd timeout current elapsed target i result
unfolding wait_block
wait_block-BlockEnd timeout current elapsed target ticks =
    wait_block_from-BlockEnd timeout (timeout + 1) current elapsed target 0 ticks (omega arith)
      (omega arith)

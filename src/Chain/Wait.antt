-- ===== src/Chain/Wait.antt =====
-- The loops of issuer-node/internal/eth/client.go that ask a node until it has an answer: waitReceipt
-- and waitBlock. `elapsed` is the time since the start when a round looks at the clock. The fuel is
-- the timeout and one more round, enough when a round sleeps for a nanosecond at least.
use e_native_issuer.Common.{
  ℕ, zero, suc, ◌+◌, ◌||◌, Option, none, some, is_some, leb, ltb, if◌then◌else◌, Result, ok, err,
}
use e_native_issuer.Chain.{ClientConfig, Receipt, Error, receipt_not_received, block_number_timeout}

-- What TransactionReceipt answers in a round: a receipt or none, and an error or none.
abbrev pub Answer : Type 0
Answer = Option Receipt × Option Error

-- The loop of waitReceipt
unfoldable pub wait_receipt_from : ℕ → ℕ → (ℕ → Answer) → (ℕ → ℕ) → ℕ → Option Answer
wait_receipt_from timeout zero answer elapsed i = none
wait_receipt_from timeout (suc fuel) answer elapsed i =
    let rest = wait_receipt_from timeout fuel answer elapsed (i + 1) in
    if is_some (answer i).0 || leb timeout (elapsed i) then some (answer i) else rest

-- What waitReceipt returns after its loop: the receipt, with the error of its round.
abbrev pub received : Answer → Result Error (Receipt × Option Error)
received (none, e) = err receipt_not_received
received (some r, e) = ok (r, e)

-- waitReceipt. Without an answer the loop has not ended.
unfoldable pub wait_receipt :
    ℕ → (ℕ → Answer) → (ℕ → ℕ) → Option (Result Error (Receipt × Option Error))
wait_receipt timeout answer elapsed =
    elim (wait_receipt_from timeout (timeout + 1) answer elapsed 0) [
      | none ↦ none
      | some a ↦ some (received a)
    ]

-- WaitTransactionReceiptByID
unfoldable pub wait_transaction_receipt_by_id :
    ClientConfig → (ℕ → Answer) → (ℕ → ℕ) → Option (Result Error (Receipt × Option Error))
wait_transaction_receipt_by_id config = wait_receipt config.receipt_timeout

-- The loop of waitBlock: the number of the block that ends it
unfoldable pub wait_block_from :
    ℕ → ℕ → (ℕ → Result Error ℕ) → (ℕ → ℕ) → ℕ → ℕ → Option (Result Error ℕ)
wait_block_from timeout zero current elapsed target i = none
wait_block_from timeout (suc fuel) current elapsed target i =
    let rest = wait_block_from timeout fuel current elapsed target (i + 1) in
    elim (current i) [
      | err e ↦ some (err e)
      | ok number ↦
          if leb timeout (elapsed i)
          then some (err block_number_timeout)
          else (if ltb target number then some (ok number) else rest)
    ]

-- waitBlock
unfoldable pub wait_block : ℕ → (ℕ → Result Error ℕ) → (ℕ → ℕ) → ℕ → Option (Result Error ℕ)
wait_block timeout current elapsed target =
    wait_block_from timeout (timeout + 1) current elapsed target 0

-- WaitForBlock
unfoldable pub wait_for_block :
    ClientConfig → (ℕ → Result Error ℕ) → (ℕ → ℕ) → ℕ → Option (Result Error ℕ)
wait_for_block config = wait_block config.confirmation_timeout

-- ===== src/Chain/Gateway.antt =====
-- issuer-node/internal/gateways/transaction.go.
use e_native_issuer.Common.{ℕ, ◌+◌, Bool, true, leb, Option, none, some, Result, ok, err, ◌>>=◌}
use e_native_issuer.Chain.{Receipt, Error, Identity}
use e_native_issuer.Chain.Wait.{Answer, wait_transaction_receipt_by_id, wait_for_block}
use e_native_issuer.Chain.Network.{
  Resolver, get_resolver_prefix, get_eth_client, get_confirmation_block_count,
}

-- CheckConfirmation: blocks < confirmationBlockCount, written as a sum
unfoldable pub check_confirmation :
    Resolver → Identity → Result Error ℕ → Receipt → ℕ → Result Error Bool
check_confirmation resolver identity current receipt count = do
  client ← get_eth_client identity resolver
  number ← current
  ok (leb (receipt.block_number + count) number)

-- What is returned of a receipt: an error of its round goes first.
abbrev pub without_error : Result Error (Receipt × Option Error) → Result Error Receipt
without_error (err e) = err e
without_error (ok (r, some e)) = err e
without_error (ok (r, none)) = ok r

-- WaitForTransactionReceipt
unfoldable pub wait_for_transaction_receipt :
    Resolver → Identity → (ℕ → Answer) → (ℕ → ℕ) → Option (Result Error Receipt)
wait_for_transaction_receipt resolver identity answer elapsed =
    elim (get_eth_client identity resolver) [
      | err e ↦ some (err e)
      | ok client ↦ elim (wait_transaction_receipt_by_id client answer elapsed) [
        | none ↦ none
        | some result ↦ some (without_error result)
      ]
    ]

-- getConfirmationBlockCount
unfoldable pub confirmation_block_count : Resolver → Identity → Result Error ℕ
confirmation_block_count resolver identity = do
  key ← get_resolver_prefix identity
  get_confirmation_block_count key resolver

abbrev pub confirmed : Result Error ℕ → Result Error Bool
confirmed (err e) = err e
confirmed (ok number) = ok true

-- WaitForConfirmation
unfoldable pub wait_for_confirmation :
    Resolver → Identity → Receipt → (ℕ → Result Error ℕ) → (ℕ → ℕ) → Option (Result Error Bool)
wait_for_confirmation resolver identity receipt current elapsed =
    elim (get_eth_client identity resolver) [
      | err e ↦ some (err e)
      | ok client ↦ elim (confirmation_block_count resolver identity) [
        | err e ↦ some (err e)
        | ok count ↦ elim (wait_for_block client current elapsed (count + receipt.block_number)) [
          | none ↦ none
          | some result ↦ some (confirmed result)
        ]
      ]
    ]

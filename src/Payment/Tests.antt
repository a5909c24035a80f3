-- ===== src/Payment/Tests.antt =====
-- Payments at concrete values.
use e_native_issuer.Common.{ℕ, ◌≡◌, refl, String, false, Option, none, some, [], ◌∷◌, find, ok, Mem}
use e_native_issuer.Payment.{ChainStatus, ChainConfig, Item, Row, Db}
use e_native_issuer.Payment.Repository.{
  is_request, without_schema, insert_items, save_payment_request, get_payment_request_by_id,
  get_payment_request_item, update_payment_request_status,
}
use e_native_issuer.Payment.Requests.{QueryParams}
use e_native_issuer.Payment.Options.{get_payment_option_by_id}
use e_native_issuer.Payment.Chain.{
  SolanaClient, finalized, handle_payment_transaction, verify_payment_on_blockchain,
}
use e_native_issuer.Payment.Build.{
  fix_recovery_id, typed_token, typed_data, eip712_payment_request_signature, payment_proof,
  info_of, expiration_of, payment_info,
}
use e_native_issuer.Payment.Service.{
  is_solana, new_item, new_items, new_row, prepare_request, create_payment_request, chain_status,
  request_status, checked, paid_nonce_of, record_status, verify_payment,
}
use e_native_issuer.Payment.Settled.{create, perform, run, WellPaid, run-WellPaid}
use e_native_issuer.Payment.Ledger.{paid, ledger, Step, perform-Step, run-paid}
use e_native_issuer.Payment.Verified.{Done, verify-settles}
use e_native_issuer.Payment.Stored.{get-create}
use e_native_issuer.Payment.Example.{
  settings, create_calls, asked, start, request, stored, verify_calls, settled, calls,
}

run_test : run calls start ≡ record stored { requests = settled ∷ [] }
unfolding run perform create_payment_request prepare_request get_payment_option_by_id new_items
    new_item payment_info eip712_payment_request_signature typed_token typed_data fix_recovery_id
    expiration_of new_row info_of payment_proof save_payment_request insert_items verify_payment
    record_status checked get_payment_request_item get_payment_request_by_id chain_status
    verify_payment_on_blockchain handle_payment_transaction request_status paid_nonce_of
    update_payment_request_status
run_test = refl

run-WellPaid_example : WellPaid (run calls start)
run-WellPaid_example = run-WellPaid calls start tt

perform-Step_example :
    Step
      (ledger start)
      (ledger (perform (create settings create_calls asked) start))
      (create settings create_calls asked)
perform-Step_example = perform-Step (create settings create_calls asked) start

abbrev paid_up : Db
paid_up = record stored { requests = settled ∷ [] }

run-paid_example : ledger (run calls paid_up) "i" 5 ≡ some (paid (some 77))
run-paid_example = run-paid calls paid_up "i" 5 (some 77) (refl, (refl, tt)) refl

verify-settles_example :
    (◌≡◌ {A = Option ℕ} (some 77) (some 77))
    × (item : Item) × (s : ChainConfig) × Mem item stored.items
    × (item.nonce ≡ 77)
    × (item.payment_request_id ≡ 5)
    × (settings item.payment_option_id ≡ some s)
    × (chain_status verify_calls s item.signing_key_id 77 (some "0xt") ≡ ok ChainStatus.success)
    × (is_solana s.kind ≡ false → Done verify_calls s item.signing_key_id 77 (some "0xt"))
    × (r : Row) × (find (is_request "i" 5) stored.requests ≡ some r)
    × ((u : String) → some "u" ≡ some u → u ≡ r.user_did)
unfolding verify_payment record_status checked get_payment_request_item get_payment_request_by_id
    chain_status verify_payment_on_blockchain handle_payment_transaction request_status
    paid_nonce_of update_payment_request_status
verify-settles_example =
    verify-settles settings verify_calls "i" 77 (some "0xt") (some "u") stored 5 (some 77) refl refl

get-create_example :
    get_payment_request_by_id none "i" 5
      (create_payment_request settings create_calls asked start).1
    ≡ ok (record request { row = without_schema request.row })
unfolding create_payment_request prepare_request get_payment_option_by_id new_items new_item
    payment_info eip712_payment_request_signature typed_token typed_data fix_recovery_id
    expiration_of new_row info_of payment_proof save_payment_request insert_items
get-create_example = get-create settings create_calls asked start request tt refl refl

abbrev second : Row
second = record request.row { id = 6 }

abbrev every : QueryParams
every = record { user_did = none; schema_id = none; nonce = none }

abbrev solana_paid : SolanaClient
solana_paid = record {
  public_key = λ k. ok [];
  signature_status = λ t. ok (some (false, finalized));
  signature_status_again = λ t. ok (some (false, finalized));
  payment_record = λ p s n. ok (some 1);
}

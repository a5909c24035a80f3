-- ===== src/Publisher/LaterTests.antt =====
-- Runs of what follows a publication, and the theorems at them.
use e_native_issuer.Common.{◌≡◌, Bool, true, false, Option, none, List, [], ◌∷◌, ok}
use e_native_issuer.TtlMap
use e_native_issuer.IdentityStates.{Error}
use e_native_issuer.Publisher.Outcome.{watcher}
use e_native_issuer.Publisher.Receipt.{Receipt, ReceiptCalls, Credential, WaitCalls, finish}
use e_native_issuer.Publisher.Check.{JobCalls, check_transaction_status}
use e_native_issuer.Publisher.Confirm.{finish-releases}
use e_native_issuer.Publisher.Job.{Kept, due_states, names, check_transaction_status-Kept}
use e_native_issuer.Publisher.Tests.{did, issuer, new_row, node, held_node}

abbrev claims : List Credential
claims =
    record { other_identifier = "u1"; id = "c1" }
    ∷ record { other_identifier = "u2"; id = "c2" }
    ∷ record { other_identifier = "u1"; id = "c3" }
    ∷ []

abbrev receipt_calls : Option Error → ReceiptCalls
receipt_calls fault = record {
  now = 60;
  get_header_by_number = λ n. ok 1000;
  claims_fault = fault;
  update_fault = none;
  parse_did = λ d. ok d;
  get_by_state_id_with_mtp_proof = λ d s. ok claims;
  delivered = λ e. true;
}

abbrev receipt : Bool → Receipt
receipt b = record { successful = b; block_number = 8 }

abbrev wait_calls : WaitCalls
wait_calls = record {
  wait_for_transaction_receipt = λ i tx. ok (receipt true);
  wait_for_confirmation = λ i r. ok false;
  receipt_calls = receipt_calls none;
}

finish-releases_example :
    TtlMap.load 11 did (finish wait_calls (watcher did new_row issuer "0x1") held_node).pending
    ≡ none
finish-releases_example =
    finish-releases wait_calls (watcher did new_row issuer "0x1") held_node 11 did

abbrev job_calls : JobCalls
job_calls = record {
  now = 10;
  new_uuid = ok tt;
  states_fault = none;
  parse_did = λ d. ok d;
  get_confirmation_timeout = λ p. ok 1;
  check_calls = λ s. record {
    parse_did = λ d. ok d;
    new_identity_from_identifier = λ d. ok issuer;
    get_transaction_receipt_by_id = λ i tx. ok (receipt true);
    get_confirmation_block_count = λ p. ok 3;
    check_confirmation = λ i r n. ok true;
    receipt_calls = receipt_calls none;
  };
}

check_transaction_status-Kept_example :
    Kept
      (names (due_states job_calls node.states))
      node
      (check_transaction_status job_calls none node)
check_transaction_status-Kept_example = check_transaction_status-Kept job_calls none node

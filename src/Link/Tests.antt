-- ===== src/Link/Tests.antt =====
-- Runs of the links and the theorems at concrete inputs.
use e_native_issuer.Common.{
  ℕ, ◌+◌, ◌≡◌, ◌≢◌, refl, arith, String, Bool, true, false, none, some, List, [], ◌∷◌, ok, err,
}
use e_native_issuer.Link.{Row, Link, ClaimRow, Db, link_max_exceeded, set_key}
use e_native_issuer.Link.Repository.{
  issued, is_row, upsert, upsert_claim, get_claims_issued_for_user, save_claim,
}
use e_native_issuer.Link.Repository
use e_native_issuer.Link.Listing.{all, exceeded}
use e_native_issuer.Link.Service.{validate}
use e_native_issuer.Link.Issue.{
  IssueCalls, save_issued, new_credential, save_new, issue, issue_or_fetch, ready,
  issue_or_fetch_claim,
}
use e_native_issuer.Link.Limit.{Limited, Call, run, run-Limited}

abbrev row : ℕ → String → Bool → Row
row id did on = record {
  id = id;
  issuer_did = did;
  created_at = 10 + id;
  max_issuance = some 1;
  valid_until = some 1000;
  schema_id = 5;
  credential_expiration = none;
  credential_signature_proof = true;
  credential_mtp_proof = false;
  credential_subject = ("name", "x") ∷ [];
  active = on;
  refresh_service = none;
  display_method = none;
  authorization_request_message = none;
}

abbrev claim : ℕ → ℕ → String → ClaimRow
claim id link did = record {
  id = id;
  identifier = did;
  other_identifier = "did:user";
  link_id = some link;
  has_mtp_proof = false;
}

-- Link 1 of did:a is unused; link 2 of did:b is used up.
abbrev db : Db
db = record {
  links = row 1 "did:a" true ∷ row 2 "did:b" true ∷ [];
  claims = claim 7 2 "did:b" ∷ [];
}

abbrev shown : Link
shown = record { row = row 1 "did:a" true; issued_claims = 0 }

abbrev calls : ℕ → IssueCalls
calls id = record {
  now = 100;
  link_fault = none;
  issued_fault = none;
  schema_by_id = λ issuer schema. ok schema;
  credential_status_type = λ issuer. ok "Iden3ReverseSparseMerkleTreeProof";
  create_credential = λ q. ok (record { id = id; other_identifier = "did:user" });
  save_link_fault = none;
  save_claim_fault = none;
}

first_is_issued : (issue_or_fetch_claim (calls 8) "did:a" "did:user" 1 db).0 ≡ ok (some 8)
unfolding issue_or_fetch_claim ready Repository.get_by_id get_claims_issued_for_user validate
    issue_or_fetch issue save_new new_credential save_issued Repository.save save_claim upsert
    upsert_claim set_key
first_is_issued = refl

second_is_refused :
    (issue_or_fetch_claim (calls 9) "did:b" "did:other" 2 db).0 ≡ err link_max_exceeded
unfolding issue_or_fetch_claim ready Repository.get_by_id get_claims_issued_for_user validate
second_is_refused = refl

abbrev limited : Limited 1 1 "did:a" db
limited = (row 1 "did:a" true, refl, refl, omega arith)

abbrev requests : List Call
requests =
    record { calls = calls 8; owner = "did:a"; user = "did:user"; link = 1 }
    ∷ record { calls = calls 9; owner = "did:a"; user = "did:other"; link = 1 }
    ∷ []

run-Limited_example : Limited 1 1 "did:a" (run requests db)
run-Limited_example = run-Limited 1 1 "did:a" requests db (λ e. refl, (λ e. refl, tt)) limited

all≢exceeded : all ≢ exceeded
all≢exceeded = λ e. ground (arith, e)

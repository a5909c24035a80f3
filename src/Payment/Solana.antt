-- ===== src/Payment/Solana.antt =====
-- What the verification of a payment on Solana looks at.
use e_native_issuer.Common.{
  ℕ, ◌%◌, ◌^◌, ◌≡◌, String, Option, none, some, List, Result, ok, err, arith, Bool-cases,
  Result-cases, inl, inr,
}
use e_native_issuer.Payment.{Error}
use e_native_issuer.Payment.Chain.{
  SolanaClient, provided, is_success, solana_record, solana_checked,
  handle_solana_payment_transaction, verify_solana_payment_on_blockchain,
}

-- The client whose accounts, where they are there, all say that nothing is paid
abbrev pub unpaid_account : Result Error (Option ℕ) → Result Error (Option ℕ)
unpaid_account (err e) = err e
unpaid_account (ok none) = ok none
unpaid_account (ok (some is_paid)) = ok (some 0)

abbrev pub unpaid : SolanaClient → SolanaClient
unpaid c = record c {
  payment_record = λ program key n. unpaid_account (c.payment_record program key n);
}

solana_record-unpaid :
    (c : SolanaClient) (program : List ℕ) (signer : String) (nonce : ℕ) (tx : Option String)
    (t : String)
    → provided tx ≡ some t
    → solana_record (unpaid c) program signer nonce tx ≡ solana_record c program signer nonce tx
unfolding solana_record
solana_record-unpaid c program signer nonce tx t given = elim (Result-cases (c.public_key signer)) [
  | inl (e, f) ↦ ground (arith, f)
  | inr (key, f) ↦ elim (Result-cases (c.payment_record program key (nonce % 2 ^ 64))) [
    | inl (e, g) ↦ ground (arith, f, g)
    | inr (none, g) ↦ ground (arith, f, g)
    | inr (some is_paid, g) ↦ ground (arith, f, g, given)
  ]
]

solana_checked-unpaid :
    (c : SolanaClient) (program : List ℕ) (signer : String) (nonce : ℕ) (tx : Option String)
    (t : String)
    → provided tx ≡ some t
    → solana_checked (unpaid c) program signer nonce tx ≡ solana_checked c program signer nonce tx
solana_checked-unpaid c program signer nonce tx t given =
    let same = solana_record-unpaid c program signer nonce tx t given in
    elim (Result-cases (handle_solana_payment_transaction (c.signature_status t))) [
      | inl (e, f) ↦ ground (arith, f, given)
      | inr (status, f) ↦ elim (Bool-cases (is_success status)) [
        | inl g ↦ ground (arith, f, g, given, same)
        | inr g ↦ ground (arith, f, g, given)
      ]
    ]

-- With a transaction, the answer for a payment on Solana does not depend on what the record of the
-- payment says: it is the same when every account says that nothing is paid.
pub verify_solana-unpaid :
    (cluster : ℕ → SolanaClient) (chain : ℕ) (rails signer : String) (nonce : ℕ)
    (tx : Option String) (t : String)
    → provided tx ≡ some t
    → verify_solana_payment_on_blockchain (λ n. unpaid (cluster n)) chain rails signer nonce tx
      ≡ verify_solana_payment_on_blockchain cluster chain rails signer nonce tx
unfolding verify_solana_payment_on_blockchain
verify_solana-unpaid cluster chain rails signer nonce tx t given =
    elim (Result-cases ((cluster chain).public_key rails)) [
      | inl (e, f) ↦ ground (arith, f)
      | inr (program, f) ↦
          let same = solana_checked-unpaid (cluster chain) program signer nonce tx t given in
          ground (arith, f, same)
    ]

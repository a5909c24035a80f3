-- ===== src/Chain/Abi.antt =====
-- A proof for the contract: adaptProofToAbi of issuer-node/internal/gateways/publisher_gateway.go,
-- with the parsing of issuer-node/internal/common/util.go. `parse` is big.Int's SetString, for a base.
-- A negative number, which SetString reads too, is left out: no coordinate of a proof is negative.
use e_native_issuer.Common.{
  ℕ, zero, suc, Bytes, codes, starts_with, drop, Option, none, some, List, [], ◌∷◌, if◌then◌else◌,
  Result, ok, err, ◌>>=◌,
}
use e_native_issuer.Chain.{Error, panics}

-- ProofData
pub record ProofData : Type 0 where
  pub a : List Bytes
  pub b : List (List Bytes)
  pub c : List Bytes

-- The arrays [2], [2][2] and [2] of the contract's call
pub record AbiProof : Type 0 where
  pub a : ℕ × ℕ
  pub b : (ℕ × ℕ) × (ℕ × ℕ)
  pub c : ℕ × ℕ

-- xs[i], which panics out of range
abbrev pub at_index {ℓ} : {A : Type ℓ} → ℕ → List A → Result Error A
at_index i [] = err panics
at_index zero (x ∷ xs) = ok x
at_index (suc i) (x ∷ xs) = at_index i xs

module _ (parse : ℕ → Bytes → Option ℕ) where
  -- stringToBigInt
  unfoldable pub string_to_big_int : Bytes → Option ℕ
  string_to_big_int s = if starts_with s (codes "0x") then parse 16 (drop 2 s) else parse 10 s

  -- ArrayStringToBigInt: at a text that is no number, the numbers before it and no error
  unfoldable pub array_string_to_big_int : List Bytes → List ℕ
  array_string_to_big_int [] = []
  array_string_to_big_int (s ∷ ss) =
      let rest = array_string_to_big_int ss in
      elim (string_to_big_int s) [ none ↦ [] | some n ↦ n ∷ rest ]

  -- ArrayOfStringArraysToBigInt: the call for a row gives no error.
  unfoldable pub array_of_string_arrays_to_big_int : List (List Bytes) → List (List ℕ)
  array_of_string_arrays_to_big_int [] = []
  array_of_string_arrays_to_big_int (s ∷ ss) =
      array_string_to_big_int s ∷ array_of_string_arrays_to_big_int ss

  abbrev pub first_two : List ℕ → Result Error (ℕ × ℕ)
  first_two xs = do x ← at_index 0 xs; y ← at_index 1 xs; ok (x, y)

  -- {b[i][1], b[i][0]}
  abbrev pub swapped_row : ℕ → List (List ℕ) → Result Error (ℕ × ℕ)
  swapped_row i rows = do row ← at_index i rows; y ← at_index 1 row; x ← at_index 0 row; ok (y, x)

  -- adaptProofToAbi
  unfoldable pub adapt_proof_to_abi : ProofData → Result Error AbiProof
  adapt_proof_to_abi proof = do
    a ← first_two (array_string_to_big_int proof.a)
    b0 ← swapped_row 0 (array_of_string_arrays_to_big_int proof.b)
    b1 ← swapped_row 1 (array_of_string_arrays_to_big_int proof.b)
    c ← first_two (array_string_to_big_int proof.c)
    ok (record { a = a; b = (b0, b1); c = c })

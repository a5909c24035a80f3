-- ===== src/Chain/Published.antt =====
-- What the gateways issuer-node/internal/gateways/publisher_gateway.go and transaction.go do in the
-- cases that go wrong, and how their two checks of a confirmation agree.
use e_native_issuer.Common.{
  ℕ, ◌≡◌, Bytes, Bool, true, false, any, find-absent, reject, ◌==◌, Option, none, some, List, ◌∷◌,
  ok, err, bind_ok, arith, Option-cases, Result-cases, inl, inr, ◌⊎◌,
}
use e_native_issuer.Key.{eth, untyped, KeyId, unknown_key_type}
use e_native_issuer.Key.Names.{type_eq}
use e_native_issuer.Key.Kms
use e_native_issuer.Key.Kms.{Kms, registered}
use e_native_issuer.Chain.{Error, Identity, panics, key_error, state_not_changed}
use e_native_issuer.Chain.Network.{Resolver, get_eth_client}
use e_native_issuer.Chain.Fees.{create_tx_opts}
use e_native_issuer.Chain.Abi.{
  ProofData, string_to_big_int, array_string_to_big_int, first_two, adapt_proof_to_abi,
}
use e_native_issuer.Chain.Publish.{
  World, Addresses, Transition, signing_key, get_address, publish_generic, publish_by,
  publish_state,
}

module _ (parse : ℕ → Bytes → Option ℕ) where
  -- A coordinate that is no number ends the array that it stands in.
  first_two-panics :
      (x y : Bytes) (rest : List Bytes)
      → ((string_to_big_int parse x ≡ none) ⊎ (string_to_big_int parse y ≡ none))
      → first_two parse (array_string_to_big_int parse (x ∷ y ∷ rest)) ≡ err panics
  unfolding array_string_to_big_int
  first_two-panics x y rest (inl h) = ground (arith, h)
  first_two-panics x y rest (inr h) = elim (Option-cases (string_to_big_int parse x)) [
    | inl e ↦ ground (arith, e)
    | inr (n, e) ↦ ground (arith, h, e)
  ]

  -- Where one of the first two texts of a proof's A is no number, the proof is not refused with an
  -- error: the program panics.
  pub adapt_proof_to_abi-panics :
      (proof : ProofData) (x y : Bytes) (rest : List Bytes)
      → proof.a ≡ x ∷ y ∷ rest
      → (string_to_big_int parse x ≡ none) ⊎ (string_to_big_int parse y ≡ none)
      → adapt_proof_to_abi parse proof ≡ err panics
  unfolding adapt_proof_to_abi
  adapt_proof_to_abi-panics proof x y rest e h = ground (arith, e, first_two-panics x y rest h)

-- The zero value of KeyID has no address.
get_address-untyped :
    {S : Type 0} (decode : Addresses) (kms : Kms S) (s : S) (keys : List KeyId)
    → any (λ k. type_eq k.key_type eth) keys ≡ false
    → registered untyped kms ≡ none
    → get_address decode (some kms) s (signing_key keys) ≡ err (key_error unknown_key_type)
unfolding get_address Kms.public_key
get_address-untyped decode kms s keys keyless unregistered =
    ground (arith, find-absent (λ (k : KeyId). type_eq k.key_type eth) keys keyless, unregistered)

generic-keyless :
    {S : Type 0} (world : World) (decode : Addresses) (resolver : Resolver) (kms : Kms S)
    (publishing_key : KeyId) (s : S) (identity : Identity) (did : Bytes) (transition : Transition)
    (tx : Bytes) (keys : List KeyId)
    → Kms.keys_by_identity did kms s ≡ ok keys
    → any (λ k. type_eq k.key_type eth) keys ≡ false
    → registered untyped kms ≡ none
    → publish_generic world decode resolver kms publishing_key s identity did transition ≡ ok tx
    → ◌≡◌ {A = Bool} true false
unfolding publish_generic create_tx_opts
generic-keyless world decode resolver kms publishing_key s identity did transition tx keys found
      keyless unregistered h =
    let none_of = get_address-untyped decode kms s keys keyless unregistered in
    elim (Result-cases (get_eth_client identity resolver)) [
      | inl (e, f) ↦ absurd (ground (arith, found, f, h))
      | inr (client, f) ↦ absurd (ground (arith, found, f, none_of, h))
    ]

-- An identity of Ethereum without a key of Ethereum publishes nothing: no other key signs for it,
-- as long as no provider is registered for the empty type.
pub publish_state-keyless :
    {S : Type 0} (world : World) (decode : Addresses) (resolver : Resolver) (kms : Kms S)
    (publishing_key : KeyId) (s : S) (identity : Identity) (did : Bytes) (latest new : ℕ)
    (genesis : Bool) (proof : ProofData) (keys : List KeyId)
    → identity.key_type ≡ eth
    → Kms.keys_by_identity did kms s ≡ ok keys
    → any (λ k. type_eq k.key_type eth) keys ≡ false
    → registered untyped kms ≡ none
    → (e : Error) × (publish_state world decode resolver kms publishing_key s identity did latest
          new genesis proof
        ≡ err e)
unfolding publish_state publish_by publish_generic create_tx_opts
publish_state-keyless world decode resolver kms publishing_key s identity did latest new genesis
      proof keys ty found keyless unregistered =
    let transition : ℕ → Transition = λ id. record {
      id = id;
      latest_state = latest;
      new_state = new;
      is_old_state_genesis = genesis;
    } in
    elim (Result-cases (
      publish_state world decode resolver kms publishing_key s identity did latest new genesis
        proof)) [
          | inl failed ↦ failed
          | inr (tx, f) ↦
              let (u, g, h1) = bind_ok (reject (new == latest) state_not_changed) _ _ f in
              let (id, i, h2) = bind_ok (world.id_from_did did) _ _ h1 in
              let sent : publish_generic world decode resolver kms publishing_key s identity did
                    (transition id)
                  ≡ ok tx =
                ground (arith, ty, h2) in
              absurd (
                ground (
                  arith,
                  generic-keyless world decode resolver kms publishing_key s identity did
                      (transition id) tx keys found keyless unregistered sent,
                ))
        ]

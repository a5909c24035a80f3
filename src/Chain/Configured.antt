-- ===== src/Chain/Configured.antt =====
-- The networks that issuer-node/internal/network/resolver.go accepts.
use mathlib.Core.Path.{subst}
use e_native_issuer.Common.{
  ℕ, ◌≡◌, refl, Bytes, bytes_eq, Bool, true, false, ◌&&◌, not, is_some, some, List, [], ◌∷◌, any,
  ok, bind_ok, ok-same, arith, Bool-cases, Option-cases, inl, inr,
}
use e_native_issuer.Chain.{ClientConfig, Error}
use e_native_issuer.Chain.Network.{
  Mode, everywhere, on_chain, off_chain, nowhere, unknown, is_on_chain, is_off_chain, StatusType,
  iden3comm, reverse_sparse_merkle_tree, onchain_sparse_merkle_tree,
  is_credential_status_type_supported, supported_credential_status_types, RhsSettings,
  NetworkSettings, ResolverClientConfig, Resolver, Outside, lookup, check_rhs, register_flagged,
  with_agent, added, get_resolver_prefix_key, add_network, add_networks, with_supported, add_chains,
  new_resolver, get_eth_client_of, get_rhs_settings,
}

abbrev pub status_eq : StatusType → StatusType → Bool
status_eq iden3comm iden3comm = true
status_eq reverse_sparse_merkle_tree reverse_sparse_merkle_tree = true
status_eq onchain_sparse_merkle_tree onchain_sparse_merkle_tree = true
status_eq x y = false

-- The list of supported types of credential status and the test for one type agree, in every mode.
pub supported_types-is_supported :
    (mode : Mode) (t : StatusType)
    → any (status_eq t) (supported_credential_status_types mode)
      ≡ is_credential_status_type_supported mode t
unfolding supported_credential_status_types is_credential_status_type_supported
supported_types-is_supported everywhere iden3comm = refl
supported_types-is_supported everywhere reverse_sparse_merkle_tree = refl
supported_types-is_supported everywhere onchain_sparse_merkle_tree = refl
supported_types-is_supported on_chain iden3comm = refl
supported_types-is_supported on_chain reverse_sparse_merkle_tree = refl
supported_types-is_supported on_chain onchain_sparse_merkle_tree = refl
supported_types-is_supported off_chain iden3comm = refl
supported_types-is_supported off_chain reverse_sparse_merkle_tree = refl
supported_types-is_supported off_chain onchain_sparse_merkle_tree = refl
supported_types-is_supported nowhere iden3comm = refl
supported_types-is_supported nowhere reverse_sparse_merkle_tree = refl
supported_types-is_supported nowhere onchain_sparse_merkle_tree = refl
supported_types-is_supported unknown iden3comm = refl
supported_types-is_supported unknown reverse_sparse_merkle_tree = refl
supported_types-is_supported unknown onchain_sparse_merkle_tree = refl

-- The mode of a network's settings has what it needs.
abbrev pub IsServed : RhsSettings → Type 0
IsServed settings =
    (is_off_chain settings.mode ≡ true → is_some settings.rhs_url ≡ true)
    × (is_on_chain settings.mode ≡ true → is_some settings.contract_address ≡ true)

abbrev pub Served : Resolver → Type 0
Served r =
    (key : Bytes) (client : ResolverClientConfig)
    → lookup key r.ethereum_clients ≡ some client
    → (settings : RhsSettings) × (lookup key r.rhs_settings ≡ some settings) × IsServed settings

check_rhs-IsServed : (settings : RhsSettings) → check_rhs settings ≡ ok tt → IsServed settings
unfolding check_rhs
check_rhs-IsServed settings h = (
  λ e. elim (Bool-cases (is_some settings.rhs_url)) [
    | inl f ↦ f
    | inr f ↦ absurd (ground (arith, e, f, h))
  ],
  λ e. elim (Bool-cases (is_some settings.contract_address)) [
    | inl f ↦ f
    | inr f ↦ elim (Bool-cases (is_off_chain settings.mode && not (is_some settings.rhs_url))) [
      | inl g ↦ absurd (ground (arith, e, f, g, h))
      | inr g ↦ absurd (ground (arith, e, f, g, h))
    ]
  ],
)

module _ (outside : Outside) (server_url : Bytes) where
  added-Served :
      (key : Bytes) (id : ℕ) (settings : NetworkSettings) (r : Resolver)
      → check_rhs settings.rhs_settings ≡ ok tt
      → Served r
      → Served (added outside server_url key id settings r)
  added-Served key id settings r checked h k client e = elim (Bool-cases (bytes_eq key k)) [
    | inl t ↦ (
      with_agent outside server_url settings.rhs_settings,
      ground (arith, t),
      check_rhs-IsServed settings.rhs_settings checked,
    )
    | inr t ↦
        let (found, there, served) = h k client (ground (arith, t, e)) in
        (found, ground (arith, t, there), served)
  ]

  add_network-Served :
      (chain network : Bytes) (settings : NetworkSettings) (r after : Resolver)
      → add_network outside server_url chain network settings r ≡ ok after
      → Served r
      → Served after
  unfolding add_network
  add_network-Served chain network settings r after h served =
      let (u, f, h1) = bind_ok (register_flagged outside server_url chain network settings) _ _ h in
      let (v, g, h2) = bind_ok (outside.dial settings.network_url) _ _ h1 in
      let (id, i, h3) = bind_ok (outside.get_chain_id chain network) _ _ h2 in
      let (w, c, h4) = bind_ok (check_rhs settings.rhs_settings) _ _ h3 in
      let (x, n, h5) = bind_ok (outside.new_state settings.contract_address) _ _ h4 in
      let key = get_resolver_prefix_key chain network in
      let made = added outside server_url key id settings r in
      subst Served (ok-same {E = Error} made after h5) (added-Served key id settings r c served)

  add_networks-Served :
      (chain : Bytes) (ns : List (Bytes × NetworkSettings)) (r after : Resolver)
      → add_networks outside server_url chain ns r ≡ ok after
      → Served r
      → Served after
  unfolding add_networks
  add_networks-Served chain [] r after h served =
      subst Served (ok-same {E = Error} r after h) served
  add_networks-Served chain (n ∷ ns) r after h served =
      let (next, f, h1) = bind_ok (add_network outside server_url chain n.0 n.1 r) _ _ h in
      add_networks-Served chain ns next after h1 (add_network-Served chain n.0 n.1 r next f served)

  add_chains-Served :
      (cs : List (Bytes × List (Bytes × NetworkSettings))) (r after : Resolver)
      → add_chains outside server_url cs r ≡ ok after
      → Served r
      → Served after
  unfolding add_chains
  add_chains-Served [] r after h served = subst Served (ok-same {E = Error} r after h) served
  add_chains-Served (c ∷ cs) r after h served =
      let (next, f, h1) = bind_ok (add_networks outside server_url c.0 c.1 r) _ _ h in
      add_chains-Served cs (with_supported outside server_url c.0 c.1 next) after h1
        (add_networks-Served c.0 c.1 r next f served)

  -- Each network for which the resolver gives a client has settings of the reverse hash service, with
  -- an address of the service where the mode works off chain and one of a contract where it works on
  -- chain.
  pub new_resolver-Served :
      (settings : List (Bytes × List (Bytes × NetworkSettings))) (r : Resolver) (key : Bytes)
      (client : ClientConfig)
      → new_resolver outside server_url settings ≡ ok r
      → get_eth_client_of key r ≡ ok client
      → (found : RhsSettings) × (get_rhs_settings key r ≡ ok found) × IsServed found
  unfolding new_resolver get_eth_client_of get_rhs_settings
  new_resolver-Served settings r key client h e =
      let served = add_chains-Served settings _ r h (λ k c f. absurd (ground (arith, f))) in
      elim (Option-cases (lookup key r.ethereum_clients)) [
        | inl f ↦ absurd (ground (arith, f, e))
        | inr (c, f) ↦
            let (found, there, ready) = served key c f in (found, ground (arith, there), ready)
      ]

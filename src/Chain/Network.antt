-- ===== src/Chain/Network.antt =====
-- issuer-node/internal/network/resolver.go. The settings are a list of chains, in the order in which
-- the code's loops over its maps visit them.
use e_native_issuer.Common.{
  ℕ, Bytes, bytes_eq, split, Bool, true, false, not, ◌&&◌, ◌==◌, Option, none, some, is_some, List,
  [], ◌∷◌, ◌++◌, map, find, if◌then◌else◌, Result, ok, err, or_err, reject, ◌>>=◌, ◌>>◌,
}
use e_native_issuer.Chain.{
  ClientConfig, Error, Identity, client_not_found, invalid_identifier, rhs_url_not_found,
  contract_address_not_found,
}

-- All, OnChain, OffChain and None, and any other text
pub data Mode : Type 0 where
  everywhere on_chain off_chain nowhere unknown : Mode

-- RhsSettings
pub record RhsSettings : Type 0 where
  pub iden3_comm_agent_status : Bytes
  pub mode : Mode
  pub contract_address : Option Bytes
  pub rhs_url : Option Bytes
  pub single_issuer : Bool

-- The settings of a network, with its client's configuration
pub record NetworkSettings : Type 0 where
  pub contract_address : Bytes
  pub network_url : Bytes
  pub config : ClientConfig
  pub rhs_settings : RhsSettings
  pub network_flag : ℕ

-- ResolverClientConfig
pub record ResolverClientConfig : Type 0 where
  pub config : ClientConfig
  pub contract_address : Bytes

-- Resolver, but for the contracts and the state resolvers, which have the keys of the clients
pub record Resolver : Type 0 where
  pub ethereum_clients_by_chain_id : List (ℕ × ResolverClientConfig)
  pub ethereum_clients : List (Bytes × ResolverClientConfig)
  pub rhs_settings : List (Bytes × RhsSettings)
  pub supported_networks : List (Bytes × List Bytes)

-- registerCustomDIDMethod, ethclient.Dial, core.GetChainID and abi.NewState
pub record Outside : Type 0 where
  pub register_custom_did_method : Bytes → Bytes → NetworkSettings → Result Error (Unit {0})
  pub dial : Bytes → Result Error (Unit {0})
  pub get_chain_id : Bytes → Bytes → Result Error ℕ
  pub new_state : Bytes → Result Error (Unit {0})

abbrev pub lookup : {A : Type 0} → Bytes → List (Bytes × A) → Option A
lookup key [] = none
lookup key (e ∷ m) = if bytes_eq e.0 key then some e.1 else lookup key m

-- m[key] = value, where the newest entry counts
abbrev pub set : {A : Type 0} → Bytes → A → List (Bytes × A) → List (Bytes × A)
set key value m = (key, value) ∷ m

-- getResolverPrefixKey: 58 is the colon.
unfoldable pub get_resolver_prefix_key : Bytes → Bytes → Bytes
get_resolver_prefix_key blockchain network = blockchain ++ 58 ∷ network

abbrev pub is_off_chain : Mode → Bool
is_off_chain off_chain = true
is_off_chain everywhere = true
is_off_chain m = false

abbrev pub is_on_chain : Mode → Bool
is_on_chain on_chain = true
is_on_chain everywhere = true
is_on_chain m = false

-- What NewResolver asks of the reverse hash service's settings
unfoldable pub check_rhs : RhsSettings → Result Error (Unit {0})
check_rhs settings = do
  reject (is_off_chain settings.mode && not (is_some settings.rhs_url)) rhs_url_not_found
  reject (is_on_chain settings.mode && not (is_some settings.contract_address))
      contract_address_not_found

-- strings.TrimSuffix with a slash, which is 47
abbrev pub trim_slash : Bytes → Bytes
trim_slash [] = []
trim_slash (c ∷ []) = if c == 47 then [] else c ∷ []
trim_slash (c ∷ d ∷ cs) = c ∷ trim_slash (d ∷ cs)

module _ (outside : Outside) (server_url : Bytes) where
  -- settings.Iden3CommAgentStatus = strings.TrimSuffix(cfg.ServerUrl, "/")
  abbrev pub with_agent : RhsSettings → RhsSettings
  with_agent settings = record settings { iden3_comm_agent_status = trim_slash server_url }

  unfoldable pub register_flagged : Bytes → Bytes → NetworkSettings → Result Error (Unit {0})
  register_flagged chain network settings =
      if settings.network_flag == 0
      then ok tt
      else outside.register_custom_did_method chain network settings

  abbrev pub added : Bytes → ℕ → NetworkSettings → Resolver → Resolver
  added key id settings r =
      let client : ResolverClientConfig = record {
        config = settings.config;
        contract_address = settings.contract_address;
      } in
      record r {
        ethereum_clients_by_chain_id = (id, client) ∷ r.ethereum_clients_by_chain_id;
        ethereum_clients = set key client r.ethereum_clients;
        rhs_settings = set key (with_agent settings.rhs_settings) r.rhs_settings;
      }

  -- The inner loop's body of NewResolver
  unfoldable pub add_network : Bytes → Bytes → NetworkSettings → Resolver → Result Error Resolver
  add_network chain network settings r = do
    register_flagged chain network settings
    outside.dial settings.network_url
    id ← outside.get_chain_id chain network
    check_rhs settings.rhs_settings
    outside.new_state settings.contract_address
    ok (added (get_resolver_prefix_key chain network) id settings r)

  unfoldable pub add_networks :
      Bytes → List (Bytes × NetworkSettings) → Resolver → Result Error Resolver
  add_networks chain [] r = ok r
  add_networks chain (n ∷ ns) r = do
    after ← add_network chain n.0 n.1 r
    add_networks chain ns after

  abbrev pub with_supported : Bytes → List (Bytes × NetworkSettings) → Resolver → Resolver
  with_supported chain networks r = record r {
    supported_networks = r.supported_networks ++ (chain, map (λ n. n.0) networks) ∷ [];
  }

  -- The outer loop
  unfoldable pub add_chains :
      List (Bytes × List (Bytes × NetworkSettings)) → Resolver → Result Error Resolver
  add_chains [] r = ok r
  add_chains (c ∷ cs) r = do
    after ← add_networks c.0 c.1 r
    add_chains cs (with_supported c.0 c.1 after)

  -- NewResolver, for settings that were read
  unfoldable pub new_resolver :
      List (Bytes × List (Bytes × NetworkSettings)) → Result Error Resolver
  new_resolver settings = add_chains settings (record {
    ethereum_clients_by_chain_id = [];
    ethereum_clients = [];
    rhs_settings = [];
    supported_networks = [];
  })

-- GetEthClient
unfoldable pub get_eth_client_of : Bytes → Resolver → Result Error ClientConfig
get_eth_client_of key r = do
  client ← or_err (lookup key r.ethereum_clients) client_not_found
  ok client.config

-- GetEthClientByChainID
unfoldable pub get_eth_client_by_chain_id : ℕ → Resolver → Result Error ClientConfig
get_eth_client_by_chain_id id r = do
  entry ← or_err (find (λ e. e.0 == id) r.ethereum_clients_by_chain_id) client_not_found
  ok entry.1.config

-- GetContractAddress
unfoldable pub get_contract_address : Bytes → Resolver → Result Error Bytes
get_contract_address key r = do
  client ← or_err (lookup key r.ethereum_clients) client_not_found
  ok client.contract_address

-- GetRhsSettings
unfoldable pub get_rhs_settings : Bytes → Resolver → Result Error RhsSettings
get_rhs_settings key r = or_err (lookup key r.rhs_settings) client_not_found

-- GetRhsSettingsForBlockchainAndNetwork
unfoldable pub get_rhs_settings_for_blockchain_and_network :
    Bytes → Bytes → Resolver → Result Error RhsSettings
get_rhs_settings_for_blockchain_and_network blockchain network =
    get_rhs_settings (get_resolver_prefix_key blockchain network)

-- GetConfirmationBlockCount
unfoldable pub get_confirmation_block_count : Bytes → Resolver → Result Error ℕ
get_confirmation_block_count key r = do
  client ← or_err (lookup key r.ethereum_clients) client_not_found
  ok client.config.confirmation_block_count

-- GetConfirmationTimeout
unfoldable pub get_confirmation_timeout : Bytes → Resolver → Result Error ℕ
get_confirmation_timeout key r = do
  client ← or_err (lookup key r.ethereum_clients) client_not_found
  ok client.config.confirmation_timeout

-- The three types of credential status
pub data StatusType : Type 0 where
  iden3comm reverse_sparse_merkle_tree onchain_sparse_merkle_tree : StatusType

-- IsCredentialStatusTypeSupported
unfoldable pub is_credential_status_type_supported : Mode → StatusType → Bool
is_credential_status_type_supported mode iden3comm = true
is_credential_status_type_supported mode reverse_sparse_merkle_tree = is_off_chain mode
is_credential_status_type_supported mode onchain_sparse_merkle_tree = is_on_chain mode

-- SupportedCredentialStatusTypes
unfoldable pub supported_credential_status_types : Mode → List StatusType
supported_credential_status_types mode =
    iden3comm ∷ (if is_off_chain mode then reverse_sparse_merkle_tree ∷ [] else [])
    ++ (if is_on_chain mode then onchain_sparse_merkle_tree ∷ [] else [])

-- GetResolverPrefix: the third and the fourth part of the identifier
abbrev prefix_of_parts : List Bytes → Result Error Bytes
prefix_of_parts (a ∷ b ∷ chain ∷ network ∷ rest) = ok (get_resolver_prefix_key chain network)
prefix_of_parts parts = err invalid_identifier

unfoldable pub get_resolver_prefix : Identity → Result Error Bytes
get_resolver_prefix identity = prefix_of_parts (split 58 identity.identifier)

-- getEthClient
unfoldable pub get_eth_client : Identity → Resolver → Result Error ClientConfig
get_eth_client identity r = do key ← get_resolver_prefix identity; get_eth_client_of key r

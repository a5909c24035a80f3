-- ===== src/Key/Local.antt =====
-- The providers that keep keys in a file: issuer-node/internal/kms/local_bjj_key_provider.go,
-- local_eth_key_provider.go and local_ed25519_key_provider.go. Each has a map of keys that no
-- identity has yet; they share the file. A key pair is drawn by `Curves`, which also computes.
mod Paths
mod Memory
mod Linked
mod Bjj
unfoldable pub use Paths.*
unfoldable pub use Memory.*
unfoldable pub use Linked.*
unfoldable pub use Bjj.*
use e_native_issuer.Common.{List, [], ◌∷◌}
use e_native_issuer.Key.{KeyType, bjj, eth, ed25519, KeyProvider}
use e_native_issuer.Key.Kms.{Kms}

module _ (curves : Curves) where
  -- NewLocalBJJKeyProvider
  unfoldable pub local_bjj : KeyProvider Local
  local_bjj = record {
    new = new_bjj curves;
    public_key = public_key_bjj curves;
    sign = sign_bjj curves;
    list_by_identity = list_by_identity bjj;
    link_to_identity = link_to_identity_bjj curves;
    delete = delete;
    exists = exists;
  }

  -- NewLocalEthKeyProvider, for either type
  unfoldable pub local_linked : KeyType → KeyProvider Local
  local_linked ty = record {
    new = new_temporary curves ty;
    public_key = public_key curves ty;
    sign = sign curves ty;
    list_by_identity = list_by_identity ty;
    link_to_identity = link_to_identity curves ty;
    delete = delete;
    exists = exists;
  }

  -- The provider for Ed25519, all of it
  unfoldable pub local_ed25519 : KeyProvider Local
  local_ed25519 = local_linked ed25519

  -- The system that OpenWithConfig makes when the three types are kept in the file
  unfoldable pub local_kms : Kms Local
  local_kms = (bjj, local_bjj) ∷ (eth, local_linked eth) ∷ (ed25519, local_ed25519) ∷ []

-- ===== src/ApiKey.antt =====
-- The API keys of partners: issuer-node/internal/core/domain/api_key.go and the table of
-- issuer-node/internal/db/schema/migrations. Texts are their bytes; times are in nanoseconds.
pub mod Token
pub mod Scopes
pub mod Repository
pub mod Service
pub mod Secret
pub mod Access
pub mod Lifecycle
pub mod RoundTrip
pub mod Tests
use e_native_issuer.Common.{ℕ, Bytes, Option, List, String}

-- APIKeyStatus
pub data Status : Type 0 where
  active revoked : Status

-- APIKey
pub record Key : Type 0 where
  pub id : ℕ
  pub partner_name : Bytes
  pub key_prefix : Bytes
  pub key_hash : Bytes
  pub scopes : List Bytes
  pub status : Status
  pub created_at : ℕ
  pub last_used_at : Option ℕ
  pub expires_at : Option ℕ
  pub revoked_at : Option ℕ
  pub revoked_reason : Option String

-- APIKeyEvent, without its metadata
pub record Event : Type 0 where
  pub api_key_id : ℕ
  pub event_type : String
  pub created_at : ℕ

pub record Db : Type 0 where
  pub keys : List Key
  pub events : List Event

pub data Error : Type 0 where
  not_found invalid is_revoked is_expired missing_scope invalid_request pepper_missing : Error
  row_not_found duplicate : Error
  callee : ℕ → Error

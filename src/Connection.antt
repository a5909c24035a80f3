-- ===== src/Connection.antt =====
-- Connections between issuers and users: issuer-node/internal/core/domain/connection.go,
-- issuer-node/internal/repositories/connection.go and
-- issuer-node/internal/core/services/connections.go. DIDs and documents are opaque texts.
pub mod Repository
pub mod Service
pub mod Kept
pub mod Removed
pub mod Tests
use e_native_issuer.Common.{ℕ, String, Option, List}

-- Connection, without the credentials that the listing adds
pub record Connection : Type 0 where
  pub id : ℕ
  pub issuer_did : String
  pub user_did : String
  pub issuer_doc : String
  pub user_doc : String
  pub created_at : ℕ
  pub modified_at : ℕ

-- A row of the table `user_authentications`
pub record Authentication : Type 0 where
  pub connection_id : ℕ
  pub session_id : ℕ
  pub created_at : ℕ
  pub updated_at : Option ℕ

-- The columns of a claim that connections look at
pub record Claim : Type 0 where
  pub id : ℕ
  pub issuer : String
  pub other_identifier : String

pub record Db : Type 0 where
  pub connections : List Connection
  pub authentications : List Authentication
  pub claims : List Claim

-- `refused` is a constraint of the database.
pub data Error : Type 0 where
  connection_does_not_exist refused : Error
  callee : ℕ → Error

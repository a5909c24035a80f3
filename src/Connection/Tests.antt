-- ===== src/Connection/Tests.antt =====
-- Connections at concrete values.
use e_native_issuer.Common.{◌≡◌, refl, none, [], ◌∷◌, ok}
use e_native_issuer.Connection.{Connection, Db}
use e_native_issuer.Connection.Repository.{
  upsert_authentication, save_user_authentication, get_by_user_session_id,
}

abbrev first : Connection
first = record {
  id = 1;
  issuer_did = "i";
  user_did = "u";
  issuer_doc = "{}";
  user_doc = "{}";
  created_at = 10;
  modified_at = 10;
}

abbrev again : Connection
again = record first { id = 2; user_doc = "{new}"; created_at = 20; modified_at = 20 }

abbrev db : Db
db = record {
  connections = first ∷ [];
  authentications =
      record { connection_id = 1; session_id = 4; created_at = 10; updated_at = none } ∷ [];
  claims = record { id = 7; issuer = "i"; other_identifier = "u" } ∷ [];
}

session_test : get_by_user_session_id none 5 (save_user_authentication none 1 5 30 db).1 ≡ ok first
unfolding get_by_user_session_id save_user_authentication upsert_authentication
session_test = refl

-- ===== src/Query/Urn.antt =====
-- issuer-node/internal/urn/urn.go. `uuid.Parse` is an argument.
use e_native_issuer.Common.{
  ℕ, Bytes, codes, bytes_eq, not, ◌++◌, length, take, drop, ltb, Result, ok, reject, ◌>>=◌, ◌>>◌,
}

pub data Error : Type 0 where
  invalid_length invalid_prefix : Error
  callee : ℕ → Error

abbrev pub urn_prefix : Bytes
urn_prefix = codes "urn:uuid:"

-- FromUUID, for the text of the id
unfoldable pub from_uuid : Bytes → Bytes
from_uuid id = urn_prefix ++ id

-- valid
unfoldable pub check_urn : Bytes → Result Error (Unit {0})
check_urn u = do
  reject (ltb (length u) 9) invalid_length
  reject (not (bytes_eq (take 9 u) urn_prefix)) invalid_prefix
  ok tt

-- UUID
unfoldable pub uuid {ℓ} : {A : Type ℓ} → (Bytes → Result Error A) → Bytes → Result Error A
uuid parse_uuid u = do check_urn u; parse_uuid (drop 9 u)

-- Parse
unfoldable pub parse_urn : Bytes → Result Error Bytes
parse_urn u = do check_urn u; ok u

-- UUIDFromURNString
unfoldable pub uuid_from_urn {ℓ} : {A : Type ℓ} → (Bytes → Result Error A) → Bytes → Result Error A
uuid_from_urn parse_uuid u = do urn ← parse_urn u; uuid parse_uuid urn

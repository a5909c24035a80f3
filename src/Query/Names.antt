-- ===== src/Query/Names.antt =====
-- The id in a URN of issuer-node/internal/urn/urn.go.
use e_native_issuer.Common.{◌≡◌, Bytes, Result, arith}
use e_native_issuer.Query.Urn.{Error, from_uuid, check_urn, uuid, parse_urn, uuid_from_urn}

-- What the parser of ids says of a text, it says of the URN of the text.
pub uuid_from_urn-from_uuid {ℓ} :
    {A : Type ℓ} (parse_uuid : Bytes → Result Error A) (id : Bytes)
    → uuid_from_urn parse_uuid (from_uuid id) ≡ parse_uuid id
unfolding uuid_from_urn from_uuid uuid parse_urn check_urn
uuid_from_urn-from_uuid parse_uuid id = ground arith

-- ===== src/Credential/Listing.antt =====
-- GetAllByIssuerID of issuer-node/internal/repositories/claim.go with the query of
-- buildGetAllQueryAndFilters, and the search terms of issuer-node/internal/repositories/ftsutil.go.
-- LIKE, ILIKE, the path in a JSON column and ORDER BY are the database's. A search joins a claim with
-- each schema of its issuer that has its hash. The join with the table of states gives one row for a
-- claim, since a state is one identity's. NULL counts as false, which no condition here negates.
use e_native_issuer.Common.{
  ℕ, ◌+◌, ◌*◌, ◌%◌, Bytes, codes, bytes_eq, split, map, Bool, true, not, ◌&&◌, ◌||◌, ◌==◌, Option,
  none, some, is_some, some_and, List, [], ◌∷◌, ◌++◌, any, all, keep, take, drop, length, leb, ltb,
  if◌then◌else◌, Result, ok, err, reject, ◌>>◌, ◌>>=◌,
}
use e_native_issuer.ApiKey.Scopes.{trim_space}
use e_native_issuer.Query.Pagination.{word}

-- The columns that the conditions read
pub record Row : Type 0 where
  pub id : ℕ
  pub identifier : Bytes
  pub issuer : Bytes
  pub schema_type : Bytes
  pub schema_hash : Bytes
  pub schema_url : Bytes
  pub other_identifier : Bytes
  pub revoked : Bool
  pub expiration : ℕ
  pub has_signature_proof : Bool
  pub has_mtp_proof : Bool
  pub mtp : Bool
  pub data_ : ℕ
  pub created_at : ℕ

-- A row of schemas
pub record Schema : Type 0 where
  pub issuer_id : Bytes
  pub hash : Bytes
  pub words : Option Bytes

-- A row of the joined tables
pub record Joined : Type 0 where
  pub claim : Row
  pub words : Option Bytes

-- The types of proofs that a filter names
pub data ProofType : Type 0 where
  bjj_signature sparse_merkle_tree any_proof another : ProofType

-- ClaimsFilter
pub record ClaimsFilter : Type 0 where
  pub self : Option Bool
  pub revoked : Option Bool
  pub expired_on : Option ℕ
  pub schema_hash : Bytes
  pub schema_type : Bytes
  pub schema_url : Bytes
  pub subject : Bytes
  pub query_field : Bytes
  pub query_field_value : Bytes
  pub fts_query : Bytes
  pub fts_and_cond : Bool
  pub proofs : List ProofType
  pub max_results : ℕ
  pub page : Option ℕ

-- A text and its pattern; the text of a field of a credential's subject; the rows in order.
pub record Sql : Type 0 where
  pub like : Bytes → Bytes → Bool
  pub ilike : Bytes → Bytes → Bool
  pub subject_field : ℕ → Bytes → Option Bytes
  pub order : List Joined → List Joined

pub data Error : Type 0 where
  syntax_error out_of_range : Error
  callee : ℕ → Error

-- domain.AuthBJJCredentialSchemaType
abbrev pub auth_type : Bytes
auth_type = codes "https://schema.iden3.io/core/jsonld/auth.jsonld#AuthBJJCredential"

-- strings.ReplaceAll of the comma, which is 44, by the blank, which is 32
abbrev pub no_commas : Bytes → Bytes
no_commas = map (λ c. if c == 44 then 32 else c)

-- The loop of tokenizeQuery
unfoldable pub tokens_from : List Bytes → List Bytes → List Bytes
tokens_from terms [] = terms
tokens_from terms (w ∷ ws) =
    let t = trim_space w in
    let new = not (bytes_eq t []) && not (any (bytes_eq t) terms) in
    tokens_from (if new then terms ++ t ∷ [] else terms) ws

-- tokenizeQuery
unfoldable pub tokenize_query : Bytes → List Bytes
tokenize_query query = tokens_from [] (split 32 (no_commas query))

-- escapeDID takes out all but letters, digits and colons.
abbrev pub is_did_char : ℕ → Bool
is_did_char c = (leb 97 c && leb c 122) || (leb 65 c && leb c 90) || (leb 48 c && leb c 58)

abbrev pub escape_did : Bytes → Bytes
escape_did = keep is_did_char

-- '%' before and after
abbrev pub within : Bytes → Bytes
within t = codes "%" ++ t ++ codes "%"

-- A condition that an empty text of the filter leaves out
abbrev pub unless_empty : Bytes → Bool → Bool
unless_empty t b = bytes_eq t [] || b

abbrev pub is_schema_of : Row → Schema → Bool
is_schema_of r s = bytes_eq r.schema_hash s.hash && bytes_eq r.issuer s.issuer_id

-- LEFT JOIN: a claim without a schema stays once.
abbrev pub with_schemas : Row → List Schema → List Joined
with_schemas r [] = record { claim = r; words = none } ∷ []
with_schemas r (s ∷ schemas) = map (λ t. record { claim = r; words = t.words }) (s ∷ schemas)

unfoldable pub left_join : List Schema → List Row → List Joined
left_join schemas [] = []
left_join schemas (r ∷ rows) =
    with_schemas r (keep (is_schema_of r) schemas) ++ left_join schemas rows

-- FROM: the schemas are joined for a search only.
unfoldable pub from_tables : ClaimsFilter → List Schema → List Row → List Joined
from_tables filter schemas rows =
    if bytes_eq filter.fts_query [] then left_join [] rows else left_join schemas rows

module _ (sql : Sql) (issuer : Bytes) (filter : ClaimsFilter) where
  -- The condition of a type of proof
  unfoldable pub has_proof : Row → ProofType → Bool
  has_proof r bjj_signature = r.has_signature_proof
  has_proof r sparse_merkle_tree = r.has_mtp_proof
  has_proof r any_proof = (r.mtp && r.has_mtp_proof) || r.has_signature_proof
  has_proof r another = true

  -- Terms joined with AND or with OR
  abbrev pub joined : (Bytes → Bool) → List Bytes → Bool
  joined p terms = if filter.fts_and_cond then all p terms else any p terms

  abbrev pub with_cond : Bool → Bool → Bool
  with_cond a b = if filter.fts_and_cond then a && b else a || b

  -- The conditions of the search: the words of the schema, and the holder where no subject is given
  unfoldable pub is_found : Joined → Bool
  is_found j =
      let terms = tokenize_query filter.fts_query in
      let words = joined (λ t. some_and j.words (λ w. sql.ilike w (within t))) terms in
      let holder = joined (λ t. sql.ilike j.claim.other_identifier (within (escape_did t))) terms in
      if bytes_eq filter.subject [] then with_cond words holder else words

  abbrev pub is_expired : Row → Bool
  is_expired r = elim filter.expired_on [
    | none ↦ true
    | some t ↦ ltb 0 r.expiration && ltb r.expiration t
  ]

  -- WHERE
  unfoldable pub matches : Joined → Bool
  matches j =
      let r = j.claim in
      bytes_eq r.identifier issuer
      && not (bytes_eq r.schema_type auth_type)
      && (not (some_and filter.self (λ b. b)) || bytes_eq r.other_identifier [])
      && unless_empty filter.subject (bytes_eq r.other_identifier filter.subject)
      && unless_empty filter.schema_hash (sql.like r.schema_hash (filter.schema_hash ++ codes "%"))
      && unless_empty filter.schema_type (sql.like r.schema_type (within filter.schema_type))
      && unless_empty filter.schema_url (sql.like r.schema_url (filter.schema_url ++ codes "%"))
      && (not (is_some filter.revoked)
          || some_and filter.revoked (λ b. if b then r.revoked else not r.revoked))
      && unless_empty filter.query_field (
          some_and (sql.subject_field r.data_ filter.query_field)
            (λ v. bytes_eq v filter.query_field_value))
      && is_expired r
      && all (has_proof r) filter.proofs
      && unless_empty filter.fts_query (is_found j)

  -- A search of no terms leaves empty parentheses in the query.
  unfoldable pub check_terms : Result Error (Unit {0})
  check_terms =
      reject (not (bytes_eq filter.fts_query []) && (length (tokenize_query filter.fts_query) == 0))
        syntax_error

  -- OFFSET and LIMIT: a number that is no bigint is refused.
  abbrev pub offset : ℕ → ℕ
  offset page = (page + 18446744073709551615) % word * filter.max_results % word

  abbrev pub is_bigint : ℕ → Bool
  is_bigint n = ltb n 9223372036854775808

  -- The rows of the page and the count of all
  unfoldable pub paged : List Joined → Result Error (List Joined × ℕ)
  paged rows = elim filter.page [
    | none ↦ ok (sql.order rows, length (sql.order rows))
    | some page ↦
        if is_bigint (offset page) && is_bigint filter.max_results
        then ok (take filter.max_results (drop (offset page) (sql.order rows)), length rows)
        else err out_of_range
  ]

  -- GetAllByIssuerID
  unfoldable pub get_all_by_issuer_id :
      Option Error → List Schema → List Row → Result Error (List Row × ℕ)
  get_all_by_issuer_id (some e) schemas rows = err e
  get_all_by_issuer_id none schemas rows = do
    check_terms
    page ← paged (keep matches (from_tables filter schemas rows))
    ok (map (λ j. j.claim) page.0, page.1)

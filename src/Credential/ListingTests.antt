-- ===== src/Credential/ListingTests.antt =====
-- The listing of credentials at concrete values.
use e_native_issuer.Common.{
  ◌≡◌, refl, true, false, none, some, List, [], ◌∷◌, ok, err, is_some, codes, All, keep, length,
  ◌≤◌,
}
use e_native_issuer.Credential.Listing.{
  Row, Schema, from_tables, left_join, ClaimsFilter, Sql, syntax_error, tokens_from, tokenize_query,
  auth_type, has_proof, is_found, matches, check_terms, paged, get_all_by_issuer_id,
}
use e_native_issuer.Credential.Listed.{KeepsRows, Shown, listed-Shown}
use e_native_issuer.ApiKey.Scopes.{trim_space}

abbrev listed : Row
listed = record {
  id = 4;
  identifier = codes "i";
  issuer = codes "i";
  schema_type = codes "Kyc";
  schema_hash = codes "h";
  schema_url = codes "https://s";
  other_identifier = codes "u";
  revoked = false;
  expiration = 0;
  has_signature_proof = true;
  has_mtp_proof = false;
  mtp = false;
  data_ = 3;
  created_at = 40;
}

abbrev rows : List Row
rows =
    listed
    ∷ record listed { id = 5; revoked = true }
    ∷ record listed { id = 6; schema_type = auth_type }
    ∷ []

-- Rows in the order of the table; a pattern matches every text.
abbrev sql : Sql
sql = record {
  like = λ t p. true;
  ilike = λ t p. true;
  subject_field = λ d f. none;
  order = λ rs. rs;
}

abbrev filter : ClaimsFilter
filter = record {
  self = none;
  revoked = some false;
  expired_on = none;
  schema_hash = [];
  schema_type = [];
  schema_url = [];
  subject = [];
  query_field = [];
  query_field_value = [];
  fts_query = [];
  fts_and_cond = false;
  proofs = [];
  max_results = 10;
  page = some 1;
}

-- A search of commas only is a query that the database cannot read.
listing_test :
    get_all_by_issuer_id sql (codes "i") (record filter { fts_query = codes ", ," }) none [] rows
    ≡ err syntax_error
unfolding get_all_by_issuer_id check_terms tokenize_query tokens_from trim_space
listing_test = refl

-- A search gives a credential once for each schema of the issuer with its hash.
abbrev schemas : List Schema
schemas =
    record { issuer_id = codes "i"; hash = codes "h"; words = some (codes "Kyc") }
    ∷ record { issuer_id = codes "i"; hash = codes "h"; words = some (codes "Kyc2") }
    ∷ record { issuer_id = codes "j"; hash = codes "h"; words = none }
    ∷ []

search_test :
    get_all_by_issuer_id sql
      (codes "i")
      (record filter { fts_query = codes "K" })
      none
      schemas
      (listed ∷ [])
    ≡ ok (listed ∷ listed ∷ [], 2)
unfolding get_all_by_issuer_id check_terms tokenize_query tokens_from trim_space matches has_proof
    is_found paged from_tables left_join
search_test = refl

keeps_rows : KeepsRows sql.order
keeps_rows = ((λ P rs h. h), (λ rs. refl))

listed-Shown_example :
    All (Shown sql (codes "i") filter rows) (listed ∷ [])
    × (1 ≡ length (keep (matches sql (codes "i") filter) (from_tables filter schemas rows)))
    × (is_some filter.page ≡ false → 1 ≡ length (listed ∷ []))
    × (is_some filter.page ≡ true → length (listed ∷ []) ≤ filter.max_results)
unfolding get_all_by_issuer_id check_terms tokenize_query tokens_from trim_space matches has_proof
    is_found paged from_tables left_join
listed-Shown_example =
    listed-Shown sql (codes "i") filter schemas rows (listed ∷ []) 1 keeps_rows refl

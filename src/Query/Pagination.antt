-- ===== src/Query/Pagination.antt =====
-- issuer-node/internal/core/pagination/pagination.go. A `uint` has 64 bits.
use e_native_issuer.Common.{
  ℕ, ◌+◌, ◌*◌, ◌%◌, Option, none, some, List, ◌==◌, if◌then◌else◌, take, drop,
}

abbrev pub word : ℕ
word = 18446744073709551616

abbrev pub default_max_results : ℕ
default_max_results = 1000

-- Filter
pub record Filter : Type 0 where
  pub max_results : ℕ
  pub page : Option ℕ

-- NewFilter
unfoldable pub new_filter : Option ℕ → Option ℕ → Filter
new_filter none page = record { max_results = default_max_results; page = page }
new_filter (some n) page = record { max_results = n; page = page }

-- GetLimit
unfoldable pub get_limit : Filter → ℕ
get_limit f = if f.max_results == 0 then default_max_results else f.max_results

-- GetOffset: both operations wrap around.
abbrev pub offset_of : ℕ → Option ℕ → ℕ
offset_of max none = 0
offset_of max (some page) = ((page + 18446744073709551615) % word * max) % word

unfoldable pub get_offset : Filter → ℕ
get_offset f = offset_of f.max_results f.page

-- LIMIT and OFFSET of a query.
unfoldable pub selected {ℓ} : {A : Type ℓ} → Filter → List A → List A
selected f rows = take (get_limit f) (drop (get_offset f) rows)

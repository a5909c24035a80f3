-- ===== src/Query/Pages.antt =====
-- The pages of issuer-node/internal/core/pagination/pagination.go cover a list.
use e_native_issuer.Common.{
  ℕ, ◌+◌, ◌*◌, ◌%◌, ◌≡◌, ap, refl, Option, none, some, List, [], ◌++◌, take, drop, arith, suc, zero,
}
use e_native_issuer.Query.Pagination.{word, default_max_results, get_limit, get_offset, selected}

-- The first n pages, in order.
abbrev pub first_pages {ℓ} : {A : Type ℓ} → ℕ → ℕ → List A → List A
first_pages max zero rows = []
first_pages max (suc n) rows =
    first_pages max n rows ++ selected (record { max_results = max; page = some (suc n) }) rows

times_zero : (page : ℕ) → ((page + 18446744073709551615) % word * 0) % word ≡ 0
times_zero page = omega arith

-- With a size of zero, every page is the same one: the first rows, as many as the default.
pub selected-zero {ℓ} :
    {A : Type ℓ} (page : Option ℕ) (rows : List A)
    → selected (record { max_results = 0; page = page }) rows ≡ take default_max_results rows
unfolding selected get_limit get_offset
selected-zero none rows = refl
selected-zero (some page) rows = ap (λ i. take 1000 (drop i rows)) (times_zero page)

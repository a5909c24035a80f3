-- ===== src/Key/Service/Window.antt =====
-- The order and the slice of GetAll of issuer-node/internal/core/services/key.go. An int has 64 bits:
-- a number from 2 ^ 63 on is a negative one.
use e_native_issuer.Common.{
  ℕ, ◌+◌, ◌-◌, ◌*◌, ◌%◌, Bool, not, ◌&&◌, ◌||◌, List, [], ◌∷◌, length, take, drop, leb, ltb,
  if◌then◌else◌, Result, ok, err, text_le,
}
use e_native_issuer.Key.{KmsKey, KeyFilter, Error, panics}

abbrev pub word : ℕ
word = 18446744073709551616

abbrev pub is_negative : ℕ → Bool
is_negative = leb 9223372036854775808

-- start and end
abbrev pub start : KeyFilter → ℕ
start filter = (filter.page + 18446744073709551615) % word * filter.max_results % word

abbrev pub end_of : KeyFilter → ℕ
end_of filter = (start filter + filter.max_results) % word

-- start >= len(keyIDs)
unfoldable pub is_past : ℕ → KeyFilter → Bool
is_past count filter = not (is_negative (start filter)) && leb count (start filter)

-- end, but the length where it is more
abbrev capped : ℕ → ℕ → ℕ
capped count stop = if not (is_negative stop) && ltb count stop then count else stop

abbrev pub is_out : ℕ → ℕ → Bool
is_out from stop = is_negative from || is_negative stop || ltb stop from

-- keys[start:end], which panics where an index is negative or end is before start.
unfoldable pub sliced : KeyFilter → List KmsKey → Result Error (List KmsKey)
sliced filter keys =
    let from = start filter in
    let stop = capped (length keys) (end_of filter) in
    if is_out from stop then err panics else ok (take (stop - from) (drop from keys))

-- sort.Slice by the name, written as insertion: keys of one name are in the order in which they were.
unfoldable pub insert_key : KmsKey → List KmsKey → List KmsKey
insert_key x [] = x ∷ []
insert_key x (y ∷ ys) =
    let rest = insert_key x ys in if text_le x.name y.name then x ∷ y ∷ ys else y ∷ rest

unfoldable pub sort_by_name : List KmsKey → List KmsKey
unfolding insert_key
sort_by_name [] = []
sort_by_name (x ∷ xs) = insert_key x (sort_by_name xs)

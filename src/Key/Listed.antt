-- ===== src/Key/Listed.antt =====
-- The pages of GetAll of issuer-node/internal/core/services/key.go.
use e_native_issuer.Common.{
  ℕ, suc, zero, ◌+◌, ◌-◌, ◌*◌, ◌%◌, ◌<◌, ◌≤◌, ◌≡◌, refl, ap, Bytes, text_le, Bool, true, false,
  ◌||◌, Option, List, [], ◌∷◌, length, length-drop, take, drop, any, leb, ltb, if◌then◌else◌, ok,
  bind_ok, ok-same, sym, ◌∙◌, arith, Bool-cases, inl, inr,
}
use e_native_issuer.Key.{KeyType, KeyId, Error, KmsKey, KeyFilter}
use e_native_issuer.Key.Kms
use e_native_issuer.Key.Kms.{Kms}
use e_native_issuer.Key.Service.{
  Library, ClaimService, Keys, word, start, end_of, is_past, sliced, insert_key, sort_by_name, get,
  get_each, of_type, get_listed, get_all,
}

text_le_total : (x y : Bytes) → text_le x y ≡ false → text_le y x ≡ true
text_le_total [] ys h = ground (arith, h)
text_le_total (x ∷ xs) [] h = refl
text_le_total (x ∷ xs) (y ∷ ys) h = ground (arith, h, text_le_total xs ys)

-- The names are in order.
abbrev pub SortedByName : List KmsKey → Type 0
SortedByName [] = Unit
SortedByName (x ∷ []) = Unit
SortedByName (x ∷ y ∷ ys) = (text_le x.name y.name ≡ true) × SortedByName (y ∷ ys)

insert_key-SortedByName :
    (x : KmsKey) (ys : List KmsKey) → SortedByName ys → SortedByName (insert_key x ys)
unfolding insert_key
insert_key-SortedByName x [] h = tt
insert_key-SortedByName x (y ∷ []) h = ground (arith, text_le_total x.name y.name)
insert_key-SortedByName x (y ∷ z ∷ zs) h =
    ground (arith, h, text_le_total x.name y.name, insert_key-SortedByName x (z ∷ zs))

sort_by_name-SortedByName : (xs : List KmsKey) → SortedByName (sort_by_name xs)
unfolding sort_by_name
sort_by_name-SortedByName [] = tt
sort_by_name-SortedByName (x ∷ xs) =
    insert_key-SortedByName x (sort_by_name xs) (sort_by_name-SortedByName xs)

insert_key-any :
    (p : KmsKey → Bool) (x : KmsKey) (ys : List KmsKey)
    → any p (insert_key x ys) ≡ (p x || any p ys)
unfolding insert_key
insert_key-any p x [] = refl
insert_key-any p x (y ∷ ys) = ground (arith, insert_key-any p x ys)

sort_by_name-any : (p : KmsKey → Bool) (xs : List KmsKey) → any p (sort_by_name xs) ≡ any p xs
unfolding sort_by_name
sort_by_name-any p [] = refl
sort_by_name-any p (x ∷ xs) =
    ground (arith, insert_key-any p x (sort_by_name xs), sort_by_name-any p xs)

insert_key-length : (x : KmsKey) (ys : List KmsKey) → length (insert_key x ys) ≡ suc (length ys)
unfolding insert_key
insert_key-length x [] = refl
insert_key-length x (y ∷ ys) = ground (arith, insert_key-length x ys)

length-sort_by_name : (xs : List KmsKey) → length (sort_by_name xs) ≡ length xs
unfolding sort_by_name
length-sort_by_name [] = refl
length-sort_by_name (x ∷ xs) =
    ground (arith, insert_key-length x (sort_by_name xs), length-sort_by_name xs)

take-whole {ℓ} : {A : Type ℓ} (n : ℕ) (xs : List A) → length xs ≤ n → take n xs ≡ xs
take-whole zero [] h = refl
take-whole zero (x ∷ xs) h = absurd (omega (arith, h))
take-whole (suc n) [] h = refl
take-whole (suc n) (x ∷ xs) h = ap (λ ys. x ∷ ys) (take-whole n xs (omega (arith, h)))

-- The filter of a page, counted from zero
abbrev pub page_of : ℕ → ℕ → Option KeyType → KeyFilter
page_of page max ty = record { max_results = max; page = suc page; key_type = ty }

shifted_word : (n : ℕ) → n < 9223372036854775808 → (suc n + 18446744073709551615) % word ≡ n
shifted_word n h = omega (arith, h)

module _ (page max : ℕ) (ty : Option KeyType) (small : page < 9223372036854775808)
    (fits : page * max + max < 9223372036854775808) where
  start-page_of : start (page_of page max ty) ≡ page * max
  start-page_of = rw (shifted_word page small) (omega (arith, fits))

  end_of-page_of : end_of (page_of page max ty) ≡ page * max + max
  end_of-page_of = rw start-page_of (omega (arith, fits))

  is_past-page_of : (count : ℕ) → is_past count (page_of page max ty) ≡ leb count (page * max)
  unfolding is_past
  is_past-page_of count = ground (arith, start-page_of, fits)

  -- A page that starts inside the list.
  sliced-page_of :
      (xs : List KmsKey)
      → length xs < 9223372036854775808
      → page * max < length xs
      → sliced (page_of page max ty) xs ≡ ok (take max (drop (page * max) xs))
  unfolding sliced
  sliced-page_of xs bound inside =
      let rest = drop (page * max) xs in
      let left = length-drop (page * max) xs in
      elim (Bool-cases (ltb (length xs) (page * max + max))) [
        | inl e ↦
            let shorter = take-whole (length xs - page * max) rest (omega (arith, left)) in
            let longer = take-whole max rest (ground (arith, left, e)) in
            ground (arith, e, start-page_of, end_of-page_of, inside, bound, fits, shorter, longer)
        | inr e ↦
            let size : page * max + max - page * max ≡ max = omega arith in
            let cut = ap (λ i. take i rest) size in
            ground (arith, e, start-page_of, end_of-page_of, inside, bound, fits, cut)
      ]

module _ {S : Type 0} (lib : Library) (claims : ClaimService) (kms : Kms S) where
  length-get_each :
      (fault : Option Error) (did : Bytes) (ks : List KeyId) (s : Keys S) (keys : List KmsKey)
      → get_each lib claims kms fault did ks s ≡ ok keys
      → length keys ≡ length ks
  unfolding get_each
  length-get_each fault did [] s keys h = ap length (sym (ok-same [] keys h))
  length-get_each fault did (k ∷ ks) s keys h =
      let (key, f, h1) = bind_ok (get lib claims kms fault did k.id s) _ _ h in
      let (rest, g, h2) = bind_ok (get_each lib claims kms fault did ks s) _ _ h1 in
      ap length (sym (ok-same (key ∷ rest) keys h2))
      ∙ ap suc (length-get_each fault did ks s rest g)

  -- A page, counted from zero, of the keys of a type: when they can all be read, the page's part of
  -- them in the order of their names, and how many there are; behind the last page nothing, and a
  -- count of zero.
  pub get_all-page :
      (fault : Option Error) (did : Bytes) (page max : ℕ) (ty : Option KeyType) (s : Keys S)
      (found : List KeyId) (keys : List KmsKey)
      → Kms.keys_by_identity did kms s.store ≡ ok found
      → get_each lib claims kms fault did (of_type ty found) s ≡ ok keys
      → page < 9223372036854775808
      → page * max + max < 9223372036854775808
      → length keys < 9223372036854775808
      → (get_all lib claims kms fault did (page_of page max ty) s ≡ (
          if leb (length keys) (page * max)
          then ok ([], 0)
          else ok (take max (drop (page * max) (sort_by_name keys)), length keys)))
        × SortedByName (sort_by_name keys)
        × ((p : KmsKey → Bool) → any p (sort_by_name keys) ≡ any p keys)
  unfolding get_all get_listed
  get_all-page fault did page max ty s found keys all each small fits bound =
      let count = length-get_each fault did (of_type ty found) s keys each in
      let past = is_past-page_of page max ty small fits (length (of_type ty found)) in
      (
        elim (Bool-cases (leb (length keys) (page * max))) [
          | inl e ↦ ground (arith, all, past, count, e)
          | inr e ↦
              let sorted = length-sort_by_name keys in
              let few : length (sort_by_name keys) < 9223372036854775808 =
                omega (arith, sorted, bound) in
              let inside : page * max < length (sort_by_name keys) = ground (arith, sorted, e) in
              ground (
                arith,
                all,
                each,
                past,
                count,
                e,
                sliced-page_of page max ty small fits (sort_by_name keys) few inside,
              )
        ],
        sort_by_name-SortedByName keys,
        λ p. sort_by_name-any p keys,
      )

-- ===== src/ApiKey/Scopes.antt =====
-- normalizeScopes and hasRequiredScopes of issuer-node/internal/core/apikey/api_key.go.
-- strings.TrimSpace is written for the white space of ASCII.
use e_native_issuer.Common.{
  ℕ, ◌≡◌, refl, Bytes, bytes_eq, text_le, Bool, true, ◌&&◌, ◌||◌, List, [], ◌∷◌, ◌++◌, ◌==◌, leb,
  any, if◌then◌else◌, Result, ok, err, arith, any-append, bytes_eq_sound, ◌>>=◌, Bool-cases,
  Result-cases, inl, inr,
}
use mathlib.Core.List.{reverse}
use e_native_issuer.ApiKey.{Error, invalid_request}

abbrev is_space : ℕ → Bool
is_space c = (c == 32) || (leb 9 c && leb c 13)

abbrev trim_left : Bytes → Bytes
trim_left [] = []
trim_left (x ∷ xs) = if is_space x then trim_left xs else x ∷ xs

-- strings.TrimSpace
unfoldable pub trim_space : Bytes → Bytes
trim_space s = reverse (trim_left (reverse (trim_left s)))

-- sort.Strings
unfoldable pub insert_text : Bytes → List Bytes → List Bytes
insert_text x [] = x ∷ []
insert_text x (y ∷ ys) = if text_le x y then x ∷ y ∷ ys else y ∷ insert_text x ys

unfoldable pub sort_strings : List Bytes → List Bytes
unfolding insert_text
sort_strings [] = []
sort_strings (x ∷ xs) = insert_text x (sort_strings xs)

abbrev pub contains : Bytes → List Bytes → Bool
contains x = any (bytes_eq x)

-- The loop of normalizeScopes. `normalized` holds what `seen` holds.
unfoldable pub normalize_from : List Bytes → List Bytes → Result Error (List Bytes)
normalize_from normalized [] = ok normalized
normalize_from normalized (scope ∷ rest) =
    let trimmed = trim_space scope in
    let go_on =
      normalize_from
        (if contains trimmed normalized then normalized else normalized ++ trimmed ∷ []) rest in
    if bytes_eq trimmed [] then err invalid_request else go_on

unfoldable pub normalize_scopes : List Bytes → Result Error (List Bytes)
normalize_scopes [] = err invalid_request
normalize_scopes (s ∷ ss) = do normalized ← normalize_from [] (s ∷ ss); ok (sort_strings normalized)

-- hasRequiredScopes
unfoldable pub has_required_scopes : List Bytes → List Bytes → Bool
has_required_scopes actual [] = true
has_required_scopes actual (r ∷ rs) = contains r actual && has_required_scopes actual rs

-- Sorting keeps the members.
insert_text-any :
    (p : Bytes → Bool) (x : Bytes) (ys : List Bytes) → any p (insert_text x ys) ≡ (p x || any p ys)
unfolding insert_text
insert_text-any p x [] = refl
insert_text-any p x (y ∷ ys) = ground (arith, insert_text-any p x ys)

sort_strings-any : (p : Bytes → Bool) (xs : List Bytes) → any p (sort_strings xs) ≡ any p xs
unfolding sort_strings
sort_strings-any p [] = refl
sort_strings-any p (x ∷ xs) =
    ground (arith, insert_text-any p x (sort_strings xs), sort_strings-any p xs)

contains-equal :
    (x t : Bytes) (acc : List Bytes) → x ≡ t → contains t acc ≡ true → contains x acc ≡ true
contains-equal x t acc e h = rw e h

seen_twice :
    (x t : Bytes) (acc : List Bytes)
    → contains t acc ≡ true
    → contains x acc ≡ (contains x acc || bytes_eq x t)
seen_twice x t acc h = elim (Bool-cases (bytes_eq x t)) [
  | inl e ↦ ground (arith, contains-equal x t acc (bytes_eq_sound x t e) h)
  | inr e ↦ ground (arith, e)
]

step-contains :
    (x t : Bytes) (acc : List Bytes)
    → contains x (if contains t acc then acc else acc ++ t ∷ []) ≡ (contains x acc || bytes_eq x t)
step-contains x t acc = elim (Bool-cases (contains t acc)) [
  | inl e ↦ rw e (seen_twice x t acc e)
  | inr e ↦ rw e (ground (arith, any-append (bytes_eq x) acc (t ∷ [])))
]

normalize_from-contains :
    (x : Bytes) (acc ss ns : List Bytes)
    → normalize_from acc ss ≡ ok ns
    → contains x ns ≡ (contains x acc || any (λ s. bytes_eq x (trim_space s)) ss)
unfolding normalize_from
normalize_from-contains x acc [] ns h = ground arith
normalize_from-contains x acc (s ∷ ss) ns h =
    let next = if contains (trim_space s) acc then acc else acc ++ trim_space s ∷ [] in
    ground (arith, h, normalize_from-contains x next ss ns, step-contains x (trim_space s) acc)

-- When normalizeScopes accepts a list, what it returns holds a scope exactly when the scope is one
-- of the list's entries with its outer white space removed.
pub normalize_scopes-contains :
    (x : Bytes) (ss ns : List Bytes)
    → normalize_scopes ss ≡ ok ns
    → contains x ns ≡ any (λ s. bytes_eq x (trim_space s)) ss
unfolding normalize_scopes
normalize_scopes-contains x [] ns h = ground arith
normalize_scopes-contains x (s ∷ ss) ns h = elim (Result-cases (normalize_from [] (s ∷ ss))) [
  | inl (f, e) ↦ ground (arith, e, h)
  | inr (ms, e) ↦
      ground
        (arith, e, h, sort_strings-any (bytes_eq x) ms, normalize_from-contains x [] (s ∷ ss) ms e)
]

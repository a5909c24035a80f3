-- ===== src/Common/Lists.antt =====
-- Lists measured by native numbers, predicates on them by recursion, and Boolean searches.
use Prim.Native.Nat.{ℕ, zero, suc, ◌+◌, ◌-◌, ◌≤◌, min}
use mathlib.Core.Path.{◌≡◌, refl, subst}
use mathlib.Core.Bool.{Bool, true, false, ◌||◌, ◌&&◌}
use mathlib.Core.List.{List, [], ◌∷◌, ◌++◌, Mem, mem-cons_self, mem-cons_of_mem}
use mathlib.Core.Option.{Option, none, some}
use mathlib.Core.Logic.{inl, inr}
use native.Mathlib.Omega.{arith}
use e_native_issuer.Common.Tests.{leb, if◌then◌else◌, Bool-cases}

module _ {ℓ} {A : Type ℓ} where
  abbrev pub length : List A → ℕ
  length [] = 0
  length (x ∷ xs) = suc (length xs)

  abbrev pub head? : List A → Option A
  head? [] = none
  head? (x ∷ xs) = some x

  abbrev pub take : ℕ → List A → List A
  take zero xs = []
  take (suc n) [] = []
  take (suc n) (x ∷ xs) = x ∷ take n xs

  abbrev pub drop : ℕ → List A → List A
  drop zero xs = xs
  drop (suc n) [] = []
  drop (suc n) (x ∷ xs) = drop n xs

  -- The elements that pass a test, in order.
  abbrev pub keep : (A → Bool) → List A → List A
  keep p [] = []
  keep p (x ∷ xs) = if p x then x ∷ keep p xs else keep p xs

  -- The first element that passes a test.
  abbrev pub find : (A → Bool) → List A → Option A
  find p [] = none
  find p (x ∷ xs) = if p x then some x else find p xs

  abbrev pub any : (A → Bool) → List A → Bool
  any p [] = false
  any p (x ∷ xs) = p x || any p xs

  abbrev pub all : (A → Bool) → List A → Bool
  all p [] = true
  all p (x ∷ xs) = p x && all p xs

  abbrev pub All {κ} : (A → Type κ) → List A → Type κ
  All P [] = Unit
  All P (x ∷ xs) = P x × All P xs

  pub length-append : (xs ys : List A) → length (xs ++ ys) ≡ length xs + length ys
  length-append [] ys = omega arith
  length-append (x ∷ xs) ys = omega (arith, length-append xs ys)

  pub length-take : (n : ℕ) (xs : List A) → length (take n xs) ≡ min n (length xs)
  length-take zero xs = omega arith
  length-take (suc n) [] = omega arith
  length-take (suc n) (x ∷ xs) = omega (arith, length-take n xs)

  pub length-drop : (n : ℕ) (xs : List A) → length (drop n xs) ≡ length xs - n
  length-drop zero xs = omega arith
  length-drop (suc n) [] = omega arith
  length-drop (suc n) (x ∷ xs) = omega (arith, length-drop n xs)

  pub All-append {κ} : (P : A → Type κ) (xs ys : List A) → All P xs → All P ys → All P (xs ++ ys)
  All-append P [] ys hx hy = hy
  All-append P (x ∷ xs) ys hx hy = (hx.0, All-append P xs ys hx.1 hy)

  pub any-append : (p : A → Bool) (xs ys : List A) → any p (xs ++ ys) ≡ (any p xs || any p ys)
  any-append p [] ys = refl
  any-append p (x ∷ xs) ys = ground (arith, any-append p xs ys)

  -- A search that no element passes finds none.
  pub find-absent : (p : A → Bool) (xs : List A) → any p xs ≡ false → find p xs ≡ none
  find-absent p [] h = refl
  find-absent p (x ∷ xs) h = ground (arith, h, find-absent p xs)

  -- What `find` returns passes the test.
  pub find-passes : (p : A → Bool) (xs : List A) (a : A) → find p xs ≡ some a → p a ≡ true
  find-passes p (x ∷ xs) a h = ground (arith, find-passes p xs a)
  find-passes p [] a h = ground arith

  -- What `find` returns is one of the elements.
  pub find-Mem : (p : A → Bool) (xs : List A) (a : A) → find p xs ≡ some a → Mem a xs
  find-Mem p [] a h = absurd (ground (arith, h))
  find-Mem p (x ∷ xs) a h = elim (Bool-cases (p x)) [
    | inl e ↦ let same : x ≡ a = ground (arith, e, h) in rw same mem-cons_self
    | inr e ↦ mem-cons_of_mem x (find-Mem p xs a (ground (arith, e, h)))
  ]

  -- Where an element passes, `find` returns one.
  pub find-any : (p : A → Bool) (xs : List A) → any p xs ≡ true → (a : A) × (find p xs ≡ some a)
  find-any p [] h = absurd (ground (arith, h))
  find-any p (x ∷ xs) h = elim (Bool-cases (p x)) [
    | inl e ↦ (x, ground (arith, e))
    | inr e ↦ let (a, f) = find-any p xs (ground (arith, h, e)) in (a, ground (arith, e, f))
  ]

  -- What `find` returns has what every element has.
  pub find-All {κ} :
      (P : A → Type κ) (p : A → Bool) (xs : List A) (a : A) → find p xs ≡ some a → All P xs → P a
  find-All P p [] a h all_of = absurd (ground (arith, h))
  find-All P p (x ∷ xs) a h all_of = elim (Bool-cases (p x)) [
    | inl e ↦ let same : x ≡ a = ground (arith, e, h) in subst P same all_of.0
    | inr e ↦ find-All P p xs a (ground (arith, e, h)) all_of.1
  ]

-- ORDER BY key DESC: insertion sort, which keeps the order of rows with the same key.
module _ {ℓ} {A : Type ℓ} (key : A → ℕ) where
  abbrev pub insert_desc : A → List A → List A
  insert_desc x [] = x ∷ []
  insert_desc x (y ∷ ys) = if leb (key y) (key x) then x ∷ y ∷ ys else y ∷ insert_desc x ys

  abbrev pub sort_desc : List A → List A
  sort_desc [] = []
  sort_desc (x ∷ xs) = insert_desc x (sort_desc xs)

  abbrev pub SortedDesc : List A → Type 0
  SortedDesc [] = Unit
  SortedDesc (x ∷ xs) = All (λ y. key y ≤ key x) xs × SortedDesc xs

  pub insert_desc-All :
      (P : A → Type 0) (x : A) (xs : List A) → P x → All P xs → All P (insert_desc x xs)
  insert_desc-All P x [] hx h = (hx, tt)
  insert_desc-All P x (y ∷ ys) hx h = ground (arith, insert_desc-All P x ys hx h.1)

  pub All-weaken :
      (b c : ℕ) (xs : List A) → b ≤ c → All (λ y. key y ≤ b) xs → All (λ y. key y ≤ c) xs
  All-weaken b c [] le h = tt
  All-weaken b c (x ∷ xs) le h = (omega arith, All-weaken b c xs le h.1)

  pub insert_desc-SortedDesc : (x : A) (xs : List A) → SortedDesc xs → SortedDesc (insert_desc x xs)
  insert_desc-SortedDesc x [] h = (tt, tt)
  insert_desc-SortedDesc x (y ∷ ys) h = ground (
    arith,
    All-weaken (key y) (key x) ys,
    insert_desc-SortedDesc x ys h.1,
    insert_desc-All (λ z. key z ≤ key y) x ys,
  )

  pub sort_desc-SortedDesc : (xs : List A) → SortedDesc (sort_desc xs)
  sort_desc-SortedDesc [] = tt
  sort_desc-SortedDesc (x ∷ xs) = insert_desc-SortedDesc x (sort_desc xs) (sort_desc-SortedDesc xs)

  -- The sorted list has the same members, each as often, for every test.
  pub insert_desc-any :
      (p : A → Bool) (x : A) (xs : List A) → any p (insert_desc x xs) ≡ (p x || any p xs)
  insert_desc-any p x [] = refl
  insert_desc-any p x (y ∷ ys) = ground (arith, insert_desc-any p x ys)

  pub sort_desc-All : (P : A → Type 0) (xs : List A) → All P xs → All P (sort_desc xs)
  sort_desc-All P [] h = tt
  sort_desc-All P (x ∷ xs) h = insert_desc-All P x (sort_desc xs) h.0 (sort_desc-All P xs h.1)

  pub sort_desc-any : (p : A → Bool) (xs : List A) → any p (sort_desc xs) ≡ any p xs
  sort_desc-any p [] = refl
  sort_desc-any p (x ∷ xs) = ground (arith, insert_desc-any p x (sort_desc xs), sort_desc-any p xs)

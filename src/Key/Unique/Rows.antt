-- ===== src/Key/Unique/Rows.antt =====
-- No two rows of the table `keys` have one id, or one issuer and one name.
use mathlib.Core.Path.{subst}
use e_native_issuer.Common.{
  ℕ, ◌≡◌, refl, sym, ap, Bytes, bytes_eq, Bool, false, not, Option, none, some, List, [], ◌∷◌, ◌++◌,
  map, any, keep, find, find-passes, any-append, ◌==◌, arith, Bool-cases, Option-cases, inl, inr,
}
use e_native_issuer.Key.{Key, Error}
use e_native_issuer.Key.Repository.{is_named, renamed, is_taken, has_public_key, save, delete}

abbrev pub same_id : ℕ → Key → Bool
same_id id k = k.id == id

abbrev pub UniqueKeys : List Key → Type 0
UniqueKeys [] = Unit
UniqueKeys (k ∷ ks) =
    (any (is_named k.issuer_did k.name) ks ≡ false)
    × (any (same_id k.id) ks ≡ false)
    × UniqueKeys ks

find-none {ℓ} : {A : Type ℓ} (p : A → Bool) (xs : List A) → find p xs ≡ none → any p xs ≡ false
find-none p [] h = refl
find-none p (x ∷ xs) h = ground (arith, h, find-none p xs)

any-keep {ℓ} :
    {A : Type ℓ} (p q : A → Bool) (xs : List A) → any p xs ≡ false → any p (keep q xs) ≡ false
any-keep p q [] h = refl
any-keep p q (x ∷ xs) h = ground (arith, h, any-keep p q xs)

keep-UniqueKeys : (q : Key → Bool) (ks : List Key) → UniqueKeys ks → UniqueKeys (keep q ks)
keep-UniqueKeys q [] h = tt
keep-UniqueKeys q (k ∷ ks) h = elim (Bool-cases (q k)) [
  | inl e ↦ ground (
    arith,
    e,
    any-keep (is_named k.issuer_did k.name) q ks h.0,
    any-keep (same_id k.id) q ks h.1,
    keep-UniqueKeys q ks h.2,
  )
  | inr e ↦ ground (arith, e, keep-UniqueKeys q ks h.2)
]

-- Sharing a name is symmetric.
bytes_eq_sym : (x y : Bytes) → bytes_eq x y ≡ bytes_eq y x
bytes_eq_sym [] [] = refl
bytes_eq_sym [] (y ∷ ys) = refl
bytes_eq_sym (x ∷ xs) [] = refl
bytes_eq_sym (x ∷ xs) (y ∷ ys) = ground (arith, bytes_eq_sym xs ys)

is_named_sym : (a b : Key) → is_named a.issuer_did a.name b ≡ is_named b.issuer_did b.name a
is_named_sym a b =
    ground (arith, bytes_eq_sym a.issuer_did b.issuer_did, bytes_eq_sym a.name b.name)

add-UniqueKeys :
    (k : Key) (ks : List Key)
    → UniqueKeys ks
    → any (is_named k.issuer_did k.name) ks ≡ false
    → any (same_id k.id) ks ≡ false
    → UniqueKeys (ks ++ k ∷ [])
add-UniqueKeys k [] h named ids = (refl, refl, tt)
add-UniqueKeys k (j ∷ js) h named ids = ground (
  arith,
  any-append (is_named j.issuer_did j.name) js (k ∷ []),
  any-append (same_id j.id) js (k ∷ []),
  is_named_sym j k,
  add-UniqueKeys k js h.2,
)

module _ (id : ℕ) (name : Bytes) where
  -- A table without the id stays as it is.
  map-renamed : (ks : List Key) → any (same_id id) ks ≡ false → map (renamed id name) ks ≡ ks
  map-renamed [] h = refl
  map-renamed (k ∷ ks) h = ground (arith, h, map-renamed ks)

  renamed_ids :
      (n : ℕ) (ks : List Key) → any (same_id n) (map (renamed id name) ks) ≡ any (same_id n) ks
  renamed_ids n [] = refl
  renamed_ids n (k ∷ ks) = ground (arith, renamed_ids n ks)

  -- A row of another id keeps its name to itself.
  renamed_names :
      (old k : Key) (ks : List Key)
      → find (same_id id) ks ≡ some old
      → UniqueKeys ks
      → is_named old.issuer_did name k ≡ false
      → any (is_named k.issuer_did k.name) ks ≡ false
      → any (is_named k.issuer_did k.name) (map (renamed id name) ks) ≡ false
  renamed_names old k [] found h other named = refl
  renamed_names old k (j ∷ js) found h other named = elim (Bool-cases (same_id id j)) [
    | inl e ↦
        let same : j ≡ old = ground (arith, e, found) in
        let alone : any (same_id id) js ≡ false = ground (arith, e, h.1) in
        let kept = ap (any (is_named k.issuer_did k.name)) (map-renamed js alone) in
        let moved = is_named_sym k (record j { name = name }) in
        ground (arith, e, named, same, kept, moved, other)
    | inr e ↦ ground (arith, e, named, found, h, renamed_names old k js)
  ]

  -- A name that no other row has is no name of a row without the id.
  is_taken-named :
      (old : Key) (ks : List Key)
      → any (same_id old.id) ks ≡ false
      → is_taken old name ks ≡ false
      → any (is_named old.issuer_did name) ks ≡ false
  is_taken-named old [] ids free = refl
  is_taken-named old (k ∷ ks) ids free = ground (arith, ids, free, is_taken-named old ks)

  pub renamed-UniqueKeys :
      (old : Key) (ks : List Key)
      → find (same_id id) ks ≡ some old
      → is_taken old name ks ≡ false
      → UniqueKeys ks
      → UniqueKeys (map (renamed id name) ks)
  renamed-UniqueKeys old [] found free h = tt
  renamed-UniqueKeys old (k ∷ ks) found free h = elim (Bool-cases (same_id id k)) [
    | inl e ↦
        let same : k ≡ old = ground (arith, e, found) in
        let alone : any (same_id id) ks ≡ false = ground (arith, e, h.1) in
        let others : any (same_id old.id) ks ≡ false =
          subst (λ o. any (same_id o.id) ks ≡ false) same h.1 in
        let rest : is_taken old name ks ≡ false = ground (arith, free) in
        let freed =
          subst (λ o. any (is_named o.issuer_did name) ks ≡ false) (sym same)
            (is_taken-named old ks others rest) in
        ground (arith, e, map-renamed ks alone, freed, h)
    | inr e ↦
        let later : find (same_id id) ks ≡ some old = ground (arith, e, found) in
        let passes = find-passes (same_id id) ks old later in
        let rest : is_taken old name ks ≡ false = ground (arith, free) in
        let other : is_named old.issuer_did name k ≡ false = ground (arith, e, passes, free) in
        let names = renamed_names old k ks later h.2 other h.0 in
        ground (arith, e, names, renamed_ids k.id ks, h, renamed-UniqueKeys old ks later rest h.2)
  ]

-- Save and Delete keep the ids, and the names of each issuer, apart.
pub save-UniqueKeys :
    (fault : Option Error) (new : Key) (rows : List Key)
    → UniqueKeys rows
    → UniqueKeys (save fault new rows).1
unfolding save
save-UniqueKeys (some e) new rows h = h
save-UniqueKeys none new rows h = elim (Option-cases (find (same_id new.id) rows)) [
  | inl e ↦ elim (Bool-cases (any (is_named new.issuer_did new.name) rows)) [
    | inl t ↦ ground (arith, e, t, h)
    | inr t ↦ ground (arith, e, t, add-UniqueKeys new rows h t (find-none (same_id new.id) rows e))
  ]
  | inr (old, e) ↦ elim (Bool-cases (is_taken old new.name rows)) [
    | inl t ↦ ground (arith, e, t, h)
    | inr t ↦ ground (arith, e, t, renamed-UniqueKeys new.id new.name old rows e t h)
  ]
]

pub delete-UniqueKeys :
    (fault : Option Error) (issuer public_key : Bytes) (rows : List Key)
    → UniqueKeys rows
    → UniqueKeys (delete fault issuer public_key rows).1
unfolding delete
delete-UniqueKeys (some e) issuer public_key rows h = h
delete-UniqueKeys none issuer public_key rows h =
    keep-UniqueKeys (λ k. not (has_public_key issuer public_key k)) rows h

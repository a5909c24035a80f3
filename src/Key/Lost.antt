-- ===== src/Key/Lost.antt =====
-- Keys in the file of the local providers after Delete of
-- issuer-node/internal/core/services/key.go.
use mathlib.Core.Path.{subst}
use e_native_issuer.Common.{
  ◌≡◌, refl, sym, ◌∙◌, Bytes, bytes_eq, bytes_eq_sound, true, false, not, Option, none, List, [],
  ◌∷◌, any, find, ok, err, arith, bind_ok, ok-same, ok-pair, reject, Bool-cases, Option-cases,
  Result-cases, inl, inr,
}
use e_native_issuer.Key.{KeyType, bjj, eth, ed25519, untyped, KeyId, Error, key_not_found}
use e_native_issuer.Key.Names.{get_key_type}
use e_native_issuer.Key.Files.{
  Material, is_at, without_first, delete_key_material, get_key_material,
}
use e_native_issuer.Key.Local
use e_native_issuer.Key.Local.{
  Curves, Local, at, without, temporary_of, set_temporary, local_bjj, local_linked, local_ed25519,
  local_kms,
}
use e_native_issuer.Key.Kms
use e_native_issuer.Key.Kms.{registered}
use e_native_issuer.Key.Repository
use e_native_issuer.Key.Service
use e_native_issuer.Key.Service.{
  Library, ClaimService, Keys, public_text, located, deletable, checked_delete, get_public_key, get,
}

-- No two entries of the file have one path.
abbrev pub UniquePaths : List Material → Type 0
UniquePaths [] = Unit
UniquePaths (m ∷ rows) = (any (λ r. bytes_eq r.key_path m.key_path) rows ≡ false) × UniquePaths rows

find-paths :
    (k : KeyId) (path : Bytes) (rows : List Material)
    → bytes_eq path k.id ≡ true
    → any (λ r. bytes_eq r.key_path path) rows ≡ false
    → find (is_at k) rows ≡ none
find-paths k path [] e h = refl
find-paths k path (m ∷ rows) e h =
    ground (arith, e, h, bytes_eq_sound path k.id, find-paths k path rows)

find-without_first :
    (k : KeyId) (rows : List Material)
    → UniquePaths rows
    → find (is_at k) (without_first k rows) ≡ none
unfolding without_first
find-without_first k [] h = refl
find-without_first k (m ∷ rows) h = elim (Bool-cases (is_at k m)) [
  | inl e ↦ ground (arith, e, find-paths k m.key_path rows e h.0)
  | inr e ↦ ground (arith, e, find-without_first k rows h.1)
]

-- A key of the file is gone once it is deleted.
exists-delete :
    (k : KeyId) (s : Local) (rows : List Material)
    → s.disk.content ≡ ok rows
    → UniquePaths rows
    → (Local.delete k s).0 ≡ ok tt
    → Local.exists k (Local.delete k s).1 ≡ ok false
unfolding Local.delete Local.exists delete_key_material get_key_material
exists-delete k s rows content unique h = elim (Option-cases s.disk.refusal) [
  | inr ((e, left), f) ↦ absurd (ground (arith, content, f, h))
  | inl f ↦ ground (arith, content, f, find-without_first k rows unique)
]

module _ (curves : Curves) where
  -- The id says one of the three types, and each has a local provider.
  exists-local_kms :
      (id : Bytes) (ty : KeyType) (s : Local)
      → get_key_type id ≡ ok ty
      → Kms.exists (record { key_type = ty; id = id }) (local_kms curves) s
        ≡ Local.exists (record { key_type = ty; id = id }) s
  unfolding Kms.exists registered local_kms local_bjj local_linked local_ed25519 get_key_type
  exists-local_kms id bjj s h = refl
  exists-local_kms id eth s h = refl
  exists-local_kms id ed25519 s h = refl
  exists-local_kms id untyped s h = ground (arith, h)

  delete-local_kms :
      (id : Bytes) (ty : KeyType) (s : Local)
      → get_key_type id ≡ ok ty
      → Kms.delete (record { key_type = ty; id = id }) (local_kms curves) s
        ≡ Local.delete (record { key_type = ty; id = id }) s
  unfolding Kms.delete registered local_kms local_bjj local_linked local_ed25519 get_key_type
  delete-local_kms id bjj s h = refl
  delete-local_kms id eth s h = refl
  delete-local_kms id ed25519 s h = refl
  delete-local_kms id untyped s h = ground (arith, h)

  module _ (lib : Library) (claims : ClaimService) where
    checked_delete-typed :
        (did id : Bytes) (s : Keys Local) (k : KeyId) (pk : Bytes)
        → checked_delete lib claims (local_kms curves) did id s ≡ ok (k, pk)
        → (ty : KeyType) × (get_key_type id ≡ ok ty) × (k ≡ record { key_type = ty; id = id })
    unfolding checked_delete located
    checked_delete-typed did id s k pk h =
        let kms = local_kms curves in
        let (j, l, h1) = bind_ok (located lib claims kms id s.store) _ _ h in
        let (key, p, h2) = bind_ok (get_public_key lib claims kms id s.store) _ _ h1 in
        let (u, d, h3) = bind_ok (deletable lib claims did j.key_type key) _ _ h2 in
        let (ty, typed, l1) = bind_ok (get_key_type id) _ _ l in
        let (there, e, l2) =
          bind_ok (Kms.exists (record { key_type = ty; id = id }) kms s.store) _ _ l1 in
        let (v, r, l3) = bind_ok (reject (not there) key_not_found) _ _ l2 in
        (
          ty,
          typed,
          sym (ok-pair (j, key) (k, pk) h3).0
              ∙ sym (ok-same (record { key_type = ty; id = id }) j l3),
        )

    -- After Delete has succeeded on keys in the local file, where no two entries have one path, Get of
    -- the key answers that there is none.
    pub delete-get :
        (fault again : Option Error) (did id : Bytes) (s : Keys Local) (rows : List Material)
        → s.store.disk.content ≡ ok rows
        → UniquePaths rows
        → (Service.delete lib claims (local_kms curves) fault did id s).0 ≡ ok tt
        → get lib claims
            (local_kms curves)
            again
            did
            id
            (Service.delete lib claims (local_kms curves) fault did id s).1
          ≡ err key_not_found
    unfolding Service.delete get located
    delete-get fault again did id s rows content unique h =
        elim (Result-cases (checked_delete lib claims (local_kms curves) did id s)) [
          | inl (e, f) ↦ absurd (ground (arith, f, h))
          | inr ((k, pk), f) ↦
              let (ty, typed, same) = checked_delete-typed did id s k pk f in
              let text = public_text lib k.key_type pk in
              elim (Result-cases (Repository.delete fault did text s.rows).0) [
                | inl (e, g) ↦ absurd (ground (arith, f, g, h))
                | inr (u, g) ↦
                    let k2 : KeyId = record { key_type = ty; id = id } in
                    let f2 =
                      subst
                        (λ j. checked_delete lib claims (local_kms curves) did id s ≡ ok (j, pk))
                        same f in
                    let g2 =
                      subst
                        (λ (j : KeyId).
                          (Repository.delete fault did (public_text lib j.key_type pk) s.rows).0
                          ≡ ok u)
                        same g in
                    let gone = delete-local_kms id ty s.store typed in
                    let done : (Local.delete k2 s.store).0 ≡ ok tt =
                      ground (arith, f2, g2, gone, h) in
                    ground (
                      arith,
                      f2,
                      g2,
                      gone,
                      typed,
                      exists-local_kms id ty (Local.delete k2 s.store).1 typed,
                      exists-delete k2 s.store rows content unique done,
                    )
              ]
        ]

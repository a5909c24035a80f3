-- ===== src/Key/Unlinked.antt =====
-- A LinkToIdentity of the local providers (issuer-node/internal/kms/local_eth_key_provider.go and
-- issuer-node/internal/kms/local_ed25519_key_provider.go) that fails.
use mathlib.Core.Path.{subst}
use e_native_issuer.Common.{
  ◌≡◌, refl, sym, ap, ◌∙◌, ◌⊎◌, Result, Bytes, bytes_eq, true, none, some, List, [], ◌∷◌, err,
  arith, Bool-cases, Option-cases, Result-cases, inl, inr,
}
use e_native_issuer.Key.{KeyType, bjj, eth, ed25519, untyped, KeyId, Error, private_key_not_found}
use e_native_issuer.Key.Names.{type_eq, get_key_id}
use e_native_issuer.Key.Files.{Material, Disk, KeyMaterial, save_key_material}
use e_native_issuer.Key.Local
use e_native_issuer.Key.Local.{
  Curves, Local, at, without, temporary_of, set_temporary, local_bjj, local_linked, local_ed25519,
  local_kms,
}

at-without : (id : Bytes) (m : List (Bytes × KeyMaterial)) → at id (without id m) ≡ none
at-without id [] = refl
at-without id (x ∷ m) = elim (Bool-cases (bytes_eq x.0 id)) [
  | inl e ↦ ground (arith, e, at-without id m)
  | inr e ↦ ground (arith, e, at-without id m)
]

abbrev taken : KeyType → Bytes → Local → Local
taken ty id s = set_temporary ty (without id (temporary_of ty s)) s

-- Whatever becomes of the file, a key that was taken out of memory is not there.
taken-gone :
    (ty : KeyType) (id : Bytes) (s : Local) (disk : Disk)
    → at id (temporary_of ty (record (taken ty id s) { disk = disk })) ≡ none
taken-gone bjj id s disk = at-without id s.temporary_bjj
taken-gone eth id s disk = at-without id s.temporary_eth
taken-gone ed25519 id s disk = at-without id s.temporary_ed25519
taken-gone untyped id s disk = refl

taken-disk : (ty : KeyType) (id : Bytes) (s : Local) → (taken ty id s).disk ≡ s.disk
taken-disk bjj id s = refl
taken-disk eth id s = refl
taken-disk ed25519 id s = refl
taken-disk untyped id s = refl

-- The file after a call that failed to write it: as before, or what the failed write left.
abbrev pub IsLeft : Disk → Disk → Type 0
IsLeft before after =
    (after ≡ before)
    ⊎ ((e : Error) × (left : Result Error (List Material)) × (before.refusal ≡ some (e, left))
        × (after.content ≡ left))

save_key_material-failed :
    (material : KeyMaterial) (path : Bytes) (disk : Disk) (e : Error)
    → (save_key_material material path disk).0 ≡ err e
    → IsLeft disk (save_key_material material path disk).1
unfolding save_key_material
save_key_material-failed material path disk e h = elim (Result-cases disk.content) [
  | inl (f, g) ↦ inl (ground (arith, g))
  | inr (rows, g) ↦ elim (Option-cases disk.refusal) [
    | inl r ↦ absurd (ground (arith, g, r, h))
    | inr ((f, left), r) ↦ inr (f, left, r, ground (arith, g, r))
  ]
]

module _ (curves : Curves) where
  -- A key that is not in memory is not linked.
  link_to_identity-absent :
      (ty : KeyType) (k : KeyId) (did : Bytes) (s : Local)
      → type_eq k.key_type ty ≡ true
      → at k.id (temporary_of ty s) ≡ none
      → (Local.link_to_identity curves ty k did s).0 ≡ err private_key_not_found
  unfolding Local.link_to_identity
  link_to_identity-absent ty k did s typed gone = ground (arith, typed, gone)

  link_to_identity-failed :
      (ty : KeyType) (k : KeyId) (did : Bytes) (s : Local) (e : Error)
      → type_eq k.key_type ty ≡ true
      → (Local.link_to_identity curves ty k did s).0 ≡ err e
      → (disk : Disk) × IsLeft s.disk disk
        × ((Local.link_to_identity curves ty k did s).1 ≡ record (taken ty k.id s) { disk = disk })
  unfolding Local.link_to_identity
  link_to_identity-failed ty k did s e typed h = elim (Option-cases (at k.id (temporary_of ty s))) [
    | inl f ↦ ((taken ty k.id s).disk, inl (taken-disk ty k.id s), ground (arith, typed, f))
    | inr ((id, material), f) ↦
        let path = get_key_id (some did) ty k.id in
        let file = (taken ty k.id s).disk in
        elim (Result-cases (save_key_material material path file).0) [
          | inr (u, w) ↦ absurd (ground (arith, typed, f, w, h))
          | inl (g, w) ↦ (
            (save_key_material material path file).1,
            subst (λ d. IsLeft d (save_key_material material path file).1) (taken-disk ty k.id s)
                (save_key_material-failed material path file g w),
            ground (arith, typed, f, w),
          )
        ]
  ]

  -- When LinkToIdentity of a temporary key of Ethereum or Ed25519 fails, the key has left the
  -- provider's memory: linking it again, to any identity, finds no key. The file is as it was, or
  -- holds what the write that failed has left.
  pub link_to_identity-lost :
      (ty : KeyType) (k : KeyId) (did : Bytes) (s : Local) (e : Error)
      → type_eq k.key_type ty ≡ true
      → (Local.link_to_identity curves ty k did s).0 ≡ err e
      → (at k.id (temporary_of ty (Local.link_to_identity curves ty k did s).1) ≡ none)
        × ((next : Bytes)
            → (Local.link_to_identity curves ty k next
                (Local.link_to_identity curves ty k did s).1).0
              ≡ err private_key_not_found)
        × IsLeft s.disk (Local.link_to_identity curves ty k did s).1.disk
  link_to_identity-lost ty k did s e typed h =
      let (disk, left, after) = link_to_identity-failed ty k did s e typed h in
      let gone = ap (λ l. at k.id (temporary_of ty l)) after ∙ taken-gone ty k.id s disk in
      (
        gone,
        λ next. link_to_identity-absent ty k next _ typed gone,
        subst (IsLeft s.disk) (sym (ap (λ (l : Local). l.disk) after)) left,
      )

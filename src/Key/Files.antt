-- ===== src/Key/Files.antt =====
-- issuer-node/internal/kms/file_storage_manager.go. The file is what encoding/json reads from it,
-- or the error of reading it; `refusal` is the error of writing it, with what is read afterwards: a
-- write that fails may leave the file as it was, empty or cut short.
use e_native_issuer.Common.{
  Bytes, bytes_eq, split, Bool, false, ◌||◌, ◌&&◌, Option, none, some, List, [], ◌∷◌, ◌++◌, find,
  if◌then◌else◌, Result, ok, err, or_err, ◌>>=◌,
}
use e_native_issuer.Key.{KeyType, KeyId, Error, material_not_found, private_key_not_found}
use e_native_issuer.Key.Names.{convert_from_key_type, convert_to_key_type}

-- localStorageProviderFileContent
pub record Material : Type 0 where
  pub key_type : Bytes
  pub key_path : Bytes
  pub private_key : Bytes

pub record Disk : Type 0 where
  pub content : Result Error (List Material)
  pub refusal : Option (Error × Result Error (List Material))

-- The map of key material: json's key_type, as a KeyType, and key_data
pub record KeyMaterial : Type 0 where
  pub key_type : KeyType
  pub key_data : Bytes

-- os.WriteFile
abbrev pub write : List Material → Disk → Result Error (Unit {0}) × Disk
write rows disk = elim disk.refusal [
  | some (e, left) ↦ (err e, record disk { content = left })
  | none ↦ (ok tt, record disk { content = ok rows })
]

abbrev pub entry : KeyMaterial → Bytes → Material
entry material id = record {
  key_type = convert_from_key_type material.key_type;
  key_path = id;
  private_key = material.key_data;
}

-- SaveKeyMaterial
unfoldable pub save_key_material : KeyMaterial → Bytes → Disk → Result Error (Unit {0}) × Disk
save_key_material material id disk = elim disk.content [
  | err e ↦ (err e, disk)
  | ok rows ↦ write (rows ++ entry material id ∷ []) disk
]

-- Two parts or three, and the identity is the first or the second of them.
abbrev pub is_of_identity : Bytes → List Bytes → Bool
is_of_identity did [] = false
is_of_identity did (p ∷ []) = false
is_of_identity did (p ∷ q ∷ []) = bytes_eq p did || bytes_eq q did
is_of_identity did (p ∷ q ∷ r ∷ []) = bytes_eq p did || bytes_eq q did
is_of_identity did (p ∷ q ∷ r ∷ s ∷ ps) = false

-- The loop of searchByIdentity: 47 is the slash.
unfoldable pub search_rows : Bytes → Bytes → List Material → List KeyId
search_rows did read [] = []
search_rows did read (m ∷ rows) =
    let rest = search_rows did read rows in
    if is_of_identity did (split 47 m.key_path) && bytes_eq m.key_type read
    then record { key_type = convert_to_key_type read; id = m.key_path } ∷ rest
    else rest

-- searchByIdentity
unfoldable pub search_by_identity : Bytes → KeyType → Disk → Result Error (List KeyId)
search_by_identity did ty disk = do
  rows ← disk.content
  ok (search_rows did (convert_from_key_type ty) rows)

abbrev pub is_at : KeyId → Material → Bool
is_at k m = bytes_eq m.key_path k.id

-- searchPrivateKey
unfoldable pub search_private_key : KeyId → Disk → Result Error Bytes
search_private_key k disk = do
  rows ← disk.content
  m ← or_err (find (is_at k) rows) private_key_not_found
  ok m.private_key

-- The loop of deleteKeyMaterial takes out the first entry of the path.
unfoldable pub without_first : KeyId → List Material → List Material
without_first k [] = []
without_first k (m ∷ rows) = let rest = without_first k rows in if is_at k m then rows else m ∷ rest

-- deleteKeyMaterial
unfoldable pub delete_key_material : KeyId → Disk → Result Error (Unit {0}) × Disk
delete_key_material k disk = elim disk.content [
  | err e ↦ (err e, disk)
  | ok rows ↦ write (without_first k rows) disk
]

-- getKeyMaterial: the key type and the key data of the entry
unfoldable pub get_key_material : KeyId → Disk → Result Error (Bytes × Bytes)
get_key_material k disk = do
  rows ← disk.content
  m ← or_err (find (is_at k) rows) material_not_found
  ok (m.key_type, m.private_key)

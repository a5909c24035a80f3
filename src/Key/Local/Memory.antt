-- ===== src/Key/Local/Memory.antt =====
-- The state of the local providers: the keys that no identity has yet, in memory, and the shared
-- file. What the three providers do alike: Exists, Delete and ListByIdentity of
-- issuer-node/internal/kms/local_eth_key_provider.go and its two siblings.
use e_native_issuer.Common.{
  Bytes, bytes_eq, Bool, true, false, not, Option, List, [], ◌∷◌, find, keep, Result, ok, err,
}
use e_native_issuer.Key.{KeyType, bjj, eth, ed25519, untyped, KeyId, Error, material_not_found}
use e_native_issuer.Key.Files
use e_native_issuer.Key.Files.{Disk, KeyMaterial}

-- A new pair: the hexadecimal private key or seed, and the text of the public key
pub record Pair : Type 0 where
  pub key_data : Bytes
  pub public_text : Bytes

-- crypto.GenerateKey, ed25519.GenerateKey and babyjub.NewRandPrivKey; the public key and the signature
-- of a private key.
pub record Curves : Type 0 where
  pub draw : KeyType → Result Error Pair
  pub public_of : KeyType → Bytes → Result Error Bytes
  pub sign_with : KeyType → Bytes → Bytes → Result Error Bytes
  pub check_digest : Bytes → Result Error (Unit {0})

-- The three maps temporaryKeys, and the file
pub record Local : Type 0 where
  pub temporary_bjj : List (Bytes × KeyMaterial)
  pub temporary_eth : List (Bytes × KeyMaterial)
  pub temporary_ed25519 : List (Bytes × KeyMaterial)
  pub disk : Disk

abbrev pub at : Bytes → List (Bytes × KeyMaterial) → Option (Bytes × KeyMaterial)
at id = find (λ e. bytes_eq e.0 id)

abbrev pub without : Bytes → List (Bytes × KeyMaterial) → List (Bytes × KeyMaterial)
without id = keep (λ e. not (bytes_eq e.0 id))

-- ls.temporaryKeys[id] = keyMaterial
abbrev pub with_entry :
    Bytes → KeyMaterial → List (Bytes × KeyMaterial) → List (Bytes × KeyMaterial)
with_entry id material m = (id, material) ∷ without id m

abbrev pub temporary_of : KeyType → Local → List (Bytes × KeyMaterial)
temporary_of bjj s = s.temporary_bjj
temporary_of eth s = s.temporary_eth
temporary_of ed25519 s = s.temporary_ed25519
temporary_of untyped s = []

abbrev pub set_temporary : KeyType → List (Bytes × KeyMaterial) → Local → Local
set_temporary bjj m s = record s { temporary_bjj = m }
set_temporary eth m s = record s { temporary_eth = m }
set_temporary ed25519 m s = record s { temporary_ed25519 = m }
set_temporary untyped m s = s

-- SaveKeyMaterial on the shared file
abbrev pub saved : KeyMaterial → Bytes → Local → Result Error (Unit {0}) × Local
saved material id s =
    let (answer, disk) = Files.save_key_material material id s.disk in
    (answer, record s { disk = disk })

-- Exists of the three: only an entry that is not found is not there.
unfoldable pub exists : KeyId → Local → Result Error Bool
exists k s = elim (Files.get_key_material k s.disk) [
  | ok m ↦ ok true
  | err material_not_found ↦ ok false
  | err e ↦ ok true
]

-- Delete of the three
unfoldable pub delete : KeyId → Local → Result Error (Unit {0}) × Local
delete k s =
    let (answer, disk) = Files.delete_key_material k s.disk in (answer, record s { disk = disk })

-- ListByIdentity of the three
unfoldable pub list_by_identity : KeyType → Bytes → Local → Result Error (List KeyId)
list_by_identity ty did s = Files.search_by_identity did ty s.disk

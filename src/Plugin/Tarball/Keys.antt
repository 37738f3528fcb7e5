-- ===== src/Plugin/Tarball/Keys.antt =====
-- Lookups in a std::map after a write and after an erasure.
use nix_tarmac.Base.{◌≡◌, refl, none, some, List, [], ◌∷◌, if◌then◌else◌, arith}
use nix_tarmac.Base.Bytes.{Bytes, bytes_eq, bytes_eq_iff}
use nix_tarmac.Plugin.Tarball.{find_key, erase_key, assign_key}

module _ {V : Type 0} where
  pub find_key-assign_key :
      (j key : Bytes) (v : V) (m : List (Bytes × V))
      → find_key j (assign_key key v m) ≡ (if bytes_eq key j then some v else find_key j m)
  unfolding find_key assign_key
  find_key-assign_key j key v [] = refl
  find_key-assign_key j key v ((k, w) ∷ rest) = ground (
    arith,
    find_key-assign_key j key v rest,
    bytes_eq_iff k key,
    bytes_eq_iff k j,
    bytes_eq_iff key j,
  )

  pub find_key-erase_key :
      (j key : Bytes) (m : List (Bytes × V))
      → find_key j (erase_key key m) ≡ (if bytes_eq key j then none else find_key j m)
  unfolding find_key erase_key
  find_key-erase_key j key [] = ground arith
  find_key-erase_key j key ((k, w) ∷ rest) = ground (
    arith,
    find_key-erase_key j key rest,
    bytes_eq_iff k key,
    bytes_eq_iff k j,
    bytes_eq_iff key j,
  )

  pub erase_key-absent :
      (key : Bytes) (m : List (Bytes × V)) → find_key key m ≡ none → erase_key key m ≡ m
  unfolding find_key erase_key
  erase_key-absent key [] e = refl
  erase_key-absent key ((k, w) ∷ rest) e = ground (arith, erase_key-absent key rest, e)

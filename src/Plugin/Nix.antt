-- ===== src/Plugin/Nix.antt =====
-- What plugin/store.cc uses of Nix: file system objects, and the functions on derivations, hashes
-- and store paths. A store path is its base name.
use nix_tarmac.Base.{ℕ, Bool, Option, List}
use nix_tarmac.Base.Bytes.{Bytes}
use nix_tarmac.Base.Result.{Result}

-- `MemorySourceAccessor::File`; the entries of a directory are in the order of their names.
mutual
  pub data File : Type 0 where
    regular_file : Bool → Bytes → File
    symlink_file : Bytes → File
    directory_file : Entries → File

  pub data Entries : Type 0 where
    dir_end : Entries
    dir_entry : Bytes → File → Entries → Entries

pub data SerialisationMethod : Type 0 where
  nix_archive flat : SerialisationMethod

-- `ValidPathInfo`, as far as the store fills it in or reads it.
pub record PathInfo (Hash Ca : Type 0) : Type 0 where
  pub path : Bytes
  pub nar_hash : Hash
  pub nar_size : ℕ
  pub ca : Option Ca
  pub references : List Bytes

pub record Nix (Drv Hash Ca : Type 0) : Type 0 where
  pub is_derivation : Bytes → Bool
  pub store_path : Bytes → Result Bytes
  pub parse_drv : Bytes → Bytes → Result Drv
  pub unparse_drv : Drv → Bytes
  pub drv_references : Drv → List Bytes
  pub compute_store_path : Drv → Result Bytes
  pub parse_dump : Bytes → Result File
  pub hash_nar : File → Hash × ℕ
  pub text_ca : Bytes → Ca
  pub sri : Hash → Bytes
  pub parse_sri : Bytes → Result Hash
  pub render_ca : Option Ca → Bytes
  pub parse_ca : Bytes → Result Ca
  pub make_from_ca : Bytes → Bytes → File → List Bytes → Hash → Result (PathInfo Hash Ca)

-- ===== src/Plugin/Blob.antt =====
-- `BlobAccessor` of plugin/store.cc: a store object whose root is a file or a symlink.
use nix_tarmac.Base.{
  ℕ, Bool, true, false, ◌||◌, not, Option, none, some, List, [], ◌∷◌, ◌==◌, if◌then◌else◌,
}
use nix_tarmac.Base.Bytes.{Bytes}
use nix_tarmac.Base.Result.{nix_error}
use nix_tarmac.Base.Exec.{Exec, pure, throw, ◌>>=◌}
use nix_tarmac.Plugin.Accessor.{
  FileType, directory, symlink, regular, Stat, Reader, tarmac_entry_type, file_stat,
}

pub record BlobAccessor : Type 0 where
  pub type : ℕ
  pub id : Bytes

abbrev pub is_root : List Bytes → Bool
is_root [] = true
is_root (c ∷ cs) = false

module _ {S : Type 0} (reader : Reader S) (blob : BlobAccessor) where
  unfoldable pub read_file : List Bytes → Exec S Bytes
  read_file path = if not (is_root path) || blob.type == b's' then throw nix_error else (do
    contents ← reader.read_blob_view blob.id
    elim contents [ none ↦ throw nix_error | some bytes ↦ pure bytes ])

  unfoldable pub path_exists : List Bytes → Exec S Bool
  path_exists path = pure (is_root path)

  unfoldable pub maybe_lstat : List Bytes → Exec S (Option Stat)
  maybe_lstat path =
      if is_root path
      then (elim (tarmac_entry_type blob.type) [
        | regular ↦ do size ← reader.blob_size blob.id; pure (some (file_stat blob.type size))
        | symlink ↦ pure (some (record { type = symlink; is_executable = false; file_size = none }))
        | directory ↦
            pure (some (record { type = directory; is_executable = false; file_size = none }))
      ])
      else pure none

  unfoldable pub read_directory : List Bytes → Exec S (List (Bytes × FileType))
  read_directory path = throw nix_error

  unfoldable pub read_link : List Bytes → Exec S Bytes
  read_link path =
      if not (is_root path) || not (blob.type == b's')
      then throw nix_error
      else reader.read_blob blob.id

-- ===== src/Plugin/Accessor.antt =====
-- `PackAccessor` of plugin/pack_accessor.hh. A path of Nix is the list of its components.
pub mod Healing
use nix_tarmac.Base.{
  ℕ, Bool, true, false, ◌||◌, Option, none, some, List, [], ◌∷◌, ◌++◌, ◌==◌, if◌then◌else◌,
}
use nix_tarmac.Base.Bytes.{Bytes}
use nix_tarmac.Base.Text.{codes}
use nix_tarmac.Base.Result.{nix_error, is_corrupt}
use nix_tarmac.Base.Exec.{Exec, returns, throws, pure, throw, ◌>>=◌}
use nix_tarmac.Hex.{to_hex}
use nix_tarmac.TreeObject.{TreeEntry}
use nix_tarmac.Paths.Canonical.{join}
use nix_tarmac.Walker.{Walker, lookup}

pub data FileType : Type 0 where
  directory symlink regular : FileType

unfoldable pub tarmac_entry_type : ℕ → FileType
tarmac_entry_type type =
    if type == b'd' then directory else if type == b's' then symlink else regular

pub record Stat : Type 0 where
  pub type : FileType
  pub is_executable : Bool
  pub file_size : Option ℕ

-- Of `TreeStore`, what an accessor calls.
pub record Reader (S : Type 0) : Type 0 where
  pub read_tree : Bytes → Exec S (List TreeEntry)
  pub read_blob : Bytes → Exec S Bytes
  pub read_blob_view : Bytes → Exec S (Option Bytes)
  pub blob_size : Bytes → Exec S (Option ℕ)

-- The fields of the accessor beside the store. `healed` is whether `on_corrupt_` has run.
pub record PackAccessor (S : Type 0) : Type 0 where
  pub walker : Walker S
  pub root : Bytes
  pub on_corrupt : Bool
  pub healed : Bool

unfoldable pub fingerprint : Bytes → Bytes
fingerprint root = codes "tarmac:" ++ to_hex root

unfoldable pub file_stat : ℕ → Option ℕ → Stat
file_stat type size = record { type = regular; is_executable = type == b'x'; file_size = size }

-- The `DirEntries` of a directory: the names of a tree are distinct and in order.
unfoldable pub dir_entries : List TreeEntry → List (Bytes × FileType)
dir_entries [] = []
dir_entries (child ∷ children) = (child.name, tarmac_entry_type child.type) ∷ dir_entries children

module _ {S : Type 0} (reader : Reader S) where
  unfoldable pub healing : {A : Type 0} → Exec (PackAccessor S) A → Exec (PackAccessor S) A
  healing func s = elim (func s) [
    | returns a s' ↦ returns a s'
    | throws e s' ↦
        if is_corrupt e
        then throws nix_error (record s' { healed = s'.on_corrupt || s'.healed })
        else throws e s'
  ]

  -- A call of the store, and one of the walker.
  abbrev pub in_store : {A : Type 0} → Exec S A → Exec (PackAccessor S) A
  in_store act s = elim (act s.walker.store) [
    | returns a t ↦ returns a (record s { walker = record s.walker { store = t } })
    | throws e t ↦ throws e (record s { walker = record s.walker { store = t } })
  ]

  abbrev pub in_walker : {A : Type 0} → Exec (Walker S) A → Exec (PackAccessor S) A
  in_walker act s = elim (act s.walker) [
    | returns a w ↦ returns a (record s { walker = w })
    | throws e w ↦ throws e (record s { walker = w })
  ]

  unfoldable pub find : List Bytes → Exec (PackAccessor S) (Option TreeEntry)
  find path = healing λ s. in_walker (lookup reader.read_tree s.root (join path)) s

  -- What goes to the sink, and its length to the callback.
  unfoldable pub read_file : List Bytes → Exec (PackAccessor S) Bytes
  read_file path = do
    found ← find path
    elim found [
      | none ↦ throw nix_error
      | some entry ↦ if entry.type == b'd' || entry.type == b's' then throw nix_error else (do
        contents ← healing (in_store (reader.read_blob_view entry.id))
        elim contents [ none ↦ throw nix_error | some bytes ↦ pure bytes ])
    ]

  unfoldable pub path_exists : List Bytes → Exec (PackAccessor S) Bool
  path_exists path = do found ← find path; elim found [ none ↦ pure false | some entry ↦ pure true ]

  -- The rest of `maybeLstat`, for an entry of a type.
  unfoldable pub lstat_as : FileType → TreeEntry → Exec (PackAccessor S) (Option Stat)
  lstat_as regular entry = do
    size ← in_store (reader.blob_size entry.id)
    pure (some (file_stat entry.type size))
  lstat_as symlink entry =
      pure (some (record { type = symlink; is_executable = false; file_size = none }))
  lstat_as directory entry =
      pure (some (record { type = directory; is_executable = false; file_size = none }))

  unfoldable pub maybe_lstat : List Bytes → Exec (PackAccessor S) (Option Stat)
  maybe_lstat path = do
    found ← find path
    elim found [ none ↦ pure none | some entry ↦ lstat_as (tarmac_entry_type entry.type) entry ]

  unfoldable pub read_directory : List Bytes → Exec (PackAccessor S) (List (Bytes × FileType))
  read_directory path = do
    found ← find path
    elim found [
      | none ↦ throw nix_error
      | some entry ↦
          if entry.type == b'd'
          then (do
            children ← healing (in_store (reader.read_tree entry.id))
            pure (dir_entries children))
          else throw nix_error
    ]

  unfoldable pub read_link : List Bytes → Exec (PackAccessor S) Bytes
  read_link path = do
    found ← find path
    elim found [
      | none ↦ throw nix_error
      | some entry ↦
          if entry.type == b's'
          then healing (in_store (reader.read_blob entry.id))
          else throw nix_error
    ]

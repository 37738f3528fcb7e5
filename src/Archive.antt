-- ===== src/Archive.antt =====
-- The producer's side of `ingest_archive` of src/tree.cpp: `read_regular`, `read_item` and
-- `read_items`. libarchive is a parameter: what its calls return, and the archive after them.
pub mod Members
mod Runs
use nix_tarmac.Base.{
  ℕ, zero, suc, ◌+◌, ◌%◌, ◌/◌, Bool, true, false, not, Option, none, some, List, [], ◌∷◌, ◌++◌,
  ◌==◌, if◌then◌else◌,
}
use nix_tarmac.Base.Bytes.{Bytes}
use nix_tarmac.Base.Result.{Error, runtime_error, out_of_fuel}
use nix_tarmac.Base.Exec.{Exec, Outcome, returns, throws, pure, throw, ◌>>=◌}
use nix_tarmac.ItemQueue.{TarItem}

-- `AE_IFDIR`, `AE_IFLNK`, `AE_IFREG` and all else.
pub data FileType : Type 0 where
  directory symbolic_link regular other_type : FileType

-- What the calls on an `archive_entry` return; `none` is a null pointer or a negative size.
pub record Header : Type 0 where
  pub pathname : Option Bytes
  pub hardlink : Option Bytes
  pub filetype : FileType
  pub symlink : Option Bytes
  pub size : Option ℕ
  pub perm : ℕ

-- `ARCHIVE_OK` with a header, `ARCHIVE_EOF`, or another code, and the archive after the call.
pub data NextHeader (A : Type 0) : Type 0 where
  archive_ok : Header → A → NextHeader A
  archive_eof archive_error : A → NextHeader A

-- The bytes that `archive_read_data` puts in the buffer, none at the end of an entry, or a negative
-- return value.
pub data ReadData (A : Type 0) : Type 0 where
  read_bytes : Bytes → A → ReadData A
  read_error : A → ReadData A

pub record LibArchive (A : Type 0) : Type 0 where
  pub next_header : A → NextHeader A
  pub read_data : A → ReadData A

-- `perm & kExecBits`, which is 0111
unfoldable pub is_executable : ℕ → Bool
is_executable perm = not (perm % 2 + perm / 8 % 2 + perm / 64 % 2 == 0)

module _ {A : Type 0} (lib : LibArchive A) where
  -- The loop of `read_regular`.
  unfoldable pub read_all : ℕ → Bytes → Exec A Bytes
  read_all zero bytes arc = throws out_of_fuel arc
  read_all (suc fuel) bytes arc = elim (lib.read_data arc) [
    | read_error arc' ↦ throws runtime_error arc'
    | read_bytes got arc' ↦ elim got [
      | [] ↦ returns bytes arc'
      | b ∷ bs ↦ read_all fuel (bytes ++ (b ∷ bs)) arc'
    ]
  ]

  unfoldable pub read_regular : ℕ → Header → Bytes → Exec A TarItem
  unfolding read_all
  read_regular fuel header name = elim header.size [
    | none ↦ throw runtime_error
    | some size ↦ do
      bytes ← read_all fuel []
      pure (record {
        path = name;
        type = if is_executable header.perm then b'x' else b'r';
        payload = bytes;
      })
  ]

  -- The rest of `read_item`, for an entry that is no hard link.
  unfoldable pub read_by_type : ℕ → Header → Bytes → FileType → Exec A TarItem
  unfolding read_regular
  read_by_type fuel header name directory = pure (record { path = name; type = b'd'; payload = [] })
  read_by_type fuel header name symbolic_link = elim header.symlink [
    | none ↦ throw runtime_error
    | some target ↦ pure (record { path = name; type = b's'; payload = target })
  ]
  read_by_type fuel header name regular = read_regular fuel header name
  read_by_type fuel header name other_type = throw runtime_error

  unfoldable pub read_item : ℕ → Header → Exec A TarItem
  unfolding read_by_type
  read_item fuel header = elim header.pathname [
    | none ↦ throw runtime_error
    | some name ↦ elim header.hardlink [
      | some target ↦ pure (record { path = name; type = b'h'; payload = target })
      | none ↦ read_by_type fuel header name header.filetype
    ]
  ]

  -- The item is pushed, and the loop goes on.
  abbrev pub push_then :
      Outcome A TarItem → (A → List TarItem × Option Error) → List TarItem × Option Error
  push_then (throws e arc) loop = ([], some e)
  push_then (returns item arc) loop = let (items, ending) = loop arc in (item ∷ items, ending)

  -- `read_items`: the items it pushes, and the exception that ends it, if one does. There is fuel for
  -- the loop, and for that of `read_regular`.
  unfoldable pub read_items : ℕ → ℕ → A → List TarItem × Option Error
  unfolding read_item
  read_items fuel zero arc = ([], some out_of_fuel)
  read_items fuel (suc rounds) arc = elim (lib.next_header arc) [
    | archive_eof arc' ↦ ([], none)
    | archive_error arc' ↦ ([], some runtime_error)
    | archive_ok header arc' ↦ push_then (read_item fuel header arc') (read_items fuel rounds)
  ]

-- ===== src/Archive/Runs.antt =====
-- An archive with a directory, an executable file in two pieces, and a device node. What is left of
-- it is the state.
use nix_tarmac.Base.{ℕ, ◌≡◌, refl, none, some, List, [], ◌∷◌, arith}
use nix_tarmac.Base.Bytes.{Bytes}
use nix_tarmac.Base.Result.{runtime_error}
use nix_tarmac.Archive.{
  FileType, directory, regular, other_type, Header, NextHeader, archive_ok, archive_eof, ReadData,
  read_bytes, LibArchive, is_executable, read_items,
}
use nix_tarmac.Archive.Members.{Member, items_of, read_items-eq}

abbrev plain_header : Bytes → FileType → Header
plain_header name filetype = record {
  pathname = some name;
  hardlink = none;
  filetype = filetype;
  symlink = none;
  size = some 3;
  perm = 448;
}

abbrev the_dir : Member
the_dir = record { header = plain_header (b'a' ∷ []) directory; pieces = [] }

abbrev the_tool : Member
the_tool = record { header = plain_header (b'b' ∷ []) regular; pieces = (7, 8 ∷ []) ∷ (9, []) ∷ [] }

abbrev the_device : Member
the_device = record { header = plain_header (b'c' ∷ []) other_type; pieces = [] }

abbrev the_members : List Member
the_members = the_dir ∷ the_tool ∷ the_device ∷ []

abbrev after_dir : List Member
after_dir = the_tool ∷ the_device ∷ []

-- The pieces left of the entry that is read, and the members left.
abbrev Left : Type 0
Left = List (ℕ × Bytes) × List Member

abbrev open_member : List Member → NextHeader Left
open_member [] = archive_eof ([], [])
open_member (member ∷ members) = archive_ok member.header (member.pieces, members)

abbrev next_piece : List (ℕ × Bytes) → List Member → ReadData Left
next_piece [] members = read_bytes [] ([], members)
next_piece ((b, bs) ∷ pieces) members = read_bytes (b ∷ bs) (pieces, members)

abbrev listed : LibArchive Left
listed = record {
  next_header = λ left. open_member left.1;
  read_data = λ left. next_piece left.0 left.1;
}

-- The device node ends it.
two_items : items_of the_members ≡ (
  record { path = b'a' ∷ []; type = b'd'; payload = [] }
      ∷ record { path = b'b' ∷ []; type = b'x'; payload = 7 ∷ 8 ∷ 9 ∷ [] }
      ∷ [],
  some runtime_error,
)
unfolding is_executable
two_items = refl

read_items-eq_example : read_items listed 3 4 ([], the_members) ≡ items_of the_members
read_items-eq_example =
    read_items-eq listed 3 4 ([], the_members) the_members
      (
        ([], after_dir),
        ([], after_dir),
        refl,
        refl,
        (
          (the_tool.pieces, the_device ∷ []),
          ([], the_device ∷ []),
          refl,
          ((((9, []) ∷ []), the_device ∷ []), refl, (([], the_device ∷ []), refl, refl)),
          (([], []), ([], []), refl, refl, (([], []), refl)),
        ),
      )
      (omega arith, (omega arith, (omega arith, tt))) (omega arith)

-- ===== src/Archive/Members.antt =====
-- What `read_items` gives for an archive, as a list of its members.
use nix_tarmac.Base.{
  ℕ, zero, suc, ◌<◌, ◌≡◌, refl, sym, ap, ◌∙◌, Bool, true, false, Option, none, some, List, [], ◌∷◌,
  ◌++◌, length, append-nil, append_assoc, Option-cases, inl, inr, arith, if◌then◌else◌,
}
use nix_tarmac.Base.Bytes.{Bytes}
use nix_tarmac.Base.Result.{Error, Result, ok, err, runtime_error}
use nix_tarmac.Base.Exec.{Outcome, returns, throws}
use nix_tarmac.ItemQueue.{TarItem}
use nix_tarmac.Archive.{
  FileType, directory, symbolic_link, regular, other_type, Header, archive_ok, archive_eof,
  read_bytes, LibArchive, push_then, is_executable, read_all, read_regular, read_by_type, read_item,
  read_items,
}

-- A member: its header, and its contents in the pieces in which they are read, none of them empty.
pub record Member : Type 0 where
  pub header : Header
  pub pieces : List (ℕ × Bytes)

abbrev concat : List (ℕ × Bytes) → Bytes
concat [] = []
concat ((b, bs) ∷ pieces) = (b ∷ bs) ++ concat pieces

-- Whether `read_item` comes to the contents.
abbrev of_type : FileType → Option Bytes → Bool
of_type regular none = true
of_type regular (some target) = false
of_type directory link = false
of_type symbolic_link link = false
of_type other_type link = false

abbrev or_throw : Option Bytes → (Bytes → Result TarItem) → Result TarItem
or_throw none k = err runtime_error
or_throw (some x) k = k x

abbrev sized : Option ℕ → Result TarItem → Result TarItem
sized none item = err runtime_error
sized (some size) item = item

-- The item of a member that is no hard link.
abbrev plain_item : Bytes → Member → FileType → Result TarItem
plain_item name member directory = ok (record { path = name; type = b'd'; payload = [] })
plain_item name member symbolic_link =
    or_throw member.header.symlink
      λ target. ok (record { path = name; type = b's'; payload = target })
plain_item name member regular = sized member.header.size (
    ok (record {
      path = name;
      type = if is_executable member.header.perm then b'x' else b'r';
      payload = concat member.pieces;
    }))
plain_item name member other_type = err runtime_error

abbrev linked_item : Bytes → Member → Option Bytes → Result TarItem
linked_item name member (some target) = ok (record { path = name; type = b'h'; payload = target })
linked_item name member none = plain_item name member member.header.filetype

-- The item of a member.
abbrev pub item_of : Member → Result TarItem
item_of member =
    or_throw member.header.pathname λ name. linked_item name member member.header.hardlink

-- The items up to the first member that is refused.
abbrev then_items : Result TarItem → List TarItem × Option Error → List TarItem × Option Error
then_items (ok item) (items, ending) = (item ∷ items, ending)
then_items (err e) rest = ([], some e)

abbrev pub items_of : List Member → List TarItem × Option Error
items_of [] = ([], none)
items_of (member ∷ members) = then_items (item_of member) (items_of members)

module _ {A : Type 0} (lib : LibArchive A) where
  -- libarchive gives these pieces, and then the end of the entry.
  abbrev pub Gives : A → List (ℕ × Bytes) → A → Type 0
  Gives arc [] end = lib.read_data arc ≡ read_bytes [] end
  Gives arc ((b, bs) ∷ pieces) end =
      (arc' : A) × (lib.read_data arc ≡ read_bytes (b ∷ bs) arc') × Gives arc' pieces end

  -- It gives the contents of a regular file only where they are read.
  abbrev Passes : Bool → A → List (ℕ × Bytes) → A → Type 0
  Passes true arc pieces end = Gives arc pieces end
  Passes false arc pieces end = arc ≡ end

  abbrev is_sized : Option ℕ → Bool
  is_sized none = false
  is_sized (some size) = true

  -- libarchive gives these members, and then the end of the archive.
  abbrev pub Holds : A → List Member → Type 0
  Holds arc [] = (end : A) × (lib.next_header arc ≡ archive_eof end)
  Holds arc (member ∷ members) =
      (inside after : A) × (lib.next_header arc ≡ archive_ok member.header inside)
      × Passes (of_type member.header.filetype member.header.hardlink) inside member.pieces after
      × Holds after members

  abbrev pub Short : ℕ → List Member → Type 0
  Short fuel [] = Unit {0}
  Short fuel (member ∷ members) = (length member.pieces < fuel) × Short fuel members

  read_all-eq :
      (fuel : ℕ) (bytes : Bytes) (arc : A) (pieces : List (ℕ × Bytes)) (end : A)
      → Gives arc pieces end
      → length pieces < fuel
      → read_all lib fuel bytes arc ≡ returns (bytes ++ concat pieces) end
  unfolding read_all
  read_all-eq zero bytes arc pieces end g h = absurd (omega arith)
  read_all-eq (suc fuel) bytes arc [] end g h =
      rw (g, read_all) (ap (λ x. returns x end) (sym (append-nil bytes)))
  read_all-eq (suc fuel) bytes arc ((b, bs) ∷ pieces) end (arc', e, g) h =
      rw (e, read_all)
        (read_all-eq fuel (bytes ++ (b ∷ bs)) arc' pieces end g (omega arith)
          ∙ ap (λ x. returns x end) (append_assoc bytes (b ∷ bs) (concat pieces)))

  -- The item that was expected, with the archive after it, or the exception.
  abbrev Reads : A → Result TarItem → Outcome A TarItem → Type 0
  Reads after (ok item) o = o ≡ returns item after
  Reads after (err e) o = (arc : A) × (o ≡ throws e arc)

  read_by_type-Reads :
      (fuel : ℕ) (name : Bytes) (member : Member) (inside after : A) (type : FileType)
      → Passes (of_type type none) inside member.pieces after
      → length member.pieces < fuel
      → Reads after
          (plain_item name member type)
          (read_by_type lib fuel member.header name type inside)
  unfolding read_by_type read_regular
  read_by_type-Reads fuel name member inside after directory p h = rw p refl
  read_by_type-Reads fuel name member inside after symbolic_link p h =
      elim (Option-cases member.header.symlink) [
        | inl missing ↦ rw missing (inside, refl)
        | inr (target, there) ↦ rw (there, p) refl
      ]
  read_by_type-Reads fuel name member inside after regular p h =
      elim (Option-cases member.header.size) [
        | inl missing ↦ rw missing (inside, refl)
        | inr (size, there) ↦ rw (there, read_all-eq fuel [] inside member.pieces after p h) refl
      ]
  read_by_type-Reads fuel name member inside after other_type p h = (inside, refl)

  unread :
      (type : FileType) (target : Bytes) (arc end : A) (pieces : List (ℕ × Bytes))
      → Passes (of_type type (some target)) arc pieces end
      → arc ≡ end
  unread directory target arc end pieces p = p
  unread symbolic_link target arc end pieces p = p
  unread regular target arc end pieces p = p
  unread other_type target arc end pieces p = p

  linked-Reads :
      (fuel : ℕ) (name : Bytes) (member : Member) (inside after : A) (link : Option Bytes)
      → member.header.hardlink ≡ link
      → Passes (of_type member.header.filetype link) inside member.pieces after
      → length member.pieces < fuel
      → member.header.pathname ≡ some name
      → Reads after (linked_item name member link) (read_item lib fuel member.header inside)
  unfolding read_item
  linked-Reads fuel name member inside after none e p h named =
      rw (named, e) (read_by_type-Reads fuel name member inside after member.header.filetype p h)
  linked-Reads fuel name member inside after (some target) e p h named =
      let same = unread member.header.filetype target inside after member.pieces p in
      rw (named, e, same) refl

  named-Reads :
      (fuel : ℕ) (member : Member) (inside after : A) (path : Option Bytes)
      → member.header.pathname ≡ path
      → Passes (of_type member.header.filetype member.header.hardlink) inside member.pieces after
      → length member.pieces < fuel
      → Reads after
          (or_throw path λ name. linked_item name member member.header.hardlink)
          (read_item lib fuel member.header inside)
  unfolding read_item
  named-Reads fuel member inside after none e p h = (inside, rw e refl)
  named-Reads fuel member inside after (some name) e p h =
      linked-Reads fuel name member inside after member.header.hardlink refl p h e

  read_item-Reads :
      (fuel : ℕ) (member : Member) (inside after : A)
      → Passes (of_type member.header.filetype member.header.hardlink) inside member.pieces after
      → length member.pieces < fuel
      → Reads after (item_of member) (read_item lib fuel member.header inside)
  read_item-Reads fuel member inside after p h =
      named-Reads fuel member inside after member.header.pathname refl p h

  push_then-eq :
      (after : A) (r : Result TarItem) (o : Outcome A TarItem)
      (loop : A → List TarItem × Option Error) (rest : List TarItem × Option Error)
      → Reads after r o
      → loop after ≡ rest
      → push_then lib o loop ≡ then_items r rest
  push_then-eq after (ok item) o loop rest reads e = rw (reads, e) refl
  push_then-eq after (err x) o loop rest (arc, reads) e = rw reads refl

  -- On an archive that holds these members, each of them with fewer pieces than there is fuel and
  -- fewer than the rounds, `read_items` ends, and pushes the items of the members up to the first
  -- that is refused, whose exception it ends with; it ends with none where all are taken.
  pub read_items-eq :
      (fuel rounds : ℕ) (arc : A) (members : List Member)
      → Holds arc members
      → Short fuel members
      → length members < rounds
      → read_items lib fuel rounds arc ≡ items_of members
  unfolding read_items
  read_items-eq fuel zero arc members holds short h = absurd (omega arith)
  read_items-eq fuel (suc rounds) arc [] (end, e) short h = rw (e, read_items) refl
  read_items-eq fuel (suc rounds) arc (member ∷ members) (inside, after, e, p, holds)
        (short, shorts) h =
      rw (e, read_items)
        (push_then-eq after (item_of member) (read_item lib fuel member.header inside)
          (read_items lib fuel rounds) (items_of members)
          (read_item-Reads fuel member inside after p short)
          (read_items-eq fuel rounds after members holds shorts (omega arith)))

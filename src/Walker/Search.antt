-- ===== src/Walker/Search.antt =====
-- `lookup` searches the entries of a tree by their order. On what `readTree` gives this finds the
-- entry of that name.
use nix_tarmac.Base.{
  ◌≡◌, refl, true, Option, none, some, List, [], ◌∷◌, arith, if◌then◌else◌, Bool-cases, inl, inr,
}
use nix_tarmac.Base.Bytes.{
  Bytes, IsBytes, bytes_eq, bytes_eq_iff, bytes_lt, bytes_lt_irrefl, bytes_lt_total, bytes_lt_trans,
}
use nix_tarmac.Base.Result.{ok}
use nix_tarmac.TreeObject.{TreeEntry, decode_tree, out_of_order}
use nix_tarmac.TreeObject.Canonical.{SortedFrom, encode_tree-decode_tree}
use nix_tarmac.Walker.{lower_bound, find_entry}

-- The reference: look at every entry.
unfoldable pub find_name : List TreeEntry → Bytes → Option TreeEntry
find_name [] comp = none
find_name (entry ∷ entries) comp =
    if bytes_eq entry.name comp then some entry else find_name entries comp

-- The names rise, on from a name below them.
abbrev pub NamesRise : Bytes → List TreeEntry → Type 0
NamesRise low [] = Unit {0}
NamesRise low (entry ∷ entries) = (bytes_lt low entry.name ≡ true) × NamesRise entry.name entries

abbrev pub IsSorted : List TreeEntry → Type 0
IsSorted [] = Unit {0}
IsSorted (entry ∷ entries) = NamesRise entry.name entries

find_name_above :
    (low comp : Bytes) (entries : List TreeEntry)
    → NamesRise low entries
    → bytes_lt comp low ≡ true
    → find_name entries comp ≡ none
unfolding find_name
find_name_above low comp [] r h = refl
find_name_above low comp (entry ∷ entries) (below, r) h =
    let above = bytes_lt_trans comp low entry.name h below in
    ground (
      arith,
      find_name_above entry.name comp entries r above,
      bytes_eq_iff entry.name comp,
      bytes_lt_irrefl comp,
    )

IsSorted-of_NamesRise :
    (low : Bytes) (entries : List TreeEntry) → NamesRise low entries → IsSorted entries
IsSorted-of_NamesRise low [] r = tt
IsSorted-of_NamesRise low (entry ∷ entries) r = r.1

pub find_entry-eq :
    (comp : Bytes) (entries : List TreeEntry)
    → IsSorted entries
    → find_entry entries comp ≡ find_name entries comp
unfolding find_entry find_name lower_bound
find_entry-eq comp [] r = refl
find_entry-eq comp (entry ∷ entries) r =
    let ih = find_entry-eq comp entries (IsSorted-of_NamesRise entry.name entries r) in
    let other = find_name_above entry.name comp entries r in
    elim (Bool-cases (bytes_lt entry.name comp)) [
      | inl below ↦ ground (arith, ih, bytes_eq_iff entry.name comp, bytes_lt_irrefl comp)
      | inr above ↦
          ground (arith, other, bytes_eq_iff entry.name comp, bytes_lt_total entry.name comp)
    ]

SortedFrom-NamesRise :
    (before : List TreeEntry) (entry : TreeEntry) (entries : List TreeEntry)
    → SortedFrom (entry ∷ before) entries
    → NamesRise entry.name entries
unfolding out_of_order
SortedFrom-NamesRise before entry [] r = tt
SortedFrom-NamesRise before entry (next ∷ entries) r =
    (ground arith, SortedFrom-NamesRise (entry ∷ before) next entries r.1)

SortedFrom-IsSorted : (entries : List TreeEntry) → SortedFrom [] entries → IsSorted entries
SortedFrom-IsSorted [] r = tt
SortedFrom-IsSorted (entry ∷ entries) r = SortedFrom-NamesRise [] entry entries r.1

-- In the entries that `readTree` returns for a string of bytes the names rise strictly, and the
-- search by `lower_bound` finds the same entry as a look at every one.
pub find_entry-decode_tree :
    (buf comp : Bytes) (entries : List TreeEntry)
    → IsBytes buf
    → decode_tree buf ≡ ok entries
    → IsSorted entries × (find_entry entries comp ≡ find_name entries comp)
find_entry-decode_tree buf comp entries bytes e =
    let ((_, sorted), _) = encode_tree-decode_tree buf entries bytes e in
    let rises = SortedFrom-IsSorted entries sorted in (rises, find_entry-eq comp entries rises)

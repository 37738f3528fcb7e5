-- ===== src/Walker.antt =====
-- `TreeWalker` of src/tree.cpp.
pub mod Search
pub mod Stale
mod Runs
use nix_tarmac.Base.{Bool, true, false, Option, none, some, List, [], ◌∷◌, ◌==◌, if◌then◌else◌}
use nix_tarmac.Base.Bytes.{Bytes, bytes_eq, bytes_lt}
use nix_tarmac.Base.Exec.{Exec, pure, gets, modify, returns, throws, ◌>>=◌, ◌>>◌}
use nix_tarmac.TreeObject.{TreeEntry}
use nix_tarmac.Paths.{split_path}
use nix_tarmac.Nar.{root_entry}

-- `std::ranges::lower_bound` on the names: the first entry whose name is not below.
unfoldable pub lower_bound : List TreeEntry → Bytes → Option TreeEntry
lower_bound [] comp = none
lower_bound (entry ∷ entries) comp =
    let rest = lower_bound entries comp in if bytes_lt entry.name comp then rest else some entry

unfoldable pub find_entry : List TreeEntry → Bytes → Option TreeEntry
find_entry entries comp = elim (lower_bound entries comp) [
  | none ↦ none
  | some found ↦ if bytes_eq found.name comp then some found else none
]

-- `cache_`, beside the state of the store below.
pub record Walker (S : Type 0) : Type 0 where
  pub store : S
  pub cache : List (Bytes × List TreeEntry)

unfoldable pub find_tree : Bytes → List (Bytes × List TreeEntry) → Option (List TreeEntry)
find_tree id [] = none
find_tree id ((key, entries) ∷ cache) = if bytes_eq key id then some entries else find_tree id cache

module _ {S : Type 0} (read_tree : Bytes → Exec S (List TreeEntry)) where
  -- `TreeWalker::tree`. The slot is made before the tree is read: if reading throws, an empty tree
  -- stays in the cache.
  unfoldable pub tree : Bytes → Exec (Walker S) (List TreeEntry)
  tree id w = elim (find_tree id w.cache) [
    | some entries ↦ returns entries w
    | none ↦ elim (read_tree id w.store) [
      | throws e s ↦ throws e (record { store = s; cache = (id, []) ∷ w.cache })
      | returns entries s ↦ returns entries (record { store = s; cache = (id, entries) ∷ w.cache })
    ]
  ]

  -- The loop of `TreeWalker::lookup`.
  unfoldable pub walk : TreeEntry → List Bytes → Exec (Walker S) (Option TreeEntry)
  walk out [] = pure (some out)
  walk out (comp ∷ comps) =
      let below : Exec (Walker S) (Option TreeEntry) = tree out.id >>= λ entries.
      elim (find_entry entries comp) [ none ↦ pure none | some found ↦ walk found comps ] in
      if out.type == b'd' then below else pure none

  unfoldable pub lookup : Bytes → Bytes → Exec (Walker S) (Option TreeEntry)
  unfolding walk
  lookup root path = elim (split_path path) [
    | none ↦ pure none
    | some comps ↦ walk (root_entry root) comps
  ]

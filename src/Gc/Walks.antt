-- ===== src/Gc/Walks.antt =====
-- `mark_live` with `TreeStore::readTree` on a sound index.
use nix_tarmac.Base.{ℕ, ◌≡◌, Bool, none, List}
use nix_tarmac.Base.Bytes.{Bytes}
use nix_tarmac.Base.Exec.{returns}
use nix_tarmac.Pack.Platform.{Platform}
use nix_tarmac.Pack.State.{Impl, Mapping, Db}
use nix_tarmac.Roots.{read_tree}
use nix_tarmac.Live.{mark_live}
use nix_tarmac.Live.Closed.{Has, OneKind, Closed, Agrees}
use nix_tarmac.Live.Reach.{Reaches, mark_live-Reaches}
use nix_tarmac.Gc.Reading.{Sees, Reading, tree_of, read_tree-Reading}

module _ {T : Type 0} (p : Platform T) (tid : ℕ) (db : Db T) (m : Mapping) (bytes : Bytes) where
  read_tree-Agrees :
      (is_dir : Bytes → Bool)
      → Agrees (tree_of p db bytes) is_dir (Sees p tid db m bytes) (read_tree p tid)
  read_tree-Agrees is_dir id s sees = read_tree-Reading p tid db m bytes id s sees

  -- On a sound index, whichever calls fail, where every id is a directory in all trees of the index
  -- or in none and the set was closed before: when `mark_live` ends without an exception, the set has
  -- what it had, it has all that the root reaches through the trees of the index, and it is closed
  -- again.
  pub mark_live-read_tree :
      (is_dir : Bytes → Bool) (fuel : ℕ) (root : Bytes) (live live' : List Bytes) (s s' : Impl T)
      → ((id : Bytes) → OneKind (tree_of p db bytes) is_dir (tree_of p db bytes id))
      → Closed (tree_of p db bytes) is_dir live
      → Sees p tid db m bytes s
      → mark_live (read_tree p tid) fuel root live s ≡ returns (live', none) s'
      → ((id : Bytes) → Has live id → Has live' id)
        × ((id : Bytes) → Reaches (tree_of p db bytes) is_dir root id → Has live' id)
        × Closed (tree_of p db bytes) is_dir live'
  mark_live-read_tree is_dir fuel root live live' s s' kinds closed sees run =
      mark_live-Reaches (tree_of p db bytes) is_dir (Sees p tid db m bytes) (read_tree p tid) fuel
        root live live' s s' (read_tree-Agrees is_dir) kinds closed sees run

-- ===== src/Live.antt =====
-- `TreeStore::mark_live` of src/tree.cpp, for any way to read tree objects.
pub mod Closed
pub mod Reach
pub mod Fuel
use nix_tarmac.Base.{
  ℕ, zero, suc, Bool, true, false, ◌&&◌, Option, none, some, List, [], ◌∷◌, ◌==◌, if◌then◌else◌,
}
use nix_tarmac.Base.Bytes.{Bytes, bytes_eq}
use nix_tarmac.Base.Result.{Error, out_of_fuel}
use nix_tarmac.Base.Exec.{Exec, returns, throws}
use nix_tarmac.TreeObject.{TreeEntry}

-- `live`, a std::unordered_set: its elements, the last one inserted first.
unfoldable pub contains : Bytes → List Bytes → Bool
contains id [] = false
contains id (x ∷ live) = let rest = contains id live in if bytes_eq x id then true else rest

-- `live.insert(id)`: the set, and whether the element is new.
unfoldable pub insert : Bytes → List Bytes → List Bytes × Bool
insert id live = if contains id live then (live, false) else (id ∷ live, true)

-- The loop over the entries of one tree. The head of `pending` is the back of the vector.
unfoldable pub mark_entries : List TreeEntry → List Bytes → List Bytes → List Bytes × List Bytes
mark_entries [] live pending = (live, pending)
mark_entries (entry ∷ entries) live pending =
    let (live', is_new) = insert entry.id live in
    mark_entries entries live'
      (if is_new && entry.type == b'd' then entry.id ∷ pending else pending)

module _ {S : Type 0} (read_tree : Bytes → Exec S (List TreeEntry)) where
  -- The loop of `mark_live`: the set as it is when the loop ends, and the exception if it ends with
  -- one. The caller has the set by reference, and keeps it in both cases.
  unfoldable pub mark_loop : ℕ → List Bytes → List Bytes → Exec S (List Bytes × Option Error)
  mark_loop fuel live [] s = returns (live, none) s
  mark_loop zero live (tree_id ∷ pending) s = returns (live, some out_of_fuel) s
  mark_loop (suc fuel) live (tree_id ∷ pending) s = elim (read_tree tree_id s) [
    | throws e s' ↦ returns (live, some e) s'
    | returns entries s' ↦
        let (live', pending') = mark_entries entries live pending in
        mark_loop fuel live' pending' s'
  ]

  unfoldable pub mark_live : ℕ → Bytes → List Bytes → Exec S (List Bytes × Option Error)
  mark_live fuel root live =
      let (live', is_new) = insert root live in
      mark_loop fuel live' (if is_new then root ∷ [] else [])

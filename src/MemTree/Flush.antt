-- ===== src/MemTree/Flush.antt =====
-- `flush_tree` of src/tree.cpp. A pointer to a node is the path of the node from the root.
pub mod Prefix
pub mod Slots
pub mod Listing
pub mod Order
pub mod Pruned
pub mod Correct
pub mod Program
use nix_tarmac.Base.{
  ℕ, zero, suc, ◌+◌, Bool, true, false, Option, none, some, List, [], ◌∷◌, ◌++◌, ◌==◌,
  if◌then◌else◌,
}
use nix_tarmac.Base.Bytes.{Bytes, bytes_eq}
use nix_tarmac.Base.Result.{undefined}
use nix_tarmac.Base.Exec.{Exec, pure, throw, ◌>>=◌}
use nix_tarmac.TreeObject.{TreeEntry}
use nix_tarmac.MemTree.{MemNode, Children, mem_node, map_nil, slot, type_of, id_of, find}

abbrev pub NodePath : Type 0
NodePath = List Bytes

abbrev pub children_of : MemNode → Children
children_of (mem_node type id children) = children

-- What a pointer points to, and a write through it.
unfoldable pub node_at : MemNode → NodePath → Option MemNode
node_at node [] = some node
node_at node (name ∷ path) = elim (find name (children_of node)) [
  | none ↦ none
  | some sub ↦ node_at sub path
]

unfoldable mutual
  pub set_node : MemNode → NodePath → MemNode → MemNode
  set_node node [] new = new
  set_node (mem_node type id children) (name ∷ path) new =
      mem_node type id (set_child children name path new)

  pub set_child : Children → Bytes → NodePath → MemNode → Children
  set_child map_nil name path new = map_nil
  set_child (slot n sub rest) name path new =
      let sub' = set_node sub path new in
      let rest' = set_child rest name path new in
      if bytes_eq n name then slot n sub' rest else slot n sub rest'

-- The directories among the children.
unfoldable pub subdirs : NodePath → Children → List NodePath
subdirs path map_nil = []
subdirs path (slot name sub rest) =
    if type_of sub == b'd' then (path ++ (name ∷ [])) ∷ subdirs path rest else subdirs path rest

unfoldable pub get_elem? : ℕ → List NodePath → Option NodePath
get_elem? n [] = none
get_elem? zero (x ∷ xs) = some x
get_elem? (suc n) (x ∷ xs) = get_elem? n xs

abbrev pub children_at : MemNode → NodePath → Children
children_at root path = elim (node_at root path) [ none ↦ map_nil | some node ↦ children_of node ]

-- The loop that lists the directories; `order` grows while `pos` goes through it.
unfoldable pub list_dirs : ℕ → MemNode → ℕ → List NodePath → List NodePath
list_dirs zero root pos order = order
list_dirs (suc fuel) root pos order = elim (get_elem? pos order) [
  | none ↦ order
  | some path ↦ list_dirs fuel root (suc pos) (order ++ subdirs path (children_at root path))
]

-- How many directories there are: the rounds of that loop.
unfoldable mutual
  pub count_dirs : MemNode → ℕ
  count_dirs (mem_node type id children) = if type == b'd' then suc (count_below children) else 0

  pub count_below : Children → ℕ
  count_below map_nil = 0
  count_below (slot name sub rest) = count_dirs sub + count_below rest

unfoldable pub tree_entries : Children → List TreeEntry
tree_entries map_nil = []
tree_entries (slot name sub rest) =
    record { name = name; type = type_of sub; id = id_of sub } ∷ tree_entries rest

module _ {S : Type 0} (put_tree : List TreeEntry → Exec S Bytes) where
  -- The body of the second loop; a pointer that leads nowhere is not made.
  unfoldable pub flush_dir : NodePath → MemNode → Exec S MemNode
  flush_dir path root = elim (node_at root path) [
    | none ↦ throw undefined
    | some node ↦ do
      id ← put_tree (tree_entries (children_of node))
      pure (set_node root path (mem_node (type_of node) id map_nil))
  ]

  -- The second loop, from the back of `order`.
  unfoldable pub flush_back : List NodePath → MemNode → Exec S MemNode
  unfolding flush_dir
  flush_back [] root = pure root
  flush_back (path ∷ order) root = do root' ← flush_back order root; flush_dir path root'

  unfoldable pub flush_tree : MemNode → Exec S Bytes
  unfolding flush_back
  flush_tree root = do
    root' ← flush_back (list_dirs (suc (count_dirs root)) root 0 ([] ∷ [])) root
    pure (id_of root')

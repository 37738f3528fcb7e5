-- ===== src/MemTree.antt =====
-- The tree that an ingest builds in memory: `MemNode`, `lookup_node` and `add_node` of src/tree.cpp. An
-- exception ends the ingest, and the tree with it.
pub mod Lookup
pub mod Ordered
pub mod Flush
mod Runs
use nix_tarmac.Base.{
  ℕ, suc, ◌+◌, Bool, true, false, not, ◌&&◌, ◌||◌, Option, none, some, List, [], ◌∷◌, ◌==◌,
  if◌then◌else◌,
}
use nix_tarmac.Base.Bytes.{Bytes, bytes_eq, bytes_lt}
use nix_tarmac.Base.Result.{Result, ok, err, runtime_error, ◌>>=◌}

-- `children` is a std::map: a list in the order of the names.
mutual
  pub data MemNode : Type 0 where
    mem_node : ℕ → Bytes → Children → MemNode

  pub data Children : Type 0 where
    map_nil : Children
    slot : Bytes → MemNode → Children → Children

abbrev pub type_of : MemNode → ℕ
type_of (mem_node type id children) = type

abbrev pub id_of : MemNode → Bytes
id_of (mem_node type id children) = id

-- `MemNode{}`
abbrev pub empty_dir : MemNode
empty_dir = mem_node b'd' [] map_nil

abbrev pub has_children : Children → Bool
has_children map_nil = false
has_children (slot name node rest) = true

abbrev pub or_empty_dir : Option MemNode → MemNode
or_empty_dir none = empty_dir
or_empty_dir (some sub) = sub

abbrev pub is_none : Option MemNode → Bool
is_none none = true
is_none (some sub) = false

abbrev pub is_last : List Bytes → Bool
is_last [] = true
is_last (c ∷ cs) = false

unfoldable pub find : Bytes → Children → Option MemNode
find comp map_nil = none
find comp (slot name node rest) = if bytes_eq name comp then some node else find comp rest

-- The map with the slot of this name assigned, which is made if it is not there.
unfoldable pub assign : Bytes → MemNode → Children → Children
assign comp new map_nil = slot comp new map_nil
assign comp new (slot name node rest) =
    let rest' = assign comp new rest in
    if bytes_eq name comp
    then slot comp new rest
    else if bytes_lt comp name
    then slot comp new (slot name node rest)
    else slot name node rest'

unfoldable pub lookup_node : MemNode → List Bytes → Option MemNode
lookup_node cur [] = some cur
lookup_node (mem_node type id children) (comp ∷ comps) =
    if type == b'd'
    then elim (find comp children) [ none ↦ none | some sub ↦ lookup_node sub comps ]
    else none

-- The end of `add_node`, where the path was there before.
unfoldable pub overwrite : Bool → MemNode → MemNode → Result MemNode
overwrite is_root (mem_node type id children) new =
    if type == b'd'
    then (if type_of new == b'd'
        then ok (mem_node type id children)
        else if has_children children || is_root
        then err runtime_error
        else ok new)
    else ok new

-- `add_node` from a node on; `cur == &root` is `is_root`.
unfoldable pub add_from : Bool → MemNode → List Bytes → MemNode → Result MemNode
add_from is_root cur [] new = overwrite is_root cur new
add_from is_root (mem_node type id children) (comp ∷ comps) new =
    let below = add_from false (or_empty_dir (find comp children)) comps new in
    if type == b'd'
    then (do
      sub ← (if is_last comps && is_none (find comp children) then ok new else below)
      ok (mem_node type id (assign comp sub children)))
    else err runtime_error

unfoldable pub add_node : MemNode → List Bytes → MemNode → Result MemNode
add_node root comps new = add_from true root comps new

-- ===== src/MemTree/Ordered.antt =====
-- `add_node` keeps the children of every node in the order of their names.
use nix_tarmac.Base.{
  ◌≡◌, sym, subst, Bool, true, false, ◌&&◌, List, [], ◌∷◌, ◌==◌, if◌then◌else◌, arith, inl, inr,
  ◌⊎◌, Bool-cases, Option-cases, ℕ,
}
use nix_tarmac.Base.Bytes.{Bytes, bytes_eq, bytes_eq_iff, bytes_lt, bytes_lt_total, bytes_lt_trans}
use nix_tarmac.Base.Result.{Result, ok, >>=-eq-ok}
use nix_tarmac.MemTree.{
  MemNode, Children, mem_node, map_nil, slot, or_empty_dir, is_none, is_last, type_of, find, assign,
  overwrite, add_from, add_node,
}
use nix_tarmac.MemTree.Flush.Slots.{SlotsRise, IsMap, IsMapNode, find-IsMap}

SlotsRise-from :
    (a b : Bytes) (children : Children)
    → bytes_lt a b ≡ true
    → SlotsRise b children
    → SlotsRise a children
SlotsRise-from a b map_nil h r = tt
SlotsRise-from a b (slot name sub rest) h (below, r) = (bytes_lt_trans a b name h below, r)

SlotsRise-assign :
    (low comp : Bytes) (new : MemNode) (children : Children)
    → bytes_lt low comp ≡ true
    → SlotsRise low children
    → SlotsRise low (assign comp new children)
unfolding assign
SlotsRise-assign low comp new map_nil h r = (h, tt)
SlotsRise-assign low comp new (slot name sub rest) h (below, r) =
    elim (Bool-cases (bytes_eq name comp)) [
      | inl same ↦ rw same (h, subst (λ x. SlotsRise x rest) ((bytes_eq_iff name comp).0 same) r)
      | inr other ↦ elim (Bool-cases (bytes_lt comp name)) [
        | inl before ↦
            let both : SlotsRise low (slot comp new (slot name sub rest)) = (h, (before, r)) in
            rw (other, before) both
        | inr after ↦
            let above : bytes_lt name comp ≡ true =
              ground (arith, bytes_lt_total name comp, bytes_eq_iff name comp) in
            rw (other, after) (below, SlotsRise-assign name comp new rest above r)
      ]
    ]

IsMap-slot :
    (name : Bytes) (sub : MemNode) (rest : Children)
    → SlotsRise name rest
    → IsMapNode sub
    → IsMap rest
    → IsMap (slot name sub rest)
IsMap-slot name (mem_node type id children) rest r s m = (r, s, m)

IsMap-assign :
    (comp : Bytes) (new : MemNode) (children : Children)
    → IsMapNode new
    → IsMap children
    → IsMap (assign comp new children)
unfolding assign
IsMap-assign comp new map_nil n m = IsMap-slot comp new map_nil tt n tt
IsMap-assign comp new (slot name (mem_node type id below) rest) n (r, sub, m) =
    elim (Bool-cases (bytes_eq name comp)) [
      | inl same ↦ rw same (
          IsMap-slot comp new rest
            (subst (λ x. SlotsRise x rest) ((bytes_eq_iff name comp).0 same) r) n m)
      | inr other ↦ elim (Bool-cases (bytes_lt comp name)) [
        | inl before ↦
            rw (other, before)
              (IsMap-slot comp new (slot name (mem_node type id below) rest) (before, r) n
                (r, sub, m))
        | inr after ↦
            let above : bytes_lt name comp ≡ true =
              ground (arith, bytes_lt_total name comp, bytes_eq_iff name comp) in
            rw (other, after)
              (SlotsRise-assign name comp new rest above r, sub, IsMap-assign comp new rest n m)
      ]
    ]

IsMapNode-or_empty_dir :
    (comp : Bytes) (children : Children)
    → IsMap children
    → IsMapNode (or_empty_dir (find comp children))
IsMapNode-or_empty_dir comp children m = elim (Option-cases (find comp children)) [
  | inl missing ↦ rw missing tt
  | inr (sub, there) ↦ rw there (find-IsMap comp children sub m there)
]

overwrite-either :
    (is_root : Bool) (cur new out : MemNode)
    → overwrite is_root cur new ≡ ok out
    → (out ≡ cur) ⊎ (out ≡ new)
unfolding overwrite
overwrite-either is_root (mem_node type id children) new out e = ground arith

overwrite-IsMapNode :
    (is_root : Bool) (cur new out : MemNode)
    → IsMapNode cur
    → IsMapNode new
    → overwrite is_root cur new ≡ ok out
    → IsMapNode out
overwrite-IsMapNode is_root cur new out m n e = elim (overwrite-either is_root cur new out e) [
  | inl kept ↦ subst IsMapNode (sym kept) m
  | inr put ↦ subst IsMapNode (sym put) n
]

step-IsMapNode :
    (here : Bool) (below : Result MemNode) (new sub : MemNode)
    → IsMapNode new
    → (below ≡ ok sub → IsMapNode sub)
    → (if here then ok new else below) ≡ ok sub
    → IsMapNode sub
step-IsMapNode true below new sub n h e = subst IsMapNode (cc e) n
step-IsMapNode false below new sub n h e = h e

add_from-IsMapNode :
    (is_root : Bool) (cur : MemNode) (comps : List Bytes) (new out : MemNode)
    → IsMapNode cur
    → IsMapNode new
    → add_from is_root cur comps new ≡ ok out
    → IsMapNode out
unfolding add_from
add_from-IsMapNode is_root cur [] new out m n e = overwrite-IsMapNode is_root cur new out m n e
add_from-IsMapNode is_root (mem_node type id children) (comp ∷ comps) new out m n e =
    elim (Bool-cases (type == b'd')) [
      | inr other ↦ absurd (ground arith)
      | inl is_dir ↦
          let (sub, made, whole) =
            >>=-eq-ok
              (if is_last comps && is_none (find comp children)
                then ok new
                else add_from false (or_empty_dir (find comp children)) comps new)
              _ (rw is_dir at e) in
          let below =
            add_from-IsMapNode false (or_empty_dir (find comp children)) comps new sub
              (IsMapNode-or_empty_dir comp children m) n in
          let s =
            step-IsMapNode (is_last comps && is_none (find comp children)) _ new sub n below made in
          let out_is : mem_node type id (assign comp sub children) ≡ out = cc whole in
          subst IsMapNode out_is (IsMap-assign comp sub children s m)
    ]

add_node-IsMapNode :
    (root : MemNode) (comps : List Bytes) (type : ℕ) (id : Bytes) (out : MemNode)
    → IsMapNode root
    → add_node root comps (mem_node type id map_nil) ≡ ok out
    → IsMapNode out
unfolding add_node
add_node-IsMapNode root comps type id out m e =
    add_from-IsMapNode true root comps (mem_node type id map_nil) out m tt e

-- A directory with its children in the order of their names, and so below.
abbrev pub IsRoot : MemNode → Type 0
IsRoot node = IsMapNode node × ((type_of node == b'd') ≡ true)

overwrite-root :
    (cur new out : MemNode)
    → (type_of cur == b'd') ≡ true
    → overwrite true cur new ≡ ok out
    → out ≡ cur
unfolding overwrite
overwrite-root (mem_node type id children) new out d e = ground arith

-- The root stays a directory.
add_node-type :
    (root : MemNode) (comps : List Bytes) (new out : MemNode)
    → (type_of root == b'd') ≡ true
    → add_node root comps new ≡ ok out
    → (type_of out == b'd') ≡ true
unfolding add_node add_from
add_node-type root [] new out d e = rw (overwrite-root root new out d e) d
add_node-type (mem_node type id children) (comp ∷ comps) new out d e =
    let (sub, _, whole) =
      >>=-eq-ok
        (if is_last comps && is_none (find comp children)
          then ok new
          else add_from false (or_empty_dir (find comp children)) comps new)
        _ (rw d at e) in
    let out_is : mem_node type id (assign comp sub children) ≡ out = cc whole in rw (← out_is) d

pub add_node-IsRoot :
    (root : MemNode) (comps : List Bytes) (type : ℕ) (id : Bytes) (out : MemNode)
    → IsRoot root
    → add_node root comps (mem_node type id map_nil) ≡ ok out
    → IsRoot out
add_node-IsRoot root comps type id out (m, d) e = (
  add_node-IsMapNode root comps type id out m e,
  add_node-type root comps (mem_node type id map_nil) out d e,
)

-- ===== src/MemTree/Flush/Correct.antt =====
-- What `flush_tree` gives and stores.
use nix_tarmac.Base.{
  ◌≡◌, refl, sym, ap, ◌∙◌, subst, Bool, true, false, some, List, [], ◌∷◌, ◌++◌, ◌==◌, inl, inr,
  Bool-cases,
}
use nix_tarmac.Base.Bytes.{Bytes, bytes_eq_refl}
use nix_tarmac.Base.Result.{Error}
use nix_tarmac.Base.Exec.{Exec, Ends, Ends-continue}
use nix_tarmac.TreeObject.{TreeEntry}
use nix_tarmac.MemTree.{MemNode, Children, mem_node, map_nil, slot, type_of, id_of}
use nix_tarmac.MemTree.Flush.{
  NodePath, children_of, node_at, set_node, tree_entries, flush_dir, flush_back, flush_tree,
}
use nix_tarmac.MemTree.Flush.Prefix.{is_prefix, path_eq, path_eq_iff, has_path}
use nix_tarmac.MemTree.Flush.Slots.{IsMapNode, some-eq}
use nix_tarmac.MemTree.Flush.Order.{Leads, Leads-DirAt, Covers, Ready, AllReady, list_dirs-AllReady}
use nix_tarmac.MemTree.Flush.Pruned.{
  node_id, node_entries, pruned, pruned_below, pruned-none, pruned-clear, type_of-pruned, Clear,
  Clear-end, node_at-pruned, tree_entries-pruned_below, pruned-root, set_node-pruned,
}

-- Putting tree objects: the id of a tree is made of its entries, and what was put stays.
pub record TreeObjects (S : Type 0) : Type 1 where
  pub put_tree : List TreeEntry → Exec S Bytes
  pub tree_id : List TreeEntry → Bytes
  pub Stored : S → Bytes → List TreeEntry → Type 0
  -- What it may throw.
  pub Fails : Error → Type 0
  pub put_tree-Ends :
      (es : List TreeEntry) (s : S)
      → Ends
          (λ id t.
            (id ≡ tree_id es)
            × Stored t id es
            × ((j : Bytes) (fs : List TreeEntry) → Stored s j fs → Stored t j fs))
          (λ e t. Fails e)
          (put_tree es s)

Clear-of :
    (P : NodePath → Bool) (path : NodePath)
    → ((q : NodePath) → is_prefix q path ≡ true → P q ≡ false)
    → Clear P path
unfolding is_prefix
Clear-of P [] h = h [] refl
Clear-of P (name ∷ path) h = (
  h [] refl,
  Clear-of (λ q. P (name ∷ q)) path (λ q above. h (name ∷ q) (rw (bytes_eq_refl name) above)),
)

module _ {S : Type 0} (objects : TreeObjects S) where
  abbrev store_tree : List TreeEntry → Exec S Bytes
  store_tree = objects.put_tree

  abbrev id_for : MemNode → Bytes
  id_for = node_id objects.tree_id

  abbrev entries_for : Children → List TreeEntry
  entries_for = node_entries objects.tree_id

  -- What was stored still is.
  abbrev pub Grows : S → S → Type 0
  Grows s t = (j : Bytes) (fs : List TreeEntry) → objects.Stored s j fs → objects.Stored t j fs

  -- Every directory below is stored under its id.
  abbrev pub AllStored : S → Children → Type 0
  AllStored s map_nil = Unit {0}
  AllStored s (slot name (mem_node type id children) rest) =
      ((type == b'd') ≡ true
        → objects.Stored s (objects.tree_id (node_entries objects.tree_id children))
            (node_entries objects.tree_id children)
          × AllStored s children)
      × AllStored s rest

  abbrev pub NodeStored : S → MemNode → Type 0
  NodeStored s (mem_node type id children) =
      (type == b'd') ≡ true
      → objects.Stored s (objects.tree_id (node_entries objects.tree_id children))
          (node_entries objects.tree_id children)
        × AllStored s children

  AllStored-mono :
      (s t : S) (children : Children) → Grows s t → AllStored s children → AllStored t children
  AllStored-mono s t map_nil g h = tt
  AllStored-mono s t (slot name (mem_node type id children) rest) g (here, h) = (
    λ dir. let (stored, below) = here dir in (g _ _ stored, AllStored-mono s t children g below),
    AllStored-mono s t rest g h,
  )

  pub NodeStored-mono :
      (s t : S) (node : MemNode) → Grows s t → NodeStored s node → NodeStored t node
  NodeStored-mono s t (mem_node type id children) g here =
      λ dir. let (stored, below) = here dir in (g _ _ stored, AllStored-mono s t children g below)

  children_of-pruned :
      (P : NodePath → Bool) (node : MemNode)
      → P [] ≡ false
      → children_of (pruned objects.tree_id P node)
        ≡ pruned_below objects.tree_id P (children_of node)
  children_of-pruned P (mem_node type id children) h =
      ap children_of (pruned-clear objects.tree_id P type id children h)

  pub node_id-dir :
      (node : MemNode)
      → (type_of node == b'd') ≡ true
      → id_for node ≡ objects.tree_id (entries_for (children_of node))
  unfolding node_id
  node_id-dir (mem_node type id children) dir = rw dir refl

  module _ (root : MemNode) (m : IsMapNode root) where
    -- The directories of the paths are stored, with all below them.
    abbrev Done : S → List NodePath → Type 0
    Done t paths =
        (q : NodePath) (node : MemNode)
        → has_path paths q ≡ true
        → node_at root q ≡ some node
        → NodeStored t node

    AllStored-children :
        (t : S) (path : NodePath) (later : List NodePath) (children : Children)
        → Done t later
        → Leads root path children
        → Covers root path later children
        → AllStored t children
    AllStored-children t path later map_nil done leads covers = tt
    AllStored-children t path later (slot name (mem_node type id children) rest) done (e, leads)
          (covered, covers) =
        (
          λ dir. done (path ++ (name ∷ [])) (mem_node type id children) (covered dir) e dir,
          AllStored-children t path later rest done leads covers,
        )

    NodeStored-dir :
        (t : S) (node : MemNode)
        → objects.Stored t
            (objects.tree_id (entries_for (children_of node)))
            (entries_for (children_of node))
        → AllStored t (children_of node)
        → NodeStored t node
    NodeStored-dir t (mem_node type id children) stored below = λ dir. (stored, below)

    Done-add :
        (s t : S) (path : NodePath) (later : List NodePath) (r : Ready root path later)
        → Done s later
        → Grows s t
        → objects.Stored t
            (objects.tree_id (entries_for (children_of r.dir.at)))
            (entries_for (children_of r.dir.at))
        → Done t (path ∷ later)
    unfolding has_path
    Done-add s t path later r done grows stored q node there e =
        elim (Bool-cases (path_eq path q)) [
          | inr other ↦ NodeStored-mono s t node grows (done q node (rw other at there) e)
          | inl same ↦
              let path_q = path_eq_iff path q same in
              let is_node : r.dir.at ≡ node =
                some-eq r.dir.at node (sym r.dir.found ∙ ap (node_at root) path_q ∙ e) in
              let below =
                AllStored-children s path later (children_of r.dir.at) done
                  (Leads-DirAt root path r.dir m) r.covers in
              subst (NodeStored t) is_node (
                NodeStored-dir t r.dir.at stored
                  (AllStored-mono s t (children_of r.dir.at) grows below))
        ]

    abbrev Pruned : List NodePath → MemNode
    Pruned paths = pruned objects.tree_id (has_path paths) root

    -- After a part of the second loop: its directories are done, and the tree says so.
    abbrev Flushed : List NodePath → MemNode → S → Type 0
    Flushed paths r t = (r ≡ Pruned paths) × Done t paths

    abbrev Fails : Error → S → Type 0
    Fails e t = objects.Fails e

    flush_dir-Ends :
        (path : NodePath) (later : List NodePath) (s : S) (r : Ready root path later)
        → Done s later
        → Ends (Flushed (path ∷ later)) Fails (flush_dir store_tree path (Pruned later) s)
    unfolding flush_dir has_path
    flush_dir-Ends path later s r done =
        let sub = r.dir.at in
        let P' = λ (q : NodePath). has_path later (path ++ q) in
        let clear = Clear-of (has_path later) path r.clear in
        let here =
          node_at-pruned objects.tree_id (has_path later) root path sub clear r.dir.found in
        let kids = children_of-pruned P' sub (Clear-end (has_path later) path clear) in
        let entries : tree_entries (children_of (pruned objects.tree_id P' sub))
            ≡ entries_for (children_of sub) =
          ap tree_entries kids
          ∙ tree_entries-pruned_below objects.tree_id P' (children_of sub) r.covers in
        let same_type = type_of-pruned objects.tree_id P' sub in
        rw (here, flush_dir, entries, same_type)
          (Ends-continue
            (λ id t.
              (id ≡ objects.tree_id (entries_for (children_of sub)))
              × objects.Stored t id (entries_for (children_of sub))
              × Grows s t)
            (Flushed (path ∷ later)) Fails (store_tree (entries_for (children_of sub)) s) _
            (objects.put_tree-Ends (entries_for (children_of sub)) s)
            λ id t (is_id, stored, grows).
              let is_node_id : id ≡ id_for sub = is_id ∙ sym (node_id-dir sub r.dir.is_dir) in
              (
                ap (λ x. set_node (Pruned later) path (mem_node (type_of sub) x map_nil)) is_node_id
                    ∙ set_node-pruned objects.tree_id (has_path later) root path sub m clear
                        r.dir.found r.dir.is_dir,
                Done-add s t path later r done grows
                    (subst (λ x. objects.Stored t x (entries_for (children_of sub))) is_id stored),
              ))

    flush_back-Ends :
        (paths : List NodePath) (s : S)
        → AllReady root paths
        → Ends (Flushed paths) Fails (flush_back store_tree paths root s)
    unfolding flush_back has_path
    flush_back-Ends [] s ready =
        (sym (pruned-none objects.tree_id root), λ q node there e. absurd (cc there))
    flush_back-Ends (path ∷ later) s (r, ready) =
        Ends-continue (Flushed later) (Flushed (path ∷ later)) Fails
          (flush_back store_tree later root s) _ (flush_back-Ends later s ready)
          λ r' t (is_pruned, done). rw is_pruned (flush_dir-Ends path later t r done)

    -- The id of plain recursion over the tree, with every directory put; a throw is one of `put_tree`.
    pub flush_tree-Ends :
        (s : S)
        → (type_of root == b'd') ≡ true
        → Ends
            (λ id t. (id ≡ node_id objects.tree_id root) × NodeStored t root)
            (λ e t. objects.Fails e)
            (flush_tree objects.put_tree root s)
    unfolding flush_tree has_path node_at path_eq
    flush_tree-Ends s dir =
        let (rest, listed, ready) = list_dirs-AllReady root dir m in
        rw listed (
          Ends-continue (Flushed ([] ∷ rest)) (λ id t. (id ≡ id_for root) × NodeStored t root) Fails
            (flush_back store_tree ([] ∷ rest) root s) _ (flush_back-Ends ([] ∷ rest) s ready)
            λ r t (is_pruned, done). (
              ap id_of is_pruned ∙ ap id_of (pruned-root objects.tree_id (has_path rest) root dir),
              done [] root refl refl,
            ))

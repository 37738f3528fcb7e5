-- ===== src/MemTree/Flush/Pruned.antt =====
-- The tree in the middle of the second loop: some directories have their id and no children left.
use nix_tarmac.Base.{
  ℕ, ◌≡◌, refl, sym, ap, ◌∙◌, subst, Bool, true, false, ◌&&◌, some, List, [], ◌∷◌, ◌++◌, ◌==◌,
  if◌then◌else◌, arith, inl, inr, Bool-cases,
}
use mathlib.Core.Path.{fun_ext}
use nix_tarmac.Base.Bytes.{
  Bytes, bytes_eq, bytes_eq_iff, bytes_eq_refl, bytes_lt, bytes_lt_irrefl, bytes_lt_trans,
}
use nix_tarmac.TreeObject.{TreeEntry}
use nix_tarmac.MemTree.{MemNode, Children, mem_node, map_nil, slot, type_of, find}
use nix_tarmac.MemTree.Flush.{NodePath, node_at, set_node, set_child, tree_entries}
use nix_tarmac.MemTree.Flush.Prefix.{path_eq}
use nix_tarmac.MemTree.Flush.Slots.{
  SlotsRise, IsMap, IsMapNode, EachSlot, find-IsMap, some-eq, node_at-step, node_at-found,
}

-- Neither it nor a directory above it is done.
abbrev pub Clear : (NodePath → Bool) → NodePath → Type 0
Clear P [] = P [] ≡ false
Clear P (name ∷ path) = (P [] ≡ false) × Clear (λ q. P (name ∷ q)) path

pub Clear-end : (P : NodePath → Bool) (path : NodePath) → Clear P path → P (path ++ []) ≡ false
Clear-end P [] h = h
Clear-end P (name ∷ path) h = Clear-end (λ q. P (name ∷ q)) path h.1

abbrev pub add : NodePath → (NodePath → Bool) → NodePath → Bool
add path P q = if path_eq path q then true else P q

module _ (tree_id : List TreeEntry → Bytes) where
  -- The id of a node, by plain recursion: a directory's is that of the tree object of its children.
  unfoldable mutual
    pub node_id : MemNode → Bytes
    node_id (mem_node type id children) =
        if type == b'd' then tree_id (node_entries children) else id

    pub node_entries : Children → List TreeEntry
    node_entries map_nil = []
    node_entries (slot name sub rest) =
        record { name = name; type = type_of sub; id = node_id sub } ∷ node_entries rest

  -- The directories at the paths of `P` are done.
  unfoldable mutual
    pub pruned : (NodePath → Bool) → MemNode → MemNode
    pruned P (mem_node type id children) =
        if P [] && (type == b'd')
        then mem_node type (node_id (mem_node type id children)) map_nil
        else mem_node type id (pruned_below P children)

    pub pruned_below : (NodePath → Bool) → Children → Children
    pruned_below P map_nil = map_nil
    pruned_below P (slot name sub rest) =
        slot name (pruned (λ q. P (name ∷ q)) sub) (pruned_below P rest)

  mutual
    unfolding pruned pruned_below

    pub pruned-none : (node : MemNode) → pruned (λ q. false) node ≡ node
    pruned-none (mem_node type id children) = ap (mem_node type id) (pruned_below-none children)

    pruned_below-none : (children : Children) → pruned_below (λ q. false) children ≡ children
    pruned_below-none map_nil = refl
    pruned_below-none (slot name sub rest) =
        ap (λ (s : MemNode). slot name s (pruned_below (λ q. false) rest)) (pruned-none sub)
        ∙ ap (slot name sub) (pruned_below-none rest)

  pub type_of-pruned :
      (P : NodePath → Bool) (node : MemNode) → type_of (pruned P node) ≡ type_of node
  unfolding pruned
  type_of-pruned P (mem_node type id children) = elim (Bool-cases (P [] && (type == b'd'))) [
    | inl done ↦ rw done refl
    | inr not_done ↦ rw not_done refl
  ]

  pub pruned-clear :
      (P : NodePath → Bool) (type : ℕ) (id : Bytes) (children : Children)
      → P [] ≡ false
      → pruned P (mem_node type id children) ≡ mem_node type id (pruned_below P children)
  unfolding pruned
  pruned-clear P type id children h = rw h refl

  find-pruned_below :
      (P : NodePath → Bool) (name : Bytes) (children : Children) (sub : MemNode)
      → find name children ≡ some sub
      → find name (pruned_below P children) ≡ some (pruned (λ q. P (name ∷ q)) sub)
  unfolding find pruned_below
  find-pruned_below P name map_nil sub e = absurd (cc e)
  find-pruned_below P name (slot n s rest) sub e = elim (Bool-cases (bytes_eq n name)) [
    | inr other ↦ rw other (find-pruned_below P name rest sub (rw other at e))
    | inl same ↦
        let s_sub : s ≡ sub = cc (rw same at e) in
        rw same (
          ap (λ x. some (pruned (λ q. P (x ∷ q)) s)) ((bytes_eq_iff n name).0 same)
          ∙ ap (λ (x : MemNode). some (pruned (λ q. P (name ∷ q)) x)) s_sub)
  ]

  pub node_at-pruned :
      (P : NodePath → Bool) (node : MemNode) (path : NodePath) (sub : MemNode)
      → Clear P path
      → node_at node path ≡ some sub
      → node_at (pruned P node) path ≡ some (pruned (λ q. P (path ++ q)) sub)
  unfolding node_at
  node_at-pruned P node [] sub h e = ap (λ (x : MemNode). some (pruned P x)) (some-eq node sub e)
  node_at-pruned P (mem_node type id children) (name ∷ path) sub h e =
      let (s, f, below) = node_at-step (mem_node type id children) sub name path e in
      rw (pruned-clear P type id children h.0) (
        node_at-found (mem_node type id (pruned_below P children)) (pruned (λ q. P (name ∷ q)) s)
          name path (find-pruned_below P name children s f)
        ∙ node_at-pruned (λ q. P (name ∷ q)) s path sub h.1 below)

  -- The entries of a directory all of whose directories are done.
  pub tree_entries-pruned_below :
      (P : NodePath → Bool) (children : Children)
      → EachSlot (λ name sub. (type_of sub == b'd') ≡ true → P (name ∷ []) ≡ true) children
      → tree_entries (pruned_below P children) ≡ node_entries children
  unfolding tree_entries pruned_below node_entries pruned node_id
  tree_entries-pruned_below P map_nil h = refl
  tree_entries-pruned_below P (slot name (mem_node type id children) rest) (done, h) =
      elim (Bool-cases (type == b'd')) [
        | inl dir ↦ rw (dir, done dir, tree_entries-pruned_below P rest h) refl
        | inr leaf ↦
            let ih = tree_entries-pruned_below P rest h in
            elim (Bool-cases (P (name ∷ []))) [
              | inl is_in ↦ rw (is_in, leaf, ih) refl
              | inr is_out ↦ rw (is_out, leaf, ih) refl
            ]
      ]

  -- The paths of `P` below a name other than that of a path are not changed by adding the path.
  add-other :
      (P : NodePath → Bool) (n m : Bytes) (path : NodePath)
      → bytes_eq n m ≡ false
      → ◌≡◌ {A = NodePath → Bool} (λ q. add (n ∷ path) P (m ∷ q)) (λ q. P (m ∷ q))
  unfolding path_eq
  add-other P n m path other = fun_ext λ q. rw other refl

  add-same :
      (P : NodePath → Bool) (n : Bytes) (path : NodePath)
      → ◌≡◌ {A = NodePath → Bool} (λ q. add (n ∷ path) P (n ∷ q)) (add path (λ q. P (n ∷ q)))
  unfolding path_eq
  add-same P n path = fun_ext λ q. rw (bytes_eq_refl n) refl

  pruned_below-other :
      (P : NodePath → Bool) (n low : Bytes) (path : NodePath) (children : Children)
      → bytes_lt low n ≡ false
      → SlotsRise low children
      → pruned_below (add (n ∷ path) P) children ≡ pruned_below P children
  unfolding pruned_below
  pruned_below-other P n low path map_nil h r = refl
  pruned_below-other P n low path (slot k sub rest) h (below, r) =
      let other : bytes_eq n k ≡ false = elim (Bool-cases (bytes_eq n k)) [
        | inr e ↦ e
        | inl e ↦
            absurd
              (cc (sym h ∙ subst (λ x. bytes_lt low x ≡ true) (sym ((bytes_eq_iff n k).0 e)) below))
      ] in
      let not_above : bytes_lt k n ≡ false = elim (Bool-cases (bytes_lt k n)) [
        | inr e ↦ e
        | inl e ↦ absurd (cc (sym h ∙ bytes_lt_trans low k n below e))
      ] in
      ap (λ (f : NodePath → Bool). slot k (pruned f sub) (pruned_below (add (n ∷ path) P) rest))
        (add-other P n k path other)
      ∙ ap (slot k (pruned (λ q. P (k ∷ q)) sub)) (pruned_below-other P n k path rest not_above r)

  abbrev Sets : (NodePath → Bool) → NodePath → MemNode → MemNode → Type 0
  Sets P path new node = set_node (pruned P node) path new ≡ pruned (add path P) node

  set_child-pruned :
      (P : NodePath → Bool) (n : Bytes) (path : NodePath) (new sub : MemNode) (children : Children)
      → IsMap children
      → find n children ≡ some sub
      → Sets (λ q. P (n ∷ q)) path new sub
      → set_child (pruned_below P children) n path new ≡ pruned_below (add (n ∷ path) P) children
  unfolding find set_child pruned_below
  set_child-pruned P n path new sub map_nil m e ih = absurd (cc e)
  set_child-pruned P n path new sub (slot k (mem_node type id below) rest) (r, _, m) e ih =
      let s = mem_node type id below in
      elim (Bool-cases (bytes_eq k n)) [
        | inr other ↦
            let other' : bytes_eq n k ≡ false =
              ground (arith, other, bytes_eq_iff n k, bytes_eq_iff k n) in
            rw other (
              ap
                (λ (f : NodePath → Bool).
                  slot k (pruned f s) (set_child (pruned_below P rest) n path new))
                (sym (add-other P n k path other'))
              ∙ ap (slot k (pruned (λ q. add (n ∷ path) P (k ∷ q)) s))
                  (set_child-pruned P n path new sub rest m (rw other at e) ih))
        | inl same ↦
            let k_n = (bytes_eq_iff k n).0 same in
            let s_sub : s ≡ sub = some-eq s sub (rw same at e) in
            let here : set_node (pruned (λ q. P (n ∷ q)) s) path new
                ≡ pruned (λ q. add (n ∷ path) P (n ∷ q)) s =
              subst (Sets (λ q. P (n ∷ q)) path new) (sym s_sub) ih
              ∙ ap (λ (f : NodePath → Bool). pruned f s) (sym (add-same P n path)) in
            let there =
              subst
                (λ x.
                  set_node (pruned (λ q. P (x ∷ q)) s) path new
                  ≡ pruned (λ q. add (n ∷ path) P (x ∷ q)) s)
                (sym k_n) here in
            let not_above : bytes_lt k n ≡ false =
              subst (λ x. bytes_lt k x ≡ false) k_n (bytes_lt_irrefl k) in
            rw same (
              ap (λ (x : MemNode). slot k x (pruned_below P rest)) there
              ∙ ap (slot k (pruned (λ q. add (n ∷ path) P (k ∷ q)) s))
                  (sym (pruned_below-other P n k path rest not_above r)))
      ]

  pub pruned-root :
      (P : NodePath → Bool) (node : MemNode)
      → (type_of node == b'd') ≡ true
      → pruned (add [] P) node ≡ mem_node (type_of node) (node_id node) map_nil
  unfolding pruned path_eq
  pruned-root P (mem_node type id children) dir = rw dir refl

  Clear-add :
      (P : NodePath → Bool) (name : Bytes) (path : NodePath)
      → P [] ≡ false
      → add (name ∷ path) P [] ≡ false
  unfolding path_eq
  Clear-add P name path h = h

  -- What the second loop writes for a directory is the tree with one more directory done.
  pub set_node-pruned :
      (P : NodePath → Bool) (node : MemNode) (path : NodePath) (sub : MemNode)
      → IsMapNode node
      → Clear P path
      → node_at node path ≡ some sub
      → (type_of sub == b'd') ≡ true
      → set_node (pruned P node) path (mem_node (type_of sub) (node_id sub) map_nil)
        ≡ pruned (add path P) node
  unfolding set_node node_at
  set_node-pruned P node [] sub m h e dir =
      ap (λ (x : MemNode). mem_node (type_of x) (node_id x) map_nil) (sym (some-eq node sub e))
      ∙ sym (
          pruned-root P node
            (subst (λ x. (type_of x == b'd') ≡ true) (sym (some-eq node sub e)) dir))
  set_node-pruned P (mem_node type id children) (name ∷ path) sub m h e dir =
      let (s, f, below) = node_at-step (mem_node type id children) sub name path e in
      let new = mem_node (type_of sub) (node_id sub) map_nil in
      let ih =
        set_node-pruned (λ q. P (name ∷ q)) s path sub (find-IsMap name children s m f) h.1 below
          dir in
      rw
        (
          pruned-clear P type id children h.0,
          pruned-clear (add (name ∷ path) P) type id children (Clear-add P name path h.0),
        )
        (ap (mem_node type id) (set_child-pruned P name path new s children m f ih))

-- ===== src/MemTree/Flush/Slots.antt =====
-- The children of a node as a std::map: their names rise.
use nix_tarmac.Base.{
  ◌≡◌, refl, sym, ◌∙◌, subst, true, false, none, some, [], ◌∷◌, ◌++◌, inl, inr, Bool-cases,
  Option-cases,
}
use nix_tarmac.Base.Bytes.{
  Bytes, bytes_eq, bytes_eq_iff, bytes_eq_refl, bytes_lt, bytes_lt_irrefl, bytes_lt_trans,
}
use nix_tarmac.MemTree.{MemNode, Children, mem_node, map_nil, slot, find}
use nix_tarmac.MemTree.Flush.{NodePath, children_of, node_at}

-- The names rise, on from a name below them.
abbrev pub SlotsRise : Bytes → Children → Type 0
SlotsRise low map_nil = Unit {0}
SlotsRise low (slot name sub rest) = (bytes_lt low name ≡ true) × SlotsRise name rest

-- So do they in every directory below.
abbrev pub IsMap : Children → Type 0
IsMap map_nil = Unit {0}
IsMap (slot name (mem_node type id children) rest) =
    SlotsRise name rest × IsMap children × IsMap rest

abbrev pub EachSlot : (Bytes → MemNode → Type 0) → Children → Type 0
EachSlot Q map_nil = Unit {0}
EachSlot Q (slot name sub rest) = Q name sub × EachSlot Q rest

pub find-above :
    (low j : Bytes) (children : Children)
    → SlotsRise low children
    → bytes_lt low j ≡ false
    → find j children ≡ none
unfolding find
find-above low j map_nil r h = refl
find-above low j (slot name sub rest) (below, r) h =
    let above : bytes_lt name j ≡ false = elim (Bool-cases (bytes_lt name j)) [
      | inr e ↦ e
      | inl e ↦ absurd (cc (sym h ∙ bytes_lt_trans low name j below e))
    ] in
    let other : bytes_eq name j ≡ false = elim (Bool-cases (bytes_eq name j)) [
      | inr e ↦ e
      | inl e ↦
          absurd (cc (sym h ∙ subst (λ x. bytes_lt low x ≡ true) ((bytes_eq_iff name j).0 e) below))
    ] in
    rw other (find-above name j rest r above)

pub find-head :
    (name : Bytes) (sub : MemNode) (rest : Children) → find name (slot name sub rest) ≡ some sub
unfolding find
find-head name sub rest = rw (bytes_eq_refl name) refl

-- What is found after a slot is not found in it.
pub find-rest :
    (name j : Bytes) (sub found : MemNode) (rest : Children)
    → SlotsRise name rest
    → find j rest ≡ some found
    → (bytes_eq name j ≡ false) × (find j (slot name sub rest) ≡ some found)
unfolding find
find-rest name j sub found rest r e = elim (Bool-cases (bytes_eq name j)) [
  | inr other ↦ (other, rw other e)
  | inl same ↦ absurd (
      cc (
        sym (
          find-above name j rest r (
            subst (λ x. bytes_lt name x ≡ false) ((bytes_eq_iff name j).0 same)
              (bytes_lt_irrefl name)))
        ∙ e))
]

module _ (Q : Bytes → MemNode → Type 0) where
  pub each_slot :
      (children : Children)
      → IsMap children
      → ((name : Bytes) (sub : MemNode) → find name children ≡ some sub → Q name sub)
      → EachSlot Q children
  each_slot map_nil m h = tt
  each_slot (slot name (mem_node type id children) rest) (r, _, m) h = (
    h name (mem_node type id children) (find-head name (mem_node type id children) rest),
    each_slot rest m
        (λ j sub e. h j sub (find-rest name j (mem_node type id children) sub rest r e).1),
  )

abbrev pub IsMapNode : MemNode → Type 0
IsMapNode (mem_node type id children) = IsMap children

pub some-eq : {A : Type 0} (x y : A) → some x ≡ some y → x ≡ y
some-eq x y e = cc e

pub find-IsMap :
    (j : Bytes) (children : Children) (sub : MemNode)
    → IsMap children
    → find j children ≡ some sub
    → IsMapNode sub
unfolding find
find-IsMap j map_nil sub m e = absurd (cc e)
find-IsMap j (slot name (mem_node type id children) rest) sub (r, below, m) e =
    elim (Bool-cases (bytes_eq name j)) [
      | inl same ↦ subst IsMapNode (some-eq (mem_node type id children) sub (rw same at e)) below
      | inr other ↦ find-IsMap j rest sub m (rw other at e)
    ]

pub node_at-found :
    (node s : MemNode) (name : Bytes) (path : NodePath)
    → find name (children_of node) ≡ some s
    → node_at node (name ∷ path) ≡ node_at s path
unfolding node_at
node_at-found node s name path f = rw (node_at, f) refl

-- Down a path that leads somewhere, the first step does.
pub node_at-step :
    (node sub : MemNode) (name : Bytes) (path : NodePath)
    → node_at node (name ∷ path) ≡ some sub
    → (s : MemNode) × (find name (children_of node) ≡ some s) × (node_at s path ≡ some sub)
unfolding node_at
node_at-step node sub name path e = elim (Option-cases (find name (children_of node))) [
  | inl f ↦ absurd (cc (rw (f, node_at) at e))
  | inr (s, f) ↦ (s, f, rw (f, node_at) at e)
]

pub node_at-IsMap :
    (node : MemNode) (path : NodePath) (sub : MemNode)
    → IsMapNode node
    → node_at node path ≡ some sub
    → IsMapNode sub
unfolding node_at
node_at-IsMap node [] sub m e = subst IsMapNode (some-eq node sub e) m
node_at-IsMap (mem_node type id children) (name ∷ path) sub m e =
    let (s, f, below) = node_at-step (mem_node type id children) sub name path e in
    node_at-IsMap s path sub (find-IsMap name children s m f) below

node_at-one :
    (node : MemNode) (name : Bytes) → node_at node (name ∷ []) ≡ find name (children_of node)
unfolding node_at
node_at-one node name = elim (Option-cases (find name (children_of node))) [
  | inl f ↦ rw (f, node_at) refl
  | inr (s, f) ↦ rw (f, node_at) refl
]

-- One step further down.
pub node_at-child :
    (node : MemNode) (path : NodePath) (sub : MemNode) (name : Bytes)
    → node_at node path ≡ some sub
    → node_at node (path ++ (name ∷ [])) ≡ find name (children_of sub)
unfolding node_at
node_at-child node [] sub name e = rw (some-eq node sub e) (node_at-one sub name)
node_at-child node (n ∷ path) sub name e =
    let (s, f, below) = node_at-step node sub n path e in
    node_at-found node s n (path ++ (name ∷ [])) f ∙ node_at-child s path sub name below

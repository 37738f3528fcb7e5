-- ===== src/MemTree/Flush/Order.antt =====
-- The list of directories that the first loop of `flush_tree` makes: every directory stands before
-- those below it.
use nix_tarmac.Base.{
  ℕ, zero, suc, ◌+◌, ◌≤◌, ◌≡◌, refl, sym, ◌∙◌, subst, true, false, none, some, List, [], ◌∷◌, ◌++◌,
  ◌==◌, arith, inl, inr, Bool-cases, All, All-append,
}
use nix_tarmac.Base.Bytes.{Bytes, bytes_eq, bytes_eq_iff, bytes_lt, bytes_lt_irrefl, bytes_lt_trans}
use nix_tarmac.MemTree.{MemNode, Children, mem_node, map_nil, slot, type_of}
use nix_tarmac.MemTree.Flush.{
  NodePath, children_of, node_at, subdirs, children_at, list_dirs, count_dirs, count_below,
}
use nix_tarmac.MemTree.Flush.Prefix.{
  is_prefix, path_eq, has_path, is_prefix_refl, is_prefix_trans, path_eq_iff, path_eq_refl,
  is_prefix-child, child-not-prefix, children-apart, Apart, ApartFrom, Separated, ApartFrom-has,
  Separated-append, has_path-append, Apart-child,
}
use nix_tarmac.MemTree.Flush.Slots.{
  SlotsRise, IsMap, IsMapNode, EachSlot, each_slot, node_at-IsMap, node_at-child,
}
use nix_tarmac.MemTree.Flush.Listing.{dirs_from, list_dirs-eq, count_dirs-dir, count_dirs-leaf}

IsMap-of : (node : MemNode) → IsMapNode node → IsMap (children_of node)
IsMap-of (mem_node type id children) h = h

module _ (root : MemNode) where
  pub record DirAt (path : NodePath) : Type 0 where
    pub at : MemNode
    pub found : node_at root path ≡ some at
    pub is_dir : (type_of at == b'd') ≡ true

  DirAt-children : (path : NodePath) (d : DirAt path) → children_at root path ≡ children_of d.at
  DirAt-children path d = rw (d.found, children_at) refl

  module _ (path : NodePath) where
    -- The slots of the directory are where the path says.
    abbrev pub Leads : Children → Type 0
    Leads children = EachSlot (λ name sub. node_at root (path ++ (name ∷ [])) ≡ some sub) children

    pub Leads-DirAt : (d : DirAt path) → IsMapNode root → Leads (children_of d.at)
    Leads-DirAt d m =
        each_slot (λ name sub. node_at root (path ++ (name ∷ [])) ≡ some sub) (children_of d.at)
          (IsMap-of d.at (node_at-IsMap root path d.at m d.found))
          (λ name sub e. node_at-child root path d.at name d.found ∙ e)

    subdirs-DirAt : (children : Children) → Leads children → All DirAt (subdirs path children)
    unfolding subdirs
    subdirs-DirAt map_nil h = tt
    subdirs-DirAt (slot name sub rest) (e, h) = elim (Bool-cases (type_of sub == b'd')) [
      | inl dir ↦ rw dir (record { at = sub; found = e; is_dir = dir }, subdirs-DirAt rest h)
      | inr leaf ↦ rw leaf (subdirs-DirAt rest h)
    ]

    -- Paths that do not meet a path do not meet those below it.
    ApartFrom-subdirs :
        (x : NodePath) (children : Children) → Apart x path → ApartFrom x (subdirs path children)
    unfolding subdirs
    ApartFrom-subdirs x map_nil h = tt
    ApartFrom-subdirs x (slot name sub rest) h = elim (Bool-cases (type_of sub == b'd')) [
      | inr leaf ↦ rw leaf (ApartFrom-subdirs x rest h)
      | inl dir ↦ rw dir (Apart-child x path name h, ApartFrom-subdirs x rest h)
    ]

    subdirs-above :
        (n m : Bytes) (children : Children)
        → bytes_lt n m ≡ true
        → SlotsRise m children
        → ApartFrom (path ++ (n ∷ [])) (subdirs path children)
    unfolding subdirs
    subdirs-above n m map_nil h r = tt
    subdirs-above n m (slot k sub rest) h (below, r) =
        let further = bytes_lt_trans n m k h below in
        let ih = subdirs-above n k rest further r in
        let other : bytes_eq n k ≡ false =
          ground (arith, bytes_eq_iff n k, bytes_lt_irrefl n, further) in
        let other' : bytes_eq k n ≡ false =
          ground (arith, bytes_eq_iff k n, bytes_lt_irrefl n, further) in
        elim (Bool-cases (type_of sub == b'd')) [
          | inr leaf ↦ rw leaf ih
          | inl dir ↦
              rw dir ((children-apart path n k ∙ other, children-apart path k n ∙ other'), ih)
        ]

    subdirs-first :
        (name : Bytes) (rest : Children)
        → SlotsRise name rest
        → ApartFrom (path ++ (name ∷ [])) (subdirs path rest)
    unfolding subdirs
    subdirs-first name map_nil r = tt
    subdirs-first name (slot m sub rest) (below, r) =
        let ih = subdirs-above name m rest below r in
        let other : bytes_eq name m ≡ false =
          ground (arith, bytes_eq_iff name m, bytes_lt_irrefl name, below) in
        let other' : bytes_eq m name ≡ false =
          ground (arith, bytes_eq_iff m name, bytes_lt_irrefl name, below) in
        elim (Bool-cases (type_of sub == b'd')) [
          | inr leaf ↦ rw leaf ih
          | inl dir ↦
              rw dir ((children-apart path name m ∙ other, children-apart path m name ∙ other'), ih)
        ]

    subdirs-Separated : (children : Children) → IsMap children → Separated (subdirs path children)
    unfolding subdirs
    subdirs-Separated map_nil m = tt
    subdirs-Separated (slot name (mem_node type id below) rest) (r, _, m) =
        elim (Bool-cases (type == b'd')) [
          | inr leaf ↦ rw leaf (subdirs-Separated rest m)
          | inl dir ↦ rw dir (subdirs-first name rest r, subdirs-Separated rest m)
        ]

    has-subdirs :
        (children : Children) (x : NodePath)
        → has_path (subdirs path children) x ≡ true
        → (n : Bytes) × (x ≡ path ++ (n ∷ []))
    unfolding subdirs has_path
    has-subdirs map_nil x h = absurd (cc h)
    has-subdirs (slot name sub rest) x h = elim (Bool-cases (type_of sub == b'd')) [
      | inr leaf ↦ has-subdirs rest x (rw leaf at h)
      | inl dir ↦ elim (Bool-cases (path_eq (path ++ (name ∷ [])) x)) [
        | inl same ↦ (name, sym (path_eq_iff (path ++ (name ∷ [])) x same))
        | inr other ↦ has-subdirs rest x (rw (dir, other) at h)
      ]
    ]

    -- Every directory among the children is listed.
    abbrev pub Covers : List NodePath → Children → Type 0
    Covers later children =
        EachSlot
          (λ name sub. (type_of sub == b'd') ≡ true → has_path later (path ++ (name ∷ [])) ≡ true)
          children

    has-subdirs-rest :
        (name : Bytes) (sub : MemNode) (rest : Children) (x : NodePath)
        → has_path (subdirs path rest) x ≡ true
        → has_path (subdirs path (slot name sub rest)) x ≡ true
    unfolding subdirs has_path
    has-subdirs-rest name sub rest x h = elim (Bool-cases (type_of sub == b'd')) [
      | inr leaf ↦ rw leaf h
      | inl dir ↦ rw dir (ground (arith, h))
    ]

    subdirs-Covers :
        (later : List NodePath) (children : Children)
        → ((x : NodePath) → has_path (subdirs path children) x ≡ true → has_path later x ≡ true)
        → Covers later children
    unfolding subdirs has_path
    subdirs-Covers later map_nil h = tt
    subdirs-Covers later (slot name sub rest) h = (
      λ dir. h (path ++ (name ∷ [])) (rw (dir, path_eq_refl (path ++ (name ∷ []))) refl),
      subdirs-Covers later rest (λ x there. h x (has-subdirs-rest name sub rest x there)),
    )

  -- What the loop lists is below what was waiting, and all of that is listed.
  dirs_from-below :
      (fuel : ℕ) (waiting : List NodePath) (q : NodePath)
      → has_path (dirs_from fuel root waiting) q ≡ true
      → (x : NodePath) × (has_path waiting x ≡ true) × (is_prefix x q ≡ true)
  unfolding dirs_from has_path
  dirs_from-below zero waiting q h = (q, h, is_prefix_refl q)
  dirs_from-below (suc fuel) [] q h = absurd (cc h)
  dirs_from-below (suc fuel) (path ∷ waiting) q h = elim (Bool-cases (path_eq path q)) [
    | inl same ↦ (
      path,
      rw (path_eq_refl path) refl,
      subst (λ y. is_prefix path y ≡ true) (path_eq_iff path q same) (is_prefix_refl path),
    )
    | inr other ↦
        let more = subdirs path (children_at root path) in
        let (x, there, above) = dirs_from-below fuel (waiting ++ more) q (rw other at h) in
        elim (Bool-cases (has_path waiting x)) [
          | inl w ↦ (x, ground (arith, w), above)
          | inr no_w ↦
              let in_more : has_path more x ≡ true =
                ground (arith, no_w, there, has_path-append waiting more x) in
              let (n, is_child) = has-subdirs path (children_at root path) x in_more in
              (
                path,
                rw (path_eq_refl path) refl,
                is_prefix_trans path x q
                    (subst (λ y. is_prefix path y ≡ true) (sym is_child) (is_prefix-child path n))
                    above,
              )
        ]
  ]

  dirs_from-has :
      (fuel : ℕ) (waiting : List NodePath) (q : NodePath)
      → has_path waiting q ≡ true
      → has_path (dirs_from fuel root waiting) q ≡ true
  unfolding dirs_from has_path
  dirs_from-has zero waiting q h = h
  dirs_from-has (suc fuel) [] q h = h
  dirs_from-has (suc fuel) (path ∷ waiting) q h =
      let more = subdirs path (children_at root path) in
      ground (arith, h, dirs_from-has fuel (waiting ++ more) q, has_path-append waiting more q)

  -- When the second loop comes to a directory, those below it are behind it and it and those above
  -- it are not.
  pub record Ready (path : NodePath) (later : List NodePath) : Type 0 where
    pub dir : DirAt path
    pub clear : (q : NodePath) → is_prefix q path ≡ true → has_path later q ≡ false
    pub covers : Covers path later (children_of dir.at)

  abbrev pub AllReady : List NodePath → Type 0
  AllReady [] = Unit {0}
  AllReady (path ∷ paths) = Ready path paths × AllReady paths

  unfoldable weight : NodePath → ℕ
  weight path = elim (node_at root path) [ none ↦ 0 | some node ↦ count_dirs node ]

  unfoldable total : List NodePath → ℕ
  total [] = 0
  total (path ∷ paths) = weight path + total paths

  total-append : (ps qs : List NodePath) → total (ps ++ qs) ≡ total ps + total qs
  unfolding total
  total-append [] qs = omega arith
  total-append (p ∷ ps) qs = omega (arith, total-append ps qs)

  total-subdirs :
      (path : NodePath) (children : Children)
      → Leads path children
      → total (subdirs path children) ≡ count_below children
  unfolding total subdirs count_below weight
  total-subdirs path map_nil h = refl
  total-subdirs path (slot name sub rest) (e, h) =
      let ih = total-subdirs path rest h in
      let here : weight (path ++ (name ∷ [])) ≡ count_dirs sub = rw (e, weight) refl in
      elim (Bool-cases (type_of sub == b'd')) [
        | inl dir ↦ rw dir (omega (arith, ih, here))
        | inr leaf ↦ rw leaf (omega (arith, ih, count_dirs-leaf sub leaf))
      ]

  weight-dir :
      (path : NodePath) (d : DirAt path) → weight path ≡ suc (count_below (children_of d.at))
  unfolding weight
  weight-dir path d = rw (d.found, weight) (count_dirs-dir d.at d.is_dir)

  module _ (fuel : ℕ) (path : NodePath) (waiting : List NodePath) (d : DirAt path)
      (apart : ApartFrom path waiting) where
    abbrev more : List NodePath
    more = subdirs path (children_of d.at)

    later-clear :
        (q : NodePath)
        → is_prefix q path ≡ true
        → has_path (dirs_from fuel root (waiting ++ more)) q ≡ false
    later-clear q above = elim (Bool-cases (has_path (dirs_from fuel root (waiting ++ more)) q)) [
      | inr e ↦ e
      | inl later ↦
          let (x, there, x_q) = dirs_from-below fuel (waiting ++ more) q later in
          let x_path = is_prefix_trans x q path x_q above in
          elim (Bool-cases (has_path waiting x)) [
            | inl w ↦ absurd (cc (sym (ApartFrom-has path x waiting apart w).1 ∙ x_path))
            | inr no_w ↦
                let in_more : has_path more x ≡ true =
                  ground (arith, no_w, there, has_path-append waiting more x) in
                let (n, is_child) = has-subdirs path (children_of d.at) x in_more in
                absurd (
                  cc (
                    sym (child-not-prefix path n)
                    ∙ subst (λ y. is_prefix y path ≡ true) is_child x_path))
          ]
    ]

    later-Ready : Ready path (dirs_from fuel root (waiting ++ more))
    later-Ready = record {
      dir = d;
      clear = later-clear;
      covers =
          subdirs-Covers path (dirs_from fuel root (waiting ++ more)) (children_of d.at) (λ x there.
            dirs_from-has fuel (waiting ++ more) x
              (ground (arith, there, has_path-append waiting more x)));
    }

  ApartFrom-more :
      (path : NodePath) (children : Children) (waiting : List NodePath)
      → ApartFrom path waiting
      → (x : NodePath) → has_path waiting x ≡ true
      → ApartFrom x (subdirs path children)
  ApartFrom-more path children waiting apart x there =
      let (a, b) = ApartFrom-has path x waiting apart there in
      ApartFrom-subdirs path x children (b, a)

  dirs_from-AllReady :
      (fuel : ℕ) (waiting : List NodePath)
      → IsMapNode root
      → All DirAt waiting
      → Separated waiting
      → total waiting ≤ fuel
      → AllReady (dirs_from fuel root waiting)
  unfolding dirs_from total
  dirs_from-AllReady zero [] m dirs apart enough = tt
  dirs_from-AllReady zero (path ∷ waiting) m (d, dirs) apart enough =
      absurd (omega (arith, enough, weight-dir path d))
  dirs_from-AllReady (suc fuel) [] m dirs apart enough = tt
  dirs_from-AllReady (suc fuel) (path ∷ waiting) m (d, dirs) (apart, rest) enough =
      let children = children_of d.at in
      let leads = Leads-DirAt path d m in
      let fits : total (waiting ++ subdirs path children) ≤ fuel = omega (
        arith,
        enough,
        total-append waiting (subdirs path children),
        total-subdirs path children leads,
        weight-dir path d,
      ) in
      rw (DirAt-children path d) (
        later-Ready fuel path waiting d apart,
        dirs_from-AllReady fuel (waiting ++ subdirs path children) m
            (All-append DirAt waiting (subdirs path children) dirs
              (subdirs-DirAt path children leads))
            (Separated-append waiting (subdirs path children) rest
              (subdirs-Separated path children
                (IsMap-of d.at (node_at-IsMap root path d.at m d.found)))
              (ApartFrom-more path children waiting apart))
            fits,
      )

  -- The list that `flush_tree` makes starts with the root.
  pub list_dirs-AllReady :
      (type_of root == b'd') ≡ true
      → IsMapNode root
      → (rest : List NodePath) × (list_dirs (suc (count_dirs root)) root 0 ([] ∷ []) ≡ [] ∷ rest)
        × AllReady ([] ∷ rest)
  unfolding dirs_from total weight node_at
  list_dirs-AllReady dir m =
      let at_root : DirAt [] = record { at = root; found = refl; is_dir = dir } in
      (
        dirs_from (count_dirs root) root ([] ++ subdirs [] (children_at root [])),
        list_dirs-eq (suc (count_dirs root)) root [] ([] ∷ []),
        dirs_from-AllReady (suc (count_dirs root)) ([] ∷ []) m (at_root, tt) (tt, tt) (omega arith),
      )

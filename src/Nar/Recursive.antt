-- ===== src/Nar/Recursive.antt =====
-- The work list of `nar_dump` against plain recursion over the tree.
use nix_tarmac.Base.{
  ℕ, zero, suc, ◌+◌, ◌-◌, ◌≤◌, ◌<◌, ◌≡◌, refl, sym, ap, ◌∙◌, List, [], ◌∷◌, arith, ltb, ◌==◌,
  if◌then◌else◌, Bool-cases, inl, inr,
}
use nix_tarmac.Base.Bytes.{Bytes}
use nix_tarmac.Base.Text.{codes}
use nix_tarmac.Base.Result.{ok, err, runtime_error, Result-cases}
use nix_tarmac.Base.Exec.{
  Exec, pure, throw, lift, ◌>>=◌, ◌>>◌, seq_assoc, bind_assoc, seq_pure, seq_pure,
}
use nix_tarmac.TreeObject.{TreeEntry}
use nix_tarmac.Paths.{max_tree_depth}
use nix_tarmac.Nar.{
  Objects, NarWork, text, node, push_children, nar_str, nar_leaf, nar_directory, nar_loop, nar_dump,
  root_entry,
}

module _ {S : Type 0} (objects : Objects) (sink : Bytes → Exec S (Unit {0})) where
  abbrev put_str : Bytes → Exec S (Unit {0})
  put_str = nar_str objects sink

  emit_children : (TreeEntry → Exec S (Unit {0})) → List TreeEntry → Exec S (Unit {0})
  emit_children emit [] = pure tt
  emit_children emit (child ∷ children) = do
    put_str (codes "entry")
    put_str (codes "(")
    put_str (codes "name")
    put_str child.name
    put_str (codes "node")
    emit child
    put_str (codes ")")
    emit_children emit children

  -- A node of the tree, with the levels that are left under the limit.
  pub emit_node : ℕ → TreeEntry → Exec S (Unit {0})
  emit_node zero entry = throw runtime_error
  emit_node (suc levels) entry =
      let children = emit_children (emit_node levels) in
      let dir =
        put_str (codes "directory")
        >> ((lift (objects.read_tree entry.id) >>= children) >> put_str (codes ")")) in
      put_str (codes "(")
      >> (put_str (codes "type")
          >> (if entry.type == b'd' then dir else nar_leaf objects sink entry))

  run_work : List NarWork → Exec S (Unit {0})
  run_work [] = pure tt
  run_work (text str ∷ work) = put_str str >> run_work work
  run_work (node entry depth ∷ work) = emit_node (suc max_tree_depth - depth) entry >> run_work work

  -- Rounds that the loop needs for a node, and for a work list.
  unfoldable pub children_rounds : (TreeEntry → ℕ) → List TreeEntry → ℕ
  children_rounds rounds [] = 0
  children_rounds rounds (child ∷ children) = 6 + rounds child + children_rounds rounds children

  unfoldable pub node_rounds : ℕ → TreeEntry → ℕ
  node_rounds zero entry = 1
  node_rounds (suc levels) entry = 2 + elim (objects.read_tree entry.id) [
    | ok children ↦ children_rounds (node_rounds levels) children
    | err e ↦ 0
  ]

  node_rounds_pos : (levels : ℕ) (entry : TreeEntry) → 0 < node_rounds levels entry
  unfolding node_rounds
  node_rounds_pos zero entry = omega arith
  node_rounds_pos (suc levels) entry = omega arith

  work_rounds : List NarWork → ℕ
  work_rounds [] = 0
  work_rounds (text str ∷ work) = suc (work_rounds work)
  work_rounds (node entry depth ∷ work) =
      node_rounds (suc max_tree_depth - depth) entry + work_rounds work

  work_rounds-push_children :
      (children : List TreeEntry) (depth levels : ℕ) (work : List NarWork)
      → suc max_tree_depth - (depth + 1) ≡ levels
      → work_rounds (push_children children depth work)
        ≡ children_rounds (node_rounds levels) children + work_rounds work
  unfolding work_rounds push_children children_rounds
  work_rounds-push_children [] depth levels work h = omega arith
  work_rounds-push_children (child ∷ children) depth levels work h =
      rw h (omega (arith, work_rounds-push_children children depth levels work h))

  run_work-push_children :
      (children : List TreeEntry) (depth levels : ℕ) (work : List NarWork)
      → suc max_tree_depth - (depth + 1) ≡ levels
      → run_work (push_children children depth work)
        ≡ (emit_children (emit_node levels) children >> run_work work)
  unfolding run_work push_children emit_children
  run_work-push_children [] depth levels work h = refl
  run_work-push_children (child ∷ children) depth levels work h =
      rw h (simp (seq_assoc, run_work-push_children children depth levels work h))

  -- A directory: its children go through the work list, if they can be read.
  nar_directory-run_work :
      (fuel depth levels : ℕ) (entry : TreeEntry) (work : List NarWork)
      → suc max_tree_depth - (depth + 1) ≡ levels
      → ((children : List TreeEntry)
          → objects.read_tree entry.id ≡ ok children
          → nar_loop objects sink fuel (push_children children depth (text (codes ")") ∷ work))
            ≡ run_work (push_children children depth (text (codes ")") ∷ work)))
      → (nar_directory objects sink entry depth work >>= nar_loop objects sink fuel) ≡ (
          put_str (codes "directory")
          >> (((lift (objects.read_tree entry.id) >>= emit_children (emit_node levels))
                >> put_str (codes ")"))
              >> run_work work))
  unfolding nar_directory run_work
  nar_directory-run_work fuel depth levels entry work h ih =
      elim (Result-cases (objects.read_tree entry.id)) [
        | inl (children, e) ↦
            let rest =
              ih children e
              ∙ run_work-push_children children depth levels (text (codes ")") ∷ work) h in
            simp (e, bind_assoc)
              (ap (λ (k : Exec S (Unit {0})). put_str (codes "directory") >> k) rest)
        | inr (x, e) ↦ simp (e, bind_assoc)
      ]

  inner_seq : (a b c d : Exec S (Unit {0})) → ((a >> (b >> c)) >> d) ≡ (a >> (b >> (c >> d)))
  inner_seq a b c d =
      seq_assoc a (b >> c) d ∙ ap (λ (k : Exec S (Unit {0})). a >> k) (seq_assoc b c d)

  -- The loop does what its work list says.
  nar_loop-run_work :
      (fuel : ℕ) (work : List NarWork)
      → work_rounds work ≤ fuel
      → nar_loop objects sink fuel work ≡ run_work work
  unfolding nar_loop run_work work_rounds node_rounds emit_node
  nar_loop-run_work zero [] h = refl
  nar_loop-run_work (suc fuel) [] h = refl
  nar_loop-run_work zero (text str ∷ work) h = absurd (omega arith)
  nar_loop-run_work zero (node entry depth ∷ work) h =
      absurd (omega (arith, node_rounds_pos (suc max_tree_depth - depth) entry))
  nar_loop-run_work (suc fuel) (text str ∷ work) h =
      ap (λ (k : Exec S (Unit {0})). put_str str >> k) (nar_loop-run_work fuel work (omega arith))
  nar_loop-run_work (suc fuel) (node entry depth ∷ work) h =
      elim (Bool-cases (ltb max_tree_depth depth)) [
        | inl deep ↦
            let none_left : suc max_tree_depth - depth ≡ 0 = ground arith in rw (deep, none_left)
        | inr fine ↦
            let levels = max_tree_depth - depth in
            let some_left : suc max_tree_depth - depth ≡ suc levels = ground arith in
            let left : suc max_tree_depth - (depth + 1) ≡ levels = ground arith in
            let budget = rw some_left at h in
            let children = lift (objects.read_tree entry.id) >>= emit_children (emit_node levels) in
            rw (fine, some_left)
              (elim (Bool-cases (entry.type == b'd')) [
                | inl d ↦ rw d (
                    ap
                      (λ (k : Exec S (Unit {0})).
                        put_str (codes "(") >> (put_str (codes "type") >> k))
                      (nar_directory-run_work fuel depth levels entry work left (λ cs e.
                          nar_loop-run_work fuel (push_children cs depth (text (codes ")") ∷ work))
                            (let filled = rw e at budget in
                              omega (
                                arith,
                                work_rounds-push_children cs depth levels (text (codes ")") ∷ work)
                                    left,
                              )))
                        ∙ sym (
                            seq_assoc (put_str (codes "directory"))
                              (children >> put_str (codes ")")) (run_work work)))
                    ∙ sym (
                        inner_seq (put_str (codes "(")) (put_str (codes "type"))
                          (put_str (codes "directory") >> (children >> put_str (codes ")")))
                          (run_work work)))
                | inr d ↦ rw d (
                    ap
                      (λ (k : Exec S (Unit {0})).
                        put_str (codes "(")
                        >> (put_str (codes "type") >> (nar_leaf objects sink entry >> k)))
                      (nar_loop-run_work fuel work (omega arith))
                    ∙ sym (
                        inner_seq (put_str (codes "(")) (put_str (codes "type"))
                          (nar_leaf objects sink entry) (run_work work)))
              ])
      ]

  unfoldable pub rounds : Bytes → ℕ
  rounds root = node_rounds (suc max_tree_depth) (root_entry root)

  -- With fuel for the rounds of the tree, the work list of `nar_dump` sends to any sink, in the same
  -- order and with the same exceptions, what plain recursion over the tree sends.
  pub nar_dump-emit_node :
      (root : Bytes) (fuel : ℕ)
      → rounds root ≤ fuel
      → nar_dump objects sink fuel root ≡ (
          nar_str objects sink (codes "nix-archive-1")
          >> emit_node (suc max_tree_depth) (root_entry root))
  unfolding nar_dump run_work work_rounds rounds
  nar_dump-emit_node root fuel h =
      ap (λ (k : Exec S (Unit {0})). put_str (codes "nix-archive-1") >> k)
        (nar_loop-run_work fuel (node (root_entry root) 0 ∷ []) (omega arith)
          ∙ seq_pure (emit_node (suc max_tree_depth) (root_entry root)))

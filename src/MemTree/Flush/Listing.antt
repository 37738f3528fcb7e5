-- ===== src/MemTree/Flush/Listing.antt =====
-- The first loop of `flush_tree` as a loop over what it has still to go through.
use nix_tarmac.Base.{
  ℕ, zero, suc, ◌≡◌, refl, sym, ap, ◌∙◌, true, false, none, some, List, [], ◌∷◌, ◌++◌, ◌==◌,
  append_assoc, length,
}
use nix_tarmac.MemTree.{MemNode, mem_node, type_of}
use nix_tarmac.MemTree.Flush.{
  NodePath, children_of, subdirs, get_elem?, children_at, list_dirs, count_dirs, count_below,
}

-- The same loop on what it has still to go through.
unfoldable pub dirs_from : ℕ → MemNode → List NodePath → List NodePath
dirs_from zero root waiting = waiting
dirs_from (suc fuel) root [] = []
dirs_from (suc fuel) root (path ∷ waiting) =
    path ∷ dirs_from fuel root (waiting ++ subdirs path (children_at root path))

get_elem?-end : (done : List NodePath) → get_elem? (length done) (done ++ []) ≡ none
unfolding get_elem?
get_elem?-end [] = refl
get_elem?-end (x ∷ done) = get_elem?-end done

get_elem?-next :
    (done : List NodePath) (path : NodePath) (waiting : List NodePath)
    → get_elem? (length done) (done ++ (path ∷ waiting)) ≡ some path
unfolding get_elem?
get_elem?-next [] path waiting = refl
get_elem?-next (x ∷ done) path waiting = get_elem?-next done path waiting

length-snoc :
    (done : List NodePath) (path : NodePath) → length (done ++ (path ∷ [])) ≡ suc (length done)
length-snoc [] path = refl
length-snoc (x ∷ done) path = ap suc (length-snoc done path)

pub list_dirs-eq :
    (fuel : ℕ) (root : MemNode) (done waiting : List NodePath)
    → list_dirs fuel root (length done) (done ++ waiting) ≡ done ++ dirs_from fuel root waiting
unfolding list_dirs dirs_from
list_dirs-eq zero root done waiting = refl
list_dirs-eq (suc fuel) root done [] = rw (get_elem?-end done, list_dirs) refl
list_dirs-eq (suc fuel) root done (path ∷ waiting) =
    let more = subdirs path (children_at root path) in
    let ih = list_dirs-eq fuel root (done ++ (path ∷ [])) (waiting ++ more) in
    let start : (done ++ (path ∷ waiting)) ++ more ≡ (done ++ (path ∷ [])) ++ (waiting ++ more) =
      append_assoc done (path ∷ waiting) more
      ∙ sym (append_assoc done (path ∷ []) (waiting ++ more)) in
    rw (get_elem?-next done path waiting, list_dirs)
      (ap (list_dirs fuel root (suc (length done))) start
        ∙ (rw (length-snoc done path) at ih)
        ∙ append_assoc done (path ∷ []) (dirs_from fuel root (waiting ++ more)))

pub count_dirs-dir :
    (node : MemNode)
    → (type_of node == b'd') ≡ true
    → count_dirs node ≡ suc (count_below (children_of node))
unfolding count_dirs
count_dirs-dir (mem_node type id children) dir = rw dir refl

pub count_dirs-leaf : (node : MemNode) → (type_of node == b'd') ≡ false → count_dirs node ≡ 0
unfolding count_dirs
count_dirs-leaf (mem_node type id children) leaf = rw leaf refl

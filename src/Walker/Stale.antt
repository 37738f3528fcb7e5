-- ===== src/Walker/Stale.antt =====
-- What a tree that could not be read leaves in the cache of a `TreeWalker`.
use nix_tarmac.Base.{◌≡◌, refl, none, List, [], ◌∷◌}
use nix_tarmac.Base.Bytes.{Bytes, bytes_eq_refl}
use nix_tarmac.Base.Result.{Error}
use nix_tarmac.Base.Exec.{Exec, returns, throws}
use nix_tarmac.TreeObject.{TreeEntry}
use nix_tarmac.Walker.{Walker, find_tree, find_entry, lower_bound, tree, walk}

module _ {S : Type 0} (read_tree : Bytes → Exec S (List TreeEntry)) where
  tree_fails :
      (w : Walker S) (s : S) (e : Error) (id : Bytes)
      → find_tree id w.cache ≡ none
      → read_tree id w.store ≡ throws e s
      → tree read_tree id w ≡ throws e (record { store = s; cache = (id, []) ∷ w.cache })
  unfolding tree
  tree_fails w s e id fresh fails = rw (fresh, fails, tree) refl

  tree_stale :
      (w : Walker S) (s : S) (id : Bytes)
      → tree read_tree id (record { store = s; cache = (id, []) ∷ w.cache })
        ≡ returns [] (record { store = s; cache = (id, []) ∷ w.cache })
  unfolding tree find_tree
  tree_stale w s id = rw (bytes_eq_refl id, tree) refl

  -- When the first look into a directory throws, `lookup` says from then on that the directory is
  -- empty: the next walk through it does not throw and finds nothing.
  pub walk_stale :
      (w : Walker S) (s : S) (e : Error) (name id comp : Bytes) (comps : List Bytes)
      → find_tree id w.cache ≡ none
      → read_tree id w.store ≡ throws e s
      → (w' : Walker S) × (walk read_tree
            (record { name = name; type = b'd'; id = id })
            (comp ∷ comps)
            w
          ≡ throws e w')
        × (walk read_tree (record { name = name; type = b'd'; id = id }) (comp ∷ comps) w'
            ≡ returns none w')
  unfolding walk find_entry lower_bound
  walk_stale w s e name id comp comps fresh fails = (
    record { store = s; cache = (id, []) ∷ w.cache },
    rw (tree_fails w s e id fresh fails) refl,
    rw (tree_stale w s id) refl,
  )

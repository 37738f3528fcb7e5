-- ===== src/MemTree/Runs.antt =====
-- A file below a directory that is not there yet.
use nix_tarmac.Base.{◌≡◌, refl, List, [], ◌∷◌}
use nix_tarmac.Base.Bytes.{Bytes, bytes_eq, bytes_lt}
use nix_tarmac.Base.Result.{err, runtime_error}
use nix_tarmac.MemTree.{
  MemNode, mem_node, map_nil, slot, find, assign, overwrite, add_from, add_node,
}

abbrev the_path : List Bytes
the_path = (b'a' ∷ []) ∷ (b'b' ∷ []) ∷ []

abbrev the_file : MemNode
the_file = mem_node b'r' (7 ∷ []) map_nil

abbrev with_file : MemNode
with_file =
    mem_node b'd' []
      (slot (b'a' ∷ []) (mem_node b'd' [] (slot (b'b' ∷ []) the_file map_nil)) map_nil)

-- A file does not take the place of a directory that has children.
directory_kept : add_node with_file ((b'a' ∷ []) ∷ []) the_file ≡ err runtime_error
unfolding add_node add_from find assign overwrite bytes_eq bytes_lt
directory_kept = refl

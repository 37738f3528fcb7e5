-- ===== src/Pack/Runs/Flushing.antt =====
-- A tree with a directory put into the store.
use nix_tarmac.Base.{[], ◌∷◌}
use nix_tarmac.MemTree.{MemNode, mem_node, map_nil, slot}

-- A file below a directory.
abbrev file_below : MemNode
file_below = mem_node b'd' [] (
    slot (b'a' ∷ []) (mem_node b'd' [] (slot (b'b' ∷ []) (mem_node b'r' (7 ∷ []) map_nil) map_nil))
      map_nil)

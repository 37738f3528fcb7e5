-- ===== src/MemTree/Lookup.antt =====
-- What `lookup_node` finds after `add_node`.
use nix_tarmac.Base.{◌≡◌, Option, none, some, ◌⊎◌}
use nix_tarmac.Base.Bytes.{Bytes}
use nix_tarmac.Base.Result.{Result}
use nix_tarmac.MemTree.{MemNode, type_of}

-- The new node is there, or, where a directory was added to a directory, the node that was there.
abbrev pub IsThere : MemNode → Option MemNode → Option MemNode → Type 0
IsThere new old none = ⊥
IsThere new none (some n) = n ≡ new
IsThere new (some o) (some n) = (n ≡ new) ⊎ ((n ≡ o) × (type_of o ≡ b'd') × (type_of new ≡ b'd'))

-- ===== src/Walker/Runs.antt =====
-- Walks through a directory with two entries, and over a store that cannot be read.
use nix_tarmac.Base.{◌≡◌, refl, none, List, [], ◌∷◌, arith}
use nix_tarmac.Base.Bytes.{Bytes, bytes_eq, bytes_lt}
use nix_tarmac.Base.Result.{corrupt}
use nix_tarmac.Base.Exec.{Exec, returns, throws}
use nix_tarmac.TreeObject.{TreeEntry}
use nix_tarmac.TreeObject.Runs.{two_entries, two_entries_bytes, two_entries_read}
use nix_tarmac.Walker.{Walker, find_tree, find_entry, lower_bound, walk}
use nix_tarmac.Walker.Search.{find_name, IsSorted, find_entry-decode_tree}
use nix_tarmac.Walker.Stale.{walk_stale}

abbrev dir_c : TreeEntry
dir_c = record { name = b'c' ∷ []; type = b'd'; id = 8 ∷ [] }

-- "b" would stand between the two names.
not_found : find_entry two_entries (b'b' ∷ []) ≡ none
unfolding find_entry lower_bound bytes_eq bytes_lt
not_found = refl

find_entry-decode_tree_example :
    IsSorted two_entries × (find_entry two_entries (b'b' ∷ []) ≡ find_name two_entries (b'b' ∷ []))
find_entry-decode_tree_example =
    find_entry-decode_tree two_entries_bytes (b'b' ∷ []) two_entries (ground arith) two_entries_read

abbrev no_tree : Bytes → Exec (Unit {0}) (List TreeEntry)
no_tree id s = throws corrupt s

abbrev fresh : Walker (Unit {0})
fresh = record { store = tt; cache = [] }

walk_stale_example :
    (w' : Walker (Unit {0})) × (walk no_tree dir_c ((b'a' ∷ []) ∷ []) fresh ≡ throws corrupt w')
    × (walk no_tree dir_c ((b'a' ∷ []) ∷ []) w' ≡ returns none w')
unfolding find_tree
walk_stale_example =
    walk_stale no_tree fresh tt corrupt (b'c' ∷ []) (8 ∷ []) (b'a' ∷ []) [] refl refl

-- ===== src/TreeObject/Runs.antt =====
-- A directory with two entries.
use nix_tarmac.Base.{◌≡◌, refl, List, [], ◌∷◌, All, arith, ◌⊎◌}
use nix_tarmac.Base.Bytes.{Bytes, bytes_lt}
use nix_tarmac.Base.Result.{ok, err, corrupt, invalid_argument}
use nix_tarmac.TreeObject.{
  TreeEntry, encode_tree, decode_tree, decode_loop, decode_entry, known_type, out_of_order, byte_at,
  split_at, reverse_onto,
}
use nix_tarmac.TreeObject.Canonical.{IsTree, decode_tree-encode_tree, encode_tree-decode_tree}
use nix_tarmac.TreeObject.Errors.{FitsSizes, decode_tree_ends, encode_tree_cases}

abbrev pub two_entries : List TreeEntry
two_entries =
    record { name = b'a' ∷ []; type = b'r'; id = 1 ∷ 2 ∷ [] }
    ∷ record { name = b'a' ∷ b'b' ∷ []; type = b'd'; id = 3 ∷ [] }
    ∷ []

abbrev pub two_entries_bytes : Bytes
two_entries_bytes = b'r' ∷ 1 ∷ 0 ∷ b'a' ∷ 2 ∷ 1 ∷ 2 ∷ b'd' ∷ 2 ∷ 0 ∷ b'a' ∷ b'b' ∷ 1 ∷ 3 ∷ []

two_entries-IsTree : IsTree two_entries
unfolding known_type out_of_order bytes_lt
two_entries-IsTree = (
  (
    record { type_known = refl; name_fits = omega arith; id_fits = omega arith },
    (record { type_known = refl; name_fits = omega arith; id_fits = omega arith }, tt),
  ),
  (refl, (refl, tt)),
)

decode_tree-encode_tree_example :
    (buf : Bytes) × (encode_tree two_entries ≡ ok buf) × (decode_tree buf ≡ ok two_entries)
decode_tree-encode_tree_example = decode_tree-encode_tree two_entries two_entries-IsTree

pub two_entries_read : decode_tree two_entries_bytes ≡ ok two_entries
unfolding decode_tree decode_loop decode_entry known_type out_of_order byte_at split_at reverse_onto
    bytes_lt
two_entries_read = refl

encode_tree-decode_tree_example :
    IsTree two_entries × (encode_tree two_entries ≡ ok two_entries_bytes)
encode_tree-decode_tree_example =
    encode_tree-decode_tree two_entries_bytes two_entries (ground arith) two_entries_read

-- Two entries in the wrong order.
unsorted_refused :
    decode_tree (b'r' ∷ 1 ∷ 0 ∷ b'b' ∷ 0 ∷ b'r' ∷ 1 ∷ 0 ∷ b'a' ∷ 0 ∷ []) ≡ err corrupt
unfolding decode_tree decode_loop decode_entry known_type out_of_order byte_at split_at reverse_onto
    bytes_lt
unsorted_refused = refl

decode_tree_ends_example :
    ((es : List TreeEntry) × (decode_tree two_entries_bytes ≡ ok es))
    ⊎ (decode_tree two_entries_bytes ≡ err corrupt)
decode_tree_ends_example = decode_tree_ends two_entries_bytes

encode_tree_cases_example :
    (All FitsSizes two_entries × (buf : Bytes) × (encode_tree two_entries ≡ ok buf))
    ⊎ ((¬ All FitsSizes two_entries) × (encode_tree two_entries ≡ err invalid_argument))
encode_tree_cases_example = encode_tree_cases two_entries

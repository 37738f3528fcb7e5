-- ===== src/TreeObject.antt =====
-- The tree objects of src/tree.cpp: the bytes that `TreeStore::putTree` writes and
-- `TreeStore::readTree` reads, and `TreeEntry` of src/tree.hpp.
pub mod Canonical
pub mod Errors
pub mod InBounds
pub mod Runs
use nix_tarmac.Base.{
  ℕ, zero, suc, ◌+◌, ◌*◌, ◌/◌, ◌%◌, Bool, true, false, not, ◌&&◌, ◌||◌, List, [], ◌∷◌, ◌++◌, ltb,
  ◌==◌, if◌then◌else◌, length, take, drop,
}
use nix_tarmac.Base.Bytes.{Bytes, bytes_lt}
use nix_tarmac.Base.Result.{
  Result, ok, err, corrupt, invalid_argument, undefined, out_of_fuel, throw_if, ◌>>=◌, ◌>>◌,
}

pub record TreeEntry : Type 0 where
  pub name : Bytes
  pub type : ℕ
  pub id : Bytes

abbrev pub max_name_len : ℕ
max_name_len = 0xffff

abbrev pub max_id_len : ℕ
max_id_len = 0xff

abbrev pub tree_entry_header : ℕ
tree_entry_header = 3

-- One round of the loop of `putTree`.
pub encode_entry : TreeEntry → Result Bytes
encode_entry entry =
    let name_len = length entry.name in
    let id_len = length entry.id in
    if ltb max_name_len name_len || ltb max_id_len id_len
    then err invalid_argument
    else ok (entry.type ∷ name_len % 256 ∷ name_len / 256 ∷ (entry.name ++ (id_len ∷ entry.id)))

-- What `putTree` hands to the object store.
pub encode_tree : List TreeEntry → Result Bytes
encode_tree [] = ok []
encode_tree (entry ∷ rest) = do buf ← encode_entry entry; more ← encode_tree rest; ok (buf ++ more)

-- 'r', 'x', 's' or 'd'
unfoldable pub known_type : ℕ → Bool
known_type t = t == b'r' || t == b'x' || t == b's' || t == b'd'

-- `buf[pos]`, which is undefined past the end.
unfoldable pub byte_at : ℕ → Bytes → Result ℕ
byte_at i [] = err undefined
byte_at zero (b ∷ bs) = ok b
byte_at (suc i) (b ∷ bs) = byte_at i bs

-- `buf.substr(pos, n)` and `pos += n`: the bytes and what comes behind them. A position past the end
-- is undefined.
unfoldable pub split_at : ℕ → Bytes → Result (Bytes × Bytes)
split_at n buf = do throw_if (ltb (length buf) n) undefined; ok (take n buf, drop n buf)

-- `out.back().name >= entry.name`; the head of the list is the back of the vector.
unfoldable pub out_of_order : List TreeEntry → TreeEntry → Bool
out_of_order [] entry = false
out_of_order (back ∷ out) entry = not (bytes_lt back.name entry.name)

-- One round of the loop of `readTree` on what `pos` has not passed: an entry and the rest.
unfoldable pub decode_entry : Bytes → Result (TreeEntry × Bytes)
decode_entry buf = do
  throw_if (ltb (length buf) tree_entry_header) corrupt
  type ← byte_at 0 buf
  throw_if (not (known_type type)) corrupt
  lo ← byte_at 1 buf
  hi ← byte_at 2 buf
  let name_len = lo + hi * 256
  (header, buf') ← split_at 3 buf
  throw_if (ltb (length buf') (name_len + 1)) corrupt
  (name, tail) ← split_at name_len buf'
  id_len ← byte_at 0 tail
  (one, buf'') ← split_at 1 tail
  throw_if (ltb (length buf'') id_len) corrupt
  (id, rest) ← split_at id_len buf''
  ok (record { name = name; type = type; id = id }, rest)

unfoldable pub reverse_onto : List TreeEntry → List TreeEntry → List TreeEntry
reverse_onto [] acc = acc
reverse_onto (x ∷ xs) acc = reverse_onto xs (x ∷ acc)

-- The head of `out` is the back of the vector, and the result is in the vector's order.
unfoldable pub decode_loop : ℕ → Bytes → List TreeEntry → Result (List TreeEntry)
decode_loop fuel [] out = ok (reverse_onto out [])
decode_loop zero (b ∷ bs) out = err out_of_fuel
decode_loop (suc fuel) (b ∷ bs) out = do
  (entry, rest) ← decode_entry (b ∷ bs)
  throw_if (out_of_order out entry) corrupt
  decode_loop fuel rest (entry ∷ out)

-- `readTree` on the bytes of an object. Each round passes four bytes at least, so the number of
-- bytes is fuel enough.
unfoldable pub decode_tree : Bytes → Result (List TreeEntry)
decode_tree buf = decode_loop (length buf) buf []

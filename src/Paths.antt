-- ===== src/Paths.antt =====
-- `split_path` of src/tree.cpp.
pub mod Components
pub mod Canonical
pub mod Runs
use nix_tarmac.Base.{
  ℕ, zero, suc, Bool, true, false, ◌&&◌, ◌||◌, Option, none, some, List, [], ◌∷◌, ◌++◌, ltb, leb,
  ◌==◌, if◌then◌else◌, length,
}
use nix_tarmac.Base.Bytes.{Bytes, bytes_eq}

abbrev pub max_name_len : ℕ
max_name_len = 0xffff

abbrev pub max_tree_depth : ℕ
max_tree_depth = 512

abbrev pub slash : ℕ
slash = b'/'

abbrev pub dot : Bytes
dot = b'.' ∷ []

abbrev pub dot_dot : Bytes
dot_dot = b'.' ∷ b'.' ∷ []

-- `path.substr(0, slash)`, where `slash` is what `path.find('/')` returns.
unfoldable pub before_slash : Bytes → Bytes
before_slash [] = []
before_slash (c ∷ path) = if c == slash then [] else c ∷ before_slash path

-- `slash == npos ? "" : path.substr(slash + 1)`
unfoldable pub after_slash : Bytes → Bytes
after_slash [] = []
after_slash (c ∷ path) = if c == slash then path else after_slash path

-- `comps` is kept with its back first, so that `push_back` is `∷`.
unfoldable pub pop_back : List Bytes → List Bytes
pop_back [] = []
pop_back (c ∷ comps) = comps

unfoldable pub in_order : List Bytes → List Bytes → List Bytes
in_order [] acc = acc
in_order (c ∷ comps) acc = in_order comps (c ∷ acc)

-- What a round of the loop does with the component; `none` is `return std::nullopt`.
unfoldable pub add_component : List Bytes → Bytes → Option (List Bytes)
add_component comps comp =
    if bytes_eq comp [] || bytes_eq comp dot
    then some comps
    else if bytes_eq comp dot_dot
    then some (pop_back comps)
    else if ltb max_name_len (length comp) || leb max_tree_depth (length comps)
    then none
    else some (comp ∷ comps)

-- Each round takes a byte or more off `path`: the fuel counts bytes.
unfoldable pub split_loop : ℕ → Bytes → List Bytes → Option (List Bytes)
split_loop fuel [] comps = some (in_order comps [])
split_loop zero (c ∷ path) comps = none
split_loop (suc fuel) (c ∷ path) comps = elim (add_component comps (before_slash (c ∷ path))) [
  | none ↦ none
  | some comps' ↦ split_loop fuel (after_slash (c ∷ path)) comps'
]

unfoldable pub split_path : Bytes → Option (List Bytes)
split_path path = split_loop (length path) path []

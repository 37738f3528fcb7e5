-- ===== src/Nar.antt =====
-- NAR output of src/tree.cpp: `nar_str`, `nar_leaf`, `nar_directory` and `nar_dump`, for any sink.
pub mod Recursive
pub mod Sha256
mod Runs
use nix_tarmac.Base.{
  ℕ, zero, suc, ◌+◌, ◌-◌, ◌*◌, ◌%◌, Bool, true, false, Option, none, some, List, [], ◌∷◌, ◌++◌, ltb,
  ◌==◌, if◌then◌else◌, length,
}
use nix_tarmac.Base.Bytes.{Bytes}
use nix_tarmac.Base.Text.{codes}
use nix_tarmac.Base.Little.{le64}
use nix_tarmac.Base.Result.{Result, ok, err, corrupt, runtime_error, out_of_fuel}
use nix_tarmac.Base.Exec.{Outcome, Exec, returns, throws, pure, throw, lift, ◌>>=◌, ◌>>◌}
use nix_tarmac.TreeObject.{TreeEntry}
use nix_tarmac.Paths.{max_tree_depth}

-- The object store, as the NAR code sees it: `readTree`, and `readBlobView`, whose answer `none` is
-- `false`. Either may throw.
pub record Objects : Type 0 where
  pub read_tree : Bytes → Result (List TreeEntry)
  pub read_blob_view : Bytes → Result (Option Bytes)

pub data NarWork : Type 0 where
  text : Bytes → NarWork
  node : TreeEntry → ℕ → NarWork

abbrev pub zeros : ℕ → Bytes
zeros zero = []
zeros (suc n) = 0 ∷ zeros n

abbrev pub root_entry : Bytes → TreeEntry
root_entry root = record { name = []; type = b'd'; id = root }

-- What `nar_directory` pushes for the children; the head of the list is the back of the vector.
unfoldable pub push_children : List TreeEntry → ℕ → List NarWork → List NarWork
push_children [] depth work = work
push_children (child ∷ children) depth work =
    text (codes "entry")
    ∷ text (codes "(")
    ∷ text (codes "name")
    ∷ text child.name
    ∷ text (codes "node")
    ∷ node child (depth + 1)
    ∷ text (codes ")")
    ∷ push_children children depth work

module _ {S : Type 0} (objects : Objects) (sink : Bytes → Exec S (Unit {0})) where
  unfoldable pub nar_str : Bytes → Exec S (Unit {0})
  nar_str str = do
    sink (le64 (length str))
    sink str
    if length str % 8 == 0 then pure tt else sink (zeros (8 - length str % 8))

  executable_tag : TreeEntry → Exec S (Unit {0})
  executable_tag entry =
      if entry.type == b'x' then nar_str (codes "executable") >> nar_str [] else pure tt

  -- The branch on the type in `nar_leaf`.
  leaf_tags : TreeEntry → Exec S (Unit {0})
  leaf_tags entry =
      if entry.type == b's'
      then nar_str (codes "symlink") >> nar_str (codes "target")
      else (nar_str (codes "regular") >> executable_tag entry) >> nar_str (codes "contents")

  unfoldable pub nar_leaf : TreeEntry → Exec S (Unit {0})
  unfolding leaf_tags executable_tag
  nar_leaf entry = do
    found ← lift (objects.read_blob_view entry.id)
    contents ← lift (elim found [ none ↦ err corrupt | some contents ↦ ok contents ])
    leaf_tags entry
    nar_str contents
    nar_str (codes ")")

  -- `nar_directory`: the new work list.
  unfoldable pub nar_directory : TreeEntry → ℕ → List NarWork → Exec S (List NarWork)
  nar_directory entry depth work = do
    nar_str (codes "directory")
    children ← lift (objects.read_tree entry.id)
    pure (push_children children depth (text (codes ")") ∷ work))

  -- The loop of `nar_dump`, one round for each piece of fuel.
  unfoldable pub nar_loop : ℕ → List NarWork → Exec S (Unit {0})
  nar_loop fuel [] = pure tt
  nar_loop zero (item ∷ work) = throw out_of_fuel
  nar_loop (suc fuel) (text str ∷ work) = nar_str str >> nar_loop fuel work
  nar_loop (suc fuel) (node entry depth ∷ work) =
      let dir = nar_directory entry depth work >>= nar_loop fuel in
      let leaf = nar_leaf entry >> nar_loop fuel work in
      if ltb max_tree_depth depth
      then throw runtime_error
      else nar_str (codes "(")
        >> (nar_str (codes "type") >> (if entry.type == b'd' then dir else leaf))

  unfoldable pub nar_dump : ℕ → Bytes → Exec S (Unit {0})
  nar_dump fuel root = do
    nar_str (codes "nix-archive-1")
    nar_loop fuel (node (root_entry root) 0 ∷ [])

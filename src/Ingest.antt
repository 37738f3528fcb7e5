-- ===== src/Ingest.antt =====
-- The consumer's side of `ingest_archive` of src/tree.cpp: `apply_item`, the loop over the items and
-- what follows it. The items are those that `read_items` pushes before it ends or throws; the queue
-- between is in ItemQueue.
use nix_tarmac.Base.{ℕ, ◌+◌, true, Option, none, some, List, [], ◌∷◌, ◌==◌, if◌then◌else◌}
use nix_tarmac.Base.Bytes.{Bytes}
use nix_tarmac.Base.Result.{Error, runtime_error}
use nix_tarmac.Base.Exec.{Exec, pure, throw, lift, ◌>>=◌, ◌>>◌}
use nix_tarmac.Paths.{split_path}
use nix_tarmac.ItemQueue.{TarItem}
use nix_tarmac.MemTree.{
  MemNode, mem_node, map_nil, type_of, id_of, empty_dir, lookup_node, add_node,
}
use nix_tarmac.MemTree.Flush.{flush_tree}
use nix_tarmac.Pack.Platform.{Platform}
use nix_tarmac.Roots.{TreeStore, in_cas, put_blob, put_tree, register_root, sync_store}
use nix_tarmac.Gc.{maybe_gc}
use nix_tarmac.Archive.{LibArchive, read_items}

pub record IngestResult : Type 0 where
  pub root : Bytes
  pub files : ℕ

module _ {S : Type 0} where
  -- `split_path`, which throws here when it gives nothing.
  unfoldable pub split_or_throw : Bytes → Exec S (List Bytes)
  split_or_throw path = elim (split_path path) [
    | none ↦ throw runtime_error
    | some comps ↦ pure comps
  ]

  -- The target of a hard link: a node that is no directory.
  unfoldable pub link_target : MemNode → Bytes → Exec S MemNode
  link_target root path = elim (split_path path) [
    | none ↦ throw runtime_error
    | some comps ↦ elim (lookup_node root comps) [
      | none ↦ throw runtime_error
      | some node ↦ if type_of node == b'd' then throw runtime_error else pure node
    ]
  ]

module _ {S : Type 0} (put_blob : Bytes → Exec S Bytes) where
  -- The new tree and `res.files`.
  unfoldable pub apply_item : MemNode → TarItem → ℕ → Exec S (MemNode × ℕ)
  unfolding split_or_throw link_target
  apply_item root item files = do
    comps ← split_or_throw item.path
    if item.type == b'h'
        then (do
          node ← link_target root item.payload
          root' ← lift (add_node root comps (mem_node (type_of node) (id_of node) map_nil))
          pure (root', files))
        else (if item.type == b'd'
            then (do root' ← lift (add_node root comps empty_dir); pure (root', files))
            else (do
              id ← put_blob item.payload
              root' ← lift (add_node root comps (mem_node item.type id map_nil))
              pure (root', files + 1)))

  -- The loop of the consumer.
  unfoldable pub apply_items : List TarItem → MemNode → ℕ → Exec S (MemNode × ℕ)
  unfolding apply_item
  apply_items [] root files = pure (root, files)
  apply_items (item ∷ items) root files = do
    (root', files') ← apply_item root item files
    apply_items items root' files'

-- `if (queue.err) rethrow_exception(queue.err)`
unfoldable pub rethrow : {S : Type 0} → Option Error → Exec S (Unit {0})
rethrow none = pure tt
rethrow (some e) = throw e

module _ {T : Type 0} (p : Platform T) where
  -- From the start of the consumer's loop on. `now` and `later` are the clock's answers to
  -- `registerRoot` and `maybeGc`.
  unfoldable pub ingest_items :
      ℕ → ℕ → ℕ → ℕ → List TarItem → Option Error → Exec (TreeStore T) IngestResult
  ingest_items tid fuel now later items ending = do
    (tree, files) ← in_cas p (apply_items (put_blob p tid) items empty_dir 0)
    rethrow ending
    root ← in_cas p (flush_tree (put_tree p tid) tree)
    register_root p tid now root true
    sync_store p tid
    maybe_gc p tid fuel later
    pure (record { root = root; files = files })

  -- The two threads one after the other: the producer touches the archive and the queue only.
  unfoldable pub ingest_archive :
      {A : Type 0} → LibArchive A → A → ℕ → ℕ → ℕ → ℕ → ℕ → Exec (TreeStore T) IngestResult
  ingest_archive lib arc fuel rounds tid now later =
      let (items, ending) = read_items lib fuel rounds arc in
      ingest_items tid fuel now later items ending

  -- `archive_read_open_filename` is a parameter too.
  unfoldable pub ingest_tarball_file :
      {A : Type 0}
      → LibArchive A
      → (Bytes → Option A)
      → Bytes
      → ℕ
      → ℕ
      → ℕ
      → ℕ
      → ℕ
      → Exec (TreeStore T) IngestResult
  unfolding ingest_archive
  ingest_tarball_file lib open_filename path fuel rounds tid now later = elim (open_filename path) [
    | none ↦ throw runtime_error
    | some arc ↦ ingest_archive lib arc fuel rounds tid now later
  ]

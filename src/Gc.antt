-- ===== src/Gc.antt =====
-- The collection of garbage in src/tree.cpp: `expire_roots`, `maybeGc` and `roots_info`.
pub mod Keeps
pub mod Reading
pub mod Walks
use nix_tarmac.Base.{
  ℕ, ◌+◌, Bool, true, false, not, ◌&&◌, Option, none, some, List, [], ◌∷◌, ◌++◌, ◌==◌,
  if◌then◌else◌, length, drop,
}
use nix_tarmac.Base.Bytes.{Bytes}
use nix_tarmac.Base.Text.{codes}
use nix_tarmac.Base.Exec.{Exec, pure, gets, ◌>>=◌, ◌>>◌}
use nix_tarmac.Stamp.{be64, rbe64, is_timestamp}
use nix_tarmac.Pack.Platform.{Platform}
use nix_tarmac.Pack.State.{Impl}
use nix_tarmac.Pack.Meta.{meta_put, meta_get, meta_del, meta_scan}
use nix_tarmac.Pack.Compact.{compact}
use nix_tarmac.Live.{contains, insert, mark_live}
use nix_tarmac.Roots.{TreeStore, in_cas, younger, flush_touches, read_tree}

abbrev last_gc : Bytes
last_gc = codes "lastgc"

abbrev tree_prefix : Bytes
tree_prefix = b'R' ∷ []

abbrev blob_prefix : Bytes
blob_prefix = b'B' ∷ []

-- Whether the last pass is too recent for another one.
unfoldable pub is_recent : ℕ → ℕ → Option Bytes → Bool
is_recent now interval none = false
is_recent now interval (some stamp) = is_timestamp stamp && younger now stamp interval

module _ {T : Type 0} (p : Platform T) where
  unfoldable pub del_all : ℕ → List Bytes → Exec (Impl T) (Unit {0})
  del_all tid [] = pure tt
  del_all tid (key ∷ keys) = meta_del p tid key >> del_all tid keys

  -- The callback of `expire_roots`.
  unfoldable pub note_expired : ℕ → ℕ → Bytes → Bytes → List Bytes → List Bytes
  note_expired ttl_ns now key val expired =
      if is_timestamp val && not (younger now val ttl_ns) then expired ++ (key ∷ []) else expired

  unfoldable pub expire_roots : ℕ → ℕ → Bytes → ℕ → Exec (Impl T) ℕ
  unfolding note_expired
  expire_roots tid ttl_ns prefix now = do
    expired ←
        meta_scan p tid prefix
          (λ key val expired. pure (note_expired ttl_ns now key val expired, true)) []
    del_all tid expired
    pure (length expired)

  -- The callback over the tree roots: what is live, and the roots that could not be walked.
  unfoldable pub mark_root :
      ℕ → ℕ → Bytes → List Bytes × List Bytes → Exec (Impl T) ((List Bytes × List Bytes) × Bool)
  mark_root tid fuel key (live, broken) = do
    (live', failed) ← mark_live (read_tree p tid) fuel (drop 1 key) live
    pure ((live', elim failed [ none ↦ broken | some e ↦ broken ++ (drop 1 key ∷ []) ]), true)

  abbrev root_keys : List Bytes → List Bytes
  root_keys [] = []
  root_keys (root ∷ roots) = (b'R' ∷ root) ∷ root_keys roots

  -- The rest of `maybeGc`, once a root has expired.
  unfoldable pub collect_garbage : ℕ → ℕ → Exec (Impl T) (Unit {0})
  unfolding mark_root
  collect_garbage tid fuel = do
    (live, broken) ←
        meta_scan p tid tree_prefix (λ key val marks. mark_root tid fuel key marks) ([], [])
    del_all tid (root_keys broken)
    live' ←
        meta_scan p tid blob_prefix (λ key val live. pure ((insert (drop 1 key) live).0, true)) live
    compact p (λ hash. contains hash live')

  unfoldable pub maybe_gc : ℕ → ℕ → ℕ → Exec (TreeStore T) (Unit {0})
  unfolding expire_roots collect_garbage
  maybe_gc tid fuel now = do
    flush_touches p tid
    ttl_ns ← gets (λ s. s.ttl_ns)
    interval ← gets (λ s. s.gc_interval_ns)
    stamp ← in_cas p (meta_get p tid last_gc)
    if is_recent now interval stamp
        then pure tt
        else in_cas p (do
          meta_put p tid last_gc (be64 now)
          trees ← expire_roots tid ttl_ns tree_prefix now
          blobs ← expire_roots tid ttl_ns blob_prefix now
          if trees + blobs == 0 then pure tt else collect_garbage tid fuel)

  unfoldable pub roots_info : ℕ → Exec (Impl T) (List (Bytes × ℕ))
  roots_info tid =
      meta_scan p tid tree_prefix
        (λ key val out.
          pure (if is_timestamp val then out ++ ((drop 1 key, rbe64 val) ∷ []) else out, true))
        []

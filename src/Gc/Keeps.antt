-- ===== src/Gc/Keeps.antt =====
-- What a root refers to, through the marking and the compaction.
use nix_tarmac.Base.{
  ℕ, ◌<◌, ◌^◌, ◌≡◌, ◌⊎◌, inl, inr, Bool, false, none, some, List, [], ◌==◌, length,
}
use nix_tarmac.Base.Bytes.{Bytes}
use nix_tarmac.Base.Exec.{returns, Ends, Ends_mono}
use nix_tarmac.Pack.Platform.{Platform}
use nix_tarmac.Pack.State.{Impl, Mapping, Db}
use nix_tarmac.Pack.Blobs.Reads.{IsStored, IsSound}
use nix_tarmac.Pack.Compact.{rewrite}
use nix_tarmac.Pack.Compact.Copy.{total}
use nix_tarmac.Pack.Compact.Correct.{RawFits, kept_entries}
use nix_tarmac.Pack.Compact.Rewrite.{Rewritten, Unfinished, rewrite-Rewritten}
use nix_tarmac.Live.{contains, mark_live}
use nix_tarmac.Live.Closed.{Has, OneKind, Closed}
use nix_tarmac.Live.Reach.{Reaches}
use nix_tarmac.Roots.{read_tree}
use nix_tarmac.Gc.Reading.{Sees, tree_of}
use nix_tarmac.Gc.Walks.{mark_live-read_tree}

module _ {T : Type 0} (p : Platform T) where
  -- The committed index has the blob, in the file up to some end.
  abbrev pub Survives :
      {old : Bytes} {id val : Bytes} → IsStored p old (length old) id val → ℕ → Impl T → Type 0
  Survives {old} {id} {val} st inode t =
      (n : ℕ) × (val' : Bytes) × (p.lmdb.get id t.committed.blobs ≡ some val')
      × (st' : IsStored p (t.contents inode) n id val') × (st'.raw ≡ st.raw)

  -- When `mark_live`, reading trees from a sound index, has walked a root to its end and `rewrite`
  -- then compacts the same index and pack and keeps what was marked, and whatever was marked beside
  -- that: a blob of the index that the root refers to, itself or through the directories of the
  -- index, is in the committed index afterwards with the same content, or `rewrite` throws and the
  -- committed index is the old one. Every id is a directory in all trees or in none, the set was
  -- closed before, the new file is empty and the sizes fit.
  pub rewrite_keeps_reachable :
      (tid : ℕ) (is_dir : Bytes → Bool) (fuel : ℕ) (root : Bytes) (before marked live : List Bytes)
      (r r' : Impl T) (db : Db T) (gen : ℕ) (m : Mapping) (inode : ℕ)
      (apart : (inode == m.inode) ≡ false) (s : Impl T) (id val : Bytes)
      (st : IsStored p (s.contents m.inode) (length (s.contents m.inode)) id val)
      → let trees = tree_of p db (s.contents m.inode) in
        ((id : Bytes) → OneKind trees is_dir (trees id))
        → Closed trees is_dir before
        → Sees p tid db m (s.contents m.inode) r
        → mark_live (read_tree p tid) fuel root before r ≡ returns (marked, none) r'
        → ((id : Bytes) → Has marked id → Has live id)
        → s.contents inode ≡ []
        → IsSound p (s.contents m.inode) (length (s.contents m.inode)) db
        → RawFits p (λ hash. contains hash live) db
        → total (kept_entries p (λ hash. contains hash live) db) < 2 ^ 64
        → Reaches trees is_dir root id
        → p.lmdb.get id db.blobs ≡ some val
        → Ends
            (λ n t. Survives st inode t)
            (λ e t. (t.committed ≡ s.committed) ⊎ Survives st inode t)
            (rewrite p db gen m inode (λ hash. contains hash live) s)
  rewrite_keeps_reachable tid is_dir fuel root before marked live r r' db gen m inode apart s id val
        st kinds closed sees run more empty sound raw_fits fits reaches there =
      let keep : Bytes → Bool = λ hash. contains hash live in
      let (_, reached, _) =
        mark_live-read_tree p tid db m (s.contents m.inode) is_dir fuel root before marked r r'
          kinds closed sees run in
      let is_live : Has live id = more id (reached id reaches) in
      Ends_mono (Rewritten p db gen m inode apart keep s) (λ n t. Survives st inode t)
        (Unfinished p db gen m inode apart keep s)
        (λ e t. (t.committed ≡ s.committed) ⊎ Survives st inode t) (rewrite p db gen m inode keep s)
        (rewrite-Rewritten p db gen m inode apart keep s empty sound raw_fits fits)
        (λ n t (_, (compacted, _)).
          let (val', found, st', same) = compacted.kept id val st is_live there in
          (n, val', found, st', same))
        (λ e t (_, end). elim end [
          | inl same ↦ inl same
          | inr (n, (compacted, _)) ↦
              let (val', found, st', same) = compacted.kept id val st is_live there in
              inr (n, val', found, st', same)
        ])

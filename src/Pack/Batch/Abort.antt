-- ===== src/Pack/Batch/Abort.antt =====
-- What `abort_batch` leaves.
use nix_tarmac.Base.{
  ℕ, zero, suc, ◌+◌, ◌≤◌, ◌≡◌, refl, ap, ◌∙◌, ◌⊎◌, inl, inr, true, false, ◌==◌, none, [], ◌∷◌,
  arith, Bool-cases, take, drop, length, ==_refl,
}
use nix_tarmac.Base.Bytes.{Bytes}
use nix_tarmac.Base.Exec.{Ends}
use nix_tarmac.Pack.File.{slice, patch}
use nix_tarmac.Pack.File.Slices.{patch-nil, slice-patch_below}
use nix_tarmac.Pack.Platform.{Platform}
use nix_tarmac.Pack.Blob.{unpack}
use nix_tarmac.Pack.State.{Impl, Mapping, Db, txn_db, current, set_size}
use nix_tarmac.Pack.Batch.{abort_batch, truncate, unlock_writer}
use nix_tarmac.Pack.Blobs.Reads.{IsStored}
use nix_tarmac.Pack.Blobs.Writes.{IsBatch}
use nix_tarmac.Pack.Batch.Commit.{CommittedSound}

take-take_le : (l c : ℕ) (bytes : Bytes) → l ≤ c → take l (take c bytes) ≡ take l bytes
take-take_le zero c bytes h = refl
take-take_le (suc l) zero bytes h = absurd (omega arith)
take-take_le (suc l) (suc c) [] h = refl
take-take_le (suc l) (suc c) (b ∷ bytes) h = ap (◌∷◌ b) (take-take_le l c bytes (omega arith))

take-drop-take :
    (o l c : ℕ) (bytes : Bytes) → o + l ≤ c → take l (drop o (take c bytes)) ≡ take l (drop o bytes)
take-drop-take zero l c bytes h = take-take_le l c bytes (omega arith)
take-drop-take (suc o) l zero bytes h = absurd (omega arith)
take-drop-take (suc o) l (suc c) [] h = refl
take-drop-take (suc o) l (suc c) (b ∷ bytes) h = take-drop-take o l c bytes (omega arith)

slice-truncated :
    (o l size : ℕ) (bytes : Bytes)
    → o + l ≤ size
    → size ≤ length bytes
    → slice o l (take size (patch size [] bytes)) ≡ slice o l bytes
unfolding slice
slice-truncated o l size bytes h inside =
    take-drop-take o l size (patch size [] bytes) h ∙ slice-patch_below size o l [] bytes inside h

module _ {T : Type 0} (p : Platform T) where
  truncated-IsStored :
      (bytes : Bytes) (size : ℕ) (hash val : Bytes)
      → size ≤ length bytes
      → IsStored p bytes size hash val
      → IsStored p (take size (patch size [] bytes)) size hash val
  truncated-IsStored bytes size hash val inside st = record {
    entry = st.entry;
    raw = st.raw;
    decoded = st.decoded;
    inside = st.inside;
    unpacked =
        ap (unpack p.lz4 st.entry)
          (slice-truncated st.entry.off st.entry.len size bytes st.inside inside)
        ∙ st.unpacked;
    hashed = st.hashed;
  }

  pub record Aborted (s : Impl T) (m : Mapping) (t : Impl T) : Type 0 where
    pub no_batch : t.wtxn ≡ none
    pub unlocked : t.locked ≡ false
    pub index : t.committed ≡ s.committed
    pub ends : t.committed_end ≡ s.committed_end
    -- The file is cut to the committed end, or `ftruncate` has failed and it is as it was.
    pub cut :
        ((t.end ≡ s.committed_end)
          × (t.contents m.inode ≡ take s.committed_end (s.contents m.inode)))
        ⊎ ((p.kernel.fails s.calls ≡ true)
            × (t.end ≡ s.end)
            × (t.contents m.inode ≡ s.contents m.inode))
    pub others : (inode : ℕ) → (m.inode == inode) ≡ false → t.contents inode ≡ s.contents inode
    pub sound : CommittedSound p m t

  -- `abort_batch` of an open batch does not throw: no batch is open then, the lock is free, the
  -- committed index is the one before, and the packfile, cut to its committed end or left as it was
  -- where cutting has failed, still has every blob of it.
  pub abort_batch-Aborted :
      (s : Impl T) (db : Db T) (m : Mapping)
      → IsBatch p s db m
      → Ends (λ _ t. Aborted s m t) (λ _ t. ⊥) (abort_batch p s)
  unfolding abort_batch truncate txn_db current set_size unlock_writer
  abort_batch-Aborted s db m h =
      let inside : s.committed_end ≤ length (s.contents m.inode) =
        omega (arith, h.ends, h.end_inside) in
      elim (Bool-cases (p.kernel.fails s.calls)) [
        | inl bad ↦
            rw (h.open_txn, h.mapped, current, bad)
              (record {
                no_batch = refl;
                unlocked = refl;
                index = refl;
                ends = refl;
                cut = inr (bad, refl, refl);
                others = λ inode other. refl;
                sound = h.committed_sound;
              })
        | inr good ↦
            rw (h.open_txn, h.mapped, current, good)
              (record {
                no_batch = refl;
                unlocked = refl;
                index = refl;
                ends = refl;
                cut = inl (
                  refl,
                  rw (==_refl m.inode) (
                      ap (take s.committed_end)
                        (patch-nil s.committed_end (s.contents m.inode) inside)),
                );
                others = λ inode other. rw other refl;
                sound = λ hash val there. rw (==_refl m.inode) (
                    truncated-IsStored (s.contents m.inode) s.committed_end hash val inside
                      (h.committed_sound hash val there));
              })
      ]

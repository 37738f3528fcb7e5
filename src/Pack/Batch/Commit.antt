-- ===== src/Pack/Batch/Commit.antt =====
-- How `commit_batch` can end.
use nix_tarmac.Base.{suc, ◌≡◌, refl, inl, inr, false, none, some, Bool-cases}
use nix_tarmac.Base.Exec.{Ends}
use nix_tarmac.Pack.Platform.{Platform}
use nix_tarmac.Pack.State.{Impl, Mapping, Db, freed, check, txn_db, current, set_size}
use nix_tarmac.Pack.Batch.{commit_txn, commit_batch, unlock_writer}
use nix_tarmac.Pack.Blobs.Reads.{IsSound}
use nix_tarmac.Pack.Blobs.Writes.{IsBatch}

module _ {T : Type 0} (p : Platform T) where
  -- The committed index is sound up to `committed_end`.
  abbrev pub CommittedSound : Mapping → Impl T → Type 0
  CommittedSound m t = IsSound p (t.contents m.inode) t.committed_end t.committed

  pub record Committed (s : Impl T) (db : Db T) (m : Mapping) (t : Impl T) : Type 0 where
    pub index : t.committed ≡ db
    pub no_batch : t.wtxn ≡ none
    pub unlocked : t.locked ≡ false
    pub ends : t.committed_end ≡ s.end
    pub contents : t.contents ≡ s.contents
    pub sound : CommittedSound m t

  -- Before the transaction was committed, the batch as it was; the transaction freed without a
  -- commit, and still there for the next call; or committed without the end of the batch.
  pub data Broken (s : Impl T) (db : Db T) (m : Mapping) (t : Impl T) : Type 0 where
    untouched : IsBatch p t db m → t.locked ≡ s.locked → Broken s db m t
    freed_batch :
        t.wtxn ≡ some freed
        → t.committed ≡ s.committed
        → t.locked ≡ s.locked
        → CommittedSound m t
        → Broken s db m t
    still_locked :
        t.wtxn ≡ none
        → t.committed ≡ db
        → t.locked ≡ s.locked
        → t.committed_end ≡ s.committed_end
        → Broken s db m t

  -- When `commit_batch` of an open batch returns, the batch's index is the committed one, it is sound
  -- for the packfile up to the end of the batch, no batch is open and the lock is free. It throws in
  -- three ways only: with the batch still open; with its transaction freed by LMDB and still kept as
  -- the open one, the old index and the lock as before; or with the index committed, and the lock and
  -- `committed_end` as before.
  pub commit_batch-Commits :
      (s : Impl T) (db : Db T) (m : Mapping)
      → IsBatch p s db m
      → Ends (λ _ t. Committed s db m t) (λ _ t. Broken s db m t) (commit_batch p s)
  unfolding commit_batch commit_txn check txn_db current set_size unlock_writer
  commit_batch-Commits s db m h = elim (Bool-cases (p.kernel.fails s.calls)) [
    | inl bad ↦
        rw (h.mapped, current, bad)
          (untouched
            (record {
              open_txn = h.open_txn;
              mapped = h.mapped;
              ends = h.ends;
              end_inside = h.end_inside;
              batch_sound = h.batch_sound;
              committed_sound = h.committed_sound;
            })
            refl)
    | inr synced ↦ elim (Bool-cases (p.kernel.fails (suc s.calls))) [
      | inl bad ↦
          rw (h.mapped, current, synced, h.open_txn, commit_txn, bad)
            (freed_batch refl refl refl h.committed_sound)
      | inr committed ↦ elim (Bool-cases (p.kernel.fails (suc (suc s.calls)))) [
        | inl bad ↦
            rw (h.mapped, current, synced, h.open_txn, commit_txn, committed, bad)
              (still_locked refl refl refl refl)
        | inr flushed ↦
            rw (h.mapped, current, synced, h.open_txn, commit_txn, committed, flushed)
              (record {
                index = refl;
                no_batch = refl;
                unlocked = refl;
                ends = refl;
                contents = refl;
                sound = h.batch_sound;
              })
      ]
    ]
  ]

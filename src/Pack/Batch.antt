-- ===== src/Pack/Batch.antt =====
-- The writer lock and the write batches of src/pack_cas.cpp.
pub mod Commit
pub mod Abort
use nix_tarmac.Base.{ℕ, zero, suc, Bool, true, false, [], none, some, if◌then◌else◌, take}
use nix_tarmac.Base.Result.{runtime_error, system_error, undefined}
use nix_tarmac.Base.Exec.{Exec, returns, throws, pure, throw, gets, modify, ◌>>=◌, ◌>>◌}
use nix_tarmac.Pack.Platform.{Platform}
use nix_tarmac.Pack.File.{patch}
use nix_tarmac.Pack.State.{
  Impl, Mapping, opened, freed, lock_polls, update, M, check, txn_db, read_gen, set_size, file_size,
  mapping_for, current,
}

-- `try { … } catch (...) { …; throw; }`
abbrev pub on_throw {ℓ} : {S A : Type ℓ} → Exec S A → (S → S) → Exec S A
on_throw m clean s = elim (m s) [ returns a s' ↦ returns a s' | throws e s' ↦ throws e (clean s') ]

module _ {T : Type 0} (p : Platform T) where
  -- `flock(lock_fd, LOCK_EX | LOCK_NB)` every fifty milliseconds, `left` more times at most
  unfoldable pub lock_loop : ℕ → M p (Unit {0})
  lock_loop zero = do
    tries ← gets (λ s. s.calls)
    check p system_error
    if p.kernel.busy tries then throw runtime_error else modify (λ s. record s { locked = true })
  lock_loop (suc left) = do
    tries ← gets (λ s. s.calls)
    check p system_error
    let again = lock_loop left
    if p.kernel.busy tries then again else modify (λ s. record s { locked = true })

  unfoldable pub lock_writer : M p (Unit {0})
  lock_writer = lock_loop lock_polls

  unfoldable pub unlock_writer : Impl T → Impl T
  unlock_writer s = record s { locked = false }

  -- The `try` block of `begin_batch`. With `create` there is a mapping.
  unfoldable pub begin_open : ℕ → M p (Unit {0})
  begin_open tid = do
    check p runtime_error
    modify (λ s. record s { wtxn = some (opened s.committed); writer_thread = tid })
    db ← gets (λ s. s.committed)
    gen ← read_gen p db
    mapped ← mapping_for p gen true
    elim mapped [
      | none ↦ throw undefined
      | some m ↦ do
        size ← file_size p m
        modify (λ s. record s { end = size; committed_end = size })
        set_size p m.gen size
        modify (λ s. record s { batch_bytes = 0 })
    ]

  unfoldable pub begin_batch : ℕ → M p (Unit {0})
  unfolding begin_open unlock_writer
  begin_batch tid = do
    lock_writer
    on_throw (begin_open tid) (λ s. unlock_writer (record s { wtxn = none }))

  -- `mdb_txn_commit(wtxn)`: LMDB frees the transaction whether the call succeeds or not.
  unfoldable pub commit_txn : M p (Unit {0})
  commit_txn s = elim s.wtxn [
    | none ↦ throw undefined s
    | some txn ↦
        (do
          db ← txn_db p txn
          modify (λ s. record s { wtxn = some freed })
          check p runtime_error
          modify (λ s. record s { committed = db }))
          s
  ]

  unfoldable pub commit_batch : M p (Unit {0})
  unfolding commit_txn unlock_writer
  commit_batch = do
    m ← current p
    check p system_error
    commit_txn
    modify (λ s. record s { wtxn = none })
    check p runtime_error
    modify (λ s. record s { committed_end = s.end })
    end ← gets (λ s. s.end)
    set_size p m.gen end
    modify unlock_writer

  -- `ftruncate(…) == 0`
  unfoldable pub truncate : Mapping → ℕ → M p Bool
  truncate m size s =
      if p.kernel.fails s.calls
      then returns false (record s { calls = suc s.calls })
      else returns true (record s {
        calls = suc s.calls;
        contents = update s.contents m.inode (take size (patch size [] (s.contents m.inode)));
      })

  unfoldable pub abort_batch : M p (Unit {0})
  unfolding truncate unlock_writer
  abort_batch s = elim s.wtxn [
    | none ↦ throw undefined s
    | some txn ↦
        (do
          txn_db p txn
          modify (λ s. record s { wtxn = none })
          m ← current p
          committed_end ← gets (λ s. s.committed_end)
          shortened ← truncate m committed_end
          if shortened then modify (λ s. record s { end = s.committed_end }) else pure tt
          end ← gets (λ s. s.end)
          set_size p m.gen end
          modify unlock_writer)
          s
  ]

  -- `PackCas::sync`
  unfoldable pub sync : M p (Unit {0})
  unfolding commit_batch
  sync s = elim s.wtxn [ none ↦ pure tt s | some txn ↦ commit_batch s ]

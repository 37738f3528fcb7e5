-- ===== src/Pack/Meta.antt =====
-- The meta records of `PackCas` in src/pack_cas.cpp: `WriteTxn`, `check_format`, `write_gen`,
-- `meta_put`, `meta_get`, `meta_del` and `meta_scan`.
pub mod Scan
use nix_tarmac.Base.{
  ℕ, Bool, true, false, Option, none, some, List, [], ◌∷◌, ◌==◌, length, if◌then◌else◌,
}
use nix_tarmac.Base.Bytes.{Bytes, bytes_eq, bytes_lt}
use nix_tarmac.Base.Result.{corrupt, runtime_error}
use nix_tarmac.Base.Exec.{pure, throw, modify, ◌>>=◌, ◌>>◌}
use nix_tarmac.Base.Text.{codes}
use nix_tarmac.Base.Little.{le64}
use nix_tarmac.Pack.Platform.{Platform}
use nix_tarmac.Pack.State.{Db, opened, M, check, txn_db, batch_txn, read_txn, gen_key}

abbrev pub format_key : Bytes
format_key = codes "format"

-- `kFormat`
abbrev pub format : Bytes
format = b'2' ∷ []

-- `key.starts_with(prefix)`
unfoldable pub starts_with : Bytes → Bytes → Bool
starts_with key [] = true
starts_with [] (b ∷ prefix) = false
starts_with (a ∷ key) (b ∷ prefix) =
    let rest = starts_with key prefix in if a == b then rest else false

-- `MDB_SET_RANGE`: on from the first key that is not below.
unfoldable pub set_range : Bytes → List (Bytes × Bytes) → List (Bytes × Bytes)
set_range low [] = []
set_range low ((key, val) ∷ rest) =
    let rest' = set_range low rest in if bytes_lt key low then rest' else (key, val) ∷ rest

module _ {T : Type 0} (p : Platform T) where
  -- `WriteTxn`, one write of the table in it, and `commit`: in the thread's batch, or in a
  -- transaction of its own. That LMDB waits while another thread has a batch is left out.
  write_txn : ℕ → (T → T) → M p (Unit {0})
  write_txn tid write s = elim (batch_txn p tid s) [
    | some txn ↦
        (do
          db ← txn_db p txn
          check p runtime_error
          modify (λ s. record s { wtxn = some (opened (record db { meta = write db.meta })) }))
          s
    | none ↦
        (do
          check p runtime_error
          check p runtime_error
          check p runtime_error
          modify
              (λ s. record s { committed = record s.committed { meta = write s.committed.meta } }))
          s
  ]

  unfoldable pub meta_put : ℕ → Bytes → Bytes → M p (Unit {0})
  unfolding write_txn
  meta_put tid key val = write_txn tid (p.lmdb.put key val)

  unfoldable pub meta_get : ℕ → Bytes → M p (Option Bytes)
  meta_get tid key = do db ← read_txn p tid; check p runtime_error; pure (p.lmdb.get key db.meta)

  -- A key that is not there is no error.
  unfoldable pub meta_del : ℕ → Bytes → M p (Unit {0})
  unfolding write_txn
  meta_del tid key = write_txn tid (p.lmdb.del key)

  -- The loop of `meta_scan`, with the calls of `MDB_NEXT`. The callback has a state `A`, and ends the
  -- loop with `false`.
  unfoldable pub scan_loop :
      {A : Type 0} → Bytes → (Bytes → Bytes → A → M p (A × Bool)) → List (Bytes × Bytes) → A → M p A
  scan_loop prefix callback [] seen = pure seen
  scan_loop prefix callback ((key, val) ∷ rest) seen =
      if starts_with key prefix
      then (do
        (seen', goes_on) ← callback key val seen
        let more = check p runtime_error >> scan_loop prefix callback rest seen'
        if goes_on then more else pure seen')
      else pure seen

  -- Opening the cursor and `MDB_SET_RANGE` may fail.
  unfoldable pub meta_scan :
      {A : Type 0} → ℕ → Bytes → (Bytes → Bytes → A → M p (A × Bool)) → A → M p A
  meta_scan tid prefix callback seen = do
    db ← read_txn p tid
    check p runtime_error
    check p runtime_error
    scan_loop prefix callback (set_range prefix (p.lmdb.entries db.meta)) seen

  -- `write_gen` and `check_format` in a transaction with the databases `db`: the new ones.
  unfoldable pub write_gen : ℕ → Db T → M p (Db T)
  write_gen gen db = do
    check p runtime_error
    pure (record db { meta = p.lmdb.put gen_key (le64 gen) db.meta })

  -- What the record of the format says.
  unfoldable pub check_record : Db T → M p (Db T)
  check_record db = elim (p.lmdb.get format_key db.meta) [
    | some val ↦ if bytes_eq val format then pure db else throw corrupt
    | none ↦ do
      check p runtime_error
      if length (p.lmdb.entries db.blobs) == 0
          then (check p runtime_error
              >> pure (record db { meta = p.lmdb.put format_key format db.meta }))
          else throw corrupt
  ]

  -- `mdb_get` may fail.
  unfoldable pub check_format : Db T → M p (Db T)
  unfolding check_record
  check_format db = check p runtime_error >> check_record db

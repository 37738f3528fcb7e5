-- ===== src/Pack/Blobs.antt =====
-- The operations on blobs of `PackCas`, src/pack_cas.cpp. `tid` is the thread that calls.
pub mod Reads
pub mod Writes
use nix_tarmac.Base.{
  ℕ, ◌+◌, ◌*◌, ◌^◌, Bool, true, false, Option, none, some, List, [], ◌∷◌, if◌then◌else◌, length,
  leb,
}
use nix_tarmac.Base.Bytes.{Bytes}
use nix_tarmac.Base.Result.{Error, runtime_error, logic_error, undefined}
use nix_tarmac.Base.Exec.{
  Outcome, Exec, returns, throws, pure, throw, lift, gets, modify, ◌>>=◌, ◌>>◌,
}
use nix_tarmac.Pack.File.{pwrite_all, pread_all}
use nix_tarmac.Pack.Index.{IndexEntry, entry_bytes}
use nix_tarmac.Pack.Blob.{stored_form, unpack, entry_for}
use nix_tarmac.Pack.Platform.{Platform}
use nix_tarmac.Pack.State.{
  Impl, Mapping, Db, Txn, opened, freed, M, check, with_file, txn_db, batch_txn, view, lookup,
  locate, current, file_size,
}
use nix_tarmac.Pack.Batch.{begin_batch, sync}

abbrev pub auto_sync_bytes : ℕ
auto_sync_bytes = 256 * 2 ^ 20

module _ {T : Type 0} (p : Platform T) where
  -- The first test of `put`.
  unfoldable pub ensure_batch : ℕ → M p (Unit {0})
  ensure_batch tid s = elim s.wtxn [
    | none ↦ begin_batch p tid s
    | some _ ↦ elim (batch_txn p tid s) [ none ↦ throw logic_error s | some _ ↦ pure tt s ]
  ]

  -- `mdb_put(wtxn, blobs, …, MDB_NOOVERWRITE)`: a key that is there is an error.
  unfoldable pub put_entry : Bytes → IndexEntry → M p (Unit {0})
  put_entry hash entry s = elim s.wtxn [
    | none ↦ throw undefined s
    | some txn ↦
        (do
          db ← txn_db p txn
          check p runtime_error
          elim (p.lmdb.get hash db.blobs) [
            | some _ ↦ throw runtime_error
            | none ↦ modify (λ s. record s {
              wtxn =
                  some
                    (opened (record db { blobs = p.lmdb.put hash (entry_bytes entry) db.blobs }));
            })
          ])
          s
  ]

  -- `put` of a blob that the index does not have yet.
  unfoldable pub append_blob : Bytes → Bytes → M p (Unit {0})
  unfolding put_entry
  append_blob hash raw = do
    m ← current p
    off ← gets (λ s. s.end)
    with_file p m.inode (pwrite_all p.kernel (stored_form p.lz4 raw) off)
    put_entry hash (entry_for p.lz4 off raw)
    modify λ s. record s {
      end = s.end + length (stored_form p.lz4 raw);
      batch_bytes = s.batch_bytes + length (stored_form p.lz4 raw);
    }

  unfoldable pub put : ℕ → Bytes → M p Bytes
  unfolding ensure_batch
  put tid raw = do
    let hash = p.blake3 raw
    ensure_batch tid
    (_, found) ← lookup p tid false hash
    elim found [
      | some _ ↦ pure hash
      | none ↦ do
        append_blob hash raw
        batch_bytes ← gets (λ s. s.batch_bytes)
        if leb auto_sync_bytes batch_bytes then sync p else pure tt
        pure hash
    ]

  unfoldable pub get : ℕ → Bytes → M p (Option Bytes)
  get tid hash = do
    found ← locate p tid hash
    elim found [
      | none ↦ pure none
      | some (entry, m) ↦ do
        stored ← with_file p m.inode (pread_all p.kernel entry.len entry.off)
        raw ← lift (unpack p.lz4 entry stored)
        pure (some raw)
    ]

  unfoldable pub get_view : ℕ → Bytes → M p (Option Bytes)
  get_view tid hash = do
    found ← locate p tid hash
    elim found [
      | none ↦ pure none
      | some (entry, m) ↦ do
        stored ← view p m entry.off entry.len
        raw ← lift (unpack p.lz4 entry stored)
        pure (some raw)
    ]

  unfoldable pub size : ℕ → Bytes → M p (Option ℕ)
  size tid hash = do
    (_, found) ← lookup p tid false hash
    elim found [ none ↦ pure none | some entry ↦ pure (some entry.raw_len) ]

  unfoldable pub has : ℕ → Bytes → M p Bool
  has tid hash = do
    (_, found) ← lookup p tid false hash
    elim found [ none ↦ pure false | some _ ↦ pure true ]

  unfoldable pub pack_size : M p ℕ
  pack_size = do m ← current p; file_size p m

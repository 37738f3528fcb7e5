-- ===== src/Pack/Compact.antt =====
-- `PackCas::compact` of src/pack_cas.cpp.
pub mod Copy
pub mod Loop
pub mod Index
pub mod Correct
pub mod Rewrite
use nix_tarmac.Base.{
  ℕ, zero, suc, ◌+◌, ◌*◌, ◌^◌, ◌%◌, Bool, true, false, Option, none, some, List, [], ◌∷◌, ◌++◌,
  length, leb, if◌then◌else◌,
}
use nix_tarmac.Base.Bytes.{Bytes}
use nix_tarmac.Base.Result.{Error, runtime_error, system_error, undefined}
use nix_tarmac.Base.Exec.{Exec, returns, throws, pure, throw, lift, gets, modify, ◌>>=◌, ◌>>◌}
use nix_tarmac.Pack.File.{write_all}
use nix_tarmac.Pack.Index.{IndexEntry, entry_bytes, decode_entry}
use nix_tarmac.Pack.Platform.{Platform}
use nix_tarmac.Pack.State.{
  Impl, Mapping, Db, update, M, check, with_file, read_gen, set_size, file_size, view, mapping_for,
}
use nix_tarmac.Pack.Batch.{on_throw, lock_writer, unlock_writer, sync}
use nix_tarmac.Pack.Meta.{write_gen}

abbrev pub compact_chunk : ℕ
compact_chunk = 4 * 2 ^ 20

-- `keep`, `buf` and `new_off`.
pub record Copied : Type 0 where
  pub keep : List (Bytes × IndexEntry)
  pub buf : Bytes
  pub new_off : ℕ

module _ {T : Type 0} (p : Platform T) where
  -- `O_CREAT | O_TRUNC`: an empty file of that name.
  unfoldable pub open_trunc : ℕ → M p ℕ
  open_trunc gen = do
    check p system_error
    λ s. elim (s.names gen) [
      | some inode ↦ returns inode (record s { contents = update s.contents inode [] })
      | none ↦ returns s.next_inode (record s {
        names = update s.names gen (some s.next_inode);
        contents = update s.contents s.next_inode [];
        next_inode = suc s.next_inode;
      })
    ]

  -- `unlink`, whose failure is ignored
  unfoldable pub unlink_pack : ℕ → Impl T → Impl T
  unlink_pack gen s =
      if p.kernel.fails s.calls
      then record s { calls = suc s.calls }
      else record s { calls = suc s.calls; names = update s.names gen none }

  -- The body of the loop over the index, for an entry that is live.
  unfoldable pub keep_entry : Mapping → ℕ → Bytes → IndexEntry → Copied → M p Copied
  keep_entry m inode hash entry c = do
    bytes ← view p m entry.off entry.len
    let buf = c.buf ++ bytes
    let full = leb compact_chunk (length buf)
    if full then with_file p inode (write_all p.kernel buf) else pure tt
    pure (record {
      keep =
          c.keep
          ++ ((hash, record { off = c.new_off; len = entry.len; raw_len = entry.raw_len }) ∷ []);
      buf = if full then [] else buf;
      new_off = (c.new_off + entry.len) % 2 ^ 64;
    })

  -- The loop, with the calls of `MDB_NEXT`.
  unfoldable pub copy_loop :
      Mapping → ℕ → (Bytes → Bool) → List (Bytes × Bytes) → Copied → M p Copied
  unfolding keep_entry
  copy_loop m inode live [] c = check p runtime_error >> pure c
  copy_loop m inode live ((hash, val) ∷ rest) c = do
    check p runtime_error
    entry ← lift (decode_entry val)
    c' ← (if live hash then keep_entry m inode hash entry c else pure c)
    copy_loop m inode live rest c'

  -- The loop over `keep`
  unfoldable pub put_entries : List (Bytes × IndexEntry) → T → M p T
  put_entries [] t = pure t
  put_entries ((hash, entry) ∷ keep) t = do
    check p runtime_error
    put_entries keep (p.lmdb.put hash (entry_bytes entry) t)

  -- The transaction on the index and `mdb_env_sync`. The transaction is `db`.
  unfoldable pub write_index : Db T → ℕ → Copied → M p ℕ
  unfolding put_entries
  write_index db gen c = do
    check p runtime_error
    blobs ← put_entries c.keep p.lmdb.empty
    db' ← write_gen p (gen + 1) (record db { blobs = blobs })
    check p runtime_error
    modify (λ s. record s { committed = db' })
    check p runtime_error
    pure c.new_off

  -- From the opening of the cursor to `mdb_env_sync`: `new_off`.
  unfoldable pub rewrite : Db T → ℕ → Mapping → ℕ → (Bytes → Bool) → M p ℕ
  unfolding copy_loop write_index
  rewrite db gen m inode live = do
    check p runtime_error
    c ←
        copy_loop m inode live (p.lmdb.entries db.blobs)
          (record { keep = []; buf = []; new_off = 0 })
    with_file p inode (write_all p.kernel c.buf)
    check p system_error
    write_index db gen c

  -- The `try` block. Until `new_fd` is -1 again, the `catch` block unlinks the new file.
  unfoldable pub compact_body : (Bytes → Bool) → M p (Unit {0})
  unfolding open_trunc unlink_pack rewrite
  compact_body live = do
    check p runtime_error
    db ← gets (λ s. s.committed)
    gen ← read_gen p db
    mapped ← mapping_for p gen true
    elim mapped [
      | none ↦ throw undefined
      | some m ↦ do
        size ← file_size p m
        set_size p gen size
        inode ← open_trunc (gen + 1)
        new_off ← on_throw (rewrite db gen m inode live) (unlink_pack (gen + 1))
        modify (unlink_pack gen)
        mapping_for p (gen + 1) true
        modify (λ s. record s { committed_end = new_off; end = new_off })
    ]

  unfoldable pub compact : (Bytes → Bool) → M p (Unit {0})
  unfolding compact_body
  compact live = do
    sync p
    lock_writer p
    on_throw (compact_body live) (unlock_writer p)
    modify (unlock_writer p)

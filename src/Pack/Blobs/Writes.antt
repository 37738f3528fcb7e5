-- ===== src/Pack/Blobs/Writes.antt =====
-- What `put` does to a sound index, whichever calls fail.
use nix_tarmac.Base.{
  Option-cases, ℕ, suc, ◌+◌, ◌^◌, ◌≤◌, ◌<◌, ◌≡◌, refl, subst, ◌⊎◌, inl, inr, true, none, some,
  arith, length, take, ==_refl, Bool-cases,
}
use nix_tarmac.Base.Bytes.{Bytes, bytes_eq, bytes_eq_iff}
use nix_tarmac.Base.Result.{Error, runtime_error, system_error}
use nix_tarmac.Base.Exec.{Outcome, Exec, returns, throws}
use nix_tarmac.Pack.File.{LastFails, Io, patch, pwrite_all}
use nix_tarmac.Pack.File.Slices.{slice-patch, slice-patch_below, length-patch}
use nix_tarmac.Pack.File.Loops.{Wrote, pwrite_all-Wrote}
use nix_tarmac.Pack.Index.{IndexEntry, entry_bytes, decode_entry-entry_bytes}
use nix_tarmac.Pack.Blob.{stored_form, entry_for, unpack-stored_form, stored_form-le}
use nix_tarmac.Pack.Platform.{Platform}
use nix_tarmac.Pack.State.{Impl, Mapping, Db, opened, check, with_file, txn_db, current, update}
use nix_tarmac.Pack.Blobs.{append_blob, put_entry}
use nix_tarmac.Pack.Blobs.Reads.{IsStored, IsSound}

module _ {T : Type 0} (p : Platform T) where
  -- Bytes past the bound may change.
  IsStored-patch :
      (bytes new : Bytes) (bound off : ℕ) (hash val : Bytes)
      → bound ≤ off
      → off ≤ length bytes
      → IsStored p bytes bound hash val
      → IsStored p (patch off new bytes) bound hash val
  IsStored-patch bytes new bound off hash val h fits st = record {
    entry = st.entry;
    raw = st.raw;
    decoded = st.decoded;
    inside = st.inside;
    unpacked =
        rw
          (slice-patch_below off st.entry.off st.entry.len new bytes fits
            (omega (arith, st.inside)))
          st.unpacked;
    hashed = st.hashed;
  }

  IsStored-mono :
      (bytes : Bytes) (a b : ℕ) (hash val : Bytes)
      → a ≤ b
      → IsStored p bytes a hash val
      → IsStored p bytes b hash val
  IsStored-mono bytes a b hash val h st = record {
    entry = st.entry;
    raw = st.raw;
    decoded = st.decoded;
    inside = omega (arith, st.inside);
    unpacked = st.unpacked;
    hashed = st.hashed;
  }

  -- The blob that has just been written at `off`.
  IsStored-new :
      (bytes raw : Bytes) (off : ℕ)
      → off ≤ length bytes
      → off + length raw < 2 ^ 64
      → IsStored p
          (patch off (stored_form p.lz4 raw) bytes)
          (off + length (stored_form p.lz4 raw))
          (p.blake3 raw)
          (entry_bytes (entry_for p.lz4 off raw))
  IsStored-new bytes raw off h fits = record {
    entry = entry_for p.lz4 off raw;
    raw = raw;
    decoded =
        decode_entry-entry_bytes (entry_for p.lz4 off raw) (record {
          raw_len_fits = omega arith;
          end_fits = omega (arith, stored_form-le p.lz4 raw);
        });
    inside = omega arith;
    unpacked =
        rw (slice-patch off (stored_form p.lz4 raw) bytes h) (unpack-stored_form p.lz4 off raw);
    hashed = refl;
  }

  -- An open batch: its index and the committed one are sound, and stay clear of what comes next.
  pub record IsBatch (s : Impl T) (db : Db T) (m : Mapping) : Type 0 where
    pub open_txn : s.wtxn ≡ some (opened db)
    pub mapped : s.cur ≡ some m
    pub ends : s.committed_end ≤ s.end
    pub end_inside : s.end ≤ length (s.contents m.inode)
    pub batch_sound : IsSound p (s.contents m.inode) s.end db
    pub committed_sound : IsSound p (s.contents m.inode) s.committed_end s.committed

  abbrev with_blob : Db T → ℕ → Bytes → Db T
  with_blob db off raw = record db {
    blobs = p.lmdb.put (p.blake3 raw) (entry_bytes (entry_for p.lz4 off raw)) db.blobs;
  }

  -- The batch goes on with the blob in its index, or without it if a call failed.
  abbrev pub Appends : Impl T → Db T → Mapping → Bytes → Outcome (Impl T) (Unit {0}) → Type 0
  Appends s db m raw (returns _ s') =
      (p.lmdb.get (p.blake3 raw) db.blobs ≡ none)
      × IsBatch s' (with_blob db s.end raw) m
      × (s'.end ≡ s.end + length (stored_form p.lz4 raw))
  Appends s db m raw (throws e s') =
      ((((e ≡ runtime_error) ⊎ (e ≡ system_error)) × LastFails p.kernel s'.calls)
        ⊎ ((e ≡ runtime_error) × (val : Bytes) × (p.lmdb.get (p.blake3 raw) db.blobs ≡ some val)))
      × IsBatch s' db m
      × (s'.end ≡ s.end)

  -- A write at the end of the batch, whole or in part.
  after_write :
      (s : Impl T) (db : Db T) (m : Mapping) (new : Bytes) (n : ℕ)
      → IsBatch s db m
      → IsBatch
          (record s {
            calls = n;
            contents = update s.contents m.inode (patch s.end new (s.contents m.inode));
          })
          db
          m
  after_write s db m new n h =
      let here = ==_refl m.inode in
      record {
        open_txn = h.open_txn;
        mapped = h.mapped;
        ends = h.ends;
        end_inside =
            rw here (
              omega
                (arith, length-patch s.end new (s.contents m.inode) h.end_inside, h.end_inside));
        batch_sound = rw here λ hash val there.
            IsStored-patch (s.contents m.inode) new s.end s.end hash val (omega arith) h.end_inside
              (h.batch_sound hash val there);
        committed_sound = rw here λ hash val there.
            IsStored-patch (s.contents m.inode) new s.committed_end s.end hash val h.ends
              h.end_inside (h.committed_sound hash val there);
      }

  -- After the whole write the index may take the blob.
  after_put :
      (s : Impl T) (db : Db T) (m : Mapping) (raw : Bytes) (n batch_bytes : ℕ)
      → s.end + length raw < 2 ^ 64
      → IsBatch s db m
      → IsBatch
          (record s {
            calls = n;
            contents =
                update s.contents m.inode
                  (patch s.end (stored_form p.lz4 raw) (s.contents m.inode));
            wtxn = some (opened (with_blob db s.end raw));
            end = s.end + length (stored_form p.lz4 raw);
            batch_bytes = batch_bytes;
          })
          (with_blob db s.end raw)
          m
  after_put s db m raw n batch_bytes fits h =
      let here = ==_refl m.inode in
      let new = stored_form p.lz4 raw in
      let bytes = patch s.end new (s.contents m.inode) in
      let written = after_write s db m new n h in
      record {
        open_txn = refl;
        mapped = h.mapped;
        ends = omega (arith, h.ends);
        end_inside =
            rw here (omega (arith, length-patch s.end new (s.contents m.inode) h.end_inside));
        batch_sound = rw here λ hash val there. elim (Bool-cases (bytes_eq (p.blake3 raw) hash)) [
          | inl same ↦
              let is_hash = (bytes_eq_iff (p.blake3 raw) hash).0 same in
              let is_val : some (entry_bytes (entry_for p.lz4 s.end raw)) ≡ some val =
                rw
                  (
                    p.lmdb.get-put hash (p.blake3 raw) (entry_bytes (entry_for p.lz4 s.end raw))
                        db.blobs,
                    same,
                  )
                  at there in
              subst (λ hash. IsStored p bytes (s.end + length new) hash val) is_hash
                (subst (λ val. IsStored p bytes (s.end + length new) (p.blake3 raw) val) (cc is_val)
                  (IsStored-new (s.contents m.inode) raw s.end h.end_inside fits))
          | inr other ↦ IsStored-mono bytes s.end (s.end + length new) hash val (omega arith) (
              (rw here at written.batch_sound) hash val (
                rw
                  (
                    p.lmdb.get-put hash (p.blake3 raw) (entry_bytes (entry_for p.lz4 s.end raw))
                        db.blobs,
                    other,
                  )
                  at there))
        ];
        committed_sound = written.committed_sound;
      }

  current_eq : (s : Impl T) (m : Mapping) → s.cur ≡ some m → current p s ≡ returns m s
  unfolding current
  current_eq s m e = ground arith

  abbrev after_io : Impl T → ℕ → Io → Impl T
  after_io s inode io = record s { calls = io.calls; contents = update s.contents inode io.bytes }

  with_file-returns :
      (s : Impl T) (inode : ℕ) (act : Exec Io (Unit {0})) (io : Io)
      → act (record { calls = s.calls; bytes = s.contents inode }) ≡ returns tt io
      → with_file p inode act s ≡ returns tt (after_io s inode io)
  unfolding with_file
  with_file-returns s inode act io e = rw (e, with_file)

  with_file-throws :
      (s : Impl T) (inode : ℕ) (act : Exec Io (Unit {0})) (io : Io) (x : Error)
      → act (record { calls = s.calls; bytes = s.contents inode }) ≡ throws x io
      → with_file p inode act s ≡ throws x (after_io s inode io)
  unfolding with_file
  with_file-throws s inode act io x e = rw (e, with_file)

  -- `put_entry` adds the record or, if its call fails or the index has the key, leaves the index alone.
  put_entry_cases :
      (s : Impl T) (db : Db T) (hash : Bytes) (entry : IndexEntry)
      → s.wtxn ≡ some (opened db)
      → ((put_entry p hash entry s ≡ throws runtime_error (record s { calls = suc s.calls }))
          × ((p.kernel.fails s.calls ≡ true)
              ⊎ ((val : Bytes) × (p.lmdb.get hash db.blobs ≡ some val))))
        ⊎ ((p.lmdb.get hash db.blobs ≡ none)
            × (put_entry p hash entry s
                ≡ returns tt (record s {
                  calls = suc s.calls;
                  wtxn =
                      some (
                        opened
                          (record db { blobs = p.lmdb.put hash (entry_bytes entry) db.blobs }));
                })))
  unfolding put_entry txn_db check
  put_entry_cases s db hash entry e = elim (Bool-cases (p.kernel.fails s.calls)) [
    | inl bad ↦ inl (ground arith, inl bad)
    | inr good ↦ elim (Option-cases (p.lmdb.get hash db.blobs)) [
      | inl absent ↦ inr (absent, rw (e, good, absent) refl)
      | inr (val, there) ↦ inl (rw (e, good, there) refl, inr (val, there))
    ]
  ]

  -- Appending a blob to an open batch, where it ends below 2^64, whichever calls fail: where it
  -- returns, the batch's index, which did not have the hash, has the blob under its hash, at the old
  -- end of the pack; it throws only if its last call has failed or the index has the hash already,
  -- and then the index and the end are as before. In every case the
  -- records of the batch and of the committed index still lead to blobs with their hashes.
  pub append_blob-Appends :
      (s : Impl T) (db : Db T) (m : Mapping) (raw : Bytes)
      → s.end + length raw < 2 ^ 64
      → IsBatch s db m
      → Appends s db m raw (append_blob p (p.blake3 raw) raw s)
  unfolding append_blob
  append_blob-Appends s db m raw fits h =
      go (pwrite_all p.kernel new s.end io) refl
        (pwrite_all-Wrote p.kernel new s.end io h.end_inside)
    where
      new : Bytes
      new = stored_form p.lz4 raw

      io : Io
      io = record { calls = s.calls; bytes = s.contents m.inode }

      go :
          (o : Outcome Io (Unit {0}))
          → pwrite_all p.kernel new s.end io ≡ o
          → Wrote p.kernel s.end new io.bytes o
          → Appends s db m raw (append_blob p (p.blake3 raw) raw s)
      go (throws e io') run ((is_sys, last), n, short, left) =
          rw
            (
              current_eq s m h.mapped,
              with_file-throws s m.inode (pwrite_all p.kernel new s.end) io' e run,
              left,
            )
            (inl (inr is_sys, last), after_write s db m (take n new) io'.calls h, refl)
      go (returns u io') run all =
          rw
            (
              current_eq s m h.mapped,
              with_file-returns s m.inode (pwrite_all p.kernel new s.end) io' run,
            )
            (elim (put_entry_cases (after_io s m.inode io') db (p.blake3 raw)
              (entry_for p.lz4 s.end raw) h.open_txn) [
                | inl (bad, inl fails) ↦
                    rw (bad, all)
                      (
                        inl (inl refl, (io'.calls, refl, fails)),
                        after_write s db m new (suc io'.calls) h,
                        refl,
                      )
                | inl (bad, inr (val, there)) ↦
                    rw (bad, all)
                      (inr (refl, val, there), after_write s db m new (suc io'.calls) h, refl)
                | inr (absent, good) ↦
                    rw (good, all) (absent, after_put s db m raw (suc io'.calls) _ fits h, refl)
              ])

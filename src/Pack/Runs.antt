-- ===== src/Pack/Runs.antt =====
-- A store with one blob, on concrete stand-ins for the system and the libraries.
mod Flushing
mod Marking
mod Table
mod Compaction
mod Scans
mod Opening
use nix_tarmac.Base.{
  ℕ, ◌%◌, ◌≤◌, ◌<◌, ◌^◌, ◌∙◌, sym, ◌≡◌, refl, ◌⊎◌, Bool, true, false, Option, none, some, List, [],
  ◌∷◌, inl, inr, length, if◌then◌else◌, leb, ◌==◌, arith, Bool-cases, subst,
}
use nix_tarmac.Base.Bytes.{Bytes, bytes_eq, bytes_lt, bytes_eq_iff}
use nix_tarmac.Base.Result.{ok, runtime_error}
use nix_tarmac.Pack.File.{Kernel, Io, zeros, slice, pwrite_all, pread_all}
use nix_tarmac.Pack.File.Loops.{Wrote, ReadBack, pwrite_all-Wrote, pread_all-ReadBack}
use nix_tarmac.Pack.Index.{IndexEntry, entry_bytes, decode_entry, decode_entry-entry_bytes}
use nix_tarmac.Pack.Platform.{Lmdb, Lz4, Platform}
use nix_tarmac.Pack.Blob.{stored_form, unpack, entry_for, unpack-stored_form, stored_form-le}
use nix_tarmac.Pack.Runs.Table.{Log, table_lmdb}
use nix_tarmac.Pack.State.{Impl, Mapping, Db, Txn, opened, batch_txn, gen_of}
use nix_tarmac.Pack.Batch.{commit_batch, abort_batch}
use nix_tarmac.Pack.Batch.Abort.{Aborted, abort_batch-Aborted}
use nix_tarmac.Pack.Batch.Commit.{Committed, Broken, commit_batch-Commits}
use nix_tarmac.Pack.Blobs.{get, append_blob}
use nix_tarmac.Pack.Blobs.Reads.{IsStored, IsSound, Reads, Answers, get-Answers}
use nix_tarmac.Base.Exec.{Exec, Ends, pure, returns}
use nix_tarmac.TreeObject.{TreeEntry}
use nix_tarmac.Live.{contains, insert, mark_entries, mark_loop, mark_live}
use nix_tarmac.Live.Closed.{Closed, Agrees}
use nix_tarmac.Live.Reach.{here}
use nix_tarmac.Gc.Keeps.{Survives, rewrite_keeps_reachable}
use nix_tarmac.Pack.Meta.{starts_with, meta_scan}
use nix_tarmac.Pack.Meta.Scan.{prefixed, fold_records, Sees, meta_scan-fold}
use nix_tarmac.Pack.Compact.{rewrite}
use nix_tarmac.Pack.Compact.Copy.{live_entries, live_entries-kept, total}
use nix_tarmac.Pack.Compact.Correct.{RawFits, kept_entries}
use nix_tarmac.Pack.Compact.Rewrite.{Rewritten, Unfinished, rewrite-Rewritten}
use nix_tarmac.Pack.Blobs.Writes.{IsBatch, Appends, append_blob-Appends}

moves_le : (wanted : ℕ) → (if leb wanted 3 then wanted else 3) ≤ wanted
moves_le wanted = ground arith

moves_some : (wanted : ℕ) → 0 < wanted → 0 < (if leb wanted 3 then wanted else 3)
moves_some wanted pos = ground arith

not_packed : {A : Type 0} (packed : Bytes) → none ≡ some packed → A
not_packed packed e = absurd (ground arith)

-- Three bytes at a time, and the fifth call fails.
abbrev the_kernel : Kernel
the_kernel = record {
  fails = λ call. call == 5;
  moved = λ call wanted. if leb wanted 3 then wanted else 3;
  busy = λ call. false;
  moved-le = λ call wanted. moves_le wanted;
  moved-pos = λ call wanted pos. moves_some wanted pos;
}

-- Nothing is worth compressing.
abbrev the_lz4 : Lz4
the_lz4 = record {
  max_input = 2113929216;
  compress = λ raw cap. none;
  decompress = λ stored raw_len. none;
  max_input-lt = omega arith;
  compress-fits = λ raw packed cap e. not_packed packed e;
  decompress-compress = λ raw packed cap e. not_packed packed e;
}

abbrev the_platform : Platform Log
the_platform = record {
  kernel = the_kernel;
  lmdb = table_lmdb;
  lz4 = the_lz4;
  blake3 = λ raw. length raw % 256 ∷ zeros 31;
  length-blake3 = λ raw. refl;
}

abbrev old_bytes : Io
old_bytes = record { calls = 0; bytes = 1 ∷ 2 ∷ 3 ∷ 4 ∷ [] }

pwrite_all-Wrote_example :
    Wrote the_kernel 2
      (9 ∷ 9 ∷ 9 ∷ 9 ∷ [])
      old_bytes.bytes
      (pwrite_all the_kernel (9 ∷ 9 ∷ 9 ∷ 9 ∷ []) 2 old_bytes)
pwrite_all-Wrote_example =
    pwrite_all-Wrote the_kernel (9 ∷ 9 ∷ 9 ∷ 9 ∷ []) 2 old_bytes (omega arith)

pread_all-ReadBack_example :
    ReadBack the_kernel [] 4 0 old_bytes.bytes (pread_all the_kernel 4 0 old_bytes)
pread_all-ReadBack_example = pread_all-ReadBack the_kernel 4 0 old_bytes

abbrev one_entry : IndexEntry
one_entry = record { off = 0; len = 4; raw_len = 4 }

one_decoded : decode_entry (entry_bytes one_entry) ≡ ok one_entry
one_decoded =
    decode_entry-entry_bytes one_entry
      (record { raw_len_fits = omega arith; end_fits = omega arith })

decode_entry-entry_bytes_example : decode_entry (entry_bytes one_entry) ≡ ok one_entry
decode_entry-entry_bytes_example =
    decode_entry-entry_bytes one_entry
      (record { raw_len_fits = omega arith; end_fits = omega arith })

abbrev one_blob : Bytes
one_blob = 1 ∷ 2 ∷ 3 ∷ 4 ∷ []

unpack-stored_form_example :
    unpack the_lz4 (entry_for the_lz4 0 one_blob) (stored_form the_lz4 one_blob) ≡ ok one_blob
unpack-stored_form_example = unpack-stored_form the_lz4 0 one_blob

abbrev one_hash : Bytes
one_hash = 4 ∷ zeros 31

abbrev one_db : Db Log
one_db = record { blobs = (one_hash, entry_bytes one_entry) ∷ []; meta = [] }

one_db-IsSound : IsSound the_platform one_blob 4 one_db
unfolding slice unpack
one_db-IsSound hash val there = elim (Bool-cases (bytes_eq one_hash hash)) [
  | inr other ↦ absurd (ground arith)
  | inl same ↦ record {
    entry = one_entry;
    raw = one_blob;
    decoded =
        subst (λ val. decode_entry val ≡ ok one_entry) (cc (rw same at there))
          (decode_entry-entry_bytes one_entry
            (record { raw_len_fits = omega arith; end_fits = omega arith }));
    inside = omega arith;
    unpacked = refl;
    hashed = (bytes_eq_iff one_hash hash).0 same;
  }
]

abbrev the_mapping : Mapping
the_mapping = record { gen = 0; inode = 0; size = 4 }

abbrev the_impl : Option (Txn Log) → Impl Log
the_impl wtxn = record {
  calls = 0;
  contents = λ inode. one_blob;
  names = λ gen. if gen == 0 then some 0 else none;
  next_inode = 1;
  committed = one_db;
  locked = false;
  cur = some the_mapping;
  retired = [];
  wtxn = wtxn;
  writer_thread = 0;
  committed_end = 4;
  end = 4;
  batch_bytes = 0;
}

idle-Reads : Reads the_platform 7 (the_impl none) one_db the_mapping
unfolding batch_txn gen_of
idle-Reads = record {
  seen = inr (refl, refl);
  mapped = refl;
  same_gen = refl;
  sound = one_db-IsSound;
}

get-Answers_example :
    Answers the_platform one_db one_hash (get the_platform 7 one_hash (the_impl none))
get-Answers_example =
    get-Answers the_platform 7 one_hash (the_impl none) one_db the_mapping refl idle-Reads

open-IsBatch : IsBatch the_platform (the_impl (some (opened one_db))) one_db the_mapping
open-IsBatch = record {
  open_txn = refl;
  mapped = refl;
  ends = omega arith;
  end_inside = omega arith;
  batch_sound = one_db-IsSound;
  committed_sound = one_db-IsSound;
}

append_blob-Appends_example :
    Appends the_platform
      (the_impl (some (opened one_db)))
      one_db
      the_mapping
      (5 ∷ 6 ∷ [])
      (append_blob the_platform (2 ∷ zeros 31) (5 ∷ 6 ∷ []) (the_impl (some (opened one_db))))
append_blob-Appends_example =
    append_blob-Appends the_platform (the_impl (some (opened one_db))) one_db the_mapping
      (5 ∷ 6 ∷ []) (omega arith) open-IsBatch

commit_batch-Commits_example :
    Ends
      (λ _ t. Committed the_platform (the_impl (some (opened one_db))) one_db the_mapping t)
      (λ _ t. Broken the_platform (the_impl (some (opened one_db))) one_db the_mapping t)
      (commit_batch the_platform (the_impl (some (opened one_db))))
commit_batch-Commits_example =
    commit_batch-Commits the_platform (the_impl (some (opened one_db))) one_db the_mapping
      open-IsBatch

abort_batch-Aborted_example :
    Ends
      (λ _ t. Aborted the_platform (the_impl (some (opened one_db))) the_mapping t)
      (λ _ t. ⊥)
      (abort_batch the_platform (the_impl (some (opened one_db))))
abort_batch-Aborted_example =
    abort_batch-Aborted the_platform (the_impl (some (opened one_db))) one_db the_mapping
      open-IsBatch

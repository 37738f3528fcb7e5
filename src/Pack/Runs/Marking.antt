-- ===== src/Pack/Runs/Marking.antt =====
-- A root that is the tree object of an empty directory, which is the empty blob.
use nix_tarmac.Base.{
  ◌≡◌, refl, none, List, [], ◌∷◌, inl, inr, arith, subst, Bool-cases, ◌+◌, ◌*◌, ℕ, true, false,
  Option, some,
}
use nix_tarmac.Base.Bytes.{Bytes, bytes_eq, bytes_eq_iff}
use nix_tarmac.Base.Result.{ok}
use nix_tarmac.Base.Exec.{returns, final}
use nix_tarmac.Pack.File.{slice}
use nix_tarmac.Pack.Index.{IndexEntry, entry_bytes, decode_entry, decode_entry-entry_bytes}
use nix_tarmac.Pack.Blob.{unpack}
use nix_tarmac.Pack.State.{Impl, Db, batch_txn, gen_of}
use nix_tarmac.Pack.Blobs.Reads.{IsSound, Reads}
use nix_tarmac.Roots.{read_tree}
use nix_tarmac.TreeObject.{decode_tree, decode_loop, reverse_onto}
use nix_tarmac.Live.{contains, mark_live}
use nix_tarmac.Live.Closed.{Has, OneKind, Closed}
use nix_tarmac.Live.Reach.{Reaches}
use nix_tarmac.Gc.Reading.{unpacked_at, tree_of}
use nix_tarmac.Gc.Walks.{mark_live-read_tree}
use nix_tarmac.Pack.Runs.Table.{Log}
use nix_tarmac.Pack.Runs.{the_platform, one_blob, the_mapping, the_impl}

abbrev no_entry : IndexEntry
no_entry = record { off = 0; len = 0; raw_len = 0 }

abbrev root_hash : Bytes
root_hash = the_platform.blake3 []

abbrev root_db : Db Log
root_db = record { blobs = (root_hash, entry_bytes no_entry) ∷ []; meta = [] }

abbrev root_impl : Impl Log
root_impl = record (the_impl none) { committed = root_db }

no_decoded : decode_entry (entry_bytes no_entry) ≡ ok no_entry
no_decoded =
    decode_entry-entry_bytes no_entry
      (record { raw_len_fits = omega arith; end_fits = omega arith })

root_db-IsSound : IsSound the_platform one_blob 4 root_db
unfolding slice unpack
root_db-IsSound hash val there = elim (Bool-cases (bytes_eq root_hash hash)) [
  | inr other ↦ absurd (ground arith)
  | inl same ↦ record {
    entry = no_entry;
    raw = [];
    decoded = subst (λ val. decode_entry val ≡ ok no_entry) (cc (rw same at there)) no_decoded;
    inside = omega arith;
    unpacked = refl;
    hashed = (bytes_eq_iff root_hash hash).0 same;
  }
]

root-Reads : Reads the_platform 7 root_impl root_db the_mapping
unfolding batch_txn gen_of
root-Reads = record {
  seen = inr (refl, refl);
  mapped = refl;
  same_gen = refl;
  sound = root_db-IsSound;
}

no_entries : (id : Bytes) → tree_of the_platform root_db one_blob id ≡ []
unfolding unpacked_at slice unpack decode_tree decode_loop reverse_onto
no_entries id = elim (Bool-cases (bytes_eq root_hash id)) [
  | inr other ↦ rw other refl
  | inl same ↦ rw (same, no_decoded, unpacked_at) refl
]

entries-OneKind :
    (id : Bytes)
    → OneKind
        (tree_of the_platform root_db one_blob)
        (bytes_eq root_hash)
        (tree_of the_platform root_db one_blob id)
entries-OneKind id = rw (no_entries id) tt

nothing-Closed : Closed (tree_of the_platform root_db one_blob) (bytes_eq root_hash) []
nothing-Closed id child h d c = absurd (rw (no_entries id) at c)

abbrev after_walk : Impl Log
after_walk = final (mark_live (read_tree the_platform 7) 2 root_hash [] root_impl)

root_walked :
    mark_live (read_tree the_platform 7) 2 root_hash [] root_impl
    ≡ returns (root_hash ∷ [], none) after_walk
unfolding mark_live nix_tarmac.Live.mark_loop nix_tarmac.Live.insert contains read_tree
    nix_tarmac.Pack.Blobs.get nix_tarmac.Pack.State.locate nix_tarmac.Pack.State.lookup
    nix_tarmac.Pack.State.read_txn batch_txn nix_tarmac.Pack.State.check
    nix_tarmac.Pack.State.read_gen bytes_eq nix_tarmac.Live.mark_entries unpack gen_of
    nix_tarmac.Pack.State.known_mapping nix_tarmac.Pack.State.locate_loop
    nix_tarmac.Pack.State.mapping_for nix_tarmac.Pack.State.with_file decode_loop decode_tree
    reverse_onto slice nix_tarmac.Pack.File.pread_all nix_tarmac.Pack.File.pread_loop decode_entry
    entry_bytes nix_tarmac.Base.Little.le64 nix_tarmac.Base.Little.le_value
    nix_tarmac.Base.Little.le_bytes nix_tarmac.Pack.State.txn_db
root_walked = refl

mark_live-read_tree_example :
    ((id : Bytes) → Has [] id → Has (root_hash ∷ []) id)
    × ((id : Bytes)
        → Reaches (tree_of the_platform root_db one_blob) (bytes_eq root_hash) root_hash id
        → Has (root_hash ∷ []) id)
    × Closed (tree_of the_platform root_db one_blob) (bytes_eq root_hash) (root_hash ∷ [])
mark_live-read_tree_example =
    mark_live-read_tree the_platform 7 root_db the_mapping one_blob (bytes_eq root_hash) 2 root_hash
      [] (root_hash ∷ []) root_impl after_walk entries-OneKind nothing-Closed (root-Reads, refl)
      root_walked

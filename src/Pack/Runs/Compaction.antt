-- ===== src/Pack/Runs/Compaction.antt =====
-- A collection that keeps the one blob of the store.
use nix_tarmac.Base.{
  ◌<◌, ◌^◌, ◌∙◌, sym, ◌≡◌, refl, ◌⊎◌, Bool, none, List, [], ◌∷◌, inl, inr, if◌then◌else◌, ◌==◌,
  arith, Bool-cases, subst,
}
use nix_tarmac.Base.Bytes.{Bytes, bytes_eq}
use nix_tarmac.Base.Result.{ok}
use nix_tarmac.Pack.Index.{IndexEntry, entry_bytes, decode_entry}
use nix_tarmac.Pack.Runs.Table.{Log}
use nix_tarmac.Pack.State.{Impl, batch_txn, gen_of}
use nix_tarmac.Pack.Blobs.Reads.{IsStored, Reads}
use nix_tarmac.Base.Exec.{Ends, returns}
use nix_tarmac.TreeObject.{TreeEntry}
use nix_tarmac.Live.{contains, insert, mark_loop, mark_live}
use nix_tarmac.Live.Closed.{OneKind, Closed}
use nix_tarmac.Live.Reach.{here}
use nix_tarmac.Roots.{read_tree}
use nix_tarmac.TreeObject
use nix_tarmac.TreeObject.{decode_tree, decode_loop, byte_at, known_type}
use nix_tarmac.Pack.File.{slice}
use nix_tarmac.Pack.Blob.{unpack}
use nix_tarmac.Gc.Reading.{unpacked_at, tree_of}
use nix_tarmac.Gc.Keeps.{Survives, rewrite_keeps_reachable}
use nix_tarmac.Pack.Compact.{rewrite}
use nix_tarmac.Pack.Compact.Copy.{live_entries, live_entries-kept, total}
use nix_tarmac.Pack.Compact.Correct.{RawFits, kept_entries}
use nix_tarmac.Pack.Compact.Rewrite.{Rewritten, Unfinished, rewrite-Rewritten}
use nix_tarmac.Pack.Runs.{
  the_platform, one_entry, one_decoded, one_blob, one_hash, one_db, one_db-IsSound, the_mapping,
  the_impl,
}

-- The new pack is the file 1, which is empty yet.
abbrev with_new_pack : Impl Log
with_new_pack = record (the_impl none) { contents = λ inode. if inode == 0 then one_blob else [] }

abbrev is_one : Bytes → Bool
is_one hash = bytes_eq one_hash hash

one_db-RawFits : RawFits the_platform is_one one_db
one_db-RawFits hash val entry there decoded = elim (Bool-cases (bytes_eq one_hash hash)) [
  | inr other ↦ absurd (ground arith)
  | inl same ↦
      let val_is : entry_bytes one_entry ≡ val = cc (rw same at there) in
      let entry_is : one_entry ≡ entry =
        cc (sym (subst (λ x. decode_entry x ≡ ok one_entry) val_is one_decoded) ∙ decoded) in
      subst (λ (e : IndexEntry). e.raw_len < 2 ^ 64) entry_is (omega arith)
]

one-kept : kept_entries the_platform is_one one_db ≡ (one_hash, one_entry) ∷ []
unfolding live_entries bytes_eq
one-kept = live_entries-kept is_one one_hash (entry_bytes one_entry) [] one_entry one_decoded refl

one-fits : total (kept_entries the_platform is_one one_db) < 2 ^ 64
unfolding total
one-fits = subst (λ l. total l < 2 ^ 64) (sym one-kept) (omega arith)

rewrite-Rewritten_example :
    Ends
      (Rewritten the_platform one_db 0 the_mapping 1 refl is_one with_new_pack)
      (Unfinished the_platform one_db 0 the_mapping 1 refl is_one with_new_pack)
      (rewrite the_platform one_db 0 the_mapping 1 is_one with_new_pack)
rewrite-Rewritten_example =
    rewrite-Rewritten the_platform one_db 0 the_mapping 1 refl is_one with_new_pack refl
      one_db-IsSound one_db-RawFits one-fits

-- The blob is no tree object, so that no id of the index has a tree with entries.
no_tree : (id : Bytes) → tree_of the_platform one_db one_blob id ≡ []
unfolding unpacked_at slice unpack decode_tree decode_loop TreeObject.decode_entry byte_at
    known_type
no_tree id = elim (Bool-cases (bytes_eq one_hash id)) [
  | inr other ↦ rw other refl
  | inl same ↦ rw (same, one_decoded, unpacked_at) refl
]

no_tree-OneKind :
    (id : Bytes)
    → OneKind
        (tree_of the_platform one_db one_blob)
        is_one
        (tree_of the_platform one_db one_blob id)
no_tree-OneKind id = rw (no_tree id) tt

any-Closed : (live : List Bytes) → Closed (tree_of the_platform one_db one_blob) is_one live
any-Closed live id child h d c = absurd (rw (no_tree id) at c)

pack-Reads : Reads the_platform 7 with_new_pack one_db the_mapping
unfolding batch_txn gen_of
pack-Reads = record {
  seen = inr (refl, refl);
  mapped = refl;
  same_gen = refl;
  sound = one_db-IsSound;
}

walked :
    mark_live (read_tree the_platform 7) 2 one_hash (one_hash ∷ []) with_new_pack
    ≡ returns (one_hash ∷ [], none) with_new_pack
unfolding mark_live mark_loop insert contains bytes_eq
walked = refl

abbrev marked_live : Bytes → Bool
marked_live hash = contains hash (one_hash ∷ [])

marked-RawFits : RawFits the_platform marked_live one_db
marked-RawFits = one_db-RawFits

marked-kept : kept_entries the_platform marked_live one_db ≡ (one_hash, one_entry) ∷ []
unfolding live_entries bytes_eq contains
marked-kept =
    live_entries-kept marked_live one_hash (entry_bytes one_entry) [] one_entry one_decoded refl

marked-fits : total (kept_entries the_platform marked_live one_db) < 2 ^ 64
unfolding total
marked-fits = subst (λ l. total l < 2 ^ 64) (sym marked-kept) (omega arith)

one_stored : IsStored the_platform one_blob 4 one_hash (entry_bytes one_entry)
unfolding bytes_eq
one_stored = one_db-IsSound one_hash (entry_bytes one_entry) refl

rewrite_keeps_reachable_example :
    Ends
      (λ n t. Survives the_platform one_stored 1 t)
      (λ e t. (t.committed ≡ one_db) ⊎ Survives the_platform one_stored 1 t)
      (rewrite the_platform one_db 0 the_mapping 1 marked_live with_new_pack)
unfolding bytes_eq
rewrite_keeps_reachable_example =
    rewrite_keeps_reachable the_platform 7 is_one 2 one_hash (one_hash ∷ []) (one_hash ∷ [])
      (one_hash ∷ []) with_new_pack with_new_pack one_db 0 the_mapping 1 refl with_new_pack one_hash
      (entry_bytes one_entry) one_stored no_tree-OneKind (any-Closed (one_hash ∷ []))
      (pack-Reads, refl) walked (λ id h. h) refl one_db-IsSound marked-RawFits marked-fits here refl

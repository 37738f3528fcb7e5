-- ===== src/Pack/Blobs/Reads.antt =====
-- What a reader gets from a sound index, whichever calls fail.
use nix_tarmac.Base.{
  ℕ, suc, ◌+◌, ◌≤◌, ◌≡◌, refl, ap, ◌⊎◌, inl, inr, Bool, true, Option, none, some, [], arith, length,
  Bool-cases, Option-cases,
}
use nix_tarmac.Base.Bytes.{Bytes}
use nix_tarmac.Base.Result.{ok, runtime_error, system_error}
use nix_tarmac.Base.Exec.{Outcome, returns, throws, lift, ◌>>=◌}
use nix_tarmac.Pack.File.{LastFails, Io, slice, pread_all}
use nix_tarmac.Pack.File.Loops.{ReadBack, pread_all-ReadBack}
use nix_tarmac.Pack.Index.{IndexEntry, decode_entry}
use nix_tarmac.Pack.Blob.{unpack}
use nix_tarmac.Pack.Platform.{Platform}
use nix_tarmac.Pack.State.{
  Impl, Mapping, Db, opened, check, with_file, txn_db, batch_txn, read_txn, gen_of, read_gen,
  lookup, locate, locate_loop, mapping_for, known_mapping, hash_len,
}
use nix_tarmac.Pack.Blobs.{get, size}

module _ {T : Type 0} (p : Platform T) where
  -- The bytes that an index record points to unpack to a blob with that hash.
  pub record IsStored (bytes : Bytes) (bound : ℕ) (hash val : Bytes) : Type 0 where
    pub entry : IndexEntry
    pub raw : Bytes
    pub decoded : decode_entry val ≡ ok entry
    pub inside : entry.off + entry.len ≤ bound
    pub unpacked : unpack p.lz4 entry (slice entry.off entry.len bytes) ≡ ok raw
    pub hashed : p.blake3 raw ≡ hash

  abbrev pub IsSound : Bytes → ℕ → Db T → Type 0
  IsSound bytes bound db =
      (hash val : Bytes) → p.lmdb.get hash db.blobs ≡ some val → IsStored bytes bound hash val

  -- The databases `db` that a thread reads, with the current mapping `m`.
  pub record Reads (tid : ℕ) (s : Impl T) (db : Db T) (m : Mapping) : Type 0 where
    pub seen :
        (batch_txn p tid s ≡ some (opened db)) ⊎ ((batch_txn p tid s ≡ none) × (s.committed ≡ db))
    pub mapped : s.cur ≡ some m
    pub same_gen : gen_of p db ≡ ok m.gen
    pub sound : IsSound (s.contents m.inode) (length (s.contents m.inode)) db

  abbrev pub at_call : Impl T → ℕ → Impl T
  at_call s n = record s { calls = n }

  module _ {tid : ℕ} {s : Impl T} {db : Db T} {m : Mapping} (h : Reads tid s db m) where
    read_txn_cases :
        ((read_txn p tid s ≡ throws runtime_error (at_call s (suc s.calls)))
          × (p.kernel.fails s.calls ≡ true))
        ⊎ ((n : ℕ) × (read_txn p tid s ≡ returns db (at_call s n)))
    unfolding read_txn check txn_db
    read_txn_cases = elim h.seen [
      | inl e ↦ inr (s.calls, rw (e, read_txn))
      | inr (e, c) ↦ elim (Bool-cases (p.kernel.fails s.calls)) [
        | inl bad ↦ inl (rw (e, read_txn, bad), bad)
        | inr good ↦ inr (suc s.calls, rw (e, read_txn, good, c))
      ]
    ]

    -- The answers of `lookup` with the generation, for a hash of the right length.
    lookup_cases :
        (hash : Bytes)
        → length hash ≡ hash_len
        → (n : ℕ) × (((lookup p tid true hash s ≡ throws runtime_error (at_call s n))
              × LastFails p.kernel n)
            ⊎ ((p.lmdb.get hash db.blobs ≡ none)
                × (lookup p tid true hash s ≡ returns (m.gen, none) (at_call s n)))
            ⊎ ((val : Bytes) × (st : IsStored
                  (s.contents m.inode)
                  (length (s.contents m.inode))
                  hash
                  val)
                × (p.lmdb.get hash db.blobs ≡ some val)
                × (lookup p tid true hash s ≡ returns (m.gen, some st.entry) (at_call s n))))
    unfolding lookup check read_gen
    lookup_cases hash size = elim read_txn_cases [
      | inl (e, fails) ↦ (suc s.calls, inl (rw (size, e), (s.calls, refl, fails)))
      | inr (n, e) ↦ elim (Bool-cases (p.kernel.fails n)) [
        | inl bad ↦ (suc n, inl (rw (size, e, bad), (n, refl, bad)))
        | inr fine ↦ elim (Bool-cases (p.kernel.fails (suc n))) [
          | inl bad ↦ (suc (suc n), inl (rw (size, e, fine, h.same_gen, bad), (suc n, refl, bad)))
          | inr good ↦ elim (Option-cases (p.lmdb.get hash db.blobs)) [
            | inl absent ↦
                (suc (suc n), inr (inl (absent, rw (size, e, fine, h.same_gen, good, absent))))
            | inr (val, there) ↦
                let st = h.sound hash val there in
                (
                  suc (suc n),
                  inr (
                      inr
                        (val, st, there, rw (size, e, fine, h.same_gen, good, there, st.decoded))),
                )
          ]
        ]
      ]
    ]

    mapping_for_cur :
        (n : ℕ) (create : Bool)
        → mapping_for p m.gen create (at_call s n) ≡ returns (some m) (at_call s n)
    unfolding mapping_for known_mapping
    mapping_for_cur n create = ground (arith, h.mapped)

    -- The answers of `locate`; its first attempt is enough.
    pub locate_cases :
        (left : ℕ) (hash : Bytes)
        → length hash ≡ hash_len
        → (n : ℕ) × (((locate_loop p (suc left) tid hash s ≡ throws runtime_error (at_call s n))
              × LastFails p.kernel n)
            ⊎ ((p.lmdb.get hash db.blobs ≡ none)
                × (locate_loop p (suc left) tid hash s ≡ returns none (at_call s n)))
            ⊎ ((val : Bytes) × (st : IsStored
                  (s.contents m.inode)
                  (length (s.contents m.inode))
                  hash
                  val)
                × (p.lmdb.get hash db.blobs ≡ some val)
                × (locate_loop p (suc left) tid hash s
                    ≡ returns (some (st.entry, m)) (at_call s n))))
    unfolding locate_loop
    locate_cases left hash size =
        let (n, cases) = lookup_cases hash size in
        elim cases [
          | inl (e, last) ↦ (n, inl (rw e, last))
          | inr (inl (absent, e)) ↦ (n, inr (inl (absent, rw e)))
          | inr (inr (val, st, there, e)) ↦
              (n, inr (inr (val, st, there, rw (e, mapping_for_cur n))))
        ]

  -- What `get` may answer for a hash: nothing only if the index has no such hash, otherwise a blob
  -- with that hash; and no exception but that of a last call that failed.
  abbrev pub Answers : Db T → Bytes → Outcome (Impl T) (Option Bytes) → Type 0
  Answers db hash (returns none s) = p.lmdb.get hash db.blobs ≡ none
  Answers db hash (returns (some raw) s) = p.blake3 raw ≡ hash
  Answers db hash (throws e s) =
      ((e ≡ runtime_error) ⊎ (e ≡ system_error)) × LastFails p.kernel s.calls

  read_stored :
      {bytes : Bytes} {hash val : Bytes} (db : Db T) (st : IsStored bytes (length bytes) hash val)
      (s : Impl T) (inode : ℕ)
      → s.contents inode ≡ bytes
      → Answers db hash (
          (with_file p inode (pread_all p.kernel st.entry.len st.entry.off) >>= λ stored.
          lift (unpack p.lz4 st.entry stored) >>= λ raw. λ t. returns (some raw) t)
            s)
  unfolding with_file
  read_stored {bytes} {hash} db st s inode same =
      go (pread_all p.kernel st.entry.len st.entry.off io) refl
        (pread_all-ReadBack p.kernel st.entry.len st.entry.off io)
    where
      io : Io
      io = record { calls = s.calls; bytes = s.contents inode }

      go :
          (o : Outcome Io Bytes)
          → pread_all p.kernel st.entry.len st.entry.off io ≡ o
          → ReadBack p.kernel [] st.entry.len st.entry.off io.bytes o
          → Answers db hash (
              (with_file p inode (pread_all p.kernel st.entry.len st.entry.off) >>= λ stored.
              lift (unpack p.lz4 st.entry stored) >>= λ raw. λ t. returns (some raw) t)
                s)
      go (returns got io') e (is_slice, whole, kept) =
          rw (e, with_file, is_slice, same, st.unpacked) st.hashed
      go (throws x io') e (inl (is_sys, last), kept) = rw (e, with_file) (inr is_sys, last)
      go (throws x io') e (inr (is_corrupt, short), kept) =
          absurd (omega (arith, st.inside, ap length same))

  -- With a sound index, a current mapping of the generation that it names and a hash of 32 bytes,
  -- whichever calls fail, `get` never answers with other bytes than the hash stands for, says that a
  -- blob is missing only if the index has no such hash, and throws only if its last call has
  -- failed, and never `CorruptError`.
  pub get-Answers :
      (tid : ℕ) (hash : Bytes) (s : Impl T) (db : Db T) (m : Mapping)
      → length hash ≡ hash_len
      → Reads tid s db m
      → Answers db hash (get p tid hash s)
  unfolding get locate
  get-Answers tid hash s db m size h =
      let (n, cases) = locate_cases h 7 hash size in
      elim cases [
        | inl (e, last) ↦ rw e (inl refl, last)
        | inr (inl (absent, e)) ↦ rw e absent
        | inr (inr (val, st, there, e)) ↦ rw e (read_stored db st (at_call s n) m.inode refl)
      ]

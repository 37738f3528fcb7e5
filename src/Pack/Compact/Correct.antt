-- ===== src/Pack/Compact/Correct.antt =====
-- What `compact` makes of a sound index.
use nix_tarmac.Base.{
  ℕ, ◌^◌, ◌<◌, ◌≡◌, refl, sym, ap, ◌∙◌, subst, ◌⊎◌, inl, inr, Bool, true, false, none, some, List,
  [], ◌∷◌, arith, Bool-cases, Option-cases, length, length-append,
}
use nix_tarmac.Base.Bytes.{Bytes, bytes_eq_refl}
use nix_tarmac.Base.Result.{ok}
use nix_tarmac.Pack.File.{slice}
use nix_tarmac.Pack.Index.{IndexEntry, decode_entry, decode_entry-entry_bytes}
use nix_tarmac.Pack.Blob.{unpack}
use nix_tarmac.Pack.Platform.{Lz4, Platform, assoc, Rises}
use nix_tarmac.Pack.State.{Db}
use nix_tarmac.Pack.Blobs.Reads.{IsStored, IsSound}
use nix_tarmac.Pack.Compact.Copy.{
  live_entries, live_entries-kept, live_entries-dead, moved, packed, total,
}
use nix_tarmac.Pack.Compact.Index.{
  Leads, Leads-rest, Rises-rest, Relocated, filled, filled-Avoids, filled-Relocated,
  live_entries-Avoids, length-slice,
}

unpack-same :
    (lz4 : Lz4) (a b : IndexEntry) (stored : Bytes)
    → a.len ≡ b.len
    → a.raw_len ≡ b.raw_len
    → unpack lz4 a stored ≡ unpack lz4 b stored
unfolding unpack
unpack-same lz4 a b stored e f = rw (e, f) refl

module _ {T : Type 0} (p : Platform T) (live : Bytes → Bool) where
  -- `raw_len` is a uint64_t.
  abbrev pub RawFits : Db T → Type 0
  RawFits db =
      (hash val : Bytes) (entry : IndexEntry)
      → p.lmdb.get hash db.blobs ≡ some val
      → decode_entry val ≡ ok entry
      → entry.raw_len < 2 ^ 64

  abbrev pub kept_entries : Db T → List (Bytes × IndexEntry)
  kept_entries db = live_entries live (p.lmdb.entries db.blobs)

  -- The index `db'` of the pack `new` has the blobs of `db` whose hash is live, and no others.
  pub record Compacted (old new : Bytes) (db db' : Db T) (new_off : ℕ) : Type 0 where
    pub whole : new_off ≡ length new
    pub sound : IsSound p new new_off db'
    pub kept :
        (hash val : Bytes) (st : IsStored p old (length old) hash val)
        → live hash ≡ true
        → p.lmdb.get hash db.blobs ≡ some val
        → (val' : Bytes) × (p.lmdb.get hash db'.blobs ≡ some val')
          × (st' : IsStored p new new_off hash val') × (st'.raw ≡ st.raw)
    pub dropped :
        (hash : Bytes)
        → (live hash ≡ false) ⊎ (p.lmdb.get hash db.blobs ≡ none)
        → p.lmdb.get hash db'.blobs ≡ none

  length-packed :
      (old : Bytes) (entries : List (Bytes × Bytes))
      → Rises entries
      → Leads p live old entries
      → length (packed old (live_entries live entries)) ≡ total (live_entries live entries)
  unfolding packed total live_entries
  length-packed old [] r leads = refl
  length-packed old ((k, v) ∷ rest) r leads =
      let (entry, good, ins) = leads k v (rw (bytes_eq_refl k) refl) in
      let l = live_entries live rest in
      let ih =
        length-packed old rest (Rises-rest p live k rest r)
          (Leads-rest p live old k v rest r leads) in
      elim (Bool-cases (live k)) [
        | inl kept ↦ rw (live_entries-kept live k v rest entry good kept) (
            omega (
              arith,
              ih,
              length-append (slice entry.off entry.len old) (packed old l),
              length-slice entry.off entry.len old ins,
            ))
        | inr dead ↦ rw (live_entries-dead live k v rest entry good dead) ih
      ]

  Relocated-IsStored :
      (old new : Bytes) (bound : ℕ) (hash val val' : Bytes)
      (st : IsStored p old (length old) hash val)
      → bound ≡ length new
      → bound < 2 ^ 64
      → st.entry.raw_len < 2 ^ 64
      → Relocated p live old new val val'
      → (st' : IsStored p new bound hash val') × (st'.raw ≡ st.raw)
  Relocated-IsStored old new bound hash val val' st whole fits raw_fits moved =
      let same : moved.from ≡ st.entry = cc (sym moved.decoded ∙ st.decoded) in
      let same_len : moved.to.len ≡ st.entry.len =
        moved.same_len ∙ ap (λ (e : IndexEntry). e.len) same in
      let same_raw : moved.to.raw_len ≡ st.entry.raw_len =
        moved.same_raw_len ∙ ap (λ (e : IndexEntry). e.raw_len) same in
      let bytes : slice moved.to.off moved.to.len new ≡ slice st.entry.off st.entry.len old =
        moved.same_bytes ∙ ap (λ (e : IndexEntry). slice e.off e.len old) same in
      (
        record {
          entry = moved.to;
          raw = st.raw;
          decoded =
              ap decode_entry moved.is_val
              ∙ decode_entry-entry_bytes moved.to (record {
                raw_len_fits = omega (arith, same_raw);
                end_fits = omega (arith, moved.inside);
              });
          inside = omega (arith, moved.inside);
          unpacked =
              ap (unpack p.lz4 moved.to) bytes
              ∙ (unpack-same p.lz4 moved.to st.entry _ same_len same_raw ∙ st.unpacked);
          hashed = st.hashed;
        },
        refl,
      )

  module _ (old : Bytes) (db : Db T) (sound : IsSound p old (length old) db) (raw_fits : RawFits db)
      (fits : total (kept_entries db) < 2 ^ 64) where
    leads : Leads p live old (p.lmdb.entries db.blobs)
    leads j val there =
        let st = sound j val (sym (p.lmdb.assoc-entries j db.blobs) ∙ there) in
        (st.entry, st.decoded, st.inside)

    new_length : total (kept_entries db) ≡ length (packed old (kept_entries db))
    new_length =
        sym (length-packed old (p.lmdb.entries db.blobs) (p.lmdb.entries-Rises db.blobs) leads)

    moved_blob :
        (hash val : Bytes) (st : IsStored p old (length old) hash val)
        → live hash ≡ true
        → p.lmdb.get hash db.blobs ≡ some val
        → (val' : Bytes) × (p.lmdb.get hash (filled p (moved 0 (kept_entries db)) p.lmdb.empty)
            ≡ some val')
          × (st' : IsStored p (packed old (kept_entries db)) (total (kept_entries db)) hash val')
          × (st'.raw ≡ st.raw)
    moved_blob hash val st is_live there =
        let (val', found, reloc) =
          filled-Relocated p live old [] 0 (p.lmdb.entries db.blobs) p.lmdb.empty hash val refl
            (p.lmdb.entries-Rises db.blobs) leads is_live
            (p.lmdb.assoc-entries hash db.blobs ∙ there) in
        let (st', same_raw) =
          Relocated-IsStored old (packed old (kept_entries db)) (total (kept_entries db)) hash val
            val' st new_length fits (raw_fits hash val st.entry there st.decoded) reloc in
        (val', found, st', same_raw)

    dropped_blob :
        (hash : Bytes)
        → (live hash ≡ false) ⊎ (p.lmdb.get hash db.blobs ≡ none)
        → p.lmdb.get hash (filled p (moved 0 (kept_entries db)) p.lmdb.empty) ≡ none
    dropped_blob hash h =
        let h' : (live hash ≡ false) ⊎ (assoc hash (p.lmdb.entries db.blobs) ≡ none) = elim h [
          | inl d ↦ inl d
          | inr e ↦ inr (p.lmdb.assoc-entries hash db.blobs ∙ e)
        ] in
        filled-Avoids p hash (moved 0 (kept_entries db)) p.lmdb.empty
          (live_entries-Avoids p live hash 0 (p.lmdb.entries db.blobs) h')
        ∙ p.lmdb.get-empty hash

    pub filled-Compacted :
        (db' : Db T)
        → db'.blobs ≡ filled p (moved 0 (kept_entries db)) p.lmdb.empty
        → Compacted old (packed old (kept_entries db)) db db' (total (kept_entries db))
    filled-Compacted db' same = record {
      whole = new_length;
      kept = λ hash val st is_live there. rw same (moved_blob hash val st is_live there);
      dropped = λ hash h. rw same (dropped_blob hash h);
      sound = λ hash val' found.
          let found' = ap (p.lmdb.get hash) (sym same) ∙ found in
          elim (Bool-cases (live hash)) [
            | inr dead ↦ absurd (cc (sym (dropped_blob hash (inl dead)) ∙ found'))
            | inl is_live ↦ elim (Option-cases (p.lmdb.get hash db.blobs)) [
              | inl absent ↦ absurd (cc (sym (dropped_blob hash (inr absent)) ∙ found'))
              | inr (val, there) ↦
                  let (val'', e, st, same_raw) =
                    moved_blob hash val (sound hash val there) is_live there in
                  let same_val : val'' ≡ val' = cc (sym e ∙ found') in
                  subst
                    (λ x.
                      IsStored p (packed old (kept_entries db)) (total (kept_entries db)) hash x)
                    same_val st
            ]
          ];
    }

-- ===== src/Gc/Reading.antt =====
-- What the walk reads: `TreeStore::readTree` on a sound index.
use nix_tarmac.Base.{
  ℕ, ◌≡◌, refl, sym, subst, ◌⊎◌, inl, inr, Option, none, some, List, [], ◌∷◌, ◌++◌, map, arith,
  length, ◌==◌, Bool-cases,
}
use nix_tarmac.Base.Bytes.{Bytes, bytes_eq}
use nix_tarmac.Base.Result.{ok, err, Result-cases}
use nix_tarmac.Base.Exec.{Outcome, returns, throws, lift, Ends, ◌>>=◌}
use nix_tarmac.Pack.File.{Io, slice, pread_all}
use nix_tarmac.Pack.File.Loops.{ReadBack, pread_all-ReadBack}
use nix_tarmac.Pack.Index.{decode_entry}
use nix_tarmac.Pack.Blob.{unpack}
use nix_tarmac.Pack.Platform.{Platform, assoc}
use nix_tarmac.Pack.State.{
  Impl, Mapping, Db, update, with_file, batch_txn, lookup, locate, locate_loop, hash_len,
}
use nix_tarmac.Pack.Blobs.{get}
use nix_tarmac.Pack.Blobs.Reads.{IsStored, Reads, at_call, locate_cases}
use nix_tarmac.TreeObject.{TreeEntry, decode_tree}
use nix_tarmac.Roots.{read_tree}
use nix_tarmac.Live.Closed.{Has, IsChild, Has-cons}

module _ {T : Type 0} (p : Platform T) where
  -- The blob of an index record, in the bytes of a pack.
  unfoldable pub unpacked_at : Bytes → Bytes → Option Bytes
  unpacked_at bytes val = elim (decode_entry val) [
    | err e ↦ none
    | ok entry ↦ elim (unpack p.lz4 entry (slice entry.off entry.len bytes)) [
      | err e ↦ none
      | ok raw ↦ some raw
    ]
  ]

  abbrev pub entries_in : Option Bytes → List TreeEntry
  entries_in none = []
  entries_in (some raw) = elim (decode_tree raw) [ err e ↦ [] | ok entries ↦ entries ]

  abbrev pub tree_at : Bytes → Option Bytes → List TreeEntry
  tree_at bytes none = []
  tree_at bytes (some val) = entries_in (unpacked_at bytes val)

  -- The tree that an index and a pack have under an id, empty if there is none.
  abbrev pub tree_of : Db T → Bytes → Bytes → List TreeEntry
  tree_of db bytes id = tree_at bytes (p.lmdb.get id db.blobs)

  -- The index and the pack that a thread reads.
  abbrev pub Sees : ℕ → Db T → Mapping → Bytes → Impl T → Type 0
  Sees tid db m bytes s = Reads p tid s db m × (s.contents m.inode ≡ bytes)

  unpacked_at-stored :
      {bytes hash val : Bytes} {bound : ℕ} (st : IsStored p bytes bound hash val)
      → unpacked_at bytes val ≡ some st.raw
  unfolding unpacked_at
  unpacked_at-stored st = rw (st.decoded, unpacked_at, st.unpacked) refl

  Sees-moved :
      (tid : ℕ) (db : Db T) (m : Mapping) (s : Impl T) (n : ℕ) (bytes : Bytes)
      → Reads p tid s db m
      → bytes ≡ s.contents m.inode
      → Sees tid db m
          (s.contents m.inode)
          (record s { calls = n; contents = update s.contents m.inode bytes })
  unfolding batch_txn
  Sees-moved tid db m s n bytes h same =
      let here : update s.contents m.inode bytes m.inode ≡ s.contents m.inode =
        ground (arith, same) in
      (
        record { seen = h.seen; mapped = h.mapped; same_gen = h.same_gen; sound = rw here h.sound },
        here,
      )

  abbrev pub Reading : ℕ → Db T → Mapping → Bytes → Bytes → List TreeEntry → Impl T → Type 0
  Reading tid db m bytes id entries t = (entries ≡ tree_of db bytes id) × Sees tid db m bytes t

  -- What `get` gives for a record of a sound index.
  abbrev Got : ℕ → Db T → Mapping → Bytes → Bytes → Option Bytes → Impl T → Type 0
  Got tid db m bytes id found t =
      (elim found [ none ↦ [] | some raw ↦ entries_in (some raw) ] ≡ tree_of db bytes id)
      × Sees tid db m bytes t

  get_stored :
      {tid : ℕ} {db : Db T} {m : Mapping} {id val : Bytes} (s : Impl T)
      (st : IsStored p (s.contents m.inode) (length (s.contents m.inode)) id val)
      → Reads p tid s db m
      → p.lmdb.get id db.blobs ≡ some val
      → Ends
          (Got tid db m (s.contents m.inode) id)
          (λ e t. Unit {0})
          ((with_file p m.inode (pread_all p.kernel st.entry.len st.entry.off) >>= λ stored.
              lift (unpack p.lz4 st.entry stored) >>= λ raw. λ t. returns (some raw) t)
            s)
  unfolding with_file
  get_stored {tid} {db} {m} {id} {val} s st h there =
      go (pread_all p.kernel st.entry.len st.entry.off io) refl
        (pread_all-ReadBack p.kernel st.entry.len st.entry.off io)
    where
      io : Io
      io = record { calls = s.calls; bytes = s.contents m.inode }

      go :
          (o : Outcome Io Bytes)
          → pread_all p.kernel st.entry.len st.entry.off io ≡ o
          → ReadBack p.kernel [] st.entry.len st.entry.off io.bytes o
          → Ends
              (Got tid db m (s.contents m.inode) id)
              (λ e t. Unit {0})
              ((with_file p m.inode (pread_all p.kernel st.entry.len st.entry.off) >>= λ stored.
                  lift (unpack p.lz4 st.entry stored) >>= λ raw. λ t. returns (some raw) t)
                s)
      go (returns got io') e (is_slice, whole, kept) =
          rw (e, with_file, is_slice, st.unpacked)
            (
              rw (there, unpacked_at-stored st) refl,
              Sees-moved tid db m s io'.calls io'.bytes h kept,
            )
      go (throws x io') e bad = rw (e, with_file) tt

  Reads-at_call :
      (tid : ℕ) (db : Db T) (m : Mapping) (s : Impl T) (n : ℕ)
      → Reads p tid s db m
      → Reads p tid (at_call p s n) db m
  unfolding batch_txn
  Reads-at_call tid db m s n h = record {
    seen = h.seen;
    mapped = h.mapped;
    same_gen = h.same_gen;
    sound = h.sound;
  }

  get-Got :
      (tid : ℕ) (db : Db T) (m : Mapping) (id : Bytes) (s : Impl T)
      → Reads p tid s db m
      → Ends (Got tid db m (s.contents m.inode) id) (λ e t. Unit {0}) (get p tid id s)
  unfolding get locate locate_loop lookup
  get-Got tid db m id s h = elim (Bool-cases (length id == hash_len)) [
    | inr bad ↦ rw (bad, get) tt
    | inl good ↦
        let (n, cases) = locate_cases p h 7 id (ground arith) in
        elim cases [
          | inl (e, last) ↦ rw (e, get) tt
          | inr (inl (absent, e)) ↦
              rw (e, get) (rw absent refl, (Reads-at_call tid db m s n h, refl))
          | inr (inr (val, st, there, e)) ↦
              rw (e, get) (get_stored (at_call p s n) st (Reads-at_call tid db m s n h) there)
        ]
  ]

  -- On an index and a pack that are sound, `readTree` gives the tree that they have under the id, or
  -- throws.
  pub read_tree-Reading :
      (tid : ℕ) (db : Db T) (m : Mapping) (bytes id : Bytes) (s : Impl T)
      → Sees tid db m bytes s
      → Ends (Reading tid db m bytes id) (λ e t. Unit {0}) (read_tree p tid id s)
  unfolding read_tree
  read_tree-Reading tid db m bytes id s (h, same) = go (get p tid id s) refl (
      subst (λ b. Ends (Got tid db m b id) (λ e t. Unit {0}) (get p tid id s)) same
        (get-Got tid db m id s h))
    where
      go :
          (o : Outcome (Impl T) (Option Bytes))
          → get p tid id s ≡ o
          → Ends (Got tid db m bytes id) (λ e t. Unit {0}) o
          → Ends (Reading tid db m bytes id) (λ e t. Unit {0}) (read_tree p tid id s)
      go (throws x t) e got = rw (e, read_tree) tt
      go (returns none t) e got = rw (e, read_tree) tt
      go (returns (some raw) t) e (is_tree, sees) = elim (Result-cases (decode_tree raw)) [
        | inr (x, bad) ↦ rw (e, read_tree, bad) tt
        | inl (entries, good) ↦ rw (e, read_tree, good) (rw (entries_in, good) at is_tree, sees)
      ]

  -- The ids in the trees of the records of an index.
  unfoldable pub named_ids : Bytes → List (Bytes × Bytes) → List Bytes
  named_ids bytes [] = []
  named_ids bytes ((key, val) ∷ rest) =
      map (λ (entry : TreeEntry). entry.id) (tree_at bytes (some val)) ++ named_ids bytes rest

  Has-ids :
      (child : Bytes) (entries : List TreeEntry) (more : List Bytes)
      → IsChild child entries ⊎ Has more child
      → Has (map (λ (entry : TreeEntry). entry.id) entries ++ more) child
  Has-ids child [] more (inl c) = absurd c
  Has-ids child [] more (inr h) = h
  Has-ids child (entry ∷ entries) more (inl (inl same)) = (Has-cons child entry.id _).1 (inl same)
  Has-ids child (entry ∷ entries) more (inl (inr c)) =
      (Has-cons child entry.id _).1 (inr (Has-ids child entries more (inl c)))
  Has-ids child (entry ∷ entries) more (inr h) =
      (Has-cons child entry.id _).1 (inr (Has-ids child entries more (inr h)))

  Has-named_ids :
      (bytes id child : Bytes) (records : List (Bytes × Bytes))
      → IsChild child (tree_at bytes (assoc id records))
      → Has (named_ids bytes records) child
  unfolding named_ids
  Has-named_ids bytes id child [] c = absurd c
  Has-named_ids bytes id child ((key, val) ∷ rest) c = elim (Bool-cases (bytes_eq key id)) [
    | inl same ↦ Has-ids child (tree_at bytes (some val)) _ (inl (rw same at c))
    | inr other ↦
        Has-ids child (tree_at bytes (some val)) _
          (inr (Has-named_ids bytes id child rest (rw other at c)))
  ]

  -- Every id in a tree of the index is among these.
  unfoldable pub tree_ids : Db T → Bytes → List Bytes
  tree_ids db bytes = named_ids bytes (p.lmdb.entries db.blobs)

  pub Has-tree_ids :
      (db : Db T) (bytes id child : Bytes)
      → IsChild child (tree_of db bytes id)
      → Has (tree_ids db bytes) child
  unfolding tree_ids
  Has-tree_ids db bytes id child c = Has-named_ids bytes id child (p.lmdb.entries db.blobs) (
      subst (λ found. IsChild child (tree_at bytes found)) (sym (p.lmdb.assoc-entries id db.blobs))
        c)

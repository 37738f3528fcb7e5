-- ===== src/Pack/Compact/Copy.antt =====
-- What the loop of `compact` over the index copies.
use nix_tarmac.Base.{
  ℕ, ◌+◌, ◌^◌, ◌%◌, ◌≡◌, refl, sym, ap, ◌∙◌, subst, inl, inr, Bool, true, false, List, [], ◌∷◌,
  ◌++◌, length, leb, ltb, ◌==◌, ==_refl, if◌then◌else◌, arith, Bool-cases, append_assoc, append-nil,
}
use nix_tarmac.Base.Bytes.{Bytes}
use nix_tarmac.Base.Result.{Error, ok, err}
use nix_tarmac.Base.Exec.{Ends, Ends-continue, Ends_mono, Outcome-cases}
use nix_tarmac.Pack.File.{Io, slice, write_all, pwrite_all}
use nix_tarmac.Pack.File.Slices.{patch_end}
use nix_tarmac.Pack.File.Loops.{Wrote, pwrite_all-Wrote}
use nix_tarmac.Pack.Index.{IndexEntry, decode_entry}
use nix_tarmac.Pack.Platform.{Platform}
use nix_tarmac.Pack.State.{
  Impl, Mapping, update, map_size, check, with_file, set_size, file_size, size_of, refresh, view,
}
use nix_tarmac.Pack.Compact.{Copied, compact_chunk, keep_entry}

-- The live entries of the index, as far as they can be decoded.
unfoldable pub live_entries : (Bytes → Bool) → List (Bytes × Bytes) → List (Bytes × IndexEntry)
live_entries live [] = []
live_entries live ((hash, val) ∷ rest) = elim (decode_entry val) [
  | err e ↦ []
  | ok entry ↦ if live hash then (hash, entry) ∷ live_entries live rest else live_entries live rest
]

module _ (live : Bytes → Bool) (hash val : Bytes) (rest : List (Bytes × Bytes)) where
  pub live_entries-bad :
      (e : Error) → decode_entry val ≡ err e → live_entries live ((hash, val) ∷ rest) ≡ []
  unfolding live_entries
  live_entries-bad e bad = rw (live_entries, bad) refl

  module _ (entry : IndexEntry) (good : decode_entry val ≡ ok entry) where
    pub live_entries-kept :
        live hash ≡ true
        → live_entries live ((hash, val) ∷ rest) ≡ (hash, entry) ∷ live_entries live rest
    unfolding live_entries
    live_entries-kept kept = rw (live_entries, good, kept) refl

    pub live_entries-dead :
        live hash ≡ false → live_entries live ((hash, val) ∷ rest) ≡ live_entries live rest
    unfolding live_entries
    live_entries-dead dead = rw (live_entries, good, dead) refl

-- Their records in the new pack, on from an offset, their stored bytes one after the other, and how
-- many these are.
unfoldable pub moved : ℕ → List (Bytes × IndexEntry) → List (Bytes × IndexEntry)
moved off [] = []
moved off ((hash, entry) ∷ rest) =
    (hash, record { off = off; len = entry.len; raw_len = entry.raw_len })
    ∷ moved (off + entry.len) rest

unfoldable pub packed : Bytes → List (Bytes × IndexEntry) → Bytes
packed bytes [] = []
packed bytes ((hash, entry) ∷ rest) = slice entry.off entry.len bytes ++ packed bytes rest

unfoldable pub total : List (Bytes × IndexEntry) → ℕ
total [] = 0
total ((hash, entry) ∷ rest) = entry.len + total rest

module _ {T : Type 0} (p : Platform T) where
  -- Two states with the same files, names and committed index.
  pub record Same (s t : Impl T) : Type 0 where
    pub contents : t.contents ≡ s.contents
    pub names : t.names ≡ s.names
    pub committed : t.committed ≡ s.committed

  pub Same-refl : (s : Impl T) → Same s s
  Same-refl s = record { contents = refl; names = refl; committed = refl }

  pub check-Ends : (e : Error) (s : Impl T) → Ends (λ _ t. Same s t) (λ _ t. Same s t) (check p e s)
  unfolding check
  check-Ends e s = elim (Bool-cases (p.kernel.fails s.calls)) [
    | inl bad ↦ rw bad (record { contents = refl; names = refl; committed = refl })
    | inr good ↦ rw good (record { contents = refl; names = refl; committed = refl })
  ]

  pub view-Ends :
      (m : Mapping) (off len : ℕ) (s : Impl T)
      → Ends
          (λ b t. (b ≡ slice off len (s.contents m.inode)) × Same s t)
          (λ _ t. Same s t)
          (view p m off len s)
  unfolding view refresh file_size set_size check
  view-Ends m off len s = elim (Bool-cases (ltb map_size (off + len))) [
    | inl far ↦ rw far (Same-refl s)
    | inr near ↦ elim (Bool-cases (ltb (size_of p m s) (off + len))) [
      | inr known ↦ rw (near, known) (refl, Same-refl s)
      | inl grown ↦ elim (Bool-cases (p.kernel.fails s.calls)) [
        | inl bad ↦
            rw (near, grown, bad) (record { contents = refl; names = refl; committed = refl })
        | inr good ↦ elim (Bool-cases (ltb (length (s.contents m.inode)) (off + len))) [
          | inl short ↦
              rw (near, grown, good, short)
                (record { contents = refl; names = refl; committed = refl })
          | inr there ↦
              rw (near, grown, good, there)
                (refl, record { contents = refl; names = refl; committed = refl })
        ]
      ]
    ]
  ]

  module _ (m : Mapping) (inode : ℕ) (apart : (inode == m.inode) ≡ false) where
    -- What writing to the new file leaves as it was.
    pub record Frame (s t : Impl T) : Type 0 where
      pub old_pack : t.contents m.inode ≡ s.contents m.inode
      pub names : t.names ≡ s.names
      pub committed : t.committed ≡ s.committed

    pub Frame-refl : (s : Impl T) → Frame s s
    Frame-refl s = record { old_pack = refl; names = refl; committed = refl }

    pub Frame-trans : (s t u : Impl T) → Frame s t → Frame t u → Frame s u
    Frame-trans s t u f g = record {
      old_pack = g.old_pack ∙ f.old_pack;
      names = g.names ∙ f.names;
      committed = g.committed ∙ f.committed;
    }

    pub Frame-of_Same : (s t : Impl T) → Same s t → Frame s t
    Frame-of_Same s t h = record {
      old_pack = ap (λ (f : ℕ → Bytes). f m.inode) h.contents;
      names = h.names;
      committed = h.committed;
    }

    written-Frame :
        (s : Impl T) (io : Io)
        → Frame s (record s { calls = io.calls; contents = update s.contents inode io.bytes })
    written-Frame s io = record { old_pack = rw apart; names = refl; committed = refl }

    pub write-Ends :
        (buf : Bytes) (s : Impl T)
        → Ends
            (λ _ t. (t.contents inode ≡ s.contents inode ++ buf) × Frame s t)
            (λ _ t. Frame s t)
            (with_file p inode (write_all p.kernel buf) s)
    unfolding with_file write_all
    write-Ends buf s =
        let old = s.contents inode in
        let io : Io = record { calls = s.calls; bytes = old } in
        elim (Outcome-cases (pwrite_all p.kernel buf (length old) io)) [
          | inl (u, io', e) ↦
              let wrote =
                subst (Wrote p.kernel (length old) buf old) e
                  (pwrite_all-Wrote p.kernel buf (length old) io (omega arith)) in
              rw (e, with_file, write_all)
                (rw (==_refl inode) (wrote ∙ patch_end old buf), written-Frame s io')
          | inr (x, io', e) ↦ rw (e, with_file, write_all) (written-Frame s io')
        ]

    -- The copied bytes are those of the new file and of the buffer.
    abbrev pub Kept : Impl T → Copied → Bytes → IndexEntry → Copied → Impl T → Type 0
    Kept s c hash entry c' t =
        (c'.keep
          ≡ c.keep
            ++ ((hash, record { off = c.new_off; len = entry.len; raw_len = entry.raw_len }) ∷ []))
        × (c'.new_off ≡ (c.new_off + entry.len) % 2 ^ 64)
        × (t.contents inode ++ c'.buf
            ≡ (s.contents inode ++ c.buf) ++ slice entry.off entry.len (s.contents m.inode))
        × Frame s t

    -- `view`, and a frame where it throws.
    abbrev Viewed : ℕ → ℕ → Impl T → Bytes → Impl T → Type 0
    Viewed off len s b t = (b ≡ slice off len (s.contents m.inode)) × Same s t

    view-Frame :
        (off len : ℕ) (s : Impl T) → Ends (Viewed off len s) (λ _ t. Frame s t) (view p m off len s)
    view-Frame off len s =
        Ends_mono (Viewed off len s) (Viewed off len s) (λ _ t. Same s t) (λ _ t. Frame s t)
          (view p m off len s) (view-Ends m off len s) (λ a t h. h) (λ e t h. Frame-of_Same s t h)

    Kept-bytes :
        (s t u : Impl T) (c : Copied) (entry : IndexEntry) (bytes buf : Bytes)
        → bytes ≡ slice entry.off entry.len (s.contents m.inode)
        → Same s t
        → u.contents inode ++ buf ≡ t.contents inode ++ (c.buf ++ bytes)
        → u.contents inode ++ buf
          ≡ (s.contents inode ++ c.buf) ++ slice entry.off entry.len (s.contents m.inode)
    Kept-bytes s t u c entry bytes buf is_slice same e =
        e
        ∙ ap (λ (x : Bytes). x ++ (c.buf ++ bytes)) (ap (λ (f : ℕ → Bytes). f inode) same.contents)
        ∙ sym (append_assoc (s.contents inode) c.buf bytes)
        ∙ ap (λ (x : Bytes). (s.contents inode ++ c.buf) ++ x) is_slice

    pub keep_entry-Ends :
        (hash : Bytes) (entry : IndexEntry) (c : Copied) (s : Impl T)
        → Ends (Kept s c hash entry) (λ _ t. Frame s t) (keep_entry p m inode hash entry c s)
    unfolding keep_entry
    keep_entry-Ends hash entry c s =
        Ends-continue (Viewed entry.off entry.len s) (Kept s c hash entry) (λ _ t. Frame s t)
          (view p m entry.off entry.len s) _ (view-Frame entry.off entry.len s)
          λ bytes t (is_slice, same).
            elim (Bool-cases (leb compact_chunk (length (c.buf ++ bytes)))) [
              | inl full ↦ rw full (
                  Ends-continue
                    (λ _ u. (u.contents inode ≡ t.contents inode ++ (c.buf ++ bytes)) × Frame t u)
                    (Kept s c hash entry) (λ _ t. Frame s t)
                    (with_file p inode (write_all p.kernel (c.buf ++ bytes)) t) _
                    (Ends_mono _ _ (λ _ u. Frame t u) (λ _ u. Frame s u)
                      (with_file p inode (write_all p.kernel (c.buf ++ bytes)) t)
                      (write-Ends (c.buf ++ bytes) t) (λ a u h. h)
                      (λ e u h. Frame-trans s t u (Frame-of_Same s t same) h))
                    λ _ u (wrote, frame). (
                      refl,
                      refl,
                      Kept-bytes s t u c entry bytes [] is_slice same
                          (append-nil (u.contents inode) ∙ wrote),
                      Frame-trans s t u (Frame-of_Same s t same) frame,
                    ))
              | inr room ↦ rw room (
                refl,
                refl,
                Kept-bytes s t t c entry bytes (c.buf ++ bytes) is_slice same refl,
                Frame-of_Same s t same,
              )
            ]

-- ===== src/Pack/Compact/Rewrite.antt =====
-- `rewrite`: a pack of the live blobs, and one transaction that makes it the current one.
use nix_tarmac.Base.{
  ℕ, ◌+◌, ◌^◌, ◌<◌, ◌≡◌, refl, sym, ap, ◌∙◌, subst, ◌⊎◌, inl, inr, Bool, false, List, [], ◌∷◌, ◌++◌,
  arith, length, ◌==◌,
}
use nix_tarmac.Base.Bytes.{Bytes}
use nix_tarmac.Base.Result.{Error, runtime_error, system_error}
use nix_tarmac.Base.Little.{le64}
use nix_tarmac.Base.Exec.{Exec, Outcome, returns, continue, Ends, Ends-continue, Ends_mono}
use nix_tarmac.Pack.File.{write_all}
use nix_tarmac.Pack.Index.{IndexEntry, entry_bytes}
use nix_tarmac.Pack.Platform.{Platform}
use nix_tarmac.Pack.State.{Impl, Mapping, Db, check, with_file, gen_key}
use nix_tarmac.Pack.Meta.{write_gen}
use nix_tarmac.Pack.Blobs.Reads.{IsSound}
use nix_tarmac.Pack.Compact.{Copied, copy_loop, put_entries, write_index, rewrite}
use nix_tarmac.Pack.Compact.Copy.{
  moved, packed, total, Same, Same-refl, Frame, Frame-trans, Frame-of_Same, check-Ends, write-Ends,
}
use nix_tarmac.Pack.Compact.Loop.{Copies, copy_loop-Ends, checked}
use nix_tarmac.Pack.Compact.Index.{filled}
use nix_tarmac.Pack.Compact.Correct.{Compacted, RawFits, kept_entries, filled-Compacted}

module _ {T : Type 0} (p : Platform T) where
  Same-trans : (s t u : Impl T) → Same p s t → Same p t u → Same p s u
  Same-trans s t u h k = record {
    contents = k.contents ∙ h.contents;
    names = k.names ∙ h.names;
    committed = k.committed ∙ h.committed;
  }

  put_entries-Ends :
      (keep : List (Bytes × IndexEntry)) (table : T) (s : Impl T)
      → Ends
          (λ table' t. (table' ≡ filled p keep table) × Same p s t)
          (λ _ t. Same p s t)
          (put_entries p keep table s)
  unfolding put_entries filled
  put_entries-Ends [] table s = (refl, Same-refl p s)
  put_entries-Ends ((hash, entry) ∷ keep) table s =
      Ends-continue (λ _ t. Same p s t)
        (λ table' t. (table' ≡ filled p ((hash, entry) ∷ keep) table) × Same p s t)
        (λ _ t. Same p s t) (check p runtime_error s) _ (check-Ends p runtime_error s)
        λ _ t same.
          Ends_mono
            (λ table' u.
              (table' ≡ filled p keep (p.lmdb.put hash (entry_bytes entry) table)) × Same p t u)
            (λ table' t. (table' ≡ filled p ((hash, entry) ∷ keep) table) × Same p s t)
            (λ _ u. Same p t u) (λ _ u. Same p s u)
            (put_entries p keep (p.lmdb.put hash (entry_bytes entry) table) t)
            (put_entries-Ends keep (p.lmdb.put hash (entry_bytes entry) table) t)
            (λ a u (e, h). (e, Same-trans s t u same h)) (λ e u h. Same-trans s t u same h)

  write_gen-Ends :
      (gen : ℕ) (db : Db T) (s : Impl T)
      → Ends
          (λ db' t. (db' ≡ record db { meta = p.lmdb.put gen_key (le64 gen) db.meta }) × Same p s t)
          (λ _ t. Same p s t)
          (write_gen p gen db s)
  unfolding write_gen
  write_gen-Ends gen db s =
      Ends-continue (λ _ t. Same p s t) _ (λ _ t. Same p s t) (check p runtime_error s) _
        (check-Ends p runtime_error s) (λ _ t same. (refl, same))

  module _ (db : Db T) (gen : ℕ) where
    abbrev pub next_db : List (Bytes × IndexEntry) → Db T
    next_db keep = record {
      blobs = filled p keep p.lmdb.empty;
      meta = p.lmdb.put gen_key (le64 (gen + 1)) db.meta;
    }

    -- The files are as they were.
    abbrev Untouched : Impl T → Impl T → Type 0
    Untouched s t = (t.contents ≡ s.contents) × (t.names ≡ s.names)

    abbrev Failed : List (Bytes × IndexEntry) → Impl T → Error → Impl T → Type 0
    Failed keep s e t = Untouched s t × ((t.committed ≡ s.committed) ⊎ (t.committed ≡ next_db keep))

    abbrev Written : Copied → Impl T → ℕ → Impl T → Type 0
    Written c s n t = (n ≡ c.new_off) × Untouched s t × (t.committed ≡ next_db c.keep)

    Failed-before : (c : Copied) (s t : Impl T) (e : Error) → Same p s t → Failed c.keep s e t
    Failed-before c s t e h = ((h.contents, h.names), inl h.committed)

    -- A call that changes nothing, with what follows it.
    step :
        {A : Type 0} (c : Copied) (s t : Impl T) (Q : A → Impl T → Type 0) (o : Outcome (Impl T) A)
        (f : A → Exec (Impl T) ℕ)
        → Same p s t
        → Ends Q (λ _ u. Same p t u) o
        → ((a : A) (u : Impl T) → Q a u → Ends (Written c s) (Failed c.keep s) (f a u))
        → Ends (Written c s) (Failed c.keep s) (continue o f)
    step c s t Q o f same h k =
        Ends-continue Q (Written c s) (Failed c.keep s) o f
          (Ends_mono Q Q (λ _ u. Same p t u) (Failed c.keep s) o h (λ a u q. q)
            (λ e u q. Failed-before c s u e (Same-trans s t u same q)))
          k

    synced :
        (c : Copied) (s t : Impl T) (db' : Db T)
        → Same p s t
        → db' ≡ next_db c.keep
        → Ends (Written c s) (Failed c.keep s) (
            continue
              (check p runtime_error (record t { committed = db' }))
              (λ _ u. returns c.new_off u))
    synced c s t db' same e =
        let t' : Impl T = record t { committed = db' } in
        Ends-continue (λ _ u. Same p t' u) (Written c s) (Failed c.keep s)
          (check p runtime_error t') (λ _ u. returns c.new_off u)
          (Ends_mono (λ _ u. Same p t' u) (λ _ u. Same p t' u) (λ _ u. Same p t' u)
            (Failed c.keep s) (check p runtime_error t') (check-Ends p runtime_error t')
            (λ a u h. h)
            (λ x u h. ((h.contents ∙ same.contents, h.names ∙ same.names), inr (h.committed ∙ e))))
          (λ a u h. (refl, (h.contents ∙ same.contents, h.names ∙ same.names), h.committed ∙ e))

    write_index-Ends :
        (c : Copied) (s : Impl T) → Ends (Written c s) (Failed c.keep s) (write_index p db gen c s)
    unfolding write_index
    write_index-Ends c s =
        step c s s (λ _ t. Same p s t) (check p runtime_error s) _ (Same-refl p s)
          (check-Ends p runtime_error s)
          λ _ t at_t.
            step c s t (λ table u. (table ≡ filled p c.keep p.lmdb.empty) × Same p t u)
              (put_entries p c.keep p.lmdb.empty t) _ at_t (put_entries-Ends c.keep p.lmdb.empty t)
              λ blobs u (is_filled, t_u).
                let db1 : Db T = record db { blobs = blobs } in
                let at_u = Same-trans s t u at_t t_u in
                step c s u
                  (λ db' v.
                    (db' ≡ record db1 { meta = p.lmdb.put gen_key (le64 (gen + 1)) db1.meta })
                    × Same p u v)
                  (write_gen p (gen + 1) db1 u) _ at_u (write_gen-Ends (gen + 1) db1 u)
                  λ db' v (is_next, u_v).
                    let at_v = Same-trans s u v at_u u_v in
                    step c s v (λ _ w. Same p v w) (check p runtime_error v) _ at_v
                      (check-Ends p runtime_error v)
                      λ _ w v_w. synced c s w db' (Same-trans s v w at_v v_w) (
                        is_next
                        ∙ ap
                            (λ (x : T). record {
                              blobs = x;
                              meta = p.lmdb.put gen_key (le64 (gen + 1)) db.meta;
                            })
                            is_filled)

    module _ (m : Mapping) (inode : ℕ) (apart : (inode == m.inode) ≡ false)
        (live : Bytes → Bool) where
      -- The committed index is the compacted one, of the next generation.
      abbrev pub Switched : Impl T → ℕ → Impl T → Type 0
      Switched s n t =
          Compacted p live (s.contents m.inode) (t.contents inode) db t.committed n
          × (t.committed.meta ≡ p.lmdb.put gen_key (le64 (gen + 1)) db.meta)

      -- The pack that readers have mapped, and the files' names, are as before.
      abbrev pub OldStays : Impl T → Impl T → Type 0
      OldStays s t = (t.contents m.inode ≡ s.contents m.inode) × (t.names ≡ s.names)

      abbrev pub Rewritten : Impl T → ℕ → Impl T → Type 0
      Rewritten s n t = OldStays s t × Switched s n t

      abbrev pub Unfinished : Impl T → Error → Impl T → Type 0
      Unfinished s e t = OldStays s t × ((t.committed ≡ s.committed) ⊎ ((n : ℕ) × Switched s n t))

      unfinished_before : (s t : Impl T) (e : Error) → Frame p m inode apart s t → Unfinished s e t
      unfinished_before s t e f = ((f.old_pack, f.names), inl f.committed)

      module _ (s : Impl T) (empty : s.contents inode ≡ [])
          (sound : IsSound p (s.contents m.inode) (length (s.contents m.inode)) db)
          (raw_fits : RawFits p live db) (fits : total (kept_entries p live db) < 2 ^ 64) where
        abbrev nothing_copied : Copied
        nothing_copied = record { keep = []; buf = []; new_off = 0 }

        -- Before the transaction: the new pack is whole.
        record Ready (c : Copied) (t : Impl T) : Type 0 where
          keeps : c.keep ≡ moved 0 (kept_entries p live db)
          ends : c.new_off ≡ total (kept_entries p live db)
          bytes : t.contents inode ≡ packed (s.contents m.inode) (kept_entries p live db)
          frame : Frame p m inode apart s t

        switched :
            (c : Copied) (t u : Impl T) (n : ℕ)
            → Ready c t
            → Untouched t u
            → n ≡ c.new_off
            → u.committed ≡ next_db c.keep
            → Switched s n u
        switched c t u n h (same, names) is_off e =
            let table : u.committed.blobs
                ≡ filled p (moved 0 (kept_entries p live db)) p.lmdb.empty =
              ap (λ (d : Db T). d.blobs) e ∙ ap (λ k. filled p k p.lmdb.empty) h.keeps in
            let new : u.contents inode ≡ packed (s.contents m.inode) (kept_entries p live db) =
              ap (λ (f : ℕ → Bytes). f inode) same ∙ h.bytes in
            (
              subst (λ x. Compacted p live (s.contents m.inode) (u.contents inode) db u.committed x)
                  (sym (is_off ∙ h.ends))
                  (subst
                    (λ x.
                      Compacted p live (s.contents m.inode) x db u.committed
                        (total (kept_entries p live db)))
                    (sym new)
                    (filled-Compacted p live (s.contents m.inode) db sound raw_fits fits u.committed
                      table)),
              ap (λ (d : Db T). d.meta) e,
            )

        old_stays : (c : Copied) (t u : Impl T) → Ready c t → Untouched t u → OldStays s u
        old_stays c t u h (same, names) =
            (ap (λ (f : ℕ → Bytes). f m.inode) same ∙ h.frame.old_pack, names ∙ h.frame.names)

        committed :
            (c : Copied) (t : Impl T)
            → Ready c t
            → Ends (Rewritten s) (Unfinished s) (write_index p db gen c t)
        committed c t h =
            Ends_mono (Written c t) (Rewritten s) (Failed c.keep t) (Unfinished s)
              (write_index p db gen c t) (write_index-Ends c t)
              (λ n u (is_off, same, e). (old_stays c t u h same, switched c t u n h same is_off e))
              (λ x u (same, e). (
                old_stays c t u h same,
                elim e [
                  | inl kept ↦ inl (kept ∙ h.frame.committed)
                  | inr next ↦ inr (c.new_off, switched c t u c.new_off h same refl next)
                ],
              ))

        ready :
            (c : Copied) (t u v w : Impl T)
            → Same p s t
            → Copies p m inode apart t nothing_copied (kept_entries p live db) c u
            → v.contents inode ≡ u.contents inode ++ c.buf
            → Frame p m inode apart u v
            → Same p v w
            → Ready c w
        ready c t u v w s_t h wrote u_v v_w = record {
          keeps = h.keeps;
          ends = omega (arith, h.ends);
          bytes =
              ap (λ (f : ℕ → Bytes). f inode) v_w.contents
              ∙ wrote
              ∙ h.bytes
              ∙ subst
                  (λ (f : ℕ → Bytes).
                    (f inode ++ []) ++ packed (f m.inode) (kept_entries p live db)
                    ≡ packed (s.contents m.inode) (kept_entries p live db))
                  (sym s_t.contents) (rw empty refl);
          frame = Frame-trans p m inode apart s t w (Frame-of_Same p m inode apart s t s_t) (
              Frame-trans p m inode apart t u w h.frame
                (Frame-trans p m inode apart u v w u_v (Frame-of_Same p m inode apart v w v_w)));
        }

        -- With a sound index whose live records together fit 64 bits, an empty new file that is not
        -- the old pack, and whichever calls fail: when `rewrite` returns, the committed index is sound
        -- for the new file, has each live blob of the old one with the same content and no other, and
        -- names the next generation. When it throws, that is so or the committed index is the old one.
        -- Either way the old pack and the files' names stay.
        pub rewrite-Rewritten : Ends (Rewritten s) (Unfinished s) (rewrite p db gen m inode live s)
        unfolding rewrite
        rewrite-Rewritten =
            Ends-continue (λ _ t. Same p s t) (Rewritten s) (Unfinished s) (check p runtime_error s)
              _
              (Ends_mono (λ _ t. Same p s t) (λ _ t. Same p s t) (λ _ t. Frame p m inode apart s t)
                (Unfinished s) (check p runtime_error s) (checked p m inode apart s) (λ a t h. h)
                (λ e t h. unfinished_before s t e h))
              λ _ t s_t.
                let f_t = Frame-of_Same p m inode apart s t s_t in
                Ends-continue (Copies p m inode apart t nothing_copied (kept_entries p live db))
                  (Rewritten s) (Unfinished s)
                  (copy_loop p m inode live (p.lmdb.entries db.blobs) nothing_copied t) _
                  (Ends_mono (Copies p m inode apart t nothing_copied (kept_entries p live db))
                    (Copies p m inode apart t nothing_copied (kept_entries p live db))
                    (λ _ u. Frame p m inode apart t u) (Unfinished s)
                    (copy_loop p m inode live (p.lmdb.entries db.blobs) nothing_copied t)
                    (copy_loop-Ends p m inode apart live (p.lmdb.entries db.blobs) nothing_copied t
                      (omega (arith, fits)))
                    (λ a u h. h)
                    (λ e u h. unfinished_before s u e (Frame-trans p m inode apart s t u f_t h)))
                  λ c u h.
                    let f_u = Frame-trans p m inode apart s t u f_t h.frame in
                    Ends-continue
                      (λ _ v.
                        (v.contents inode ≡ u.contents inode ++ c.buf) × Frame p m inode apart u v)
                      (Rewritten s) (Unfinished s) (with_file p inode (write_all p.kernel c.buf) u)
                      _
                      (Ends_mono _
                        (λ _ v.
                          (v.contents inode ≡ u.contents inode ++ c.buf)
                          × Frame p m inode apart u v)
                        (λ _ v. Frame p m inode apart u v) (Unfinished s)
                        (with_file p inode (write_all p.kernel c.buf) u)
                        (write-Ends p m inode apart c.buf u) (λ a v h. h)
                        (λ e v h.
                          unfinished_before s v e (Frame-trans p m inode apart s u v f_u h)))
                      λ _ v (wrote, u_v).
                        let f_v = Frame-trans p m inode apart s u v f_u u_v in
                        Ends-continue (λ _ w. Same p v w) (Rewritten s) (Unfinished s)
                          (check p system_error v) _
                          (Ends_mono (λ _ w. Same p v w) (λ _ w. Same p v w) (λ _ w. Same p v w)
                            (Unfinished s) (check p system_error v) (check-Ends p system_error v)
                            (λ a w h. h)
                            (λ e w h. unfinished_before s w e (
                              Frame-trans p m inode apart s v w f_v
                                (Frame-of_Same p m inode apart v w h))))
                          λ _ w v_w. committed c w (ready c t u v w s_t h wrote u_v v_w)

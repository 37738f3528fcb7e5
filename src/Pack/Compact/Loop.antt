-- ===== src/Pack/Compact/Loop.antt =====
-- The loop of `compact` over the whole index.
use nix_tarmac.Base.{
  ℕ, ◌+◌, ◌^◌, ◌<◌, ◌≡◌, sym, ap, ◌∙◌, subst, inl, inr, Bool, false, List, [], ◌∷◌, ◌++◌, ◌==◌,
  arith, Bool-cases, append_assoc, append-nil,
}
use nix_tarmac.Base.Bytes.{Bytes}
use nix_tarmac.Base.Result.{runtime_error, Result-cases}
use nix_tarmac.Base.Exec.{Outcome, Ends, Ends-continue, Ends_mono}
use nix_tarmac.Pack.File.{slice}
use nix_tarmac.Pack.Index.{IndexEntry, decode_entry}
use nix_tarmac.Pack.Platform.{Platform}
use nix_tarmac.Pack.State.{Impl, Mapping, check}
use nix_tarmac.Pack.Compact.{Copied, keep_entry, copy_loop}
use nix_tarmac.Pack.Compact.Copy.{
  Same, check-Ends, live_entries, live_entries-kept, live_entries-dead, moved, packed, total, Frame,
  Frame-trans, Frame-of_Same, Kept, keep_entry-Ends,
}

module _ {T : Type 0} (p : Platform T) (m : Mapping) (inode : ℕ)
    (apart : (inode == m.inode) ≡ false) where
  -- `keep`, `new_off` and the bytes grow by what is live.
  pub record Copies (s : Impl T) (c : Copied) (live : List (Bytes × IndexEntry)) (c' : Copied)
      (t : Impl T) : Type 0 where
    pub keeps : c'.keep ≡ c.keep ++ moved c.new_off live
    pub ends : c'.new_off ≡ c.new_off + total live
    pub bytes :
        t.contents inode ++ c'.buf ≡ (s.contents inode ++ c.buf) ++ packed (s.contents m.inode) live
    pub frame : Frame p m inode apart s t

  Copies-nil : (s t : Impl T) (c : Copied) → Same p s t → Copies s c [] c t
  unfolding moved total packed
  Copies-nil s t c same = record {
    keeps = sym (append-nil c.keep);
    ends = omega arith;
    bytes =
        ap (λ (f : ℕ → Bytes). f inode ++ c.buf) same.contents
        ∙ sym (append-nil (s.contents inode ++ c.buf));
    frame = Frame-of_Same p m inode apart s t same;
  }

  Copies-cons :
      (s t u : Impl T) (c c' c'' : Copied) (hash : Bytes) (entry : IndexEntry)
      (rest : List (Bytes × IndexEntry))
      → c.new_off + (entry.len + total rest) < 2 ^ 64
      → Kept p m inode apart s c hash entry c' t
      → Copies t c' rest c'' u
      → Copies s c ((hash, entry) ∷ rest) c'' u
  unfolding moved total packed
  Copies-cons s t u c c' c'' hash entry rest fits (k, o, b, f) h =
      let off : c'.new_off ≡ c.new_off + entry.len = omega arith in
      record {
        keeps =
            h.keeps
            ∙ ap (λ (x : List (Bytes × IndexEntry)). x ++ moved c'.new_off rest) k
            ∙ append_assoc c.keep _ (moved c'.new_off rest)
            ∙ ap
                (λ (n : ℕ).
                  c.keep
                  ++ ((hash, record { off = c.new_off; len = entry.len; raw_len = entry.raw_len })
                      ∷ moved n rest))
                off;
        ends = omega (arith, h.ends);
        bytes =
            h.bytes
            ∙ ap (λ (x : Bytes). x ++ packed (t.contents m.inode) rest) b
            ∙ append_assoc (s.contents inode ++ c.buf) _ (packed (t.contents m.inode) rest)
            ∙ ap
                (λ (x : Bytes).
                  (s.contents inode ++ c.buf)
                  ++ (slice entry.off entry.len (s.contents m.inode) ++ packed x rest))
                f.old_pack;
        frame = Frame-trans p m inode apart s t u f h.frame;
      }

  Copies-later :
      (s t u : Impl T) (c c' : Copied) (live : List (Bytes × IndexEntry))
      → Same p s t
      → Copies t c live c' u
      → Copies s c live c' u
  Copies-later s t u c c' live same h = record {
    keeps = h.keeps;
    ends = h.ends;
    bytes =
        subst
          (λ (f : ℕ → Bytes).
            u.contents inode ++ c'.buf ≡ (f inode ++ c.buf) ++ packed (f m.inode) live)
          same.contents h.bytes;
    frame = Frame-trans p m inode apart s t u (Frame-of_Same p m inode apart s t same) h.frame;
  }

  pub checked :
      (s : Impl T)
      → Ends (λ _ t. Same p s t) (λ _ t. Frame p m inode apart s t) (check p runtime_error s)
  checked s =
      Ends_mono (λ _ t. Same p s t) (λ _ t. Same p s t) (λ _ t. Same p s t)
        (λ _ t. Frame p m inode apart s t) (check p runtime_error s) (check-Ends p runtime_error s)
        (λ a t h. h) (λ e t h. Frame-of_Same p m inode apart s t h)

  module _ (live : Bytes → Bool) where
    kept-fits :
        (hash val : Bytes) (rest : List (Bytes × Bytes)) (entry : IndexEntry) (off : ℕ)
        → live_entries live ((hash, val) ∷ rest) ≡ (hash, entry) ∷ live_entries live rest
        → off + total (live_entries live ((hash, val) ∷ rest)) < 2 ^ 64
        → off + (entry.len + total (live_entries live rest)) < 2 ^ 64
    unfolding total
    kept-fits hash val rest entry off e fits =
        subst (λ (l : List (Bytes × IndexEntry)). off + total l < 2 ^ 64) e fits

    Ends_later :
        (s t : Impl T) (c c' : Copied) (l l' : List (Bytes × IndexEntry))
        (o : Outcome (Impl T) Copied)
        → Frame p m inode apart s t
        → ((c'' : Copied) (u : Impl T) → Copies t c' l' c'' u → Copies s c l c'' u)
        → Ends (Copies t c' l') (λ _ u. Frame p m inode apart t u) o
        → Ends (Copies s c l) (λ _ u. Frame p m inode apart s u) o
    Ends_later s t c c' l l' o f g h =
        Ends_mono (Copies t c' l') (Copies s c l) (λ _ u. Frame p m inode apart t u)
          (λ _ u. Frame p m inode apart s u) o h g (λ e u k. Frame-trans p m inode apart s t u f k)

    keep_entry-Frame :
        (s t : Impl T) (c : Copied) (hash : Bytes) (entry : IndexEntry)
        → Frame p m inode apart s t
        → Ends
            (Kept p m inode apart t c hash entry)
            (λ _ u. Frame p m inode apart s u)
            (keep_entry p m inode hash entry c t)
    keep_entry-Frame s t c hash entry f =
        Ends_mono (Kept p m inode apart t c hash entry) (Kept p m inode apart t c hash entry)
          (λ _ u. Frame p m inode apart t u) (λ _ u. Frame p m inode apart s u)
          (keep_entry p m inode hash entry c t) (keep_entry-Ends p m inode apart hash entry c t)
          (λ a u h. h) (λ e u k. Frame-trans p m inode apart s t u f k)

    -- When the loop of `compact` returns, `keep` has a record for each live entry, `new_off` is the
    -- sum of their lengths, and the new file and the buffer hold their stored bytes in order. The old
    -- pack, the files' names and the committed index stay as they were, also where it throws. The
    -- lengths are assumed to fit 64 bits.
    pub copy_loop-Ends :
        (entries : List (Bytes × Bytes)) (c : Copied) (s : Impl T)
        → c.new_off + total (live_entries live entries) < 2 ^ 64
        → Ends
            (Copies s c (live_entries live entries))
            (λ _ t. Frame p m inode apart s t)
            (copy_loop p m inode live entries c s)
    unfolding copy_loop live_entries
    copy_loop-Ends [] c s fits =
        Ends-continue (λ _ t. Same p s t) (Copies s c []) (λ _ t. Frame p m inode apart s t)
          (check p runtime_error s) _ (checked s) (λ _ t same. Copies-nil s t c same)
    copy_loop-Ends ((hash, val) ∷ rest) c s fits =
        Ends-continue (λ _ t. Same p s t) (Copies s c (live_entries live ((hash, val) ∷ rest)))
          (λ _ t. Frame p m inode apart s t) (check p runtime_error s) _ (checked s)
          λ _ t same.
            let l = live_entries live rest in
            let f = Frame-of_Same p m inode apart s t same in
            elim (Result-cases (decode_entry val)) [
              | inl (entry, good) ↦ elim (Bool-cases (live hash)) [
                | inl kept ↦
                    let fits' : c.new_off + (entry.len + total l) < 2 ^ 64 =
                      kept-fits hash val rest entry c.new_off
                        (live_entries-kept live hash val rest entry good kept) fits in
                    rw (live_entries-kept live hash val rest entry good kept, good, kept)
                      (Ends-continue (Kept p m inode apart t c hash entry)
                        (Copies s c ((hash, entry) ∷ l)) (λ _ u. Frame p m inode apart s u)
                        (keep_entry p m inode hash entry c t) _
                        (keep_entry-Frame s t c hash entry f)
                        λ c' u (k, o, b, g).
                          Ends_later s u c c' ((hash, entry) ∷ l) l
                            (copy_loop p m inode live rest c' u)
                            (Frame-trans p m inode apart s t u f g)
                            (λ c'' v h.
                              Copies-later s t v c c'' ((hash, entry) ∷ l) same
                                (Copies-cons t u v c c' c'' hash entry l fits' (k, o, b, g) h))
                            (copy_loop-Ends rest c' u (omega (arith, o, fits'))))
                | inr dead ↦
                    rw (live_entries-dead live hash val rest entry good dead, good, dead)
                      (Ends_later s t c c l l (copy_loop p m inode live rest c t) f
                        (λ c'' v h. Copies-later s t v c c'' l same h)
                        (copy_loop-Ends rest c t (
                          subst (λ (l : List (Bytes × IndexEntry)). c.new_off + total l < 2 ^ 64)
                            (live_entries-dead live hash val rest entry good dead) fits)))
              ]
              | inr (e, bad) ↦ rw bad f
            ]

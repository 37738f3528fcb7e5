-- ===== src/Pack/File/Loops.antt =====
-- The loops over partial reads and writes do what one whole call would.
use Prim.Native.Nat.{min}
use nix_tarmac.Base.{
  ℕ, zero, suc, ◌+◌, ◌-◌, ◌≤◌, ◌<◌, ◌≡◌, refl, sym, ap, ◌∙◌, ◌⊎◌, [], ◌∷◌, ◌++◌, arith, length,
  take, drop, length-append, length-take, length-drop, append_assoc, take-append-drop, Bool-cases,
  inl, inr, append-nil, ◌==◌,
}
use nix_tarmac.Base.Bytes.{Bytes}
use nix_tarmac.Base.Result.{corrupt, system_error}
use nix_tarmac.Base.Exec.{Outcome, returns, throws}
use nix_tarmac.Pack.File.{
  Kernel, LastFails, Io, patch, slice, pwrite, pwrite_loop, pwrite_all, pread, pread_loop,
  pread_all,
}
use nix_tarmac.Pack.File.Slices.{length-patch, patch-patch, patch-nil, take-drop_add, drop-drop}

-- All of `new` stands in the file at `off`; a failed call leaves a first part of it there.
abbrev pub Wrote : Kernel → ℕ → Bytes → Bytes → Outcome Io (Unit {0}) → Type 0
Wrote k off new bytes (returns _ io) = io.bytes ≡ patch off new bytes
Wrote k off new bytes (throws e io) =
    ((e ≡ system_error) × LastFails k io.calls)
    × (n : ℕ) × (n ≤ length new)
    × (io.bytes ≡ patch off (take n new) bytes)

Wrote-step :
    (k : Kernel) (off n : ℕ) (new bytes : Bytes) (o : Outcome Io (Unit {0}))
    → off ≤ length bytes
    → n ≤ length new
    → Wrote k (off + n) (drop n new) (patch off (take n new) bytes) o
    → Wrote k off new bytes o
Wrote-step k off n new bytes o h fits w =
    let size : length (take n new) ≡ n = omega (arith, length-take n new) in finish o size w
  where
    finish :
        (o : Outcome Io (Unit {0}))
        → length (take n new) ≡ n
        → Wrote k (off + n) (drop n new) (patch off (take n new) bytes) o
        → Wrote k off new bytes o
    finish (returns _ io) size w =
        w
        ∙ rw size at (patch-patch off (take n new) (drop n new) bytes h)
        ∙ ap (λ (x : Bytes). patch off x bytes) (take-append-drop n new)
    finish (throws e io) size (is_sys, m, m_fits, w) = (
      is_sys,
      n + m,
      omega (arith, length-drop n new),
      w
          ∙ rw size at (patch-patch off (take n new) (take m (drop n new)) bytes h)
          ∙ ap (λ (x : Bytes). patch off x bytes) (take-drop_add n m new),
    )

module _ (k : Kernel) where
  pwrite_loop-Wrote :
      (fuel : ℕ) (new : Bytes) (off : ℕ) (io : Io)
      → length new ≤ fuel
      → off ≤ length io.bytes
      → Wrote k off new io.bytes (pwrite_loop k fuel new off io)
  unfolding pwrite_loop pwrite
  pwrite_loop-Wrote fuel [] off io enough h = sym (patch-nil off io.bytes h)
  pwrite_loop-Wrote zero (b ∷ bs) off io enough h = absurd (omega arith)
  pwrite_loop-Wrote (suc fuel) (b ∷ bs) off io enough h =
      let new = b ∷ bs in
      let n = k.moved io.calls (length new) in
      let fits = k.moved-le io.calls (length new) in
      let pos = k.moved-pos io.calls (length new) (omega arith) in
      elim (Bool-cases (k.fails io.calls)) [
        | inl bad ↦
            rw bad ((refl, (io.calls, refl, bad)), 0, omega arith, sym (patch-nil off io.bytes h))
        | inr good ↦ rw good (
            Wrote-step k off n new io.bytes _ h fits (
              pwrite_loop-Wrote fuel (drop n new) (off + n)
                (record { calls = suc io.calls; bytes = patch off (take n new) io.bytes })
                (omega (arith, length-drop n new))
                (omega (arith, length-patch off (take n new) io.bytes h, length-take n new))))
      ]

  -- However the kernel splits the writes, at an offset inside the file or at its end: all the bytes
  -- end up at the offset, or the last call has failed, the loop throws and a first part of them does.
  pub pwrite_all-Wrote :
      (new : Bytes) (off : ℕ) (io : Io)
      → off ≤ length io.bytes
      → Wrote k off new io.bytes (pwrite_all k new off io)
  unfolding pwrite_all
  pwrite_all-Wrote new off io h = pwrite_loop-Wrote (length new) new off io (omega arith) h

-- The bytes at the offset, all of them. `CorruptError` is thrown only where the file is too short.
abbrev pub ReadBack : Kernel → Bytes → ℕ → ℕ → Bytes → Outcome Io Bytes → Type 0
ReadBack k dst len off bytes (returns got io) =
    (got ≡ dst ++ slice off len bytes) × (length (slice off len bytes) ≡ len) × (io.bytes ≡ bytes)
ReadBack k dst len off bytes (throws e io) =
    (((e ≡ system_error) × LastFails k io.calls) ⊎ ((e ≡ corrupt) × (length bytes < off + len)))
    × (io.bytes ≡ bytes)

slice_split :
    (off n len : ℕ) (bytes : Bytes)
    → n ≤ len
    → slice off n bytes ++ slice (off + n) (len - n) bytes ≡ slice off len bytes
unfolding slice
slice_split off n len bytes h =
    let whole : n + (len - n) ≡ len = omega arith in
    rw (← drop-drop off n bytes) (rw whole at (take-drop_add n (len - n) (drop off bytes)))

take-take : (n m : ℕ) (xs : Bytes) → n ≤ m → take n (take m xs) ≡ take n xs
take-take zero m xs h = refl
take-take (suc n) zero xs h = elim h [ ]
take-take (suc n) (suc m) [] h = refl
take-take (suc n) (suc m) (x ∷ xs) h = ap (◌∷◌ x) (take-take n m xs (omega arith))

length-slice :
    (off len : ℕ) (bytes : Bytes) → length (slice off len bytes) ≡ min len (length bytes - off)
unfolding slice
length-slice off len bytes = omega (arith, length-take len (drop off bytes), length-drop off bytes)

ReadBack-zero :
    (k : Kernel) (dst : Bytes) (off : ℕ) (io : Io) → ReadBack k dst 0 off io.bytes (returns dst io)
unfolding slice
ReadBack-zero k dst off io = (sym (append-nil dst), refl, refl)

ReadBack-step :
    (k : Kernel) (dst : Bytes) (len off n : ℕ) (bytes : Bytes) (o : Outcome Io Bytes)
    → n ≤ len
    → length (slice off n bytes) ≡ n
    → ReadBack k (dst ++ slice off n bytes) (len - n) (off + n) bytes o
    → ReadBack k dst len off bytes o
ReadBack-step k dst len off n bytes (returns got io) h size (same, whole, kept) =
    let split = slice_split off n len bytes h in
    (
      same
          ∙ append_assoc dst (slice off n bytes) (slice (off + n) (len - n) bytes)
          ∙ ap (◌++◌ dst) split,
      omega (
        arith,
        ap length split,
        length-append (slice off n bytes) (slice (off + n) (len - n) bytes),
      ),
      kept,
    )
ReadBack-step k dst len off n bytes (throws e io) h size (inl p, kept) = (inl p, kept)
ReadBack-step k dst len off n bytes (throws e io) h size (inr (p, short), kept) =
    (inr (p, omega arith), kept)

module _ (k : Kernel) where
  pread_loop-ReadBack :
      (fuel len off : ℕ) (dst : Bytes) (io : Io)
      → len ≤ fuel
      → ReadBack k dst len off io.bytes (pread_loop k fuel len off dst io)
  unfolding pread_loop pread
  pread_loop-ReadBack zero zero off dst io enough = ReadBack-zero k dst off io
  pread_loop-ReadBack (suc fuel) zero off dst io enough = ReadBack-zero k dst off io
  pread_loop-ReadBack zero (suc len) off dst io enough = absurd (omega arith)
  pread_loop-ReadBack (suc fuel) (suc len) off dst io enough =
      let there = slice off (suc len) io.bytes in
      let n = k.moved io.calls (length there) in
      let fits = k.moved-le io.calls (length there) in
      let size = length-slice off (suc len) io.bytes in
      let n_size : length (slice off n io.bytes) ≡ n = omega (arith, length-slice off n io.bytes) in
      let got_eq : take n there ≡ slice off n io.bytes =
        unfold slice in take-take n (suc len) (drop off io.bytes) (omega arith) in
      elim (Bool-cases (k.fails io.calls)) [
        | inl bad ↦ rw bad (inl (refl, (io.calls, refl, bad)), refl)
        | inr good ↦
            rw (good, got_eq, n_size)
              (elim (Bool-cases (n == 0)) [
                | inl none_left ↦
                    rw none_left
                      (inr (refl, ground (arith, k.moved-pos io.calls (length there), size)), refl)
                | inr some_left ↦ rw some_left (
                    ReadBack-step k dst (suc len) off n io.bytes _ (omega arith) n_size (
                      pread_loop-ReadBack fuel (suc len - n) (off + n) (dst ++ slice off n io.bytes)
                        (record io { calls = suc io.calls }) (ground arith)))
              ])
      ]

  -- However the kernel splits the reads, the caller has all the bytes at the offset, or the last
  -- call has failed, or the file ends before them and the loop throws `CorruptError`. The file is not changed.
  pub pread_all-ReadBack :
      (len off : ℕ) (io : Io) → ReadBack k [] len off io.bytes (pread_all k len off io)
  unfolding pread_all
  pread_all-ReadBack len off io = pread_loop-ReadBack len len off [] io (omega arith)

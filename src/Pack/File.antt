-- ===== src/Pack/File.antt =====
-- The contents of a packfile, and the loops `write_all`, `pwrite_all` and `pread_all` of
-- src/pack_cas.cpp over the system calls, each of which may fail or move a part of the bytes.
pub mod Slices
pub mod Loops
use nix_tarmac.Base.{
  ℕ, zero, suc, ◌+◌, ◌-◌, ◌≤◌, ◌<◌, ◌≡◌, Bool, true, List, [], ◌∷◌, ◌++◌, if◌then◌else◌, length,
  take, drop, ltb, ◌==◌,
}
use nix_tarmac.Base.Bytes.{Bytes}
use nix_tarmac.Base.Result.{Error, corrupt, system_error, out_of_fuel}
use nix_tarmac.Base.Exec.{Outcome, Exec, returns, throws, ◌>>=◌, ◌>>◌}

-- What the kernel answers: whether the call with this number fails, and how many of the wanted
-- bytes it moves, and whether `flock` finds the lock held elsewhere. A call that does not fail moves one byte at least, if one is wanted.
pub record Kernel : Type 0 where
  pub fails : ℕ → Bool
  pub moved : ℕ → ℕ → ℕ
  pub busy : ℕ → Bool
  pub moved-le : (call wanted : ℕ) → moved call wanted ≤ wanted
  pub moved-pos : (call wanted : ℕ) → 0 < wanted → 0 < moved call wanted

-- The last of so many calls has failed.
abbrev pub LastFails : Kernel → ℕ → Type 0
LastFails k calls = (n : ℕ) × (calls ≡ suc n) × (k.fails n ≡ true)

-- The bytes of one file, and how many calls have been made.
pub record Io : Type 0 where
  pub calls : ℕ
  pub bytes : Bytes

abbrev pub zeros : ℕ → Bytes
zeros zero = []
zeros (suc n) = 0 ∷ zeros n

-- The file after `write` at an offset; a gap is filled with zeros.
unfoldable pub patch : ℕ → Bytes → Bytes → Bytes
patch off new bytes =
    take off (bytes ++ zeros (off - length bytes)) ++ (new ++ drop (off + length new) bytes)

unfoldable pub slice : ℕ → ℕ → Bytes → Bytes
slice off len bytes = take len (drop off bytes)

module _ (k : Kernel) where
  -- One `pwrite`: the number of bytes written.
  pub pwrite : ℕ → Bytes → Exec Io ℕ
  pwrite off new io =
      let n = k.moved io.calls (length new) in
      if k.fails io.calls
      then throws system_error (record io { calls = suc io.calls })
      else returns n (record { calls = suc io.calls; bytes = patch off (take n new) io.bytes })

  -- Each round writes a byte or more: the fuel counts the bytes left.
  pub pwrite_loop : ℕ → Bytes → ℕ → Exec Io (Unit {0})
  pwrite_loop fuel [] off io = returns tt io
  pwrite_loop zero (b ∷ bs) off io = throws out_of_fuel io
  pwrite_loop (suc fuel) (b ∷ bs) off io =
      (pwrite off (b ∷ bs) >>= λ n. pwrite_loop fuel (drop n (b ∷ bs)) (off + n)) io

  pub pwrite_all : Bytes → ℕ → Exec Io (Unit {0})
  pwrite_all new off = pwrite_loop (length new) new off

  -- `write` on a descriptor that was opened for this alone: it writes at the end.
  unfoldable pub write_all : Bytes → Exec Io (Unit {0})
  write_all new io = pwrite_all new (length io.bytes) io

  -- One `pread` into a buffer of `wanted` bytes: what it read, nothing at the end of the file.
  pub pread : ℕ → ℕ → Exec Io Bytes
  pread off wanted io =
      let there = slice off wanted io.bytes in
      if k.fails io.calls
      then throws system_error (record io { calls = suc io.calls })
      else returns (take (k.moved io.calls (length there)) there)
          (record io { calls = suc io.calls })

  abbrev is_nil : Bytes → Bool
  is_nil got = length got == 0

  unfoldable pub pread_loop : ℕ → ℕ → ℕ → Bytes → Exec Io Bytes
  pread_loop fuel zero off dst io = returns dst io
  pread_loop zero (suc n) off dst io = throws out_of_fuel io
  pread_loop (suc fuel) (suc n) off dst io =
      (pread off (suc n) >>= λ got.
      let rest = pread_loop fuel (suc n - length got) (off + length got) (dst ++ got) in
      if is_nil got then throws corrupt else rest)
        io

  unfoldable pub pread_all : ℕ → ℕ → Exec Io Bytes
  pread_all len off = pread_loop len len off []

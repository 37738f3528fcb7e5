-- ===== src/Pack/Blob.antt =====
-- How a blob is stored: the choice that `PackCas::put` makes and `decompress` of src/pack_cas.cpp.
use nix_tarmac.Base.{
  ℕ, ◌-◌, ◌^◌, ◌≤◌, ◌≡◌, ◌&&◌, ◌||◌, none, some, arith, length, ltb, leb, ◌==◌, if◌then◌else◌,
  Option-cases, inl, inr,
}
use nix_tarmac.Base.Bytes.{Bytes}
use nix_tarmac.Base.Result.{Result, ok, err, corrupt}
use nix_tarmac.Pack.Index.{IndexEntry, compressed}
use nix_tarmac.Pack.Platform.{Lz4}

abbrev pub min_compress_size : ℕ
min_compress_size = 64

abbrev pub int32_max : ℕ
int32_max = 2 ^ 31 - 1

module _ (lz4 : Lz4) where
  -- `put`: what goes to the packfile.
  unfoldable pub stored_form : Bytes → Bytes
  stored_form raw =
      if leb min_compress_size (length raw) && leb (length raw) lz4.max_input
      then elim (lz4.compress raw (length raw - 1)) [ some packed ↦ packed | none ↦ raw ]
      else raw

  unfoldable pub decompress : Bytes → ℕ → Result Bytes
  decompress stored raw_len =
      if ltb lz4.max_input raw_len || ltb int32_max (length stored)
      then err corrupt
      else elim (lz4.decompress stored raw_len) [
        | none ↦ err corrupt
        | some out ↦ if length out == raw_len then ok out else err corrupt
      ]

  -- What `get` and `get_view` do with the stored bytes.
  unfoldable pub unpack : IndexEntry → Bytes → Result Bytes
  unpack entry stored = if compressed entry then decompress stored entry.raw_len else ok stored

  abbrev pub entry_for : ℕ → Bytes → IndexEntry
  entry_for off raw = record { off = off; len = length (stored_form raw); raw_len = length raw }

  -- Whatever `put` stores for a blob, raw or compressed, is taken apart to the blob again.
  pub unpack-stored_form :
      (off : ℕ) (raw : Bytes) → unpack (entry_for off raw) (stored_form raw) ≡ ok raw
  unfolding unpack stored_form decompress
  unpack-stored_form off raw = elim (Option-cases (lz4.compress raw (length raw - 1))) [
    | inl e ↦ ground arith
    | inr (packed, e) ↦ ground (
      arith,
      lz4.compress-fits raw packed (length raw - 1) e,
      lz4.decompress-compress raw packed (length raw - 1) e,
      lz4.max_input-lt,
    )
  ]

  -- The stored form is never longer than the blob.
  pub stored_form-le : (raw : Bytes) → length (stored_form raw) ≤ length raw
  unfolding stored_form
  stored_form-le raw = elim (Option-cases (lz4.compress raw (length raw - 1))) [
    | inl e ↦ ground arith
    | inr (packed, e) ↦ ground (arith, lz4.compress-fits raw packed (length raw - 1) e)
  ]

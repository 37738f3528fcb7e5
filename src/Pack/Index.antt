-- ===== src/Pack/Index.antt =====
-- `IndexEntry` and `decode_entry` of src/pack_cas.cpp.
use nix_tarmac.Base.{
  ℕ, ◌+◌, ◌%◌, ◌^◌, ◌<◌, ◌≡◌, refl, Bool, not, ◌++◌, arith, length, take, drop, ltb, ◌==◌,
}
use nix_tarmac.Base.Bytes.{Bytes}
use nix_tarmac.Base.Result.{Result, ok, corrupt, throw_if, ◌>>◌}
use nix_tarmac.Base.Little.{le64, le_value, take-le64, drop-le64, le_value-le64}

-- `raw_len ≡ len` means stored raw.
pub record IndexEntry : Type 0 where
  pub off : ℕ
  pub len : ℕ
  pub raw_len : ℕ

abbrev pub compressed : IndexEntry → Bool
compressed e = not (e.raw_len == e.len)

-- The bytes of the struct.
unfoldable pub entry_bytes : IndexEntry → Bytes
entry_bytes e = le64 e.off ++ (le64 e.len ++ le64 e.raw_len)

abbrev read_fields : Bytes → IndexEntry
read_fields val = record {
  off = le_value (take 8 val);
  len = le_value (take 8 (drop 8 val));
  raw_len = le_value (drop 8 (drop 8 val));
}

-- The addition wraps at 2 ^ 64.
unfoldable pub decode_entry : Bytes → Result IndexEntry
decode_entry val = do
  throw_if (not (length val == 24)) corrupt
  let entry = read_fields val
  throw_if (ltb ((entry.off + entry.len) % 2 ^ 64) entry.off) corrupt
  ok entry

-- The fields are uint64_t, and the blob ends within what such a number can say.
pub record IsIndexEntry (e : IndexEntry) : Type 0 where
  pub raw_len_fits : e.raw_len < 2 ^ 64
  pub end_fits : e.off + e.len < 2 ^ 64

-- An entry whose raw length and whose end are below 2^64 is read from the index as it was written.
pub decode_entry-entry_bytes :
    (e : IndexEntry) → IsIndexEntry e → decode_entry (entry_bytes e) ≡ ok e
unfolding decode_entry entry_bytes
decode_entry-entry_bytes e h =
    let size : length (le64 e.off ++ (le64 e.len ++ le64 e.raw_len)) ≡ 24 = unfold le64 in refl in
    rw
      (
        size,
        take-le64 e.off (le64 e.len ++ le64 e.raw_len),
        drop-le64 e.off (le64 e.len ++ le64 e.raw_len),
        take-le64 e.len (le64 e.raw_len),
        drop-le64 e.len (le64 e.raw_len),
        le_value-le64 e.off (omega arith),
        le_value-le64 e.len (omega arith),
        le_value-le64 e.raw_len (omega arith),
      )
      (ground arith)

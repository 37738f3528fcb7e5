-- ===== src/Pack/Platform.antt =====
-- What src/pack_cas.cpp calls and does not implement: LMDB, LZ4 and BLAKE3, with the documented
-- behaviour that it relies on. A transaction's database is a value `T`, and a write gives a new one.
use nix_tarmac.Base.{
  ℕ, ◌≤◌, ◌<◌, ◌^◌, ◌≡◌, true, Option, none, some, List, [], ◌∷◌, length, if◌then◌else◌,
}
use nix_tarmac.Base.Bytes.{Bytes, bytes_eq, bytes_lt}
use nix_tarmac.Pack.File.{Kernel}

abbrev pub assoc : Bytes → List (Bytes × Bytes) → Option Bytes
assoc j [] = none
assoc j ((key, val) ∷ rest) = if bytes_eq key j then some val else assoc j rest

-- Keys that rise, on from a key below them.
abbrev pub RisesFrom : Bytes → List (Bytes × Bytes) → Type 0
RisesFrom low [] = Unit {0}
RisesFrom low ((key, val) ∷ rest) = (bytes_lt low key ≡ true) × RisesFrom key rest

abbrev pub Rises : List (Bytes × Bytes) → Type 0
Rises [] = Unit {0}
Rises ((key, val) ∷ rest) = RisesFrom key rest

-- One table of LMDB.
pub record Lmdb (T : Type 0) : Type 0 where
  pub empty : T
  pub get : Bytes → T → Option Bytes
  pub put : Bytes → Bytes → T → T
  pub del : Bytes → T → T
  -- The entries as a cursor passes them, in the order of their keys.
  pub entries : T → List (Bytes × Bytes)
  pub get-empty : (j : Bytes) → get j empty ≡ none
  pub get-put :
      (j key val : Bytes) (t : T)
      → get j (put key val t) ≡ (if bytes_eq key j then some val else get j t)
  pub get-del :
      (j key : Bytes) (t : T) → get j (del key t) ≡ (if bytes_eq key j then none else get j t)
  pub assoc-entries : (j : Bytes) (t : T) → assoc j (entries t) ≡ get j t
  pub entries-Rises : (t : T) → Rises (entries t)

-- `max_input` is LZ4_MAX_INPUT_SIZE. `compress` is `none` where the call does not return a positive
-- size, and `decompress` where it returns a negative one.
pub record Lz4 : Type 0 where
  pub max_input : ℕ
  pub compress : Bytes → ℕ → Option Bytes
  pub decompress : Bytes → ℕ → Option Bytes
  pub max_input-lt : max_input < 2 ^ 31
  pub compress-fits :
      (raw packed : Bytes) (cap : ℕ) → compress raw cap ≡ some packed → length packed ≤ cap
  pub decompress-compress :
      (raw packed : Bytes) (cap : ℕ)
      → compress raw cap ≡ some packed
      → decompress packed (length raw) ≡ some raw

pub record Platform (T : Type 0) : Type 0 where
  pub kernel : Kernel
  pub lmdb : Lmdb T
  pub lz4 : Lz4
  pub blake3 : Bytes → Bytes
  pub length-blake3 : (raw : Bytes) → length (blake3 raw) ≡ 32

-- ===== src/Base/Little.antt =====
-- Little-endian bytes of a machine word: what `memcpy` of a uint64_t gives on the platforms that
-- the plugin is built for, and the length fields of a NAR.
use Prim.Native.Nat.{ℕ, zero, suc, ◌+◌, ◌*◌, ◌/◌, ◌%◌, ◌^◌, ◌<◌}
use mathlib.Core.Path.{◌≡◌, refl}
use mathlib.Core.List.{[], ◌∷◌, ◌++◌}
use native.Mathlib.Omega.{arith}
use nix_tarmac.Base.Lists.{length, take, drop}
use nix_tarmac.Base.Bytes.{Bytes, IsBytes}

unfoldable pub le_bytes : ℕ → ℕ → Bytes
le_bytes zero value = []
le_bytes (suc n) value = (value % 256) ∷ le_bytes n (value / 256)

unfoldable pub le64 : ℕ → Bytes
unfolding le_bytes
le64 value = le_bytes 8 value

unfoldable pub le_value : Bytes → ℕ
le_value [] = 0
le_value (b ∷ bs) = b + 256 * le_value bs

pub length-le64 : (value : ℕ) → length (le64 value) ≡ 8
unfolding le64
length-le64 value = refl

pub take-le64 : (value : ℕ) (rest : Bytes) → take 8 (le64 value ++ rest) ≡ le64 value
unfolding le64
take-le64 value rest = refl

pub drop-le64 : (value : ℕ) (rest : Bytes) → drop 8 (le64 value ++ rest) ≡ rest
unfolding le64
drop-le64 value rest = refl

pub le_value-le64 : (value : ℕ) → value < 2 ^ 64 → le_value (le64 value) ≡ value
unfolding le64 le_value
le_value-le64 value h = omega arith

pub le64-IsBytes : (value : ℕ) → IsBytes (le64 value)
unfolding le64
le64-IsBytes value = omega arith

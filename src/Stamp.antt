-- ===== src/Stamp.antt =====
-- `be64`, `rbe64` and `is_timestamp` of src/tree.cpp.
mod Runs
use nix_tarmac.Base.{
  ℕ, zero, suc, ◌+◌, ◌*◌, ◌/◌, ◌%◌, ◌^◌, ◌<◌, ◌≡◌, Bool, true, [], ◌∷◌, arith, length, ◌==◌,
}
use nix_tarmac.Base.Bytes.{Bytes, IsBytes}

-- The array is filled from its last byte on.
be_loop : ℕ → ℕ → Bytes → Bytes
be_loop zero value buf = buf
be_loop (suc n) value buf = be_loop n (value / 256) ((value % 256) ∷ buf)

pub be64 : ℕ → Bytes
unfolding be_loop
be64 value = be_loop 8 value []

-- `(value << 8) | byte`: the shifted value ends in eight zero bits, so `|` is `+`.
rbe_loop : ℕ → Bytes → ℕ
rbe_loop value [] = value
rbe_loop value (byte ∷ rest) = rbe_loop (value * 256 % 2 ^ 64 + byte) rest

pub rbe64 : Bytes → ℕ
unfolding rbe_loop
rbe64 encoded = rbe_loop 0 encoded

unfoldable pub is_timestamp : Bytes → Bool
is_timestamp encoded = length encoded == 8

-- A time stamp below 2^64 is read back as it was written.
rbe64-be64 : (value : ℕ) → value < 2 ^ 64 → rbe64 (be64 value) ≡ value
unfolding be64 rbe64
rbe64-be64 value h = omega arith

-- Whatever string of bytes passes for a time stamp is what `be64` writes for its value.
be64-rbe64 :
    (encoded : Bytes)
    → IsBytes encoded
    → is_timestamp encoded ≡ true
    → be64 (rbe64 encoded) ≡ encoded
unfolding be64 rbe64 is_timestamp
be64-rbe64 (a ∷ b ∷ c ∷ d ∷ e ∷ f ∷ g ∷ h ∷ []) bytes size = ground arith
be64-rbe64 _ bytes size = ground arith

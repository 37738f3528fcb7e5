-- ===== src/Hex.antt =====
-- `to_hex` and `from_hex` of src/tree.cpp.
pub mod RoundTrip
mod Runs
use nix_tarmac.Base.{
  ℕ, zero, suc, ◌+◌, ◌-◌, ◌*◌, ◌/◌, ◌%◌, Bool, ◌&&◌, Option, none, some, List, [], ◌∷◌, leb,
  if◌then◌else◌,
}
use nix_tarmac.Base.Bytes.{Bytes}
use nix_tarmac.Base.Result.{Result, ok, err, invalid_argument, ◌>>=◌}

-- `kHexDigits[n]`
abbrev hex_digits : Bytes
hex_digits =
    b'0' ∷ b'1' ∷ b'2' ∷ b'3' ∷ b'4' ∷ b'5' ∷ b'6' ∷ b'7' ∷ b'8' ∷ b'9' ∷ b'a' ∷ b'b' ∷ b'c' ∷ b'd'
    ∷ b'e' ∷ b'f' ∷ []

get_or : Bytes → ℕ → ℕ → ℕ
get_or [] i d = d
get_or (x ∷ xs) zero d = x
get_or (x ∷ xs) (suc i) d = get_or xs i d

pub digit : ℕ → ℕ
unfolding get_or
digit n = get_or hex_digits n 0

-- `byte >> 4` and `byte & 0xf`
pub to_hex : Bytes → Bytes
to_hex [] = []
to_hex (byte ∷ rest) = digit (byte / 16) ∷ digit (byte % 16) ∷ to_hex rest

-- A digit that `std::from_chars` takes at base 16.
pub digit_value : ℕ → Option ℕ
digit_value c =
    if leb b'0' c && leb c b'9'
    then some (c - b'0')
    else if leb b'a' c && leb c b'f'
    then some (c - b'a' + 10)
    else if leb b'A' c && leb c b'F'
    then some (c - b'A' + 10)
    else none

-- `from_chars` on two characters that must both be read: any other character stops it before
-- `pair_end`, and two digits stay below 256.
pub from_pair : ℕ → ℕ → Result ℕ
from_pair a b = elim (digit_value a) [
  | none ↦ err invalid_argument
  | some hi ↦ elim (digit_value b) [ none ↦ err invalid_argument | some lo ↦ ok (hi * 16 + lo) ]
]

-- The loop runs while `pos + 1 < hex.size()`, so a last odd character is not looked at.
pub from_hex : Bytes → Result Bytes
from_hex [] = ok []
from_hex (a ∷ []) = ok []
from_hex (a ∷ b ∷ rest) = do byte ← from_pair a b; out ← from_hex rest; ok (byte ∷ out)

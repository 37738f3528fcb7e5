-- ===== src/Hex/RoundTrip.antt =====
-- `from_hex` reads back what `to_hex` writes, and what it accepts.
use nix_tarmac.Base.{
  ℕ, ◌/◌, ◌%◌, ◌<◌, ◌≡◌, refl, ap, Bool, true, false, none, some, [], ◌∷◌, arith, length, ◌==◌,
  ==_iff, holds_below, holds_below_lem, Option,
}
use nix_tarmac.Base.Bytes.{Bytes, IsByte, IsBytes}
use nix_tarmac.Base.Result.{ok, >>=-eq-ok}
use nix_tarmac.Hex.{digit, digit_value, to_hex, from_pair, from_hex}

abbrev value_is : Option ℕ → ℕ → Bool
value_is none n = false
value_is (some v) n = v == n

value_is-eq : (o : Option ℕ) (n : ℕ) → value_is o n ≡ true → o ≡ some n
value_is-eq none n h = cc
value_is-eq (some v) n h = ap some ((==_iff v n).0 h)

digits_table : holds_below (λ n. value_is (digit_value (digit n)) n) 16 ≡ true
unfolding holds_below digit digit_value
digits_table = refl

digit_value-digit : (n : ℕ) → n < 16 → digit_value (digit n) ≡ some n
digit_value-digit n h =
    value_is-eq (digit_value (digit n)) n
      (holds_below_lem (λ n. value_is (digit_value (digit n)) n) 16 n h digits_table)

from_pair-digit : (b : ℕ) → IsByte b → from_pair (digit (b / 16)) (digit (b % 16)) ≡ ok b
unfolding from_pair
from_pair-digit b h = ground (arith, digit_value-digit (b / 16), digit_value-digit (b % 16))

-- A string of bytes, numbers below 256, survives the way through hexadecimal.
pub from_hex-to_hex : (raw : Bytes) → IsBytes raw → from_hex (to_hex raw) ≡ ok raw
unfolding from_hex to_hex
from_hex-to_hex [] h = refl
from_hex-to_hex (b ∷ raw) h = rw (from_pair-digit b h.0, from_hex-to_hex raw h.1)

digit_value-lt : (c v : ℕ) → digit_value c ≡ some v → v < 16
unfolding digit_value
digit_value-lt c v h = ground arith

from_pair-IsByte : (a b v : ℕ) → from_pair a b ≡ ok v → IsByte v
from_pair-IsByte a b v h = unfold from_pair in grind (arith, digit_value-lt)

-- What `from_hex` accepts gives one byte, below 256, for every two characters.
from_hex_shape :
    (hex out : Bytes) → from_hex hex ≡ ok out → IsBytes out × (length out ≡ length hex / 2)
unfolding from_hex
from_hex_shape [] out h = ground arith
from_hex_shape (a ∷ []) out h = ground arith
from_hex_shape (a ∷ b ∷ rest) out h =
    let (byte, p, h') = >>=-eq-ok (from_pair a b) _ h in
    let (more, q, e) = >>=-eq-ok (from_hex rest) _ h' in
    let (bytes, size) = from_hex_shape rest more q in ground (arith, from_pair-IsByte a b byte p)

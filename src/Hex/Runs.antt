-- ===== src/Hex/Runs.antt =====
-- `to_hex` and `from_hex` on short strings.
use nix_tarmac.Base.{◌≡◌, refl, [], ◌∷◌, arith}
use nix_tarmac.Base.Bytes.{Bytes}
use nix_tarmac.Base.Result.{ok}
use nix_tarmac.Hex.{to_hex, from_hex, from_pair, digit_value}
use nix_tarmac.Hex.RoundTrip.{from_hex-to_hex}

abbrev three_bytes : Bytes
three_bytes = 0 ∷ 171 ∷ 255 ∷ []

from_hex-to_hex_example : from_hex (to_hex three_bytes) ≡ ok three_bytes
from_hex-to_hex_example = from_hex-to_hex three_bytes (ground arith)

abbrev two_digits : Bytes
two_digits = b'f' ∷ b'0' ∷ []

two_digits_value : from_hex two_digits ≡ ok (240 ∷ [])
unfolding from_hex from_pair digit_value
two_digits_value = refl

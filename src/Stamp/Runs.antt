-- ===== src/Stamp/Runs.antt =====
-- A time stamp in bytes.
use nix_tarmac.Base.{◌≡◌, refl, true, [], ◌∷◌}
use nix_tarmac.Base.Bytes.{Bytes}
use nix_tarmac.Stamp.{is_timestamp}

abbrev stamp : Bytes
stamp = 0 ∷ 0 ∷ 0 ∷ 0 ∷ 101 ∷ 83 ∷ 241 ∷ 0 ∷ []

stamp-is_timestamp : is_timestamp stamp ≡ true
unfolding is_timestamp
stamp-is_timestamp = refl

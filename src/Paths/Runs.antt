-- ===== src/Paths/Runs.antt =====
-- Member names of an archive, taken apart.
use nix_tarmac.Base.{◌≡◌, refl, some, List, [], ◌∷◌}
use nix_tarmac.Base.Bytes.{Bytes, bytes_eq}
use nix_tarmac.Paths.{
  before_slash, after_slash, pop_back, in_order, add_component, split_loop, split_path,
}
use nix_tarmac.Paths.Components.{AreComponents, pieces, add_components, split_path-eq}
use nix_tarmac.Paths.Canonical.{join, split_path-AreComponents, split_path-join}

abbrev two_names : List Bytes
two_names = (b'a' ∷ []) ∷ (b'b' ∷ b'c' ∷ []) ∷ []

-- "./a/x/..//bc"
abbrev long_way : Bytes
long_way = b'.' ∷ b'/' ∷ b'a' ∷ b'/' ∷ b'x' ∷ b'/' ∷ b'.' ∷ b'.' ∷ b'/' ∷ b'/' ∷ b'b' ∷ b'c' ∷ []

long_way_split : split_path long_way ≡ some two_names
unfolding split_path split_loop before_slash after_slash add_component pop_back in_order bytes_eq
long_way_split = refl

-- "../a": ".." at the root stays there.
pub outside_kept_inside : split_path (b'.' ∷ b'.' ∷ b'/' ∷ b'a' ∷ []) ≡ some ((b'a' ∷ []) ∷ [])
unfolding split_path split_loop before_slash after_slash add_component pop_back in_order bytes_eq
outside_kept_inside = refl

two_names-AreComponents : AreComponents two_names
two_names-AreComponents = split_path-AreComponents long_way two_names long_way_split

split_path-AreComponents_example : AreComponents two_names
split_path-AreComponents_example = split_path-AreComponents long_way two_names long_way_split

split_path-join_example : split_path (join two_names) ≡ some two_names
split_path-join_example = split_path-join two_names two_names-AreComponents

split_path-eq_example : split_path long_way ≡ add_components [] (pieces long_way)
split_path-eq_example = split_path-eq long_way

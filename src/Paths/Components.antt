-- ===== src/Paths/Components.antt =====
-- The components that `split_path` returns, and the paths that it returns them for.
use nix_tarmac.Base.{
  ℕ, zero, suc, ◌≤◌, ◌≡◌, refl, false, Option, none, some, List, [], ◌∷◌, arith, length, ◌==◌, All,
  if◌then◌else◌, Option-cases, inl, inr,
}
use nix_tarmac.Base.Bytes.{Bytes, bytes_eq}
use nix_tarmac.Paths.{
  max_name_len, max_tree_depth, slash, dot, dot_dot, before_slash, after_slash, pop_back, in_order,
  add_component, split_loop, split_path,
}

abbrev pub NoSlash : Bytes → Type 0
NoSlash = All (λ c. (c == slash) ≡ false)

-- A name that can stand in a directory.
pub record IsComponent (c : Bytes) : Type 0 where
  pub no_slash : NoSlash c
  pub not_empty : bytes_eq c [] ≡ false
  pub not_dot : bytes_eq c dot ≡ false
  pub not_dot_dot : bytes_eq c dot_dot ≡ false
  pub fits : length c ≤ max_name_len

abbrev pub AreComponents : List Bytes → Type 0
AreComponents comps = All IsComponent comps × (length comps ≤ max_tree_depth)

before_slash-NoSlash : (path : Bytes) → NoSlash (before_slash path)
unfolding before_slash
before_slash-NoSlash [] = tt
before_slash-NoSlash (c ∷ path) = ground (arith, before_slash-NoSlash path)

length-after_slash : (c : ℕ) (path : Bytes) → length (after_slash (c ∷ path)) ≤ length path
unfolding after_slash
length-after_slash c [] = ground arith
length-after_slash c (d ∷ path) = ground (arith, length-after_slash d path)

pub add_component-AreComponents :
    (comps : List Bytes) (comp : Bytes) (comps' : List Bytes)
    → AreComponents comps
    → NoSlash comp
    → add_component comps comp ≡ some comps'
    → AreComponents comps'
unfolding add_component pop_back
add_component-AreComponents [] comp comps' h n e = ground arith
add_component-AreComponents (c ∷ comps) comp comps' h n e = ground arith

-- The reference: cut at every slash, then take the components in turn.
unfoldable pub prepend : ℕ → List Bytes → List Bytes
prepend c [] = (c ∷ []) ∷ []
prepend c (p ∷ ps) = (c ∷ p) ∷ ps

unfoldable pub pieces : Bytes → List Bytes
pieces [] = []
pieces (c ∷ path) = if c == slash then [] ∷ pieces path else prepend c (pieces path)

unfoldable pub add_components : List Bytes → List Bytes → Option (List Bytes)
add_components comps [] = some (in_order comps [])
add_components comps (p ∷ ps) = elim (add_component comps p) [
  | none ↦ none
  | some comps' ↦ add_components comps' ps
]

pieces_step :
    (c : ℕ) (path : Bytes)
    → pieces (c ∷ path) ≡ before_slash (c ∷ path) ∷ pieces (after_slash (c ∷ path))
unfolding pieces before_slash after_slash prepend
pieces_step c [] = ground arith
pieces_step c (d ∷ path) = ground (arith, pieces_step d path)

split_loop-eq :
    (fuel : ℕ) (path : Bytes) (comps : List Bytes)
    → length path ≤ fuel
    → split_loop fuel path comps ≡ add_components comps (pieces path)
unfolding split_loop add_components
split_loop-eq zero [] comps h = unfold pieces in refl
split_loop-eq (suc fuel) [] comps h = unfold pieces in refl
split_loop-eq zero (c ∷ path) comps h = absurd (omega arith)
split_loop-eq (suc fuel) (c ∷ path) comps h =
    elim (Option-cases (add_component comps (before_slash (c ∷ path)))) [
      | inl e ↦ rw (pieces_step c path, e, split_loop, add_components)
      | inr (comps', e) ↦
          rw (pieces_step c path, e, split_loop, add_components)
            (split_loop-eq fuel (after_slash (c ∷ path)) comps'
              (omega (arith, length-after_slash c path)))
    ]

-- The loop over `find('/')` is the cut at every slash followed by the rules for each component.
pub split_path-eq : (path : Bytes) → split_path path ≡ add_components [] (pieces path)
unfolding split_path
split_path-eq path = split_loop-eq (length path) path [] (omega arith)

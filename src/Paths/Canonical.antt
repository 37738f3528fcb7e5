-- ===== src/Paths/Canonical.antt =====
-- `split_path` returns components, and finds them again in the path that they make.
use nix_tarmac.Base.{
  ℕ, ◌<◌, ◌≤◌, ◌+◌, ◌≡◌, refl, ap, subst, ◌∙◌, false, some, List, [], ◌∷◌, ◌++◌, arith, length,
  ◌==◌, All, Bool-cases, Option-cases, inl, inr,
}
use nix_tarmac.Base.Bytes.{Bytes, bytes_eq}
use nix_tarmac.Paths.{max_tree_depth, slash, in_order, add_component, split_path}
use nix_tarmac.Paths.Components.{
  NoSlash, IsComponent, AreComponents, prepend, pieces, add_components, split_path-eq,
  add_component-AreComponents,
}

length-in_order : (xs acc : List Bytes) → length (in_order xs acc) ≡ length xs + length acc
unfolding in_order
length-in_order [] acc = omega arith
length-in_order (x ∷ xs) acc = omega (arith, length-in_order xs (x ∷ acc))

in_order-All :
    (xs acc : List Bytes)
    → All IsComponent xs
    → All IsComponent acc
    → All IsComponent (in_order xs acc)
unfolding in_order
in_order-All [] acc p q = q
in_order-All (x ∷ xs) acc p q = in_order-All xs (x ∷ acc) p.1 (p.0, q)

pieces-NoSlash : (path : Bytes) → All NoSlash (pieces path)
unfolding pieces prepend
pieces-NoSlash [] = tt
pieces-NoSlash (c ∷ path) = elim (Bool-cases (c == slash)) [
  | inl e ↦ rw e (tt, pieces-NoSlash path)
  | inr e ↦ rw e (prepend-NoSlash c (pieces path) e (pieces-NoSlash path))
]
  where
    prepend-NoSlash :
        (c : ℕ) (ps : List Bytes)
        → (c == slash) ≡ false
        → All NoSlash ps
        → All NoSlash (prepend c ps)
    prepend-NoSlash c [] e h = ((e, tt), tt)
    prepend-NoSlash c (p ∷ ps) e h = ((e, h.0), h.1)

add_components-AreComponents :
    (ps comps cs : List Bytes)
    → All NoSlash ps
    → AreComponents comps
    → add_components comps ps ≡ some cs
    → AreComponents cs
unfolding add_components
add_components-AreComponents [] comps cs n h e =
    let same : in_order comps [] ≡ cs = cc in
    subst AreComponents same (in_order-All comps [] h.0 tt, omega (arith, length-in_order comps []))
add_components-AreComponents (p ∷ ps) comps cs n h e = elim (Option-cases (add_component comps p)) [
  | inl q ↦ cc
  | inr (comps', q) ↦
      add_components-AreComponents ps comps' cs n.1
        (add_component-AreComponents comps p comps' h n.0 q) (rw (q, add_components) at e)
]

-- The components of a path: none is empty, "." or "..", none holds a slash or passes the name
-- limit, and there are at most `max_tree_depth` of them.
pub split_path-AreComponents :
    (path : Bytes) (cs : List Bytes) → split_path path ≡ some cs → AreComponents cs
split_path-AreComponents path cs e =
    add_components-AreComponents (pieces path) [] cs (pieces-NoSlash path) (omega arith)
      (rw split_path-eq at e)

-- The path with the given components.
pub join : List Bytes → Bytes
join [] = []
join (c ∷ []) = c
join (c ∷ d ∷ cs) = c ++ (slash ∷ join (d ∷ cs))

pieces-append_slash : (c rest : Bytes) → NoSlash c → pieces (c ++ (slash ∷ rest)) ≡ c ∷ pieces rest
unfolding pieces prepend
pieces-append_slash [] rest h = refl
pieces-append_slash (x ∷ c) rest h = rw (h.0, pieces-append_slash c rest h.1)

pieces-component : (x : ℕ) (c : Bytes) → NoSlash (x ∷ c) → pieces (x ∷ c) ≡ (x ∷ c) ∷ []
unfolding pieces prepend
pieces-component x [] h = rw h.0
pieces-component x (y ∷ c) h = rw (h.0, pieces-component y c h.1)

pieces-join : (cs : List Bytes) → All IsComponent cs → pieces (join cs) ≡ cs
unfolding join
pieces-join [] h = unfold pieces in refl
pieces-join ([] ∷ []) h = unfold bytes_eq in cc h.0.not_empty
pieces-join ((x ∷ c) ∷ []) h = pieces-component x c h.0.no_slash
pieces-join (c ∷ d ∷ cs) h =
    pieces-append_slash c (join (d ∷ cs)) h.0.no_slash ∙ ap (◌∷◌ c) (pieces-join (d ∷ cs) h.1)

add_component_self :
    (comps : List Bytes) (c : Bytes)
    → IsComponent c
    → length comps < max_tree_depth
    → add_component comps c ≡ some (c ∷ comps)
unfolding add_component
add_component_self comps c h n = ground (arith, h.not_empty, h.not_dot, h.not_dot_dot, h.fits)

add_components_self :
    (cs comps : List Bytes)
    → All IsComponent cs
    → length cs + length comps ≤ max_tree_depth
    → add_components comps cs ≡ some (in_order comps cs)
unfolding add_components in_order
add_components_self [] comps h n = refl
add_components_self (c ∷ cs) comps h n =
    rw (add_component_self comps c h.0 (omega arith), add_components)
      (add_components_self cs (c ∷ comps) h.1 (omega arith))

-- `split_path` finds the components again in the path that they make.
pub split_path-join : (cs : List Bytes) → AreComponents cs → split_path (join cs) ≡ some cs
unfolding in_order
split_path-join cs (h, n) =
    split_path-eq (join cs)
    ∙ ap (add_components []) (pieces-join cs h)
    ∙ add_components_self cs [] h (omega arith)

-- So a second pass over a path that was taken apart and put together changes nothing.
pub split_path-join-split_path :
    (path : Bytes) (cs : List Bytes) → split_path path ≡ some cs → split_path (join cs) ≡ some cs
split_path-join-split_path path cs e = split_path-join cs (split_path-AreComponents path cs e)
